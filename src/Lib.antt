-- ===== src/Lib.antt =====
-- Virtual Parquet: a FUSE file system that shows the arrays of a VTK file as Parquet files without
-- copying their data. The library models the C++ of the repository, file by file, and states what each
-- part promises to the next.
--
-- How the parts work together. `ParseVtkFile` (parser.cc) asks VTK for the XML part of a file and reads
-- the header of each appended array (arr.cc), through a view of the file that decodes base64 where the
-- file is so encoded (base64.cc). `BuildMap` (fmap.cc) lays the Parquet file of the array out: headers
-- and a footer that are made up, and page data that is mapped to ranges of the VTK file; the layout is a
-- `FileMap`. The maps become the files of a tree of directories (vfs.cc), and the operations of FUSE
-- (c.cc) resolve paths in the tree and read through the maps.
--
-- Files and their sources:
--   Prelude: names of the libraries passed on; Prelude/Words is uint64_t and uint32_t arithmetic with its
--     wrap-around, Prelude/Int is int64_t and int32_t, Prelude/Lists has the laws of lists, Prelude/Text is
--     strings as bytes, Prelude/Table is std::unordered_map as a list of entries, whose order means nothing.
--   File: RandomAccessFile of fmap.h as its `Pread`, a function from size and offset to an outcome, with
--     the implementations ReadonlyOSFile (fmap.cc), OffsettedRandomAccessFile (parser.cc) and
--     StringBufFile (vfs.cc). File/Serves says what a file must do for a reader, short reads allowed.
--   Base64: Base64Reader of base64.cc. Base64/Decode has its theorems.
--   FMap: FileMap and MapBuilder of fmap.cc. FMap/Region is the specification: a list of regions and the
--     virtual file that they make up. FMap/Build is the builder against it; FMap/Rounds, FMap/Serve,
--     FMap/Locate and FMap/Read are Pread against it; FMap/Faults is the case in which Pread does not end,
--     FMap/Size the size of a map.
--   Result: exceptions, undefined behaviour and loops without end as values; Result/Ensures is what holds
--     of a result if there is one.
--   Arr: arr.h and arr.cc. Arr/Words is little-endian words, Arr/Header, Arr/Short and
--     Arr/Truncated have the theorems.
--   Parquet: the structs and enums of gen-cpp/parquet_types.h that are in use; Parquet/Protocol is the calls
--     on a Thrift protocol and Parquet/Write is the write methods of gen-cpp/parquet_types.cpp.
--     Parquet/Nesting is the discipline of a protocol as a machine over the calls; Parquet/WellNested and
--     Parquet/Structs are about the calls of each write method. Parquet/Read with Parquet/Read/Pages,
--     Parquet/Read/Columns and Parquet/Read/Footer is the read methods; Parquet/ReadBack and its children
--     set them against the write methods.
--   Serializer: thrift_serializer.h. Serializer/Reuse is about one serializer for many objects.
--   BuildMap: AppendPage, AppendFooter and both BuildMap of fmap.cc, with the types in BuildMap/Types and
--     the structs in BuildMap/Structs. BuildMap/Header is the header that a page is to have,
--     BuildMap/Layout the layout as a list of regions, BuildMap/Pages the loop invariant, BuildMap/Finish what follows the pages,
--     BuildMap/Compressed and BuildMap/Uncompressed the two functions, BuildMap/Sized the sizes of the maps,
--     BuildMap/Counts the number of values in the footer, BuildMap/Metadata what the serializer gets and
--     BuildMap/ReadBack what a reader gets.
--   Vfs: vfs.h and vfs.cc: MetadataDir, ArrayDir, VtkTree, KeyIter.
--   Fuse: c.cc. Fuse/Resolve is ResolvePath against a walk over components, Fuse/Tree the operations on
--     a tree and its arrays, Fuse/Metadata those on the attributes of the VTK file, Fuse/Listing what a
--     directory lists, Fuse/Total any path;
--     Fuse/Bypass is the TEST_ functions of fuse_bypass.h.
--   FuseMain: fuse_main.c, and a session in which FUSE calls the callbacks as a step relation, with
--     FuseMain/Session for what holds in each of its states.
--   Bench: bench.c, with Bench/Whole for its runs.
--   Parser: parser.cc. Parser/Array is from an array's attributes to its map, with Parser/Appended,
--     Parser/Group, Parser/SizedGroup and Parser/Sized for the theorems.
--   Examples: the theorems at work on small inputs.
--
-- State is passed explicitly: a builder is a record that each operation takes and returns, a loop is a
-- function of the variables that it changes. A call of Pread returns the bytes that it has put in the
-- buffer, or that it failed (-1), that it left the bounds of an object, or that it has not ended.
--
-- Bounds and fuel. Base64Reader::PreadTyped runs on one round for each byte asked for and one more: each
-- round copies a byte. FileMap::Pread runs on one round for each byte and for each region: each round
-- copies a byte or ends a region. ResolvePath runs on the length of the path. That the fuel is enough is
-- part of the theorems on these functions. The loop of the benchmark runs on fuel too: one round more
-- than the file has bytes is enough for a buffer that is not empty. A read method runs on one round for each
-- field that is written, 17 at most, and one for the stop. A page count stays below 2^31 and so does each size of a
-- page, which int and int32_t ask for in the source.
--
-- Parameters: `pread`, `open` and `fstat` of the system, DecodeTriplet and the XML reader of VTK, the parser
-- of options and the main loop of FUSE, the order in which a hash table lists its keys (`HashOrder`), and
-- the bytes that Thrift's compact protocol makes of the calls of a write method. A serializer is asked to
-- make buffers of less than 2^31 bytes, a base file to give some byte of a range that it has. The one walk
-- of a table that is not through `HashOrder` is that of ParseArrayGroup over the arrays of a group: its
-- order can show only in which of several failures comes first, and no theorem says which.
--
-- Not modelled: the output and the clock of bench.c, the parts of gen-cpp that the program does not call,
-- and the release of memory.
pub mod Prelude
pub mod File
pub mod Base64
pub mod FMap
pub mod Result
pub mod Arr
pub mod Parquet
pub mod BuildMap
pub mod Vfs
pub mod Fuse
pub mod Serializer
pub mod Bench
pub mod FuseMain
pub mod Parser
mod Examples
