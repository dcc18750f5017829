-- ===== src/Arr.antt =====
-- arr.h, arr.cc: the types of arrays, and the headers that stand before their data in a VTK file.
-- A header is an array of machine words that `Pread` fills in: little-endian hosts are assumed.
pub mod Words
pub mod Header
pub mod Short
pub mod Truncated
use lanl_vir_parquet.Prelude.{
  ℕ, zero, suc, ◌+◌, ◌*◌, ◌/◌, ◌%◌, List, [], ◌∷◌, Bool, true, false, ◌==◌, leb, take, drop, add64,
  mul64, u32_mod,
}
use lanl_vir_parquet.File.{RandomAccessFile}
use lanl_vir_parquet.Result.{
  Result, ok, throw, ub, ◌>>=◌, read_exactly, array_header_unread, block_sizes_unread,
  unknown_data_type, bad_array_new_length,
}
use Words.{words}

pub data EncodingType : Type 0 where
  raw base64 : EncodingType

pub data DataType : Type 0 where
  int8 uint8 int32 uint32 int64 uint64 float32 float64 unknown : DataType

pub data CompressionType : Type 0 where
  uncompressed zlib lz4 unknown_compression : CompressionType

pub record CompressedArray : Type 0 where
  pub num_blks : ℕ
  pub blk_sz : ℕ
  pub last_blk_sz : ℕ
  pub compressed_blk_sz : List ℕ
  pub data_start : ℕ

pub record UncompressedArray : Type 0 where
  pub total_bytes : ℕ
  pub data_start : ℕ

unfoldable pub get_value_size : DataType → Result ℕ
get_value_size int8 = ok 1
get_value_size uint8 = ok 1
get_value_size int32 = ok 4
get_value_size uint32 = ok 4
get_value_size float32 = ok 4
get_value_size int64 = ok 8
get_value_size uint64 = ok 8
get_value_size float64 = ok 8
get_value_size unknown = throw unknown_data_type

-- `new uint64_t[n]` throws where the size in bytes is above the largest object size.
abbrev pub max_words64 : ℕ
max_words64 = 0x0fff_ffff_ffff_ffff

-- ParseCompressed64 behind the read of `info`
unfoldable pub parse_blocks64 : RandomAccessFile → ℕ → List ℕ → Result CompressedArray
parse_blocks64 file offset (num ∷ size ∷ last ∷ []) = elim (leb num max_words64) [
  | false ↦ throw bad_array_new_length
  | true ↦ do
    blocks ← read_exactly file (mul64 8 num) (add64 offset 24) block_sizes_unread
    ok (record {
      num_blks = num;
      blk_sz = size;
      last_blk_sz = last;
      compressed_blk_sz = words num 8 blocks;
      data_start = add64 (add64 offset 24) (mul64 8 num);
    })
]
parse_blocks64 file offset _ = ub

unfoldable pub parse_compressed64 : RandomAccessFile → ℕ → Result CompressedArray
unfolding parse_blocks64
parse_compressed64 file offset = do
  head ← read_exactly file 24 offset array_header_unread
  parse_blocks64 file offset (words 3 8 head)

-- `4 * info[0]` is a product of uint32_t.
unfoldable pub size32 : ℕ → ℕ
size32 n = (4 * n) % u32_mod

-- ParseCompressed32 behind the read of `info`. The copy to 64-bit sizes reads `num` words, of which
-- only those that the size covers have been read from the file: any other is uninitialised.
unfoldable pub parse_blocks32 : RandomAccessFile → ℕ → List ℕ → Result CompressedArray
unfolding size32
parse_blocks32 file offset (num ∷ size ∷ last ∷ []) = do
  blocks ← read_exactly file (size32 num) (add64 offset 12) block_sizes_unread
  elim (size32 num / 4 == num) [
    | false ↦ ub
    | true ↦ ok (record {
      num_blks = num;
      blk_sz = size;
      last_blk_sz = last;
      compressed_blk_sz = words num 4 blocks;
      data_start = add64 (add64 offset 12) (size32 num);
    })
  ]
parse_blocks32 file offset _ = ub

unfoldable pub parse_compressed32 : RandomAccessFile → ℕ → Result CompressedArray
unfolding parse_blocks32
parse_compressed32 file offset = do
  head ← read_exactly file 12 offset array_header_unread
  parse_blocks32 file offset (words 3 4 head)

unfoldable pub uncompressed_array : List ℕ → ℕ → Result UncompressedArray
uncompressed_array (bytes ∷ []) start = ok (record { total_bytes = bytes; data_start = start })
uncompressed_array _ start = ub

unfoldable pub parse_uncompressed64 : RandomAccessFile → ℕ → Result UncompressedArray
unfolding uncompressed_array
parse_uncompressed64 file offset = do
  head ← read_exactly file 8 offset array_header_unread
  uncompressed_array (words 1 8 head) (add64 offset 8)

unfoldable pub parse_uncompressed32 : RandomAccessFile → ℕ → Result UncompressedArray
unfolding uncompressed_array
parse_uncompressed32 file offset = do
  head ← read_exactly file 4 offset array_header_unread
  uncompressed_array (words 1 4 head) (add64 offset 4)
