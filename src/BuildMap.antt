-- ===== src/BuildMap.antt =====
-- fmap.cc: `AppendPage`, `AppendFooter` and the two `BuildMap`, which lay a VTK array out as a
-- Parquet file. `serialize` is the compact protocol of Thrift over a memory buffer, which is a
-- parameter: the bytes that it makes of the calls of a `write`.
pub mod Types
pub mod Structs
pub mod Header
pub mod Layout
pub mod Metadata
pub mod ReadBack
pub mod Pages
pub mod Finish
pub mod Sized
pub mod Compressed
pub mod Uncompressed
pub mod Counts
unfoldable pub use Types.{to_parquet_converted_type, to_parquet_type, to_parquet_codec}
unfoldable pub use Structs.{page_header, file_meta_data}
use lanl_vir_parquet.Prelude.{
  ℕ, zero, suc, ◌+◌, ◌/◌, ◌%◌, List, [], ◌∷◌, Bool, true, false, Option, none, some, leb,
  if◌then◌else◌, length, add64, sub64, to_u32,
}
use lanl_vir_parquet.Prelude.Int.{ℤ, pos, to_i32, to_i64, div_trunc}
use lanl_vir_parquet.Prelude.Text.{Text, text}
use lanl_vir_parquet.Result.{
  Result, ok, throw, ub, ◌>>=◌, unsupported_array_type, unsupported_compression,
}
use lanl_vir_parquet.Arr.{
  DataType, int8, uint8, int32, uint32, int64, uint64, float32, float64, unknown, CompressionType,
  CompressedArray, UncompressedArray, get_value_size,
}
use lanl_vir_parquet.Arr.Words.{to_bytes}
use lanl_vir_parquet.FMap.{FileMap, MapBuilder, map_builder, add_direct, add_mapped_region, finish}
use lanl_vir_parquet.File.{Outcome, done, at}
use lanl_vir_parquet.Parquet.{
  PhysicalType, ConvertedType, FieldRepetitionType, Encoding, CompressionCodec, PageType,
  Statistics, SchemaElement, DataPageHeaderV2, PageHeader, ColumnMetaData, ColumnChunk, RowGroup,
  FileMetaData,
}
use lanl_vir_parquet.Parquet.Protocol.{Call}
use lanl_vir_parquet.Parquet.Write.{write_page_header, write_file_meta_data}

abbrev pub Serializer : Type 0
Serializer = List Call → List ℕ

-- The variables of BuildMap that its loop changes. The totals are int64_t, `offset` is uint64_t.
pub record Totals : Type 0 where
  pub builder : MapBuilder
  pub offset : ℕ
  pub compressed : ℕ
  pub uncompressed : ℕ
  pub count : ℕ

abbrev pub magic : List ℕ
magic = text "PAR1"

abbrev pub start_totals : Bool → ℕ → Totals
start_totals pending start = record {
  builder = add_direct magic (map_builder pending start);
  offset = 0;
  compressed = 0;
  uncompressed = 0;
  count = 0;
}

-- std::vector-like access to `compressed_blk_sz`, which is undefined outside of the array
abbrev pub block : List ℕ → ℕ → Result ℕ
block xs i = elim (at xs i) [ done n ↦ ok n | _ ↦ ub ]

abbrev pub blk_sz : ℕ
blk_sz = 32768

abbrev pub int_max : ℕ
int_max = 0x7fff_ffff

module _ (serialize : Serializer) where
  -- AppendPage: the builder, and the length of the header
  unfoldable pub append_page :
      MapBuilder → (value_size offset compressed_size uncompressed_size : ℕ) → Bool → MapBuilder × ℕ
  unfolding page_header
  append_page b value_size offset compressed_size uncompressed_size is_compressed =
      let buf = serialize (
        write_page_header
          (page_header value_size compressed_size uncompressed_size is_compressed)) in
      (add_mapped_region offset compressed_size (add_direct buf b), length buf)

  -- AppendFooter: the builder, and the length of the footer
  unfoldable pub append_footer :
      MapBuilder
      → Text
      → DataType
      → CompressionType
      → (compressed uncompressed count : ℕ) → Result (MapBuilder × ℕ)
  unfolding file_meta_data to_parquet_type to_parquet_converted_type to_parquet_codec
  append_footer b name type codec compressed uncompressed count = do
    storage ← to_parquet_type type
    conv ← to_parquet_converted_type type
    c ← to_parquet_codec codec
    let buf =
        serialize
          (write_file_meta_data (file_meta_data name storage conv c compressed uncompressed count))
    ok (add_direct buf b, length buf)

  -- what follows the pages
  unfoldable pub finish_map : Text → DataType → CompressionType → Totals → Result FileMap
  unfolding append_footer
  finish_map name type codec t = do
    foot ← append_footer t.builder name type codec t.compressed t.uncompressed t.count
    ok (finish (add_direct magic (add_direct (to_bytes 4 (to_u32 foot.1)) foot.0)))

  -- One page of a compressed array. `header_size + compressed_size` is a sum of uint32_t.
  unfoldable pub compressed_page : (value_size page_sz block_size : ℕ) → Totals → Totals
  unfolding append_page
  compressed_page value_size page_sz block_size t =
      let compressed_size = to_u32 block_size in
      let uncompressed_size = to_u32 page_sz in
      let page = append_page t.builder value_size t.offset compressed_size uncompressed_size true in
      record {
        builder = page.0;
        offset = add64 t.offset compressed_size;
        compressed = add64 t.compressed (to_u32 (page.1 + compressed_size));
        uncompressed = add64 t.uncompressed (to_u32 (page.1 + uncompressed_size));
        count = add64 t.count (uncompressed_size / value_size);
      }

  -- `for (int i = i; i < arr.num_blks - 1; i++)`, by the rounds left
  unfoldable pub compressed_pages :
      (rounds i value_size page_sz : ℕ) → List ℕ → Totals → Result Totals
  unfolding compressed_page
  compressed_pages zero i value_size page_sz blocks t = ok t
  compressed_pages (suc rounds) i value_size page_sz blocks t = block blocks i >>= λ size.
      compressed_pages rounds (i + 1) value_size page_sz blocks
        (compressed_page value_size page_sz size t)

  -- BuildMap for a compressed array. The counter is an int: its overflow is undefined.
  unfoldable pub build_map_compressed :
      Text → DataType → CompressionType → Bool → CompressedArray → Result FileMap
  build_map_compressed name type codec pending arr = do
    value_size ← get_value_size type
    let rounds = sub64 arr.num_blks 1
    elim (leb rounds int_max) [
      | false ↦ ub
      | true ↦ do
        t ←
            compressed_pages rounds 0 value_size arr.blk_sz arr.compressed_blk_sz
              (start_totals pending arr.data_start)
        last ← block arr.compressed_blk_sz rounds
        finish_map name type codec (compressed_page value_size arr.last_blk_sz last t)
    ]

  -- One page of an uncompressed array: the sums of its sizes are uint64_t.
  unfoldable pub uncompressed_page : (value_size size : ℕ) → Totals → Totals
  unfolding append_page
  uncompressed_page value_size size t =
      let page = append_page t.builder value_size t.offset size size false in
      record {
        builder = page.0;
        offset = add64 t.offset size;
        compressed = add64 t.compressed (page.1 + size);
        uncompressed = add64 t.uncompressed (page.1 + size);
        count = add64 t.count (size / value_size);
      }

  unfoldable pub uncompressed_pages : (rounds value_size : ℕ) → Totals → Totals
  unfolding uncompressed_page
  uncompressed_pages zero value_size t = t
  uncompressed_pages (suc rounds) value_size t =
      uncompressed_pages rounds value_size (uncompressed_page value_size blk_sz t)

  -- BuildMap for an uncompressed array, cut into pages of 32768 bytes
  unfoldable pub build_map_uncompressed :
      Text → DataType → Bool → UncompressedArray → Result FileMap
  build_map_uncompressed name type pending arr = do
    value_size ← get_value_size type
    let num_blks = sub64 (add64 arr.total_bytes blk_sz) 1 / blk_sz
    let last_blk_sz = add64 (sub64 arr.total_bytes 1 % 32768) 1
    let rounds = sub64 num_blks 1
    elim (leb rounds int_max) [
      | false ↦ ub
      | true ↦ finish_map name type CompressionType.uncompressed (
          uncompressed_page value_size last_blk_sz
            (uncompressed_pages rounds value_size (start_totals pending arr.data_start)))
    ]
