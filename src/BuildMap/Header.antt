-- ===== src/BuildMap/Header.antt =====
-- The header of a page as it is to be, against the one that AppendPage of fmap.cc fills in.
use lanl_vir_parquet.Prelude.{ℕ, ◌/◌, ◌<◌, ◌≡◌, refl, Bool, true, false, none, some, lt→ltb}
use lanl_vir_parquet.Prelude.Int.{pos}
use lanl_vir_parquet.Parquet.{Encoding, PageType, PageHeader}
use lanl_vir_parquet.BuildMap.{page_header}

-- The header that a page of these sizes is to have, whether or not its array is compressed.
abbrev pub declared_header : (value_size compressed_size uncompressed_size : ℕ) → PageHeader
declared_header value_size compressed_size uncompressed_size = record {
  page_type = PageType.data_page_v2;
  uncompressed_page_size = pos uncompressed_size;
  compressed_page_size = pos compressed_size;
  crc = none;
  data_page_header = none;
  index_page_header = none;
  dictionary_page_header = none;
  data_page_header_v2 = some (record {
    num_values = pos (uncompressed_size / value_size);
    num_nulls = pos 0;
    num_rows = pos (uncompressed_size / value_size);
    encoding = Encoding.plain;
    definition_levels_byte_length = pos 0;
    repetition_levels_byte_length = pos 0;
    is_compressed = some true;
    statistics = none;
  });
}

-- AppendPage fills in the header so, if the sizes are below 2^31.
pub page_header-declared :
    (value_size compressed_size uncompressed_size : ℕ) (is_compressed : Bool)
    → compressed_size < 0x8000_0000
    → uncompressed_size < 0x8000_0000
    → page_header value_size compressed_size uncompressed_size is_compressed
      ≡ declared_header value_size compressed_size uncompressed_size
unfolding page_header
page_header-declared value_size compressed_size uncompressed_size false c u =
    rw (lt→ltb compressed_size 0x8000_0000 c, lt→ltb uncompressed_size 0x8000_0000 u) refl
page_header-declared value_size compressed_size uncompressed_size true c u =
    rw (lt→ltb compressed_size 0x8000_0000 c, lt→ltb uncompressed_size 0x8000_0000 u) refl
