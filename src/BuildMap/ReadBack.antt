-- ===== src/BuildMap/ReadBack.antt =====
-- A reader of the file, with the generated code's `read`, gets the metadata that BuildMap has made.
use lanl_vir_parquet.Prelude.{ℕ, ◌<◌, ◌≡◌, List, ◌++◌, Bool, Option, arith}
use lanl_vir_parquet.Prelude.Text.{Text}
use lanl_vir_parquet.File.{Outcome, done}
use lanl_vir_parquet.Parquet.{PhysicalType, ConvertedType, CompressionCodec, Nested}
use lanl_vir_parquet.Parquet.Protocol.{Call}
use lanl_vir_parquet.Parquet.Write.{write_page_header, write_file_meta_data}
use lanl_vir_parquet.Parquet.Read.{InputProtocol}
use lanl_vir_parquet.Parquet.Read.Pages.{read_page_header}
use lanl_vir_parquet.Parquet.Read.Footer.{read_file_meta_data}
use lanl_vir_parquet.Parquet.ReadBack.{ReadsBack, Reads}
use lanl_vir_parquet.Parquet.ReadBack.Pages.{write_page_header-Reads}
use lanl_vir_parquet.Parquet.ReadBack.Columns.{
  write_column_meta_data-Reads, write_column_chunk-Reads,
}
use lanl_vir_parquet.Parquet.ReadBack.Footer.{
  write_schema_element-Reads, write_row_group-Reads, write_file_meta_data-Reads,
}
use lanl_vir_parquet.BuildMap.{page_header, file_meta_data}
use lanl_vir_parquet.BuildMap.Header.{declared_header, page_header-declared}

module _ {S : Type 0} (p : InputProtocol S) (b : ReadsBack p) (fuel : ℕ) (enough : 17 < fuel)
    (read_nested : Text → S → Outcome (Nested × S)) where
  -- From a state that holds the header that AppendPage has written for a page of sizes below 2^31,
  -- PageHeader::read gives a header with the two sizes, the number of values and is_compressed, which
  -- is true even if the array is not compressed, and leaves what stands behind it.
  pub page_header-read :
      (value_size compressed_size uncompressed_size : ℕ) (is_compressed : Bool) (cs : List Call)
      (s : S)
      → compressed_size < 0x8000_0000
      → uncompressed_size < 0x8000_0000
      → b.Holds
          (write_page_header
              (page_header value_size compressed_size uncompressed_size is_compressed)
            ++ cs)
          s
      → (s' : S) × (read_page_header p fuel read_nested s
          ≡ done (declared_header value_size compressed_size uncompressed_size, s'))
        × b.Holds cs s'
  unfolding Reads
  page_header-read value_size compressed_size uncompressed_size is_compressed cs s c u =
      rw (page_header-declared value_size compressed_size uncompressed_size is_compressed c u) (
        write_page_header-Reads p b fuel enough read_nested
          (declared_header value_size compressed_size uncompressed_size) tt tt tt tt cs s)

  -- From a state that holds the written footer, FileMetaData::read gives back the footer as
  -- AppendFooter has made it, and leaves what stands behind it.
  pub file_meta_data-read :
      (name : Text) (storage : PhysicalType) (conv : Option ConvertedType)
      (codec : CompressionCodec) (compressed uncompressed count : ℕ) (cs : List Call) (s : S)
      → b.Holds
          (write_file_meta_data
              (file_meta_data name storage conv codec compressed uncompressed count)
            ++ cs)
          s
      → (s' : S) × (read_file_meta_data p fuel read_nested s
          ≡ done (file_meta_data name storage conv codec compressed uncompressed count, s'))
        × b.Holds cs s'
  unfolding file_meta_data Reads
  file_meta_data-read name storage conv codec compressed uncompressed count =
      write_file_meta_data-Reads p b fuel enough read_nested
        (file_meta_data name storage conv codec compressed uncompressed count)
        (
          omega arith,
          (
            write_schema_element-Reads p b fuel enough read_nested _ tt,
            (write_schema_element-Reads p b fuel enough read_nested _ tt, tt),
          ),
        )
        (
          omega arith,
          (
            write_row_group-Reads p b fuel enough read_nested _
                (
                  omega arith,
                  (
                    write_column_chunk-Reads p b fuel enough read_nested _
                        (write_column_meta_data-Reads p b fuel enough read_nested _ (omega arith)
                          (omega arith) tt tt tt tt)
                        tt,
                    tt,
                  ),
                )
                tt,
            tt,
          ),
        )
        tt tt tt
