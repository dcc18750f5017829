-- ===== src/BuildMap/Metadata.antt =====
-- What AppendPage and AppendFooter of fmap.cc give to the serializer.
use lanl_vir_parquet.Prelude.{ℕ, refl, List, [], ◌∷◌, Bool, Option, arith}
use lanl_vir_parquet.Prelude.Text.{Text}
use lanl_vir_parquet.Parquet.{PhysicalType, ConvertedType, CompressionCodec}
use lanl_vir_parquet.Parquet.Protocol.{t_struct, Call}
use lanl_vir_parquet.Parquet.Write.{write_page_header, write_file_meta_data}
use lanl_vir_parquet.Parquet.Nesting.{wants, filled, IsStruct, put}
use lanl_vir_parquet.Parquet.WellNested.{Fills}
use lanl_vir_parquet.Parquet.Structs.{
  write_schema_element-Fills, write_page_header-Fills, write_column_meta_data-Fills,
  write_column_chunk-Fills, write_row_group-Fills, write_file_meta_data-Fills,
}
use lanl_vir_parquet.BuildMap.{page_header, file_meta_data}

Fills-IsStruct : (calls : List Call) → Fills t_struct calls → IsStruct calls
unfolding put
Fills-IsStruct calls h = h (wants t_struct ∷ []) (filled ∷ []) refl

-- The calls that write the header of a page, whatever its sizes, make one whole struct: types, order
-- of fields and nesting are those that the protocol expects, and nothing is left open.
pub page_header-IsStruct :
    (value_size compressed_size uncompressed_size : ℕ) (is_compressed : Bool)
    → IsStruct
        (write_page_header (page_header value_size compressed_size uncompressed_size is_compressed))
unfolding page_header
page_header-IsStruct value_size compressed_size uncompressed_size is_compressed = Fills-IsStruct _ (
    write_page_header-Fills (page_header value_size compressed_size uncompressed_size is_compressed)
      tt tt tt)

-- The calls that write the footer, whatever the totals, make one whole struct.
pub file_meta_data-IsStruct :
    (name : Text) (storage : PhysicalType) (conv : Option ConvertedType) (codec : CompressionCodec)
    (compressed uncompressed count : ℕ)
    → IsStruct (
        write_file_meta_data (file_meta_data name storage conv codec compressed uncompressed count))
unfolding file_meta_data
file_meta_data-IsStruct name storage conv codec compressed uncompressed count = Fills-IsStruct _ (
    write_file_meta_data-Fills
      (file_meta_data name storage conv codec compressed uncompressed count)
      (omega arith, (write_schema_element-Fills _ tt, (write_schema_element-Fills _ tt, tt)))
      (
        omega arith,
        (
          write_row_group-Fills _
              (
                omega arith,
                (
                  write_column_chunk-Fills _
                      (write_column_meta_data-Fills _ (omega arith) (omega arith) tt tt tt tt) tt,
                  tt,
                ),
              )
              tt,
          tt,
        ),
      )
      tt tt tt)
