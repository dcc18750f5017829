-- ===== src/Parquet/Structs.antt =====
-- The structs that the program fills in: what `write` makes of each is one value of type struct. The
-- structs that it never fills in are taken to be so where they occur.
use lanl_vir_parquet.Prelude.{
  ◌<◌, List, Option, none, some, arith, length, u32_mod, IfSome, All, always, all,
}
use lanl_vir_parquet.Parquet.{
  Statistics, SchemaElement, DataPageHeaderV2, PageHeader, ColumnMetaData, ColumnChunk, RowGroup,
  FileMetaData,
}
use lanl_vir_parquet.Parquet.Protocol.{t_i32, t_string, t_struct, t_list, Call}
use lanl_vir_parquet.Parquet.Write.{
  list_of, physical_type_value, converted_type_value, repetition_type_value, encoding_value,
  codec_value, page_type_value, write_statistics, write_schema_element, write_data_page_header_v2,
  write_page_header, write_column_meta_data, write_column_chunk, write_row_group,
  write_file_meta_data,
}
use lanl_vir_parquet.Parquet.WellNested.{
  Fills, i32-Fills, i64-Fills, i16-Fills, bool-Fills, string-Fills, binary-Fills, end, must, may,
  struct_of-Fills, list_of-Fills,
}

-- A list with a length that its header can declare, of elements with the property.
abbrev pub IsList : {A : Type 0} → (A → Type 0) → List A → Type 0
IsList P xs = (length xs < u32_mod) × All P xs

some_list :
    {A : Type 0} (body : A → List Call) (x : Option (List A))
    → IfSome (IsList (λ a. Fills t_struct (body a))) x
    → IfSome (λ xs. Fills t_list (list_of t_struct body xs)) x
some_list body none h = tt
some_list body (some xs) h = list_of-Fills t_struct body xs h.0 h.1

pub write_statistics-Fills : (x : Statistics) → Fills t_struct (write_statistics x)
unfolding write_statistics
write_statistics-Fills x = struct_of-Fills _ (
    may _ _ _ _ _ (omega arith) (always x.max binary-Fills) (
      may _ _ _ _ _ (omega arith) (always x.min binary-Fills) (
        may _ _ _ _ _ (omega arith) (always x.null_count i64-Fills) (
          may _ _ _ _ _ (omega arith) (always x.distinct_count i64-Fills) (
            may _ _ _ _ _ (omega arith) (always x.max_value binary-Fills) (
              may _ _ _ _ _ (omega arith) (always x.min_value binary-Fills) (
                may _ _ _ _ _ (omega arith) (always x.is_max_value_exact bool-Fills) (
                  may _ _ _ _ _ (omega arith) (always x.is_min_value_exact bool-Fills) (end)))))))))

pub write_schema_element-Fills :
    (x : SchemaElement)
    → IfSome (Fills t_struct) x.logical_type
    → Fills t_struct (write_schema_element x)
unfolding write_schema_element
write_schema_element-Fills x logical_type = struct_of-Fills _ (
    may _ _ _ _ _ (omega arith) (always x.physical_type (λ v. i32-Fills (physical_type_value v))) (
      may _ _ _ _ _ (omega arith) (always x.type_length i32-Fills) (
        may _ _ _ _ _ (omega arith)
          (always x.repetition_type (λ v. i32-Fills (repetition_type_value v)))
          (must _ _ _ _ (omega arith) (string-Fills x.name) (
            may _ _ _ _ _ (omega arith) (always x.num_children i32-Fills) (
              may _ _ _ _ _ (omega arith)
                (always x.converted_type (λ v. i32-Fills (converted_type_value v)))
                (may _ _ _ _ _ (omega arith) (always x.scale i32-Fills) (
                  may _ _ _ _ _ (omega arith) (always x.precision i32-Fills) (
                    may _ _ _ _ _ (omega arith) (always x.field_id i32-Fills)
                      (may _ _ _ _ _ (omega arith) logical_type (end)))))))))))

pub write_data_page_header_v2-Fills :
    (x : DataPageHeaderV2) → Fills t_struct (write_data_page_header_v2 x)
unfolding write_data_page_header_v2
write_data_page_header_v2-Fills x = struct_of-Fills _ (
    must _ _ _ _ (omega arith) (i32-Fills x.num_values) (
      must _ _ _ _ (omega arith) (i32-Fills x.num_nulls) (
        must _ _ _ _ (omega arith) (i32-Fills x.num_rows) (
          must _ _ _ _ (omega arith) (i32-Fills (encoding_value x.encoding)) (
            must _ _ _ _ (omega arith) (i32-Fills x.definition_levels_byte_length) (
              must _ _ _ _ (omega arith) (i32-Fills x.repetition_levels_byte_length) (
                may _ _ _ _ _ (omega arith) (always x.is_compressed bool-Fills) (
                  may _ _ _ _ _ (omega arith) (always x.statistics write_statistics-Fills)
                    (end)))))))))

pub write_page_header-Fills :
    (x : PageHeader)
    → IfSome (Fills t_struct) x.data_page_header
    → IfSome (Fills t_struct) x.index_page_header
    → IfSome (Fills t_struct) x.dictionary_page_header
    → Fills t_struct (write_page_header x)
unfolding write_page_header
write_page_header-Fills x data_page_header index_page_header dictionary_page_header =
    struct_of-Fills _ (
      must _ _ _ _ (omega arith) (i32-Fills (page_type_value x.page_type)) (
        must _ _ _ _ (omega arith) (i32-Fills x.uncompressed_page_size) (
          must _ _ _ _ (omega arith) (i32-Fills x.compressed_page_size) (
            may _ _ _ _ _ (omega arith) (always x.crc i32-Fills) (
              may _ _ _ _ _ (omega arith) data_page_header (
                may _ _ _ _ _ (omega arith) index_page_header (
                  may _ _ _ _ _ (omega arith) dictionary_page_header (
                    may _ _ _ _ _ (omega arith)
                      (always x.data_page_header_v2 write_data_page_header_v2-Fills) (end)))))))))

pub write_column_meta_data-Fills :
    (x : ColumnMetaData)
    → length x.encodings < u32_mod
    → length x.path_in_schema < u32_mod
    → IfSome (IsList (Fills t_struct)) x.key_value_metadata
    → IfSome (IsList (Fills t_struct)) x.encoding_stats
    → IfSome (Fills t_struct) x.size_statistics
    → IfSome (Fills t_struct) x.geospatial_statistics
    → Fills t_struct (write_column_meta_data x)
unfolding write_column_meta_data
write_column_meta_data-Fills x encodings path_in_schema key_value_metadata encoding_stats
      size_statistics geospatial_statistics =
    struct_of-Fills _ (
      must _ _ _ _ (omega arith) (i32-Fills (physical_type_value x.physical_type)) (
        must _ _ _ _ (omega arith)
          (list_of-Fills t_i32 _ _ encodings (all x.encodings (λ v. i32-Fills (encoding_value v))))
          (must _ _ _ _ (omega arith)
            (list_of-Fills t_string _ _ path_in_schema (all x.path_in_schema string-Fills))
            (must _ _ _ _ (omega arith) (i32-Fills (codec_value x.codec)) (
              must _ _ _ _ (omega arith) (i64-Fills x.num_values) (
                must _ _ _ _ (omega arith) (i64-Fills x.total_uncompressed_size) (
                  must _ _ _ _ (omega arith) (i64-Fills x.total_compressed_size) (
                    may _ _ _ _ _ (omega arith)
                      (some_list _ x.key_value_metadata key_value_metadata)
                      (must _ _ _ _ (omega arith) (i64-Fills x.data_page_offset) (
                        may _ _ _ _ _ (omega arith) (always x.index_page_offset i64-Fills) (
                          may _ _ _ _ _ (omega arith) (always x.dictionary_page_offset i64-Fills) (
                            may _ _ _ _ _ (omega arith) (always x.statistics write_statistics-Fills)
                              (may _ _ _ _ _ (omega arith)
                                (some_list _ x.encoding_stats encoding_stats)
                                (may _ _ _ _ _ (omega arith)
                                  (always x.bloom_filter_offset i64-Fills)
                                  (may _ _ _ _ _ (omega arith)
                                    (always x.bloom_filter_length i32-Fills)
                                    (may _ _ _ _ _ (omega arith) size_statistics (
                                      may _ _ _ _ _ (omega arith) geospatial_statistics
                                        (end))))))))))))))))))

pub write_column_chunk-Fills :
    (x : ColumnChunk)
    → IfSome (λ m. Fills t_struct (write_column_meta_data m)) x.meta_data
    → IfSome (Fills t_struct) x.crypto_metadata
    → Fills t_struct (write_column_chunk x)
unfolding write_column_chunk
write_column_chunk-Fills x meta_data crypto_metadata = struct_of-Fills _ (
    may _ _ _ _ _ (omega arith) (always x.file_path string-Fills) (
      must _ _ _ _ (omega arith) (i64-Fills x.file_offset) (
        may _ _ _ _ _ (omega arith) meta_data (
          may _ _ _ _ _ (omega arith) (always x.offset_index_offset i64-Fills) (
            may _ _ _ _ _ (omega arith) (always x.offset_index_length i32-Fills) (
              may _ _ _ _ _ (omega arith) (always x.column_index_offset i64-Fills) (
                may _ _ _ _ _ (omega arith) (always x.column_index_length i32-Fills) (
                  may _ _ _ _ _ (omega arith) crypto_metadata (
                    may _ _ _ _ _ (omega arith) (always x.encrypted_column_metadata binary-Fills)
                      (end))))))))))

pub write_row_group-Fills :
    (x : RowGroup)
    → IsList (λ c. Fills t_struct (write_column_chunk c)) x.columns
    → IfSome (IsList (Fills t_struct)) x.sorting_columns
    → Fills t_struct (write_row_group x)
unfolding write_row_group
write_row_group-Fills x columns sorting_columns = struct_of-Fills _ (
    must _ _ _ _ (omega arith) (list_of-Fills t_struct _ _ columns.0 columns.1) (
      must _ _ _ _ (omega arith) (i64-Fills x.total_byte_size) (
        must _ _ _ _ (omega arith) (i64-Fills x.num_rows) (
          may _ _ _ _ _ (omega arith) (some_list _ x.sorting_columns sorting_columns) (
            may _ _ _ _ _ (omega arith) (always x.file_offset i64-Fills) (
              may _ _ _ _ _ (omega arith) (always x.total_compressed_size i64-Fills)
                (may _ _ _ _ _ (omega arith) (always x.ordinal i16-Fills) (end))))))))

pub write_file_meta_data-Fills :
    (x : FileMetaData)
    → IsList (λ e. Fills t_struct (write_schema_element e)) x.schema
    → IsList (λ g. Fills t_struct (write_row_group g)) x.row_groups
    → IfSome (IsList (Fills t_struct)) x.key_value_metadata
    → IfSome (IsList (Fills t_struct)) x.column_orders
    → IfSome (Fills t_struct) x.encryption_algorithm
    → Fills t_struct (write_file_meta_data x)
unfolding write_file_meta_data
write_file_meta_data-Fills x schema row_groups key_value_metadata column_orders
      encryption_algorithm =
    struct_of-Fills _ (
      must _ _ _ _ (omega arith) (i32-Fills x.version) (
        must _ _ _ _ (omega arith) (list_of-Fills t_struct _ _ schema.0 schema.1) (
          must _ _ _ _ (omega arith) (i64-Fills x.num_rows) (
            must _ _ _ _ (omega arith) (list_of-Fills t_struct _ _ row_groups.0 row_groups.1) (
              may _ _ _ _ _ (omega arith) (some_list _ x.key_value_metadata key_value_metadata) (
                may _ _ _ _ _ (omega arith) (always x.created_by string-Fills) (
                  may _ _ _ _ _ (omega arith) (some_list _ x.column_orders column_orders) (
                    may _ _ _ _ _ (omega arith) encryption_algorithm (
                      may _ _ _ _ _ (omega arith)
                        (always x.footer_signing_key_metadata binary-Fills) (end))))))))))
