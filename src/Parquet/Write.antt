-- ===== src/Parquet/Write.antt =====
-- gen-cpp/parquet_types.cpp: the `write` methods, by the calls that they make on the protocol. Their
-- result, the number of bytes that the protocol reports, is used by nothing in the program.
use lanl_vir_parquet.Prelude.{ℕ, List, [], ◌∷◌, ◌++◌, Option, none, some, length, to_u32}
use lanl_vir_parquet.Prelude.Int.{ℤ, pos}
use lanl_vir_parquet.Prelude.Text.{Text, text}
use lanl_vir_parquet.Parquet.{
  PhysicalType, ConvertedType, FieldRepetitionType, Encoding, CompressionCodec, PageType, Nested,
  Statistics, SchemaElement, DataPageHeaderV2, PageHeader, ColumnMetaData, ColumnChunk, RowGroup,
  FileMetaData,
}
use lanl_vir_parquet.Parquet.Protocol.{
  WireType, t_bool, t_i16, t_i32, t_i64, t_string, t_struct, t_list, Call, struct_begin, struct_end,
  field_begin, field_end, field_stop, list_begin, list_end, write_bool, write_i16, write_i32,
  write_i64, write_string, write_binary,
}

-- static_cast<int32_t>
unfoldable pub physical_type_value : PhysicalType → ℤ
physical_type_value PhysicalType.boolean = pos 0
physical_type_value PhysicalType.int32 = pos 1
physical_type_value PhysicalType.int64 = pos 2
physical_type_value PhysicalType.int96 = pos 3
physical_type_value PhysicalType.float = pos 4
physical_type_value PhysicalType.double = pos 5
physical_type_value PhysicalType.byte_array = pos 6
physical_type_value PhysicalType.fixed_len_byte_array = pos 7

-- static_cast<int32_t>
unfoldable pub converted_type_value : ConvertedType → ℤ
converted_type_value ConvertedType.utf8 = pos 0
converted_type_value ConvertedType.map_type = pos 1
converted_type_value ConvertedType.map_key_value = pos 2
converted_type_value ConvertedType.list_type = pos 3
converted_type_value ConvertedType.enum_type = pos 4
converted_type_value ConvertedType.decimal = pos 5
converted_type_value ConvertedType.date = pos 6
converted_type_value ConvertedType.time_millis = pos 7
converted_type_value ConvertedType.time_micros = pos 8
converted_type_value ConvertedType.timestamp_millis = pos 9
converted_type_value ConvertedType.timestamp_micros = pos 10
converted_type_value ConvertedType.uint_8 = pos 11
converted_type_value ConvertedType.uint_16 = pos 12
converted_type_value ConvertedType.uint_32 = pos 13
converted_type_value ConvertedType.uint_64 = pos 14
converted_type_value ConvertedType.int_8 = pos 15
converted_type_value ConvertedType.int_16 = pos 16
converted_type_value ConvertedType.int_32 = pos 17
converted_type_value ConvertedType.int_64 = pos 18
converted_type_value ConvertedType.json = pos 19
converted_type_value ConvertedType.bson = pos 20
converted_type_value ConvertedType.interval = pos 21

-- static_cast<int32_t>
unfoldable pub repetition_type_value : FieldRepetitionType → ℤ
repetition_type_value FieldRepetitionType.required = pos 0
repetition_type_value FieldRepetitionType.optional = pos 1
repetition_type_value FieldRepetitionType.repeated = pos 2

-- static_cast<int32_t>
unfoldable pub encoding_value : Encoding → ℤ
encoding_value Encoding.plain = pos 0
encoding_value Encoding.plain_dictionary = pos 2
encoding_value Encoding.rle = pos 3
encoding_value Encoding.bit_packed = pos 4
encoding_value Encoding.delta_binary_packed = pos 5
encoding_value Encoding.delta_length_byte_array = pos 6
encoding_value Encoding.delta_byte_array = pos 7
encoding_value Encoding.rle_dictionary = pos 8
encoding_value Encoding.byte_stream_split = pos 9

-- static_cast<int32_t>
unfoldable pub codec_value : CompressionCodec → ℤ
codec_value CompressionCodec.uncompressed = pos 0
codec_value CompressionCodec.snappy = pos 1
codec_value CompressionCodec.gzip = pos 2
codec_value CompressionCodec.lzo = pos 3
codec_value CompressionCodec.brotli = pos 4
codec_value CompressionCodec.lz4 = pos 5
codec_value CompressionCodec.zstd = pos 6
codec_value CompressionCodec.lz4_raw = pos 7

-- static_cast<int32_t>
unfoldable pub page_type_value : PageType → ℤ
page_type_value PageType.data_page = pos 0
page_type_value PageType.index_page = pos 1
page_type_value PageType.dictionary_page = pos 2
page_type_value PageType.data_page_v2 = pos 3

-- a field, and a field that is written only if its `__isset` flag is true
unfoldable pub field : Text → WireType → ℕ → List Call → List Call
field name t id body = field_begin name t id ∷ body ++ field_end ∷ []

unfoldable pub optional_field {ℓ} :
    {A : Type ℓ} → Text → WireType → ℕ → (A → List Call) → Option A → List Call
unfolding field
optional_field name t id body none = []
optional_field name t id body (some a) = field name t id (body a)

unfoldable pub each {ℓ} : {A : Type ℓ} → (A → List Call) → List A → List Call
each body [] = []
each body (a ∷ xs) = body a ++ each body xs

unfoldable pub list_of {ℓ} : {A : Type ℓ} → WireType → (A → List Call) → List A → List Call
unfolding each
list_of t body xs = list_begin t (to_u32 (length xs)) ∷ each body xs ++ list_end ∷ []

abbrev pub one {ℓ} : {A : Type ℓ} → (A → Call) → A → List Call
one f a = f a ∷ []

-- the struct around its fields
unfoldable pub struct_of : Text → List (List Call) → List Call
unfolding each
struct_of name fields = struct_begin name ∷ each (λ c. c) fields ++ field_stop ∷ struct_end ∷ []

abbrev nested : Nested → List Call
nested c = c

unfoldable pub write_statistics : Statistics → List Call
unfolding optional_field struct_of
write_statistics x = struct_of (text "Statistics") (
    optional_field (text "max") t_string 1 (one write_binary) x.max
    ∷ optional_field (text "min") t_string 2 (one write_binary) x.min
    ∷ optional_field (text "null_count") t_i64 3 (one write_i64) x.null_count
    ∷ optional_field (text "distinct_count") t_i64 4 (one write_i64) x.distinct_count
    ∷ optional_field (text "max_value") t_string 5 (one write_binary) x.max_value
    ∷ optional_field (text "min_value") t_string 6 (one write_binary) x.min_value
    ∷ optional_field (text "is_max_value_exact") t_bool 7 (one write_bool) x.is_max_value_exact
    ∷ optional_field (text "is_min_value_exact") t_bool 8 (one write_bool) x.is_min_value_exact
    ∷ [])

unfoldable pub write_schema_element : SchemaElement → List Call
unfolding converted_type_value field optional_field physical_type_value repetition_type_value
    struct_of
write_schema_element x = struct_of (text "SchemaElement") (
    optional_field (text "type") t_i32 1 (λ v. write_i32 (physical_type_value v) ∷ [])
      x.physical_type
    ∷ optional_field (text "type_length") t_i32 2 (one write_i32) x.type_length
    ∷ optional_field (text "repetition_type") t_i32 3
        (λ v. write_i32 (repetition_type_value v) ∷ []) x.repetition_type
    ∷ field (text "name") t_string 4 (write_string x.name ∷ [])
    ∷ optional_field (text "num_children") t_i32 5 (one write_i32) x.num_children
    ∷ optional_field (text "converted_type") t_i32 6 (λ v. write_i32 (converted_type_value v) ∷ [])
        x.converted_type
    ∷ optional_field (text "scale") t_i32 7 (one write_i32) x.scale
    ∷ optional_field (text "precision") t_i32 8 (one write_i32) x.precision
    ∷ optional_field (text "field_id") t_i32 9 (one write_i32) x.field_id
    ∷ optional_field (text "logicalType") t_struct 10 nested x.logical_type
    ∷ [])

unfoldable pub write_data_page_header_v2 : DataPageHeaderV2 → List Call
unfolding encoding_value field optional_field struct_of write_statistics
write_data_page_header_v2 x = struct_of (text "DataPageHeaderV2") (
    field (text "num_values") t_i32 1 (write_i32 x.num_values ∷ [])
    ∷ field (text "num_nulls") t_i32 2 (write_i32 x.num_nulls ∷ [])
    ∷ field (text "num_rows") t_i32 3 (write_i32 x.num_rows ∷ [])
    ∷ field (text "encoding") t_i32 4 (write_i32 (encoding_value x.encoding) ∷ [])
    ∷ field (text "definition_levels_byte_length") t_i32 5
        (write_i32 x.definition_levels_byte_length ∷ [])
    ∷ field (text "repetition_levels_byte_length") t_i32 6
        (write_i32 x.repetition_levels_byte_length ∷ [])
    ∷ optional_field (text "is_compressed") t_bool 7 (one write_bool) x.is_compressed
    ∷ optional_field (text "statistics") t_struct 8 write_statistics x.statistics
    ∷ [])

unfoldable pub write_page_header : PageHeader → List Call
unfolding field optional_field page_type_value struct_of write_data_page_header_v2
write_page_header x = struct_of (text "PageHeader") (
    field (text "type") t_i32 1 (write_i32 (page_type_value x.page_type) ∷ [])
    ∷ field (text "uncompressed_page_size") t_i32 2 (write_i32 x.uncompressed_page_size ∷ [])
    ∷ field (text "compressed_page_size") t_i32 3 (write_i32 x.compressed_page_size ∷ [])
    ∷ optional_field (text "crc") t_i32 4 (one write_i32) x.crc
    ∷ optional_field (text "data_page_header") t_struct 5 nested x.data_page_header
    ∷ optional_field (text "index_page_header") t_struct 6 nested x.index_page_header
    ∷ optional_field (text "dictionary_page_header") t_struct 7 nested x.dictionary_page_header
    ∷ optional_field (text "data_page_header_v2") t_struct 8 write_data_page_header_v2
        x.data_page_header_v2
    ∷ [])

unfoldable pub write_column_meta_data : ColumnMetaData → List Call
unfolding codec_value encoding_value field list_of optional_field physical_type_value struct_of
    write_statistics
write_column_meta_data x = struct_of (text "ColumnMetaData") (
    field (text "type") t_i32 1 (write_i32 (physical_type_value x.physical_type) ∷ [])
    ∷ field (text "encodings") t_list 2
        (list_of t_i32 (λ v. write_i32 (encoding_value v) ∷ []) x.encodings)
    ∷ field (text "path_in_schema") t_list 3 (list_of t_string (one write_string) x.path_in_schema)
    ∷ field (text "codec") t_i32 4 (write_i32 (codec_value x.codec) ∷ [])
    ∷ field (text "num_values") t_i64 5 (write_i64 x.num_values ∷ [])
    ∷ field (text "total_uncompressed_size") t_i64 6 (write_i64 x.total_uncompressed_size ∷ [])
    ∷ field (text "total_compressed_size") t_i64 7 (write_i64 x.total_compressed_size ∷ [])
    ∷ optional_field (text "key_value_metadata") t_list 8 (list_of t_struct nested)
        x.key_value_metadata
    ∷ field (text "data_page_offset") t_i64 9 (write_i64 x.data_page_offset ∷ [])
    ∷ optional_field (text "index_page_offset") t_i64 10 (one write_i64) x.index_page_offset
    ∷ optional_field (text "dictionary_page_offset") t_i64 11 (one write_i64)
        x.dictionary_page_offset
    ∷ optional_field (text "statistics") t_struct 12 write_statistics x.statistics
    ∷ optional_field (text "encoding_stats") t_list 13 (list_of t_struct nested) x.encoding_stats
    ∷ optional_field (text "bloom_filter_offset") t_i64 14 (one write_i64) x.bloom_filter_offset
    ∷ optional_field (text "bloom_filter_length") t_i32 15 (one write_i32) x.bloom_filter_length
    ∷ optional_field (text "size_statistics") t_struct 16 nested x.size_statistics
    ∷ optional_field (text "geospatial_statistics") t_struct 17 nested x.geospatial_statistics
    ∷ [])

unfoldable pub write_column_chunk : ColumnChunk → List Call
unfolding field optional_field struct_of write_column_meta_data
write_column_chunk x = struct_of (text "ColumnChunk") (
    optional_field (text "file_path") t_string 1 (one write_string) x.file_path
    ∷ field (text "file_offset") t_i64 2 (write_i64 x.file_offset ∷ [])
    ∷ optional_field (text "meta_data") t_struct 3 write_column_meta_data x.meta_data
    ∷ optional_field (text "offset_index_offset") t_i64 4 (one write_i64) x.offset_index_offset
    ∷ optional_field (text "offset_index_length") t_i32 5 (one write_i32) x.offset_index_length
    ∷ optional_field (text "column_index_offset") t_i64 6 (one write_i64) x.column_index_offset
    ∷ optional_field (text "column_index_length") t_i32 7 (one write_i32) x.column_index_length
    ∷ optional_field (text "crypto_metadata") t_struct 8 nested x.crypto_metadata
    ∷ optional_field (text "encrypted_column_metadata") t_string 9 (one write_binary)
        x.encrypted_column_metadata
    ∷ [])

unfoldable pub write_row_group : RowGroup → List Call
unfolding field list_of optional_field struct_of write_column_chunk
write_row_group x = struct_of (text "RowGroup") (
    field (text "columns") t_list 1 (list_of t_struct write_column_chunk x.columns)
    ∷ field (text "total_byte_size") t_i64 2 (write_i64 x.total_byte_size ∷ [])
    ∷ field (text "num_rows") t_i64 3 (write_i64 x.num_rows ∷ [])
    ∷ optional_field (text "sorting_columns") t_list 4 (list_of t_struct nested) x.sorting_columns
    ∷ optional_field (text "file_offset") t_i64 5 (one write_i64) x.file_offset
    ∷ optional_field (text "total_compressed_size") t_i64 6 (one write_i64) x.total_compressed_size
    ∷ optional_field (text "ordinal") t_i16 7 (one write_i16) x.ordinal
    ∷ [])

unfoldable pub write_file_meta_data : FileMetaData → List Call
unfolding field list_of optional_field struct_of write_row_group write_schema_element
write_file_meta_data x = struct_of (text "FileMetaData") (
    field (text "version") t_i32 1 (write_i32 x.version ∷ [])
    ∷ field (text "schema") t_list 2 (list_of t_struct write_schema_element x.schema)
    ∷ field (text "num_rows") t_i64 3 (write_i64 x.num_rows ∷ [])
    ∷ field (text "row_groups") t_list 4 (list_of t_struct write_row_group x.row_groups)
    ∷ optional_field (text "key_value_metadata") t_list 5 (list_of t_struct nested)
        x.key_value_metadata
    ∷ optional_field (text "created_by") t_string 6 (one write_string) x.created_by
    ∷ optional_field (text "column_orders") t_list 7 (list_of t_struct nested) x.column_orders
    ∷ optional_field (text "encryption_algorithm") t_struct 8 nested x.encryption_algorithm
    ∷ optional_field (text "footer_signing_key_metadata") t_string 9 (one write_binary)
        x.footer_signing_key_metadata
    ∷ [])
