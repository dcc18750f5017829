-- ===== src/BuildMap/Structs.antt =====
-- fmap.cc: the structs that AppendPage and AppendFooter fill in.
use lanl_vir_parquet.Prelude.{ℕ, [], ◌∷◌, Bool, true, Option, none, some, if◌then◌else◌}
use lanl_vir_parquet.Prelude.Int.{pos, to_i32, to_i64, div_trunc}
use lanl_vir_parquet.Prelude.Text.{Text, text}
use lanl_vir_parquet.Parquet.{
  PhysicalType, ConvertedType, FieldRepetitionType, Encoding, CompressionCodec, PageType,
  Statistics, DataPageHeaderV2, SchemaElement, PageHeader, ColumnMetaData, ColumnChunk, RowGroup,
  FileMetaData,
}

-- the default constructors of DataPageHeaderV2 and its `__isset`, by which is_compressed is set and true
abbrev default_data_page_header_v2 : DataPageHeaderV2
default_data_page_header_v2 = record {
  num_values = pos 0;
  num_nulls = pos 0;
  num_rows = pos 0;
  encoding = Encoding.plain;
  definition_levels_byte_length = pos 0;
  repetition_levels_byte_length = pos 0;
  is_compressed = some true;
  statistics = none;
}

-- the page header of AppendPage; the sizes are uint32_t
unfoldable pub page_header : (value_size compressed_size uncompressed_size : ℕ) → Bool → PageHeader
page_header value_size compressed_size uncompressed_size is_compressed =
    let num_values = div_trunc (to_i32 uncompressed_size) value_size in
    let v2 = record default_data_page_header_v2 {
      num_values = num_values;
      num_nulls = pos 0;
      num_rows = num_values;
      encoding = Encoding.plain;
      definition_levels_byte_length = pos 0;
      repetition_levels_byte_length = pos 0;
    } in
    record {
      page_type = PageType.data_page_v2;
      uncompressed_page_size = to_i32 uncompressed_size;
      compressed_page_size = to_i32 compressed_size;
      crc = none;
      data_page_header = none;
      index_page_header = none;
      dictionary_page_header = none;
      data_page_header_v2 =
          some (if is_compressed then record v2 { is_compressed = some true } else v2);
    }

no_statistics : Statistics
no_statistics = record {
  max = none;
  min = none;
  null_count = some (pos 0);
  distinct_count = none;
  max_value = none;
  min_value = none;
  is_max_value_exact = none;
  is_min_value_exact = none;
}

schema_element : Text → SchemaElement
schema_element name = record {
  physical_type = none;
  type_length = none;
  repetition_type = some FieldRepetitionType.required;
  name = name;
  num_children = none;
  converted_type = none;
  scale = none;
  precision = none;
  field_id = none;
  logical_type = none;
}

-- the column's meta data; the totals are int64_t
column_meta_data :
    Text → PhysicalType → CompressionCodec → (compressed uncompressed count : ℕ) → ColumnMetaData
column_meta_data name storage codec compressed uncompressed count = record {
  physical_type = storage;
  encodings = Encoding.plain ∷ [];
  path_in_schema = name ∷ [];
  codec = codec;
  num_values = to_i64 count;
  total_uncompressed_size = to_i64 uncompressed;
  total_compressed_size = to_i64 compressed;
  key_value_metadata = none;
  data_page_offset = pos 4;
  index_page_offset = none;
  dictionary_page_offset = none;
  statistics = some no_statistics;
  encoding_stats = none;
  bloom_filter_offset = none;
  bloom_filter_length = none;
  size_statistics = none;
  geospatial_statistics = none;
}

column_chunk : ColumnMetaData → ColumnChunk
column_chunk meta_data = record {
  file_path = none;
  file_offset = pos 0;
  meta_data = some meta_data;
  offset_index_offset = none;
  offset_index_length = none;
  column_index_offset = none;
  column_index_length = none;
  crypto_metadata = none;
  encrypted_column_metadata = none;
}

row_group : ColumnMetaData → (compressed uncompressed count : ℕ) → RowGroup
row_group meta_data compressed uncompressed count = record {
  columns = column_chunk meta_data ∷ [];
  total_byte_size = to_i64 uncompressed;
  num_rows = to_i64 count;
  sorting_columns = none;
  file_offset = some (pos 4);
  total_compressed_size = some (to_i64 compressed);
  ordinal = none;
}

-- the footer of AppendFooter
unfoldable pub file_meta_data :
    Text
    → PhysicalType
    → Option ConvertedType
    → CompressionCodec
    → (compressed uncompressed count : ℕ) → FileMetaData
unfolding no_statistics schema_element column_meta_data column_chunk row_group
file_meta_data name storage conv codec compressed uncompressed count = record {
  version = pos 2;
  schema =
      record (schema_element (text "vtkfile")) { num_children = some (pos 1) }
      ∷ record (schema_element name) { physical_type = some storage; converted_type = conv }
      ∷ [];
  num_rows = to_i64 count;
  row_groups =
      row_group (column_meta_data name storage codec compressed uncompressed count) compressed
        uncompressed count
      ∷ [];
  key_value_metadata = none;
  created_by = none;
  column_orders = none;
  encryption_algorithm = none;
  footer_signing_key_metadata = none;
}
