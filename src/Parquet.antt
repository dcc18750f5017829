-- ===== src/Parquet.antt =====
-- gen-cpp/parquet_types.h: the enumerations of the Parquet format with their numbers, and the
-- structs that this program fills in. An optional field is `none` while its `__isset` flag is false.
pub mod Protocol
pub mod Write
pub mod Nesting
pub mod WellNested
pub mod Structs
pub mod Read
pub mod ReadBack
use lanl_vir_parquet.Prelude.{ℕ, List, Option, Bool}
use lanl_vir_parquet.Prelude.Int.{ℤ}
use lanl_vir_parquet.Prelude.Text.{Text}
use Protocol.{Call}

-- `Type::type`
pub data PhysicalType : Type 0 where
  boolean int32 int64 int96 float double byte_array fixed_len_byte_array : PhysicalType

pub data ConvertedType : Type 0 where
  utf8 map_type map_key_value list_type enum_type decimal date time_millis time_micros :
      ConvertedType
  timestamp_millis timestamp_micros uint_8 uint_16 uint_32 uint_64 : ConvertedType
  int_8 int_16 int_32 int_64 json bson interval : ConvertedType

pub data FieldRepetitionType : Type 0 where
  required optional repeated : FieldRepetitionType

pub data Encoding : Type 0 where
  plain plain_dictionary rle bit_packed delta_binary_packed delta_length_byte_array : Encoding
  delta_byte_array rle_dictionary byte_stream_split : Encoding

pub data CompressionCodec : Type 0 where
  uncompressed snappy gzip lzo brotli lz4 zstd lz4_raw : CompressionCodec

pub data PageType : Type 0 where
  data_page index_page dictionary_page data_page_v2 : PageType

-- A struct that this program never fills in, by the calls that its own `write` makes.
abbrev pub Nested : Type 0
Nested = List Call

pub record Statistics : Type 0 where
  pub max : Option (List ℕ)
  pub min : Option (List ℕ)
  pub null_count : Option ℤ
  pub distinct_count : Option ℤ
  pub max_value : Option (List ℕ)
  pub min_value : Option (List ℕ)
  pub is_max_value_exact : Option Bool
  pub is_min_value_exact : Option Bool

pub record SchemaElement : Type 0 where
  pub physical_type : Option PhysicalType
  pub type_length : Option ℤ
  pub repetition_type : Option FieldRepetitionType
  pub name : Text
  pub num_children : Option ℤ
  pub converted_type : Option ConvertedType
  pub scale : Option ℤ
  pub precision : Option ℤ
  pub field_id : Option ℤ
  pub logical_type : Option Nested

pub record DataPageHeaderV2 : Type 0 where
  pub num_values : ℤ
  pub num_nulls : ℤ
  pub num_rows : ℤ
  pub encoding : Encoding
  pub definition_levels_byte_length : ℤ
  pub repetition_levels_byte_length : ℤ
  pub is_compressed : Option Bool
  pub statistics : Option Statistics

pub record PageHeader : Type 0 where
  pub page_type : PageType
  pub uncompressed_page_size : ℤ
  pub compressed_page_size : ℤ
  pub crc : Option ℤ
  pub data_page_header : Option Nested
  pub index_page_header : Option Nested
  pub dictionary_page_header : Option Nested
  pub data_page_header_v2 : Option DataPageHeaderV2

pub record ColumnMetaData : Type 0 where
  pub physical_type : PhysicalType
  pub encodings : List Encoding
  pub path_in_schema : List Text
  pub codec : CompressionCodec
  pub num_values : ℤ
  pub total_uncompressed_size : ℤ
  pub total_compressed_size : ℤ
  pub key_value_metadata : Option (List Nested)
  pub data_page_offset : ℤ
  pub index_page_offset : Option ℤ
  pub dictionary_page_offset : Option ℤ
  pub statistics : Option Statistics
  pub encoding_stats : Option (List Nested)
  pub bloom_filter_offset : Option ℤ
  pub bloom_filter_length : Option ℤ
  pub size_statistics : Option Nested
  pub geospatial_statistics : Option Nested

pub record ColumnChunk : Type 0 where
  pub file_path : Option Text
  pub file_offset : ℤ
  pub meta_data : Option ColumnMetaData
  pub offset_index_offset : Option ℤ
  pub offset_index_length : Option ℤ
  pub column_index_offset : Option ℤ
  pub column_index_length : Option ℤ
  pub crypto_metadata : Option Nested
  pub encrypted_column_metadata : Option (List ℕ)

pub record RowGroup : Type 0 where
  pub columns : List ColumnChunk
  pub total_byte_size : ℤ
  pub num_rows : ℤ
  pub sorting_columns : Option (List Nested)
  pub file_offset : Option ℤ
  pub total_compressed_size : Option ℤ
  pub ordinal : Option ℤ

pub record FileMetaData : Type 0 where
  pub version : ℤ
  pub schema : List SchemaElement
  pub num_rows : ℤ
  pub row_groups : List RowGroup
  pub key_value_metadata : Option (List Nested)
  pub created_by : Option Text
  pub column_orders : Option (List Nested)
  pub encryption_algorithm : Option Nested
  pub footer_signing_key_metadata : Option (List ℕ)
