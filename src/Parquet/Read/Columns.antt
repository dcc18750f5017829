-- ===== src/Parquet/Read/Columns.antt =====
-- gen-cpp/parquet_types.cpp: the `read` methods of a column and its meta data.
use lanl_vir_parquet.Prelude.{ℕ, List, Option, none, some, ◌==◌, if◌then◌else◌}
use lanl_vir_parquet.Prelude.Int.{ℤ}
use lanl_vir_parquet.Prelude.Text.{Text, text}
use lanl_vir_parquet.File.{Outcome, done, ◌>>=◌}
use lanl_vir_parquet.Parquet.Protocol.{WireType, t_i32, t_i64, t_string, t_struct, t_list}
use lanl_vir_parquet.Parquet.{
  PhysicalType, Encoding, CompressionCodec, Nested, Statistics, ColumnMetaData, ColumnChunk,
}
use lanl_vir_parquet.Parquet.Read.{
  InputProtocol, require, read_enum, read_list, store, skip_field, read_struct, physical_types,
  encodings_by_number, codecs,
}
use lanl_vir_parquet.Parquet.Read.Pages.{read_statistics}

-- ColumnMetaData while it is read: a required field is `none` while its `isset_` variable is false.
pub record ColumnMetaDataDraft : Type 0 where
  pub physical_type : Option PhysicalType
  pub encodings : Option (List Encoding)
  pub path_in_schema : Option (List Text)
  pub codec : Option CompressionCodec
  pub num_values : Option ℤ
  pub total_uncompressed_size : Option ℤ
  pub total_compressed_size : Option ℤ
  pub key_value_metadata : Option (List Nested)
  pub data_page_offset : Option ℤ
  pub index_page_offset : Option ℤ
  pub dictionary_page_offset : Option ℤ
  pub statistics : Option Statistics
  pub encoding_stats : Option (List Nested)
  pub bloom_filter_offset : Option ℤ
  pub bloom_filter_length : Option ℤ
  pub size_statistics : Option Nested
  pub geospatial_statistics : Option Nested

abbrev pub new_column_meta_data : ColumnMetaDataDraft
new_column_meta_data = record {
  physical_type = none;
  encodings = none;
  path_in_schema = none;
  codec = none;
  num_values = none;
  total_uncompressed_size = none;
  total_compressed_size = none;
  key_value_metadata = none;
  data_page_offset = none;
  index_page_offset = none;
  dictionary_page_offset = none;
  statistics = none;
  encoding_stats = none;
  bloom_filter_offset = none;
  bloom_filter_length = none;
  size_statistics = none;
  geospatial_statistics = none;
}

abbrev pub checked_column_meta_data : ColumnMetaDataDraft → Outcome ColumnMetaData
checked_column_meta_data d = require d.physical_type >>= λ physical_type.
    require d.encodings >>= λ encodings. require d.path_in_schema >>= λ path_in_schema.
    require d.codec >>= λ codec. require d.num_values >>= λ num_values.
    require d.total_uncompressed_size >>= λ total_uncompressed_size.
    require d.total_compressed_size >>= λ total_compressed_size.
    require d.data_page_offset >>= λ data_page_offset. done (record {
      physical_type = physical_type;
      encodings = encodings;
      path_in_schema = path_in_schema;
      codec = codec;
      num_values = num_values;
      total_uncompressed_size = total_uncompressed_size;
      total_compressed_size = total_compressed_size;
      key_value_metadata = d.key_value_metadata;
      data_page_offset = data_page_offset;
      index_page_offset = d.index_page_offset;
      dictionary_page_offset = d.dictionary_page_offset;
      statistics = d.statistics;
      encoding_stats = d.encoding_stats;
      bloom_filter_offset = d.bloom_filter_offset;
      bloom_filter_length = d.bloom_filter_length;
      size_statistics = d.size_statistics;
      geospatial_statistics = d.geospatial_statistics;
    })

-- ColumnChunk while it is read: a required field is `none` while its `isset_` variable is false.
pub record ColumnChunkDraft : Type 0 where
  pub file_path : Option Text
  pub file_offset : Option ℤ
  pub meta_data : Option ColumnMetaData
  pub offset_index_offset : Option ℤ
  pub offset_index_length : Option ℤ
  pub column_index_offset : Option ℤ
  pub column_index_length : Option ℤ
  pub crypto_metadata : Option Nested
  pub encrypted_column_metadata : Option (List ℕ)

abbrev pub new_column_chunk : ColumnChunkDraft
new_column_chunk = record {
  file_path = none;
  file_offset = none;
  meta_data = none;
  offset_index_offset = none;
  offset_index_length = none;
  column_index_offset = none;
  column_index_length = none;
  crypto_metadata = none;
  encrypted_column_metadata = none;
}

abbrev pub checked_column_chunk : ColumnChunkDraft → Outcome ColumnChunk
checked_column_chunk d = require d.file_offset >>= λ file_offset. done (record {
  file_path = d.file_path;
  file_offset = file_offset;
  meta_data = d.meta_data;
  offset_index_offset = d.offset_index_offset;
  offset_index_length = d.offset_index_length;
  column_index_offset = d.column_index_offset;
  column_index_length = d.column_index_length;
  crypto_metadata = d.crypto_metadata;
  encrypted_column_metadata = d.encrypted_column_metadata;
})

module _ {S : Type 0} (p : InputProtocol S) (fuel : ℕ)
    (read_nested : Text → S → Outcome (Nested × S)) where
  unfoldable pub column_meta_data_field :
      ℕ → WireType → ColumnMetaDataDraft → S → Outcome (ColumnMetaDataDraft × S)
  unfolding read_enum read_list read_statistics
  column_meta_data_field id ftype d s =
      if id == 1
      then store p t_i32 ftype d (λ v. record d { physical_type = some v })
          (read_enum p physical_types) s
      else if id == 2
      then store p t_list ftype d (λ v. record d { encodings = some v })
          (read_list p (read_enum p encodings_by_number)) s
      else if id == 3
      then store p t_list ftype d (λ v. record d { path_in_schema = some v })
          (read_list p p.read_string) s
      else if id == 4
      then store p t_i32 ftype d (λ v. record d { codec = some v }) (read_enum p codecs) s
      else if id == 5
      then store p t_i64 ftype d (λ v. record d { num_values = some v }) p.read_i64 s
      else if id == 6
      then store p t_i64 ftype d (λ v. record d { total_uncompressed_size = some v }) p.read_i64 s
      else if id == 7
      then store p t_i64 ftype d (λ v. record d { total_compressed_size = some v }) p.read_i64 s
      else if id == 8
      then store p t_list ftype d (λ v. record d { key_value_metadata = some v })
          (read_list p (read_nested (text "KeyValue"))) s
      else if id == 9
      then store p t_i64 ftype d (λ v. record d { data_page_offset = some v }) p.read_i64 s
      else if id == 10
      then store p t_i64 ftype d (λ v. record d { index_page_offset = some v }) p.read_i64 s
      else if id == 11
      then store p t_i64 ftype d (λ v. record d { dictionary_page_offset = some v }) p.read_i64 s
      else if id == 12
      then store p t_struct ftype d (λ v. record d { statistics = some v })
          (read_statistics p fuel read_nested) s
      else if id == 13
      then store p t_list ftype d (λ v. record d { encoding_stats = some v })
          (read_list p (read_nested (text "PageEncodingStats"))) s
      else if id == 14
      then store p t_i64 ftype d (λ v. record d { bloom_filter_offset = some v }) p.read_i64 s
      else if id == 15
      then store p t_i32 ftype d (λ v. record d { bloom_filter_length = some v }) p.read_i32 s
      else if id == 16
      then store p t_struct ftype d (λ v. record d { size_statistics = some v })
          (read_nested (text "SizeStatistics")) s
      else if id == 17
      then store p t_struct ftype d (λ v. record d { geospatial_statistics = some v })
          (read_nested (text "GeospatialStatistics")) s
      else skip_field p ftype d s

  unfoldable pub read_column_meta_data : S → Outcome (ColumnMetaData × S)
  unfolding column_meta_data_field read_struct
  read_column_meta_data =
      read_struct p fuel column_meta_data_field new_column_meta_data checked_column_meta_data

  unfoldable pub column_chunk_field :
      ℕ → WireType → ColumnChunkDraft → S → Outcome (ColumnChunkDraft × S)
  unfolding read_column_meta_data
  column_chunk_field id ftype d s =
      if id == 1
      then store p t_string ftype d (λ v. record d { file_path = some v }) p.read_string s
      else if id == 2
      then store p t_i64 ftype d (λ v. record d { file_offset = some v }) p.read_i64 s
      else if id == 3
      then store p t_struct ftype d (λ v. record d { meta_data = some v }) read_column_meta_data s
      else if id == 4
      then store p t_i64 ftype d (λ v. record d { offset_index_offset = some v }) p.read_i64 s
      else if id == 5
      then store p t_i32 ftype d (λ v. record d { offset_index_length = some v }) p.read_i32 s
      else if id == 6
      then store p t_i64 ftype d (λ v. record d { column_index_offset = some v }) p.read_i64 s
      else if id == 7
      then store p t_i32 ftype d (λ v. record d { column_index_length = some v }) p.read_i32 s
      else if id == 8
      then store p t_struct ftype d (λ v. record d { crypto_metadata = some v })
          (read_nested (text "ColumnCryptoMetaData")) s
      else if id == 9
      then store p t_string ftype d (λ v. record d { encrypted_column_metadata = some v })
          p.read_binary s
      else skip_field p ftype d s

  unfoldable pub read_column_chunk : S → Outcome (ColumnChunk × S)
  unfolding column_chunk_field read_struct
  read_column_chunk = read_struct p fuel column_chunk_field new_column_chunk checked_column_chunk
