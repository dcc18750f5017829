-- ===== src/Parquet/Read/Pages.antt =====
-- gen-cpp/parquet_types.cpp: the `read` methods of what a page header is made of.
use lanl_vir_parquet.Prelude.{ℕ, Bool, true, Option, none, some, ◌==◌, if◌then◌else◌}
use lanl_vir_parquet.Prelude.Int.{ℤ}
use lanl_vir_parquet.Prelude.Text.{Text, text}
use lanl_vir_parquet.File.{Outcome, done, ◌>>=◌}
use lanl_vir_parquet.Parquet.Protocol.{WireType, t_bool, t_i32, t_i64, t_string, t_struct}
use lanl_vir_parquet.Parquet.{Encoding, PageType, Nested, Statistics, DataPageHeaderV2, PageHeader}
use lanl_vir_parquet.Parquet.Read.{
  InputProtocol, require, read_enum, store, skip_field, read_struct, encodings_by_number,
  page_types,
}

abbrev pub new_statistics : Statistics
new_statistics = record {
  max = none;
  min = none;
  null_count = none;
  distinct_count = none;
  max_value = none;
  min_value = none;
  is_max_value_exact = none;
  is_min_value_exact = none;
}

-- DataPageHeaderV2 while it is read: a required field is `none` while its `isset_` variable is false.
pub record DataPageHeaderV2Draft : Type 0 where
  pub num_values : Option ℤ
  pub num_nulls : Option ℤ
  pub num_rows : Option ℤ
  pub encoding : Option Encoding
  pub definition_levels_byte_length : Option ℤ
  pub repetition_levels_byte_length : Option ℤ
  pub is_compressed : Option Bool
  pub statistics : Option Statistics

-- is_compressed is set and true until it is read
abbrev pub new_data_page_header_v2 : DataPageHeaderV2Draft
new_data_page_header_v2 = record {
  num_values = none;
  num_nulls = none;
  num_rows = none;
  encoding = none;
  definition_levels_byte_length = none;
  repetition_levels_byte_length = none;
  is_compressed = some true;
  statistics = none;
}

abbrev pub checked_data_page_header_v2 : DataPageHeaderV2Draft → Outcome DataPageHeaderV2
checked_data_page_header_v2 d = require d.num_values >>= λ num_values.
    require d.num_nulls >>= λ num_nulls. require d.num_rows >>= λ num_rows.
    require d.encoding >>= λ encoding.
    require d.definition_levels_byte_length >>= λ definition_levels_byte_length.
    require d.repetition_levels_byte_length >>= λ repetition_levels_byte_length. done (record {
      num_values = num_values;
      num_nulls = num_nulls;
      num_rows = num_rows;
      encoding = encoding;
      definition_levels_byte_length = definition_levels_byte_length;
      repetition_levels_byte_length = repetition_levels_byte_length;
      is_compressed = d.is_compressed;
      statistics = d.statistics;
    })

-- PageHeader while it is read: a required field is `none` while its `isset_` variable is false.
pub record PageHeaderDraft : Type 0 where
  pub page_type : Option PageType
  pub uncompressed_page_size : Option ℤ
  pub compressed_page_size : Option ℤ
  pub crc : Option ℤ
  pub data_page_header : Option Nested
  pub index_page_header : Option Nested
  pub dictionary_page_header : Option Nested
  pub data_page_header_v2 : Option DataPageHeaderV2

abbrev pub new_page_header : PageHeaderDraft
new_page_header = record {
  page_type = none;
  uncompressed_page_size = none;
  compressed_page_size = none;
  crc = none;
  data_page_header = none;
  index_page_header = none;
  dictionary_page_header = none;
  data_page_header_v2 = none;
}

abbrev pub checked_page_header : PageHeaderDraft → Outcome PageHeader
checked_page_header d = require d.page_type >>= λ page_type.
    require d.uncompressed_page_size >>= λ uncompressed_page_size.
    require d.compressed_page_size >>= λ compressed_page_size. done (record {
      page_type = page_type;
      uncompressed_page_size = uncompressed_page_size;
      compressed_page_size = compressed_page_size;
      crc = d.crc;
      data_page_header = d.data_page_header;
      index_page_header = d.index_page_header;
      dictionary_page_header = d.dictionary_page_header;
      data_page_header_v2 = d.data_page_header_v2;
    })

module _ {S : Type 0} (p : InputProtocol S) (fuel : ℕ)
    (read_nested : Text → S → Outcome (Nested × S)) where
  unfoldable pub statistics_field : ℕ → WireType → Statistics → S → Outcome (Statistics × S)
  statistics_field id ftype d s =
      if id == 1
      then store p t_string ftype d (λ v. record d { max = some v }) p.read_binary s
      else if id == 2
      then store p t_string ftype d (λ v. record d { min = some v }) p.read_binary s
      else if id == 3
      then store p t_i64 ftype d (λ v. record d { null_count = some v }) p.read_i64 s
      else if id == 4
      then store p t_i64 ftype d (λ v. record d { distinct_count = some v }) p.read_i64 s
      else if id == 5
      then store p t_string ftype d (λ v. record d { max_value = some v }) p.read_binary s
      else if id == 6
      then store p t_string ftype d (λ v. record d { min_value = some v }) p.read_binary s
      else if id == 7
      then store p t_bool ftype d (λ v. record d { is_max_value_exact = some v }) p.read_bool s
      else if id == 8
      then store p t_bool ftype d (λ v. record d { is_min_value_exact = some v }) p.read_bool s
      else skip_field p ftype d s

  unfoldable pub read_statistics : S → Outcome (Statistics × S)
  unfolding statistics_field read_struct
  read_statistics = read_struct p fuel statistics_field new_statistics done

  unfoldable pub data_page_header_v2_field :
      ℕ → WireType → DataPageHeaderV2Draft → S → Outcome (DataPageHeaderV2Draft × S)
  unfolding read_enum read_statistics
  data_page_header_v2_field id ftype d s =
      if id == 1
      then store p t_i32 ftype d (λ v. record d { num_values = some v }) p.read_i32 s
      else if id == 2
      then store p t_i32 ftype d (λ v. record d { num_nulls = some v }) p.read_i32 s
      else if id == 3
      then store p t_i32 ftype d (λ v. record d { num_rows = some v }) p.read_i32 s
      else if id == 4
      then store p t_i32 ftype d (λ v. record d { encoding = some v })
          (read_enum p encodings_by_number) s
      else if id == 5
      then store p t_i32 ftype d (λ v. record d { definition_levels_byte_length = some v })
          p.read_i32 s
      else if id == 6
      then store p t_i32 ftype d (λ v. record d { repetition_levels_byte_length = some v })
          p.read_i32 s
      else if id == 7
      then store p t_bool ftype d (λ v. record d { is_compressed = some v }) p.read_bool s
      else if id == 8
      then store p t_struct ftype d (λ v. record d { statistics = some v }) read_statistics s
      else skip_field p ftype d s

  unfoldable pub read_data_page_header_v2 : S → Outcome (DataPageHeaderV2 × S)
  unfolding data_page_header_v2_field read_struct
  read_data_page_header_v2 =
      read_struct p fuel data_page_header_v2_field new_data_page_header_v2
        checked_data_page_header_v2

  unfoldable pub page_header_field :
      ℕ → WireType → PageHeaderDraft → S → Outcome (PageHeaderDraft × S)
  unfolding read_data_page_header_v2 read_enum
  page_header_field id ftype d s =
      if id == 1
      then store p t_i32 ftype d (λ v. record d { page_type = some v }) (read_enum p page_types) s
      else if id == 2
      then store p t_i32 ftype d (λ v. record d { uncompressed_page_size = some v }) p.read_i32 s
      else if id == 3
      then store p t_i32 ftype d (λ v. record d { compressed_page_size = some v }) p.read_i32 s
      else if id == 4
      then store p t_i32 ftype d (λ v. record d { crc = some v }) p.read_i32 s
      else if id == 5
      then store p t_struct ftype d (λ v. record d { data_page_header = some v })
          (read_nested (text "DataPageHeader")) s
      else if id == 6
      then store p t_struct ftype d (λ v. record d { index_page_header = some v })
          (read_nested (text "IndexPageHeader")) s
      else if id == 7
      then store p t_struct ftype d (λ v. record d { dictionary_page_header = some v })
          (read_nested (text "DictionaryPageHeader")) s
      else if id == 8
      then store p t_struct ftype d (λ v. record d { data_page_header_v2 = some v })
          read_data_page_header_v2 s
      else skip_field p ftype d s

  unfoldable pub read_page_header : S → Outcome (PageHeader × S)
  unfolding page_header_field read_struct
  read_page_header = read_struct p fuel page_header_field new_page_header checked_page_header
