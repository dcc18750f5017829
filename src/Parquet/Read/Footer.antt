-- ===== src/Parquet/Read/Footer.antt =====
-- gen-cpp/parquet_types.cpp: the `read` methods of what a footer is made of, above its columns.
use lanl_vir_parquet.Prelude.{ℕ, List, Option, none, some, ◌==◌, if◌then◌else◌}
use lanl_vir_parquet.Prelude.Int.{ℤ}
use lanl_vir_parquet.Prelude.Text.{Text, text}
use lanl_vir_parquet.File.{Outcome, done, ◌>>=◌}
use lanl_vir_parquet.Parquet.Protocol.{WireType, t_i16, t_i32, t_i64, t_string, t_struct, t_list}
use lanl_vir_parquet.Parquet.{
  PhysicalType, ConvertedType, FieldRepetitionType, Nested, SchemaElement, ColumnChunk, RowGroup,
  FileMetaData,
}
use lanl_vir_parquet.Parquet.Read.{
  InputProtocol, require, read_enum, read_list, store, skip_field, read_struct, physical_types,
  converted_types, repetition_types,
}
use lanl_vir_parquet.Parquet.Read.Columns.{read_column_chunk}

-- SchemaElement while it is read: a required field is `none` while its `isset_` variable is false.
pub record SchemaElementDraft : Type 0 where
  pub physical_type : Option PhysicalType
  pub type_length : Option ℤ
  pub repetition_type : Option FieldRepetitionType
  pub name : Option Text
  pub num_children : Option ℤ
  pub converted_type : Option ConvertedType
  pub scale : Option ℤ
  pub precision : Option ℤ
  pub field_id : Option ℤ
  pub logical_type : Option Nested

abbrev pub new_schema_element : SchemaElementDraft
new_schema_element = record {
  physical_type = none;
  type_length = none;
  repetition_type = none;
  name = none;
  num_children = none;
  converted_type = none;
  scale = none;
  precision = none;
  field_id = none;
  logical_type = none;
}

abbrev pub checked_schema_element : SchemaElementDraft → Outcome SchemaElement
checked_schema_element d = require d.name >>= λ name. done (record {
  physical_type = d.physical_type;
  type_length = d.type_length;
  repetition_type = d.repetition_type;
  name = name;
  num_children = d.num_children;
  converted_type = d.converted_type;
  scale = d.scale;
  precision = d.precision;
  field_id = d.field_id;
  logical_type = d.logical_type;
})

-- RowGroup while it is read: a required field is `none` while its `isset_` variable is false.
pub record RowGroupDraft : Type 0 where
  pub columns : Option (List ColumnChunk)
  pub total_byte_size : Option ℤ
  pub num_rows : Option ℤ
  pub sorting_columns : Option (List Nested)
  pub file_offset : Option ℤ
  pub total_compressed_size : Option ℤ
  pub ordinal : Option ℤ

abbrev pub new_row_group : RowGroupDraft
new_row_group = record {
  columns = none;
  total_byte_size = none;
  num_rows = none;
  sorting_columns = none;
  file_offset = none;
  total_compressed_size = none;
  ordinal = none;
}

abbrev pub checked_row_group : RowGroupDraft → Outcome RowGroup
checked_row_group d = require d.columns >>= λ columns.
    require d.total_byte_size >>= λ total_byte_size. require d.num_rows >>= λ num_rows.
    done (record {
      columns = columns;
      total_byte_size = total_byte_size;
      num_rows = num_rows;
      sorting_columns = d.sorting_columns;
      file_offset = d.file_offset;
      total_compressed_size = d.total_compressed_size;
      ordinal = d.ordinal;
    })

-- FileMetaData while it is read: a required field is `none` while its `isset_` variable is false.
pub record FileMetaDataDraft : Type 0 where
  pub version : Option ℤ
  pub schema : Option (List SchemaElement)
  pub num_rows : Option ℤ
  pub row_groups : Option (List RowGroup)
  pub key_value_metadata : Option (List Nested)
  pub created_by : Option Text
  pub column_orders : Option (List Nested)
  pub encryption_algorithm : Option Nested
  pub footer_signing_key_metadata : Option (List ℕ)

abbrev pub new_file_meta_data : FileMetaDataDraft
new_file_meta_data = record {
  version = none;
  schema = none;
  num_rows = none;
  row_groups = none;
  key_value_metadata = none;
  created_by = none;
  column_orders = none;
  encryption_algorithm = none;
  footer_signing_key_metadata = none;
}

abbrev pub checked_file_meta_data : FileMetaDataDraft → Outcome FileMetaData
checked_file_meta_data d = require d.version >>= λ version. require d.schema >>= λ schema.
    require d.num_rows >>= λ num_rows. require d.row_groups >>= λ row_groups. done (record {
      version = version;
      schema = schema;
      num_rows = num_rows;
      row_groups = row_groups;
      key_value_metadata = d.key_value_metadata;
      created_by = d.created_by;
      column_orders = d.column_orders;
      encryption_algorithm = d.encryption_algorithm;
      footer_signing_key_metadata = d.footer_signing_key_metadata;
    })

module _ {S : Type 0} (p : InputProtocol S) (fuel : ℕ)
    (read_nested : Text → S → Outcome (Nested × S)) where
  unfoldable pub schema_element_field :
      ℕ → WireType → SchemaElementDraft → S → Outcome (SchemaElementDraft × S)
  unfolding read_enum
  schema_element_field id ftype d s =
      if id == 1
      then store p t_i32 ftype d (λ v. record d { physical_type = some v })
          (read_enum p physical_types) s
      else if id == 2
      then store p t_i32 ftype d (λ v. record d { type_length = some v }) p.read_i32 s
      else if id == 3
      then store p t_i32 ftype d (λ v. record d { repetition_type = some v })
          (read_enum p repetition_types) s
      else if id == 4
      then store p t_string ftype d (λ v. record d { name = some v }) p.read_string s
      else if id == 5
      then store p t_i32 ftype d (λ v. record d { num_children = some v }) p.read_i32 s
      else if id == 6
      then store p t_i32 ftype d (λ v. record d { converted_type = some v })
          (read_enum p converted_types) s
      else if id == 7
      then store p t_i32 ftype d (λ v. record d { scale = some v }) p.read_i32 s
      else if id == 8
      then store p t_i32 ftype d (λ v. record d { precision = some v }) p.read_i32 s
      else if id == 9
      then store p t_i32 ftype d (λ v. record d { field_id = some v }) p.read_i32 s
      else if id == 10
      then store p t_struct ftype d (λ v. record d { logical_type = some v })
          (read_nested (text "LogicalType")) s
      else skip_field p ftype d s

  unfoldable pub read_schema_element : S → Outcome (SchemaElement × S)
  unfolding schema_element_field read_struct
  read_schema_element =
      read_struct p fuel schema_element_field new_schema_element checked_schema_element

  unfoldable pub row_group_field : ℕ → WireType → RowGroupDraft → S → Outcome (RowGroupDraft × S)
  unfolding read_column_chunk read_list
  row_group_field id ftype d s =
      if id == 1
      then store p t_list ftype d (λ v. record d { columns = some v })
          (read_list p (read_column_chunk p fuel read_nested)) s
      else if id == 2
      then store p t_i64 ftype d (λ v. record d { total_byte_size = some v }) p.read_i64 s
      else if id == 3
      then store p t_i64 ftype d (λ v. record d { num_rows = some v }) p.read_i64 s
      else if id == 4
      then store p t_list ftype d (λ v. record d { sorting_columns = some v })
          (read_list p (read_nested (text "SortingColumn"))) s
      else if id == 5
      then store p t_i64 ftype d (λ v. record d { file_offset = some v }) p.read_i64 s
      else if id == 6
      then store p t_i64 ftype d (λ v. record d { total_compressed_size = some v }) p.read_i64 s
      else if id == 7
      then store p t_i16 ftype d (λ v. record d { ordinal = some v }) p.read_i16 s
      else skip_field p ftype d s

  unfoldable pub read_row_group : S → Outcome (RowGroup × S)
  unfolding row_group_field read_struct
  read_row_group = read_struct p fuel row_group_field new_row_group checked_row_group

  unfoldable pub file_meta_data_field :
      ℕ → WireType → FileMetaDataDraft → S → Outcome (FileMetaDataDraft × S)
  unfolding read_list read_row_group read_schema_element
  file_meta_data_field id ftype d s =
      if id == 1
      then store p t_i32 ftype d (λ v. record d { version = some v }) p.read_i32 s
      else if id == 2
      then store p t_list ftype d (λ v. record d { schema = some v })
          (read_list p read_schema_element) s
      else if id == 3
      then store p t_i64 ftype d (λ v. record d { num_rows = some v }) p.read_i64 s
      else if id == 4
      then store p t_list ftype d (λ v. record d { row_groups = some v })
          (read_list p read_row_group) s
      else if id == 5
      then store p t_list ftype d (λ v. record d { key_value_metadata = some v })
          (read_list p (read_nested (text "KeyValue"))) s
      else if id == 6
      then store p t_string ftype d (λ v. record d { created_by = some v }) p.read_string s
      else if id == 7
      then store p t_list ftype d (λ v. record d { column_orders = some v })
          (read_list p (read_nested (text "ColumnOrder"))) s
      else if id == 8
      then store p t_struct ftype d (λ v. record d { encryption_algorithm = some v })
          (read_nested (text "EncryptionAlgorithm")) s
      else if id == 9
      then store p t_string ftype d (λ v. record d { footer_signing_key_metadata = some v })
          p.read_binary s
      else skip_field p ftype d s

  unfoldable pub read_file_meta_data : S → Outcome (FileMetaData × S)
  unfolding file_meta_data_field read_struct
  read_file_meta_data =
      read_struct p fuel file_meta_data_field new_file_meta_data checked_file_meta_data
