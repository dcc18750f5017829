-- ===== src/Parquet/ReadBack/Footer.antt =====
-- What the `write` of a footer has written, its `read` gives back.
use lanl_vir_parquet.Prelude.{ℕ, ◌<◌, ◌≡◌, refl, some, arith, IfSome, always, if_some}
use lanl_vir_parquet.Prelude.Text.{Text, text}
use lanl_vir_parquet.File.{Outcome, done}
use lanl_vir_parquet.Parquet.Protocol.{t_i16, t_i32, t_i64, t_string, t_struct, t_list}
use lanl_vir_parquet.Parquet.{
  ConvertedType, FieldRepetitionType, Nested, SchemaElement, RowGroup, FileMetaData,
}
use lanl_vir_parquet.Parquet.Write.{
  physical_type_value, converted_type_value, repetition_type_value, write_schema_element,
  write_column_chunk, write_row_group, write_file_meta_data,
}
use lanl_vir_parquet.Parquet.Structs.{IsList}
use lanl_vir_parquet.Parquet.Read.{
  InputProtocol, cast_to, read_enum, read_list, physical_types, converted_types, repetition_types,
}
use lanl_vir_parquet.Parquet.ReadBack.{
  ReadsBack, Reads, enum-Reads, list-Reads, i16-Reads, i32-Reads, i64-Reads, string-Reads,
  binary-Reads, no_field, present, maybe, struct-Reads,
}
use lanl_vir_parquet.Parquet.Read.Columns.{read_column_chunk}
use lanl_vir_parquet.Parquet.Read.Footer.{
  new_schema_element, checked_schema_element, schema_element_field, read_schema_element,
  new_row_group, checked_row_group, row_group_field, read_row_group, new_file_meta_data,
  checked_file_meta_data, file_meta_data_field, read_file_meta_data,
}
use lanl_vir_parquet.Parquet.ReadBack.Columns.{physical_type_named}

pub converted_type_named :
    (e : ConvertedType) → cast_to converted_types (converted_type_value e) ≡ done e
unfolding converted_type_value
converted_type_named ConvertedType.utf8 = refl
converted_type_named ConvertedType.map_type = refl
converted_type_named ConvertedType.map_key_value = refl
converted_type_named ConvertedType.list_type = refl
converted_type_named ConvertedType.enum_type = refl
converted_type_named ConvertedType.decimal = refl
converted_type_named ConvertedType.date = refl
converted_type_named ConvertedType.time_millis = refl
converted_type_named ConvertedType.time_micros = refl
converted_type_named ConvertedType.timestamp_millis = refl
converted_type_named ConvertedType.timestamp_micros = refl
converted_type_named ConvertedType.uint_8 = refl
converted_type_named ConvertedType.uint_16 = refl
converted_type_named ConvertedType.uint_32 = refl
converted_type_named ConvertedType.uint_64 = refl
converted_type_named ConvertedType.int_8 = refl
converted_type_named ConvertedType.int_16 = refl
converted_type_named ConvertedType.int_32 = refl
converted_type_named ConvertedType.int_64 = refl
converted_type_named ConvertedType.json = refl
converted_type_named ConvertedType.bson = refl
converted_type_named ConvertedType.interval = refl

pub repetition_type_named :
    (e : FieldRepetitionType) → cast_to repetition_types (repetition_type_value e) ≡ done e
unfolding repetition_type_value
repetition_type_named FieldRepetitionType.required = refl
repetition_type_named FieldRepetitionType.optional = refl
repetition_type_named FieldRepetitionType.repeated = refl

module _ {S : Type 0} (p : InputProtocol S) (b : ReadsBack p) (fuel : ℕ) (enough : 17 < fuel)
    (read_nested : Text → S → Outcome (Nested × S)) where
  pub write_schema_element-Reads :
      (x : SchemaElement)
      → IfSome (λ c. Reads p b (read_nested (text "LogicalType")) c c) x.logical_type
      → Reads p b (read_schema_element p fuel read_nested) (write_schema_element x) x
  unfolding read_schema_element write_schema_element schema_element_field
  write_schema_element-Reads x logical_type_h =
      let case = schema_element_field p fuel read_nested in
      let d0 = new_schema_element in
      let d1 = record d0 { physical_type = x.physical_type } in
      let d2 = record d1 { type_length = x.type_length } in
      let d3 = record d2 { repetition_type = x.repetition_type } in
      let d4 = record d3 { name = some x.name } in
      let d5 = record d4 { num_children = x.num_children } in
      let d6 = record d5 { converted_type = x.converted_type } in
      let d7 = record d6 { scale = x.scale } in
      let d8 = record d7 { precision = x.precision } in
      let d9 = record d8 { field_id = x.field_id } in
      let d10 = record d9 { logical_type = x.logical_type } in
      struct-Reads p b case 10 _ _ fuel d0 d10 checked_schema_element x
        (maybe p b case 9 _ t_i32 1 _ x.physical_type _ (λ v. record d0 { physical_type = v }) d10
          (read_enum p physical_types) refl
          (always x.physical_type (λ a.
            (enum-Reads p b physical_types (physical_type_value a) a (physical_type_named a))))
          (maybe p b case 8 _ t_i32 2 _ x.type_length _ (λ v. record d1 { type_length = v }) d10
            p.read_i32 refl (always x.type_length (i32-Reads p b))
            (maybe p b case 7 _ t_i32 3 _ x.repetition_type _
              (λ v. record d2 { repetition_type = v }) d10 (read_enum p repetition_types) refl
              (always x.repetition_type (λ a.
                (enum-Reads p b repetition_types (repetition_type_value a) a
                  (repetition_type_named a))))
              (present p b case 6 _ t_string 4 _ _ d3 (λ v. record d3 { name = some v }) d10
                p.read_string x.name refl (string-Reads p b x.name)
                (maybe p b case 5 _ t_i32 5 _ x.num_children _ (λ v. record d4 { num_children = v })
                  d10 p.read_i32 refl (always x.num_children (i32-Reads p b))
                  (maybe p b case 4 _ t_i32 6 _ x.converted_type _
                    (λ v. record d5 { converted_type = v }) d10 (read_enum p converted_types) refl
                    (always x.converted_type (λ a.
                      (enum-Reads p b converted_types (converted_type_value a) a
                        (converted_type_named a))))
                    (maybe p b case 3 _ t_i32 7 _ x.scale _ (λ v. record d6 { scale = v }) d10
                      p.read_i32 refl (always x.scale (i32-Reads p b))
                      (maybe p b case 2 _ t_i32 8 _ x.precision _ (λ v. record d7 { precision = v })
                        d10 p.read_i32 refl (always x.precision (i32-Reads p b))
                        (maybe p b case 1 _ t_i32 9 _ x.field_id _ (λ v. record d8 { field_id = v })
                          d10 p.read_i32 refl (always x.field_id (i32-Reads p b))
                          (maybe p b case 0 _ t_struct 10 _ x.logical_type _
                            (λ v. record d9 { logical_type = v }) d10
                            (read_nested (text "LogicalType")) refl logical_type_h
                            (no_field p b case d10)))))))))))
        refl (omega arith)

  pub write_row_group-Reads :
      (x : RowGroup)
      → IsList
          (λ c. Reads p b (read_column_chunk p fuel read_nested) (write_column_chunk c) c)
          x.columns
      → IfSome (IsList (λ c. Reads p b (read_nested (text "SortingColumn")) c c)) x.sorting_columns
      → Reads p b (read_row_group p fuel read_nested) (write_row_group x) x
  unfolding read_row_group write_row_group row_group_field
  write_row_group-Reads x columns_h sorting_columns_h =
      let case = row_group_field p fuel read_nested in
      let d0 = new_row_group in
      let d1 = record d0 { columns = some x.columns } in
      let d2 = record d1 { total_byte_size = some x.total_byte_size } in
      let d3 = record d2 { num_rows = some x.num_rows } in
      let d4 = record d3 { sorting_columns = x.sorting_columns } in
      let d5 = record d4 { file_offset = x.file_offset } in
      let d6 = record d5 { total_compressed_size = x.total_compressed_size } in
      let d7 = record d6 { ordinal = x.ordinal } in
      struct-Reads p b case 7 _ _ fuel d0 d7 checked_row_group x
        (present p b case 6 _ t_list 1 _ _ d0 (λ v. record d0 { columns = some v }) d7
          (read_list p (read_column_chunk p fuel read_nested)) x.columns refl
          (list-Reads p b t_struct (read_column_chunk p fuel read_nested) _ x.columns columns_h.0
            columns_h.1)
          (present p b case 5 _ t_i64 2 _ _ d1 (λ v. record d1 { total_byte_size = some v }) d7
            p.read_i64 x.total_byte_size refl (i64-Reads p b x.total_byte_size)
            (present p b case 4 _ t_i64 3 _ _ d2 (λ v. record d2 { num_rows = some v }) d7
              p.read_i64 x.num_rows refl (i64-Reads p b x.num_rows)
              (maybe p b case 3 _ t_list 4 _ x.sorting_columns _
                (λ v. record d3 { sorting_columns = v }) d7
                (read_list p (read_nested (text "SortingColumn"))) refl
                (if_some x.sorting_columns sorting_columns_h
                  (λ a h. list-Reads p b t_struct (read_nested (text "SortingColumn")) _ a h.0 h.1))
                (maybe p b case 2 _ t_i64 5 _ x.file_offset _ (λ v. record d4 { file_offset = v })
                  d7 p.read_i64 refl (always x.file_offset (i64-Reads p b))
                  (maybe p b case 1 _ t_i64 6 _ x.total_compressed_size _
                    (λ v. record d5 { total_compressed_size = v }) d7 p.read_i64 refl
                    (always x.total_compressed_size (i64-Reads p b))
                    (maybe p b case 0 _ t_i16 7 _ x.ordinal _ (λ v. record d6 { ordinal = v }) d7
                      p.read_i16 refl (always x.ordinal (i16-Reads p b))
                      (no_field p b case d7))))))))
        refl (omega arith)

  pub write_file_meta_data-Reads :
      (x : FileMetaData)
      → IsList
          (λ c. Reads p b (read_schema_element p fuel read_nested) (write_schema_element c) c)
          x.schema
      → IsList
          (λ c. Reads p b (read_row_group p fuel read_nested) (write_row_group c) c)
          x.row_groups
      → IfSome (IsList (λ c. Reads p b (read_nested (text "KeyValue")) c c)) x.key_value_metadata
      → IfSome (IsList (λ c. Reads p b (read_nested (text "ColumnOrder")) c c)) x.column_orders
      → IfSome
          (λ c. Reads p b (read_nested (text "EncryptionAlgorithm")) c c)
          x.encryption_algorithm
      → Reads p b (read_file_meta_data p fuel read_nested) (write_file_meta_data x) x
  unfolding read_file_meta_data write_file_meta_data file_meta_data_field
  write_file_meta_data-Reads x schema_h row_groups_h key_value_metadata_h column_orders_h
        encryption_algorithm_h =
      let case = file_meta_data_field p fuel read_nested in
      let d0 = new_file_meta_data in
      let d1 = record d0 { version = some x.version } in
      let d2 = record d1 { schema = some x.schema } in
      let d3 = record d2 { num_rows = some x.num_rows } in
      let d4 = record d3 { row_groups = some x.row_groups } in
      let d5 = record d4 { key_value_metadata = x.key_value_metadata } in
      let d6 = record d5 { created_by = x.created_by } in
      let d7 = record d6 { column_orders = x.column_orders } in
      let d8 = record d7 { encryption_algorithm = x.encryption_algorithm } in
      let d9 = record d8 { footer_signing_key_metadata = x.footer_signing_key_metadata } in
      struct-Reads p b case 9 _ _ fuel d0 d9 checked_file_meta_data x
        (present p b case 8 _ t_i32 1 _ _ d0 (λ v. record d0 { version = some v }) d9 p.read_i32
          x.version refl (i32-Reads p b x.version)
          (present p b case 7 _ t_list 2 _ _ d1 (λ v. record d1 { schema = some v }) d9
            (read_list p (read_schema_element p fuel read_nested)) x.schema refl
            (list-Reads p b t_struct (read_schema_element p fuel read_nested) _ x.schema schema_h.0
              schema_h.1)
            (present p b case 6 _ t_i64 3 _ _ d2 (λ v. record d2 { num_rows = some v }) d9
              p.read_i64 x.num_rows refl (i64-Reads p b x.num_rows)
              (present p b case 5 _ t_list 4 _ _ d3 (λ v. record d3 { row_groups = some v }) d9
                (read_list p (read_row_group p fuel read_nested)) x.row_groups refl
                (list-Reads p b t_struct (read_row_group p fuel read_nested) _ x.row_groups
                  row_groups_h.0 row_groups_h.1)
                (maybe p b case 4 _ t_list 5 _ x.key_value_metadata _
                  (λ v. record d4 { key_value_metadata = v }) d9
                  (read_list p (read_nested (text "KeyValue"))) refl
                  (if_some x.key_value_metadata key_value_metadata_h
                    (λ a h. list-Reads p b t_struct (read_nested (text "KeyValue")) _ a h.0 h.1))
                  (maybe p b case 3 _ t_string 6 _ x.created_by _
                    (λ v. record d5 { created_by = v }) d9 p.read_string refl
                    (always x.created_by (string-Reads p b))
                    (maybe p b case 2 _ t_list 7 _ x.column_orders _
                      (λ v. record d6 { column_orders = v }) d9
                      (read_list p (read_nested (text "ColumnOrder"))) refl
                      (if_some x.column_orders column_orders_h (λ a h.
                        list-Reads p b t_struct (read_nested (text "ColumnOrder")) _ a h.0 h.1))
                      (maybe p b case 1 _ t_struct 8 _ x.encryption_algorithm _
                        (λ v. record d7 { encryption_algorithm = v }) d9
                        (read_nested (text "EncryptionAlgorithm")) refl encryption_algorithm_h
                        (maybe p b case 0 _ t_string 9 _ x.footer_signing_key_metadata _
                          (λ v. record d8 { footer_signing_key_metadata = v }) d9 p.read_binary refl
                          (always x.footer_signing_key_metadata (binary-Reads p b))
                          (no_field p b case d9))))))))))
        refl (omega arith)
