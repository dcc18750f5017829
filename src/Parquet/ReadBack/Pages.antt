-- ===== src/Parquet/ReadBack/Pages.antt =====
-- What the `write` of a page header has written, its `read` gives back.
use lanl_vir_parquet.Prelude.{ℕ, ◌<◌, ◌≡◌, refl, some, arith, IfSome, IsGiven, if_some, always}
use lanl_vir_parquet.Prelude.Text.{Text, text}
use lanl_vir_parquet.File.{Outcome, done}
use lanl_vir_parquet.Parquet.Protocol.{t_bool, t_i32, t_i64, t_string, t_struct}
use lanl_vir_parquet.Parquet.{Encoding, PageType, Nested, Statistics, DataPageHeaderV2, PageHeader}
use lanl_vir_parquet.Parquet.Write.{
  encoding_value, page_type_value, write_statistics, write_data_page_header_v2, write_page_header,
}
use lanl_vir_parquet.Parquet.Read.{
  InputProtocol, cast_to, read_enum, encodings_by_number, page_types,
}
use lanl_vir_parquet.Parquet.Read.Pages.{
  new_statistics, statistics_field, read_statistics, new_data_page_header_v2,
  checked_data_page_header_v2, data_page_header_v2_field, read_data_page_header_v2, new_page_header,
  checked_page_header, page_header_field, read_page_header,
}
use lanl_vir_parquet.Parquet.ReadBack.{
  ReadsBack, Reads, enum-Reads, bool-Reads, i32-Reads, i64-Reads, binary-Reads, no_field, present,
  maybe, set_field, struct-Reads,
}

pub encoding_named : (e : Encoding) → cast_to encodings_by_number (encoding_value e) ≡ done e
unfolding encoding_value
encoding_named Encoding.plain = refl
encoding_named Encoding.plain_dictionary = refl
encoding_named Encoding.rle = refl
encoding_named Encoding.bit_packed = refl
encoding_named Encoding.delta_binary_packed = refl
encoding_named Encoding.delta_length_byte_array = refl
encoding_named Encoding.delta_byte_array = refl
encoding_named Encoding.rle_dictionary = refl
encoding_named Encoding.byte_stream_split = refl

pub page_type_named : (e : PageType) → cast_to page_types (page_type_value e) ≡ done e
unfolding page_type_value
page_type_named PageType.data_page = refl
page_type_named PageType.index_page = refl
page_type_named PageType.dictionary_page = refl
page_type_named PageType.data_page_v2 = refl

module _ {S : Type 0} (p : InputProtocol S) (b : ReadsBack p) (fuel : ℕ) (enough : 17 < fuel)
    (read_nested : Text → S → Outcome (Nested × S)) where
  pub write_statistics-Reads :
      (x : Statistics) → Reads p b (read_statistics p fuel read_nested) (write_statistics x) x
  unfolding read_statistics write_statistics statistics_field
  write_statistics-Reads x =
      let case = statistics_field p fuel read_nested in
      let d0 = new_statistics in
      let d1 = record d0 { max = x.max } in
      let d2 = record d1 { min = x.min } in
      let d3 = record d2 { null_count = x.null_count } in
      let d4 = record d3 { distinct_count = x.distinct_count } in
      let d5 = record d4 { max_value = x.max_value } in
      let d6 = record d5 { min_value = x.min_value } in
      let d7 = record d6 { is_max_value_exact = x.is_max_value_exact } in
      let d8 = record d7 { is_min_value_exact = x.is_min_value_exact } in
      struct-Reads p b case 8 _ _ fuel d0 d8 done x
        (maybe p b case 7 _ t_string 1 _ x.max _ (λ v. record d0 { max = v }) d8 p.read_binary refl
          (always x.max (binary-Reads p b))
          (maybe p b case 6 _ t_string 2 _ x.min _ (λ v. record d1 { min = v }) d8 p.read_binary
            refl (always x.min (binary-Reads p b))
            (maybe p b case 5 _ t_i64 3 _ x.null_count _ (λ v. record d2 { null_count = v }) d8
              p.read_i64 refl (always x.null_count (i64-Reads p b))
              (maybe p b case 4 _ t_i64 4 _ x.distinct_count _
                (λ v. record d3 { distinct_count = v }) d8 p.read_i64 refl
                (always x.distinct_count (i64-Reads p b))
                (maybe p b case 3 _ t_string 5 _ x.max_value _ (λ v. record d4 { max_value = v }) d8
                  p.read_binary refl (always x.max_value (binary-Reads p b))
                  (maybe p b case 2 _ t_string 6 _ x.min_value _ (λ v. record d5 { min_value = v })
                    d8 p.read_binary refl (always x.min_value (binary-Reads p b))
                    (maybe p b case 1 _ t_bool 7 _ x.is_max_value_exact _
                      (λ v. record d6 { is_max_value_exact = v }) d8 p.read_bool refl
                      (always x.is_max_value_exact (bool-Reads p b))
                      (maybe p b case 0 _ t_bool 8 _ x.is_min_value_exact _
                        (λ v. record d7 { is_min_value_exact = v }) d8 p.read_bool refl
                        (always x.is_min_value_exact (bool-Reads p b))
                        (no_field p b case d8)))))))))
        refl (omega arith)

  pub write_data_page_header_v2-Reads :
      (x : DataPageHeaderV2)
      → IsGiven x.is_compressed
      → Reads p b (read_data_page_header_v2 p fuel read_nested) (write_data_page_header_v2 x) x
  unfolding read_data_page_header_v2 write_data_page_header_v2 data_page_header_v2_field
  write_data_page_header_v2-Reads x is_set =
      let case = data_page_header_v2_field p fuel read_nested in
      let d0 = new_data_page_header_v2 in
      let d1 = record d0 { num_values = some x.num_values } in
      let d2 = record d1 { num_nulls = some x.num_nulls } in
      let d3 = record d2 { num_rows = some x.num_rows } in
      let d4 = record d3 { encoding = some x.encoding } in
      let d5 = record d4 { definition_levels_byte_length = some x.definition_levels_byte_length } in
      let d6 = record d5 { repetition_levels_byte_length = some x.repetition_levels_byte_length } in
      let d7 = record d6 { is_compressed = x.is_compressed } in
      let d8 = record d7 { statistics = x.statistics } in
      struct-Reads p b case 8 _ _ fuel d0 d8 checked_data_page_header_v2 x
        (present p b case 7 _ t_i32 1 _ _ d0 (λ v. record d0 { num_values = some v }) d8 p.read_i32
          x.num_values refl (i32-Reads p b x.num_values)
          (present p b case 6 _ t_i32 2 _ _ d1 (λ v. record d1 { num_nulls = some v }) d8 p.read_i32
            x.num_nulls refl (i32-Reads p b x.num_nulls)
            (present p b case 5 _ t_i32 3 _ _ d2 (λ v. record d2 { num_rows = some v }) d8
              p.read_i32 x.num_rows refl (i32-Reads p b x.num_rows)
              (present p b case 4 _ t_i32 4 _ _ d3 (λ v. record d3 { encoding = some v }) d8
                (read_enum p encodings_by_number) x.encoding refl
                (enum-Reads p b encodings_by_number (encoding_value x.encoding) x.encoding
                  (encoding_named x.encoding))
                (present p b case 3 _ t_i32 5 _ _ d4
                  (λ v. record d4 { definition_levels_byte_length = some v }) d8 p.read_i32
                  x.definition_levels_byte_length refl
                  (i32-Reads p b x.definition_levels_byte_length)
                  (present p b case 2 _ t_i32 6 _ _ d5
                    (λ v. record d5 { repetition_levels_byte_length = some v }) d8 p.read_i32
                    x.repetition_levels_byte_length refl
                    (i32-Reads p b x.repetition_levels_byte_length)
                    (set_field p b case 1 _ t_bool 7 _ x.is_compressed _ d6
                      (λ v. record d6 { is_compressed = v }) d8 p.read_bool is_set refl
                      (always x.is_compressed (bool-Reads p b))
                      (maybe p b case 0 _ t_struct 8 _ x.statistics _
                        (λ v. record d7 { statistics = v }) d8 (read_statistics p fuel read_nested)
                        refl (always x.statistics (write_statistics-Reads))
                        (no_field p b case d8)))))))))
        refl (omega arith)

  -- A header in which is_compressed is not set would be read as one in which it is true.
  pub write_page_header-Reads :
      (x : PageHeader)
      → IfSome (λ c. Reads p b (read_nested (text "DataPageHeader")) c c) x.data_page_header
      → IfSome (λ c. Reads p b (read_nested (text "IndexPageHeader")) c c) x.index_page_header
      → IfSome
          (λ c. Reads p b (read_nested (text "DictionaryPageHeader")) c c)
          x.dictionary_page_header
      → IfSome (λ v2. IsGiven v2.is_compressed) x.data_page_header_v2
      → Reads p b (read_page_header p fuel read_nested) (write_page_header x) x
  unfolding read_page_header write_page_header page_header_field
  write_page_header-Reads x data_page_header_h index_page_header_h dictionary_page_header_h is_set =
      let case = page_header_field p fuel read_nested in
      let d0 = new_page_header in
      let d1 = record d0 { page_type = some x.page_type } in
      let d2 = record d1 { uncompressed_page_size = some x.uncompressed_page_size } in
      let d3 = record d2 { compressed_page_size = some x.compressed_page_size } in
      let d4 = record d3 { crc = x.crc } in
      let d5 = record d4 { data_page_header = x.data_page_header } in
      let d6 = record d5 { index_page_header = x.index_page_header } in
      let d7 = record d6 { dictionary_page_header = x.dictionary_page_header } in
      let d8 = record d7 { data_page_header_v2 = x.data_page_header_v2 } in
      struct-Reads p b case 8 _ _ fuel d0 d8 checked_page_header x
        (present p b case 7 _ t_i32 1 _ _ d0 (λ v. record d0 { page_type = some v }) d8
          (read_enum p page_types) x.page_type refl
          (enum-Reads p b page_types (page_type_value x.page_type) x.page_type
            (page_type_named x.page_type))
          (present p b case 6 _ t_i32 2 _ _ d1 (λ v. record d1 { uncompressed_page_size = some v })
            d8 p.read_i32 x.uncompressed_page_size refl (i32-Reads p b x.uncompressed_page_size)
            (present p b case 5 _ t_i32 3 _ _ d2 (λ v. record d2 { compressed_page_size = some v })
              d8 p.read_i32 x.compressed_page_size refl (i32-Reads p b x.compressed_page_size)
              (maybe p b case 4 _ t_i32 4 _ x.crc _ (λ v. record d3 { crc = v }) d8 p.read_i32 refl
                (always x.crc (i32-Reads p b))
                (maybe p b case 3 _ t_struct 5 _ x.data_page_header _
                  (λ v. record d4 { data_page_header = v }) d8 (read_nested (text "DataPageHeader"))
                  refl data_page_header_h
                  (maybe p b case 2 _ t_struct 6 _ x.index_page_header _
                    (λ v. record d5 { index_page_header = v }) d8
                    (read_nested (text "IndexPageHeader")) refl index_page_header_h
                    (maybe p b case 1 _ t_struct 7 _ x.dictionary_page_header _
                      (λ v. record d6 { dictionary_page_header = v }) d8
                      (read_nested (text "DictionaryPageHeader")) refl dictionary_page_header_h
                      (maybe p b case 0 _ t_struct 8 _ x.data_page_header_v2 _
                        (λ v. record d7 { data_page_header_v2 = v }) d8
                        (read_data_page_header_v2 p fuel read_nested) refl
                        (if_some x.data_page_header_v2 is_set (write_data_page_header_v2-Reads))
                        (no_field p b case d8)))))))))
        refl (omega arith)
