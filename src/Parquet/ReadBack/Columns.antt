-- ===== src/Parquet/ReadBack/Columns.antt =====
-- What the `write` of a column has written, its `read` gives back.
use lanl_vir_parquet.Prelude.{
  ℕ, ◌<◌, ◌≡◌, refl, some, arith, length, u32_mod, IfSome, always, all, if_some,
}
use lanl_vir_parquet.Prelude.Text.{Text, text}
use lanl_vir_parquet.File.{Outcome, done}
use lanl_vir_parquet.Parquet.Protocol.{t_i32, t_i64, t_string, t_struct, t_list}
use lanl_vir_parquet.Parquet.{PhysicalType, CompressionCodec, Nested, ColumnMetaData, ColumnChunk}
use lanl_vir_parquet.Parquet.Write.{
  physical_type_value, encoding_value, codec_value, write_column_meta_data, write_column_chunk,
}
use lanl_vir_parquet.Parquet.Structs.{IsList}
use lanl_vir_parquet.Parquet.Read.{
  InputProtocol, cast_to, read_enum, read_list, physical_types, encodings_by_number, codecs,
}
use lanl_vir_parquet.Parquet.Read.Pages.{read_statistics}
use lanl_vir_parquet.Parquet.ReadBack.{
  ReadsBack, Reads, enum-Reads, list-Reads, i32-Reads, i64-Reads, string-Reads, binary-Reads,
  no_field, present, maybe, struct-Reads,
}
use lanl_vir_parquet.Parquet.Read.Columns.{
  new_column_meta_data, checked_column_meta_data, column_meta_data_field, read_column_meta_data,
  new_column_chunk, checked_column_chunk, column_chunk_field, read_column_chunk,
}
use lanl_vir_parquet.Parquet.ReadBack.Pages.{encoding_named, write_statistics-Reads}

pub physical_type_named :
    (e : PhysicalType) → cast_to physical_types (physical_type_value e) ≡ done e
unfolding physical_type_value
physical_type_named PhysicalType.boolean = refl
physical_type_named PhysicalType.int32 = refl
physical_type_named PhysicalType.int64 = refl
physical_type_named PhysicalType.int96 = refl
physical_type_named PhysicalType.float = refl
physical_type_named PhysicalType.double = refl
physical_type_named PhysicalType.byte_array = refl
physical_type_named PhysicalType.fixed_len_byte_array = refl

pub codec_named : (e : CompressionCodec) → cast_to codecs (codec_value e) ≡ done e
unfolding codec_value
codec_named CompressionCodec.uncompressed = refl
codec_named CompressionCodec.snappy = refl
codec_named CompressionCodec.gzip = refl
codec_named CompressionCodec.lzo = refl
codec_named CompressionCodec.brotli = refl
codec_named CompressionCodec.lz4 = refl
codec_named CompressionCodec.zstd = refl
codec_named CompressionCodec.lz4_raw = refl

module _ {S : Type 0} (p : InputProtocol S) (b : ReadsBack p) (fuel : ℕ) (enough : 17 < fuel)
    (read_nested : Text → S → Outcome (Nested × S)) where
  pub write_column_meta_data-Reads :
      (x : ColumnMetaData)
      → length x.encodings < u32_mod
      → length x.path_in_schema < u32_mod
      → IfSome (IsList (λ c. Reads p b (read_nested (text "KeyValue")) c c)) x.key_value_metadata
      → IfSome
          (IsList (λ c. Reads p b (read_nested (text "PageEncodingStats")) c c))
          x.encoding_stats
      → IfSome (λ c. Reads p b (read_nested (text "SizeStatistics")) c c) x.size_statistics
      → IfSome
          (λ c. Reads p b (read_nested (text "GeospatialStatistics")) c c)
          x.geospatial_statistics
      → Reads p b (read_column_meta_data p fuel read_nested) (write_column_meta_data x) x
  unfolding read_column_meta_data write_column_meta_data column_meta_data_field
  write_column_meta_data-Reads x encodings_h path_in_schema_h key_value_metadata_h encoding_stats_h
        size_statistics_h geospatial_statistics_h =
      let case = column_meta_data_field p fuel read_nested in
      let d0 = new_column_meta_data in
      let d1 = record d0 { physical_type = some x.physical_type } in
      let d2 = record d1 { encodings = some x.encodings } in
      let d3 = record d2 { path_in_schema = some x.path_in_schema } in
      let d4 = record d3 { codec = some x.codec } in
      let d5 = record d4 { num_values = some x.num_values } in
      let d6 = record d5 { total_uncompressed_size = some x.total_uncompressed_size } in
      let d7 = record d6 { total_compressed_size = some x.total_compressed_size } in
      let d8 = record d7 { key_value_metadata = x.key_value_metadata } in
      let d9 = record d8 { data_page_offset = some x.data_page_offset } in
      let d10 = record d9 { index_page_offset = x.index_page_offset } in
      let d11 = record d10 { dictionary_page_offset = x.dictionary_page_offset } in
      let d12 = record d11 { statistics = x.statistics } in
      let d13 = record d12 { encoding_stats = x.encoding_stats } in
      let d14 = record d13 { bloom_filter_offset = x.bloom_filter_offset } in
      let d15 = record d14 { bloom_filter_length = x.bloom_filter_length } in
      let d16 = record d15 { size_statistics = x.size_statistics } in
      let d17 = record d16 { geospatial_statistics = x.geospatial_statistics } in
      struct-Reads p b case 17 _ _ fuel d0 d17 checked_column_meta_data x
        (present p b case 16 _ t_i32 1 _ _ d0 (λ v. record d0 { physical_type = some v }) d17
          (read_enum p physical_types) x.physical_type refl
          (enum-Reads p b physical_types (physical_type_value x.physical_type) x.physical_type
            (physical_type_named x.physical_type))
          (present p b case 15 _ t_list 2 _ _ d1 (λ v. record d1 { encodings = some v }) d17
            (read_list p (read_enum p encodings_by_number)) x.encodings refl
            (list-Reads p b t_i32 (read_enum p encodings_by_number) _ x.encodings encodings_h (
              all x.encodings (λ v.
                (enum-Reads p b encodings_by_number (encoding_value v) v (encoding_named v)))))
            (present p b case 14 _ t_list 3 _ _ d2 (λ v. record d2 { path_in_schema = some v }) d17
              (read_list p p.read_string) x.path_in_schema refl
              (list-Reads p b t_string p.read_string _ x.path_in_schema path_in_schema_h
                (all x.path_in_schema (λ v. (string-Reads p b v))))
              (present p b case 13 _ t_i32 4 _ _ d3 (λ v. record d3 { codec = some v }) d17
                (read_enum p codecs) x.codec refl
                (enum-Reads p b codecs (codec_value x.codec) x.codec (codec_named x.codec))
                (present p b case 12 _ t_i64 5 _ _ d4 (λ v. record d4 { num_values = some v }) d17
                  p.read_i64 x.num_values refl (i64-Reads p b x.num_values)
                  (present p b case 11 _ t_i64 6 _ _ d5
                    (λ v. record d5 { total_uncompressed_size = some v }) d17 p.read_i64
                    x.total_uncompressed_size refl (i64-Reads p b x.total_uncompressed_size)
                    (present p b case 10 _ t_i64 7 _ _ d6
                      (λ v. record d6 { total_compressed_size = some v }) d17 p.read_i64
                      x.total_compressed_size refl (i64-Reads p b x.total_compressed_size)
                      (maybe p b case 9 _ t_list 8 _ x.key_value_metadata _
                        (λ v. record d7 { key_value_metadata = v }) d17
                        (read_list p (read_nested (text "KeyValue"))) refl
                        (if_some x.key_value_metadata key_value_metadata_h (λ a h.
                          list-Reads p b t_struct (read_nested (text "KeyValue")) _ a h.0 h.1))
                        (present p b case 8 _ t_i64 9 _ _ d8
                          (λ v. record d8 { data_page_offset = some v }) d17 p.read_i64
                          x.data_page_offset refl (i64-Reads p b x.data_page_offset)
                          (maybe p b case 7 _ t_i64 10 _ x.index_page_offset _
                            (λ v. record d9 { index_page_offset = v }) d17 p.read_i64 refl
                            (always x.index_page_offset (i64-Reads p b))
                            (maybe p b case 6 _ t_i64 11 _ x.dictionary_page_offset _
                              (λ v. record d10 { dictionary_page_offset = v }) d17 p.read_i64 refl
                              (always x.dictionary_page_offset (i64-Reads p b))
                              (maybe p b case 5 _ t_struct 12 _ x.statistics _
                                (λ v. record d11 { statistics = v }) d17
                                (read_statistics p fuel read_nested) refl
                                (always x.statistics
                                  (write_statistics-Reads p b fuel enough read_nested))
                                (maybe p b case 4 _ t_list 13 _ x.encoding_stats _
                                  (λ v. record d12 { encoding_stats = v }) d17
                                  (read_list p (read_nested (text "PageEncodingStats"))) refl
                                  (if_some x.encoding_stats encoding_stats_h (λ a h.
                                    list-Reads p b t_struct (read_nested (text "PageEncodingStats"))
                                      _ a h.0 h.1))
                                  (maybe p b case 3 _ t_i64 14 _ x.bloom_filter_offset _
                                    (λ v. record d13 { bloom_filter_offset = v }) d17 p.read_i64
                                    refl (always x.bloom_filter_offset (i64-Reads p b))
                                    (maybe p b case 2 _ t_i32 15 _ x.bloom_filter_length _
                                      (λ v. record d14 { bloom_filter_length = v }) d17 p.read_i32
                                      refl (always x.bloom_filter_length (i32-Reads p b))
                                      (maybe p b case 1 _ t_struct 16 _ x.size_statistics _
                                        (λ v. record d15 { size_statistics = v }) d17
                                        (read_nested (text "SizeStatistics")) refl size_statistics_h
                                        (maybe p b case 0 _ t_struct 17 _ x.geospatial_statistics _
                                          (λ v. record d16 { geospatial_statistics = v }) d17
                                          (read_nested (text "GeospatialStatistics")) refl
                                          geospatial_statistics_h
                                          (no_field p b case d17))))))))))))))))))
        refl (omega arith)

  pub write_column_chunk-Reads :
      (x : ColumnChunk)
      → IfSome
          (λ c. Reads p b (read_column_meta_data p fuel read_nested) (write_column_meta_data c) c)
          x.meta_data
      → IfSome (λ c. Reads p b (read_nested (text "ColumnCryptoMetaData")) c c) x.crypto_metadata
      → Reads p b (read_column_chunk p fuel read_nested) (write_column_chunk x) x
  unfolding read_column_chunk write_column_chunk column_chunk_field
  write_column_chunk-Reads x meta_data_h crypto_metadata_h =
      let case = column_chunk_field p fuel read_nested in
      let d0 = new_column_chunk in
      let d1 = record d0 { file_path = x.file_path } in
      let d2 = record d1 { file_offset = some x.file_offset } in
      let d3 = record d2 { meta_data = x.meta_data } in
      let d4 = record d3 { offset_index_offset = x.offset_index_offset } in
      let d5 = record d4 { offset_index_length = x.offset_index_length } in
      let d6 = record d5 { column_index_offset = x.column_index_offset } in
      let d7 = record d6 { column_index_length = x.column_index_length } in
      let d8 = record d7 { crypto_metadata = x.crypto_metadata } in
      let d9 = record d8 { encrypted_column_metadata = x.encrypted_column_metadata } in
      struct-Reads p b case 9 _ _ fuel d0 d9 checked_column_chunk x
        (maybe p b case 8 _ t_string 1 _ x.file_path _ (λ v. record d0 { file_path = v }) d9
          p.read_string refl (always x.file_path (string-Reads p b))
          (present p b case 7 _ t_i64 2 _ _ d1 (λ v. record d1 { file_offset = some v }) d9
            p.read_i64 x.file_offset refl (i64-Reads p b x.file_offset)
            (maybe p b case 6 _ t_struct 3 _ x.meta_data _ (λ v. record d2 { meta_data = v }) d9
              (read_column_meta_data p fuel read_nested) refl meta_data_h
              (maybe p b case 5 _ t_i64 4 _ x.offset_index_offset _
                (λ v. record d3 { offset_index_offset = v }) d9 p.read_i64 refl
                (always x.offset_index_offset (i64-Reads p b))
                (maybe p b case 4 _ t_i32 5 _ x.offset_index_length _
                  (λ v. record d4 { offset_index_length = v }) d9 p.read_i32 refl
                  (always x.offset_index_length (i32-Reads p b))
                  (maybe p b case 3 _ t_i64 6 _ x.column_index_offset _
                    (λ v. record d5 { column_index_offset = v }) d9 p.read_i64 refl
                    (always x.column_index_offset (i64-Reads p b))
                    (maybe p b case 2 _ t_i32 7 _ x.column_index_length _
                      (λ v. record d6 { column_index_length = v }) d9 p.read_i32 refl
                      (always x.column_index_length (i32-Reads p b))
                      (maybe p b case 1 _ t_struct 8 _ x.crypto_metadata _
                        (λ v. record d7 { crypto_metadata = v }) d9
                        (read_nested (text "ColumnCryptoMetaData")) refl crypto_metadata_h
                        (maybe p b case 0 _ t_string 9 _ x.encrypted_column_metadata _
                          (λ v. record d8 { encrypted_column_metadata = v }) d9 p.read_binary refl
                          (always x.encrypted_column_metadata (binary-Reads p b))
                          (no_field p b case d9))))))))))
        refl (omega arith)
