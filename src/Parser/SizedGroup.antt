-- ===== src/Parser/SizedGroup.antt =====
-- ParseArrayGroup gives directories in which every map has a size.
use lanl_vir_parquet.Prelude.{ℕ, [], ◌∷◌, ◌++◌, Option, none, some, if◌then◌else◌, IfSome}
use lanl_vir_parquet.Prelude.Text.{Text, text, text_eq}
use lanl_vir_parquet.Prelude.Table.{Table, find, emplace}
use lanl_vir_parquet.File.{RandomAccessFile}
use lanl_vir_parquet.Result.{throw, unsupported_data_array_format, ◌>>=◌}
use lanl_vir_parquet.Result.Ensures.{Ensures, Ensures-bind, Ensures-any, Ensures-if}
use lanl_vir_parquet.Base64.{DecodeTriplet}
use lanl_vir_parquet.Arr.{
  EncodingType, DataType, CompressionType, zlib, lz4, unknown_compression, parse_uncompressed32,
  parse_uncompressed64, parse_compressed32, parse_compressed64,
}
use lanl_vir_parquet.FMap.{FileMap}
use lanl_vir_parquet.FMap.Size.{HasSize}
use lanl_vir_parquet.BuildMap.{Serializer, build_map_compressed}
use lanl_vir_parquet.BuildMap.Sized.{build_map_uncompressed-HasSize, build_map_compressed-HasSize}
use lanl_vir_parquet.Vfs.{Dir, metadata_dir, Dirs, no_dirs, add_dir, emplace_dir, at_key}
use lanl_vir_parquet.Fuse.Total.{HaveSizes, IsSized, AllSized, if_both}
use lanl_vir_parquet.Parser.{emplace_some, subdirs}
use lanl_vir_parquet.Parser.Array.{
  is_base64, is_uint32, adjust_start, new_array_header_reader, suffix, data_type, atoll,
  parse_appended_array, parse_vtk_data_array, parse_arrays, parse_array_group,
}

emplace-HaveSizes :
    (name : Text) (m : FileMap) (t : Table FileMap)
    → HasSize m
    → HaveSizes t
    → HaveSizes (emplace name m t)
unfolding emplace
emplace-HaveSizes name m [] h k = (h, tt)
emplace-HaveSizes name m ((j, a) ∷ t) h k =
    if_both HaveSizes (text_eq j name) ((j, a) ∷ t) ((j, a) ∷ emplace name m t) k
      (k.0, emplace-HaveSizes name m t h k.1)

emplace_dir-AllSized :
    (name : Text) (d : Dir) (ds : Dirs) → IsSized d → AllSized ds → AllSized (emplace_dir name d ds)
unfolding emplace_dir
emplace_dir-AllSized name d no_dirs h k = (h, tt)
emplace_dir-AllSized name d (add_dir j e ds) h k =
    if_both AllSized (text_eq j name) (add_dir j e ds) (add_dir j e (emplace_dir name d ds)) k
      (k.0, emplace_dir-AllSized name d ds h k.1)

emplace_some-AllSized :
    (name : Text) (o : Option Dir) (ds : Dirs)
    → IfSome IsSized o
    → AllSized ds
    → AllSized (emplace_some name o ds)
emplace_some-AllSized name none ds h k = k
emplace_some-AllSized name (some d) ds h k = emplace_dir-AllSized name d ds h k

pub subdirs-AllSized :
    (attrs : Table Text) (pd : Dir) (points : Option Dir) (cd : Dir) (cells : Option Dir)
    → IsSized pd
    → IfSome IsSized points
    → IsSized cd
    → IfSome IsSized cells
    → AllSized (subdirs attrs pd points cd cells)
unfolding subdirs
subdirs-AllSized attrs pd points cd cells h i j k = emplace_some-AllSized (text "cells") cells _ k (
    emplace_dir-AllSized (text "celldata") cd _ j (
      emplace_some-AllSized (text "points") points _ i (
        emplace_dir-AllSized (text "pointdata") pd _ h
          (emplace_dir-AllSized (text "METADATA") (metadata_dir attrs) no_dirs tt tt))))

module _ (dec : DecodeTriplet) (serialize : Serializer) (base : RandomAccessFile) where
  compressed-HasSize :
      (name : Text) (type : DataType) (codec : CompressionType) (enc : EncodingType)
      (header_type : DataType) (offset : ℕ)
      → Ensures HasSize (
          (if is_uint32 header_type
            then parse_compressed32 (new_array_header_reader dec base offset (is_base64 enc)) 0
            else parse_compressed64 (new_array_header_reader dec base offset (is_base64 enc)) 0)
          >>= λ arr.
              build_map_compressed serialize name type codec
                (is_base64 enc)
                (record arr { data_start = adjust_start (is_base64 enc) offset arr.data_start }))
  compressed-HasSize name type codec enc header_type offset =
      Ensures-any HasSize _ _
        (λ arr. build_map_compressed-HasSize serialize name type codec (is_base64 enc) _)

  parse_appended_array-HasSize :
      (name : Text) (type : DataType) (codec : CompressionType) (enc : EncodingType)
      (header_type : DataType) (offset : ℕ)
      → Ensures HasSize
          (parse_appended_array dec serialize base name type codec enc header_type offset)
  unfolding parse_appended_array
  parse_appended_array-HasSize name type CompressionType.uncompressed enc header_type offset =
      Ensures-any HasSize
        (if is_uint32 header_type
          then parse_uncompressed32 (new_array_header_reader dec base offset (is_base64 enc)) 0
          else parse_uncompressed64 (new_array_header_reader dec base offset (is_base64 enc)) 0)
        _ (λ arr. build_map_uncompressed-HasSize serialize name type (is_base64 enc) _)
  parse_appended_array-HasSize name type zlib enc header_type offset =
      compressed-HasSize name type zlib enc header_type offset
  parse_appended_array-HasSize name type lz4 enc header_type offset =
      compressed-HasSize name type lz4 enc header_type offset
  parse_appended_array-HasSize name type unknown_compression enc header_type offset =
      compressed-HasSize name type unknown_compression enc header_type offset

  module _ (codec : CompressionType) (enc : EncodingType) (header_type : DataType) where
    parse_vtk_data_array-HasSize :
        (name : Text) (map : Table Text) (appended_data_pos : ℕ)
        → Ensures HasSize (
            parse_vtk_data_array dec serialize base name codec enc header_type map
              appended_data_pos)
    unfolding parse_vtk_data_array Ensures
    parse_vtk_data_array-HasSize name map appended_data_pos =
        Ensures-any HasSize (at_key (find (text "type") map)) _ (λ t.
          Ensures-any HasSize (data_type t) _ (λ type.
            Ensures-any HasSize (at_key (find (text "format") map)) _ (λ format.
              Ensures-if HasSize (text_eq format (text "appended")) _
                (throw unsupported_data_array_format)
                (Ensures-any HasSize (at_key (find (text "offset") map)) _ (λ o.
                  Ensures-any HasSize (atoll o) _
                    (λ offset. parse_appended_array-HasSize name type codec enc header_type _)))
                tt)))

    parse_arrays-HaveSizes :
        (arr_info : Table (Table Text)) (appended_data_pos : ℕ) (maps : Table FileMap)
        → HaveSizes maps
        → Ensures HaveSizes
            (parse_arrays dec serialize base codec enc header_type arr_info appended_data_pos maps)
    unfolding parse_arrays Ensures
    parse_arrays-HaveSizes [] appended_data_pos maps h = h
    parse_arrays-HaveSizes ((name, info) ∷ arr_info) appended_data_pos maps h =
        Ensures-bind HasSize HaveSizes
          (parse_vtk_data_array dec serialize base name codec enc header_type info
            appended_data_pos)
          _ (parse_vtk_data_array-HasSize name info appended_data_pos)
          (λ m k.
            parse_arrays-HaveSizes arr_info appended_data_pos (emplace (name ++ suffix) m maps)
              (emplace-HaveSizes (name ++ suffix) m maps k h))

    pub parse_array_group-IsSized :
        (arr_info : Table (Table Text)) (appended_data_pos : ℕ)
        → Ensures IsSized
            (parse_array_group dec serialize base codec enc header_type arr_info appended_data_pos)
    unfolding parse_array_group Ensures
    parse_array_group-IsSized arr_info appended_data_pos =
        Ensures-bind HaveSizes IsSized
          (parse_arrays dec serialize base codec enc header_type arr_info appended_data_pos []) _
          (parse_arrays-HaveSizes arr_info appended_data_pos [] tt) (λ maps h. h)
