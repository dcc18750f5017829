-- ===== src/Parser/Array.antt =====
-- parser.cc: from the description of an array to the map of its Parquet file.
use lanl_vir_parquet.Prelude.{
  ℕ, suc, ◌+◌, ◌-◌, ◌*◌, ◌/◌, [], ◌∷◌, ◌++◌, Bool, true, false, ◌&&◌, ◌||◌, ◌==◌, leb,
  if◌then◌else◌, add64, mul64, i64_max,
}
use lanl_vir_parquet.Prelude.Int.{ℤ, pos, neg, from_i64}
use lanl_vir_parquet.Prelude.Text.{Text, text, text_eq}
use lanl_vir_parquet.Prelude.Table.{Table, find, emplace}
use lanl_vir_parquet.File.{RandomAccessFile, offsetted_file}
use lanl_vir_parquet.Result.{
  Result, ok, throw, ub, ◌>>=◌, unsupported_data_array_type, unsupported_data_array_format,
}
use lanl_vir_parquet.Base64.{DecodeTriplet, base64_reader}
use lanl_vir_parquet.Arr.{
  EncodingType, raw, base64, DataType, int8, uint8, int32, uint32, int64, uint64, float32, float64,
  CompressionType, parse_compressed64, parse_compressed32, parse_uncompressed64,
  parse_uncompressed32,
}
use lanl_vir_parquet.FMap.{FileMap}
use lanl_vir_parquet.BuildMap.{Serializer, build_map_compressed, build_map_uncompressed}
use lanl_vir_parquet.Vfs.{Dir, array_dir, at_key}

-- `enc == EncodingType::BASE64`
abbrev pub is_base64 : EncodingType → Bool
is_base64 raw = false
is_base64 base64 = true

-- `header_type == DataType::UINT32`
abbrev pub is_uint32 : DataType → Bool
is_uint32 uint32 = true
is_uint32 _ = false

-- where the data of an array starts in the VTK file, from where it starts in its (decoded) view
unfoldable pub adjust_start : Bool → (offset data_start : ℕ) → ℕ
adjust_start is_base64_encoded offset data_start =
    if is_base64_encoded
    then add64 offset (mul64 4 (add64 data_start 2 / 3))
    else add64 offset data_start

unfoldable pub new_array_header_reader :
    DecodeTriplet → RandomAccessFile → ℕ → Bool → RandomAccessFile
new_array_header_reader decode_triplet base offset is_base64_encoded =
    if is_base64_encoded
    then base64_reader decode_triplet base offset
    else offsetted_file base offset

-- the type that an attribute names
unfoldable pub data_type : Text → Result DataType
data_type t =
    if text_eq t (text "Int8")
    then ok int8
    else if text_eq t (text "UInt8")
    then ok uint8
    else if text_eq t (text "Int32")
    then ok int32
    else if text_eq t (text "UInt32")
    then ok uint32
    else if text_eq t (text "Int64")
    then ok int64
    else if text_eq t (text "UInt64")
    then ok uint64
    else if text_eq t (text "Float32")
    then ok float32
    else if text_eq t (text "Float64")
    then ok float64
    else throw unsupported_data_array_type

-- the digits of `atoll`: a value out of the range of `long long` is undefined
unfoldable pub digits : ℕ → Text → ℕ
digits acc [] = acc
digits acc (c ∷ s) = if leb 48 c && leb c 57 then digits (10 * acc + (c - 48)) s else acc

unfoldable pub atoll_signed : Text → Result ℤ
unfolding digits
atoll_signed [] = ok (pos 0)
atoll_signed (c ∷ s) =
    if c == 45
    then (let n = digits 0 s in if leb n (suc i64_max) then ok (neg n) else ub)
    else (let n = digits 0 (if c == 43 then s else c ∷ s) in
        if leb n i64_max then ok (pos n) else ub)

unfoldable pub atoll : Text → Result ℤ
unfolding atoll_signed
atoll [] = ok (pos 0)
atoll (c ∷ s) = if c == 32 || (leb 9 c && leb c 13) then atoll s else atoll_signed (c ∷ s)

abbrev pub suffix : Text
suffix = text ".parquet"

module _ (decode_triplet : DecodeTriplet) (serialize : Serializer) (base : RandomAccessFile) where
  unfoldable pub parse_appended_array :
      Text → DataType → CompressionType → EncodingType → DataType → ℕ → Result FileMap
  unfolding new_array_header_reader adjust_start
  parse_appended_array name type CompressionType.uncompressed enc header_type offset = do
    let view = new_array_header_reader decode_triplet base offset (is_base64 enc)
    arr ← if is_uint32 header_type then parse_uncompressed32 view 0 else parse_uncompressed64 view 0
    build_map_uncompressed serialize name type (is_base64 enc)
        (record arr { data_start = adjust_start (is_base64 enc) offset arr.data_start })
  parse_appended_array name type codec enc header_type offset = do
    let view = new_array_header_reader decode_triplet base offset (is_base64 enc)
    arr ← if is_uint32 header_type then parse_compressed32 view 0 else parse_compressed64 view 0
    build_map_compressed serialize name type codec (is_base64 enc)
        (record arr { data_start = adjust_start (is_base64 enc) offset arr.data_start })

  unfoldable pub parse_vtk_data_array :
      Text → CompressionType → EncodingType → DataType → Table Text → ℕ → Result FileMap
  unfolding data_type atoll parse_appended_array
  parse_vtk_data_array name codec enc header_type map appended_data_pos = do
    t ← at_key (find (text "type") map)
    type ← data_type t
    format ← at_key (find (text "format") map)
    if text_eq format (text "appended")
        then (at_key (find (text "offset") map) >>= λ o. atoll o >>= λ offset.
            parse_appended_array name type codec enc header_type
              (add64 (from_i64 offset) appended_data_pos))
        else throw unsupported_data_array_format

  -- `for (auto& [name, info] : arr_info)`, with the maps so far
  unfoldable pub parse_arrays :
      CompressionType
      → EncodingType
      → DataType
      → Table (Table Text)
      → ℕ
      → Table FileMap
      → Result (Table FileMap)
  unfolding parse_vtk_data_array
  parse_arrays codec enc header_type [] appended_data_pos maps = ok maps
  parse_arrays codec enc header_type ((name, info) ∷ arr_info) appended_data_pos maps = do
    map ← parse_vtk_data_array name codec enc header_type info appended_data_pos
    parse_arrays codec enc header_type arr_info appended_data_pos
        (emplace (name ++ suffix) map maps)

  unfoldable pub parse_array_group :
      CompressionType → EncodingType → DataType → Table (Table Text) → ℕ → Result Dir
  unfolding parse_arrays
  parse_array_group codec enc header_type arr_info appended_data_pos = do
    maps ← parse_arrays codec enc header_type arr_info appended_data_pos []
    ok (array_dir maps base)
