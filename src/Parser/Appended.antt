-- ===== src/Parser/Appended.antt =====
-- `ParseAppendedArray`, from the array's header in the VTK file to the map of its Parquet file.
use lanl_vir_parquet.Prelude.{
  ℕ, ◌+◌, ◌*◌, ◌<◌, ◌≡◌, ◌≢◌, refl, sym, ap, ◌∙◌, List, [], ◌∷◌, ◌++◌, Bool, true, false, ◌/◌,
  add64_exact, mul64_exact, u64_mod, Option, arith, length, length-append,
}
use lanl_vir_parquet.Prelude.Text.{Text}
use lanl_vir_parquet.File.{RandomAccessFile}
use lanl_vir_parquet.File.Serves.{IsExact}
use lanl_vir_parquet.Result.{ok, ◌>>=◌}
use lanl_vir_parquet.Base64.{DecodeTriplet}
use lanl_vir_parquet.Arr.{
  EncodingType, DataType, uint64, CompressionType, zlib, lz4, unknown_compression, CompressedArray,
  get_value_size, parse_compressed64,
}
use lanl_vir_parquet.Arr.Header.{HasHeader, parse_compressed64-header}
use lanl_vir_parquet.FMap.{FileMap}
use lanl_vir_parquet.FMap.Build.{IsMap}
use lanl_vir_parquet.Parquet.{PhysicalType, ConvertedType, CompressionCodec}
use lanl_vir_parquet.BuildMap.{
  Serializer, build_map_compressed, to_parquet_type, to_parquet_converted_type, to_parquet_codec,
}
use lanl_vir_parquet.BuildMap.Layout.{file_regions}
use lanl_vir_parquet.BuildMap.Pages.{IsSmall, half_word}
use lanl_vir_parquet.BuildMap.Compressed.{block_pages, AllBelow, build_map_compressed-IsMap}
use lanl_vir_parquet.Parser.Array.{
  is_base64, adjust_start, new_array_header_reader, parse_appended_array,
}

-- where the data begins: behind a header of `n` bytes, or behind the groups of four characters that
-- three bytes each of the header take
abbrev pub data_start_of : Bool → (offset n : ℕ) → ℕ
data_start_of false offset n = offset + n
data_start_of true offset n = offset + 4 * ((n + 2) / 3)

adjust_start_exact :
    (flag : Bool) (offset n : ℕ)
    → offset + 4 * (n + 2) < u64_mod
    → adjust_start flag offset n ≡ data_start_of flag offset n
unfolding adjust_start
adjust_start_exact false offset n h = add64_exact offset n (omega arith)
adjust_start_exact true offset n h =
    let a = add64_exact n 2 (omega arith) in
    let b = mul64_exact 4 ((n + 2) / 3) (omega arith) in
    rw (a, b) (add64_exact offset (4 * ((n + 2) / 3)) (omega arith))

compressed_branch :
    (dec : DecodeTriplet) (serialize : Serializer) (base : RandomAccessFile) (name : Text)
    (type : DataType) (codec : CompressionType) (enc : EncodingType) (offset : ℕ)
    → codec ≢ CompressionType.uncompressed
    → parse_appended_array dec serialize base name type codec enc uint64 offset ≡ (
        parse_compressed64 (new_array_header_reader dec base offset (is_base64 enc)) 0 >>= λ arr.
        build_map_compressed serialize name type codec
          (is_base64 enc)
          (record arr { data_start = adjust_start (is_base64 enc) offset arr.data_start }))
unfolding parse_appended_array
compressed_branch dec serialize base name type CompressionType.uncompressed enc offset h =
    absurd (h refl)
compressed_branch dec serialize base name type zlib enc offset h = refl
compressed_branch dec serialize base name type lz4 enc offset h = refl
compressed_branch dec serialize base name type unknown_compression enc offset h = refl

module _ (dec : DecodeTriplet) (serialize : Serializer) (is_small : IsSmall serialize)
    (base : RandomAccessFile) (name : Text) (type : DataType) (codec : CompressionType)
    (enc : EncodingType) (offset value_size : ℕ) (storage : PhysicalType)
    (conv : Option ConvertedType) (c : CompressionCodec)
    (is_value_size : get_value_size type ≡ ok value_size)
    (is_type : to_parquet_type type ≡ ok storage)
    (is_conv : to_parquet_converted_type type ≡ ok conv) (is_codec : to_parquet_codec codec ≡ ok c)
    (compressed : codec ≢ CompressionType.uncompressed) where
  -- the branch of compressed arrays
  parse_appended_array-branch :
      (arr : CompressedArray)
      → parse_compressed64 (new_array_header_reader dec base offset (is_base64 enc)) 0 ≡ ok arr
      → parse_appended_array dec serialize base name type codec enc uint64 offset
        ≡ build_map_compressed serialize name type codec
            (is_base64 enc)
            (record arr { data_start = adjust_start (is_base64 enc) offset arr.data_start })
  parse_appended_array-branch arr h =
      compressed_branch dec serialize base name type codec enc offset compressed
      ∙ ap
          (λ p. p >>= λ a.
            build_map_compressed serialize name type codec (is_base64 enc)
              (record a { data_start = adjust_start (is_base64 enc) offset a.data_start }))
          h

  -- An array of a compressed VTK file with 64-bit headers, raw or in base64: if the view of the file at
  -- the array's offset has a header of at least one block, with sizes below 2^31, then
  -- ParseAppendedArray returns the map of a Parquet file that has a page for each block and that maps
  -- the data from behind the header on, which base64 moves to the next group of four characters. The
  -- position of the data has to fit 64 bits.
  pub parse_appended_array-compressed :
      (content : List ℕ) (num size last_size : ℕ) (blocks : List ℕ) (last : ℕ) (rest : List ℕ)
      → IsExact (new_array_header_reader dec base offset (is_base64 enc)) content
      → HasHeader content 8 num size last_size (blocks ++ last ∷ []) rest 0
      → length blocks < half_word
      → AllBelow half_word blocks
      → last < half_word
      → size < half_word
      → last_size < half_word
      → offset + 4 * (26 + 8 * num) < u64_mod
      → (m : FileMap) × (parse_appended_array dec serialize base name type codec enc uint64 offset
          ≡ ok m)
        × IsMap
            (is_base64 enc)
            (data_start_of (is_base64 enc) offset (24 + 8 * num))
            (file_regions serialize value_size name storage conv c
              (block_pages size blocks ++ (last, last_size) ∷ []))
            m
  parse_appended_array-compressed content num size last_size blocks last rest exact h few below fits
        fits' fits'' room =
      let count : num ≡ length blocks + 1 = sym h.count ∙ length-append blocks (last ∷ []) in
      let parsed =
        parse_compressed64-header (new_array_header_reader dec base offset (is_base64 enc)) content
          exact num size last_size (blocks ++ last ∷ []) rest 0 h (omega (arith, count)) in
      let r =
        build_map_compressed-IsMap serialize is_small value_size (is_base64 enc)
          (data_start_of (is_base64 enc) offset (24 + 8 * num)) name type codec
          (record {
            num_blks = num;
            blk_sz = size;
            last_blk_sz = last_size;
            compressed_blk_sz = blocks ++ last ∷ [];
            data_start = adjust_start (is_base64 enc) offset (24 + 8 * num);
          })
          blocks last storage conv c is_value_size is_type is_conv is_codec
          (adjust_start_exact (is_base64 enc) offset (24 + 8 * num) (omega arith)) refl count few
          below fits fits' fits'' in
      (r.0, parse_appended_array-branch _ parsed ∙ r.1, r.2)
