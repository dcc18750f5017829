-- ===== src/Examples/Builds.antt =====
-- The Parquet files of small arrays.
use lanl_vir_parquet.Prelude.{
  ℕ, ◌≡◌, ◌≢◌, refl, List, [], ◌∷◌, ◌++◌, false, none, arith, length, add64_exact,
}
use native.Mathlib.Nat.{zero-add}
use lanl_vir_parquet.Prelude.Text.{text}
use lanl_vir_parquet.File.{string_buf_file, offsetted_file}
use lanl_vir_parquet.File.Serves.{IsExact, string_buf_file_lem}
use lanl_vir_parquet.Result.{ok}
use lanl_vir_parquet.Arr.{
  float32, uint64, CompressionType, zlib, UncompressedArray, EncodingType, get_value_size,
}
use lanl_vir_parquet.Arr.Header.{HasHeader, header_bytes}
use lanl_vir_parquet.FMap.{FileMap}
use lanl_vir_parquet.FMap.Region.{Region, AllInside}
use lanl_vir_parquet.FMap.Build.{IsMap}
use lanl_vir_parquet.Parquet.{PhysicalType, CompressionCodec}
use lanl_vir_parquet.BuildMap.{
  Serializer, build_map_compressed, build_map_uncompressed, to_parquet_type,
  to_parquet_converted_type, to_parquet_codec,
}
use lanl_vir_parquet.BuildMap.Layout.{file_regions, mapped_bytes}
use lanl_vir_parquet.BuildMap.Pages.{IsSmall}
use lanl_vir_parquet.BuildMap.Compressed.{build_map_compressed-IsMap}
use lanl_vir_parquet.BuildMap.Uncompressed.{
  pages_of, build_map_uncompressed-IsMap, build_map_uncompressed-data,
}
use lanl_vir_parquet.Parser.Array.{new_array_header_reader, parse_appended_array}
use lanl_vir_parquet.Parser.Appended.{parse_appended_array-compressed}
use lanl_vir_parquet.Examples.Maps.{decode_none}

-- A serializer that makes one byte of anything.
abbrev pub serialize : Serializer
serialize calls = 1 ∷ []

pub serialize-IsSmall : IsSmall serialize
serialize-IsSmall calls = omega arith

pub is_four : get_value_size float32 ≡ ok 4
unfolding get_value_size
is_four = refl

pub is_float : to_parquet_type float32 ≡ ok PhysicalType.float
unfolding to_parquet_type
is_float = refl

pub plain : to_parquet_converted_type float32 ≡ ok none
unfolding to_parquet_converted_type
plain = refl

is_gzip : to_parquet_codec zlib ≡ ok CompressionCodec.gzip
unfolding to_parquet_codec
is_gzip = refl

build_map_compressed-IsMap_example :
    (m : FileMap) × (build_map_compressed serialize (text "p") float32 zlib false (record {
      num_blks = 2;
      blk_sz = 8;
      last_blk_sz = 4;
      compressed_blk_sz = 6 ∷ 3 ∷ [];
      data_start = 9;
    })
      ≡ ok m)
    × IsMap false 9
        (file_regions serialize 4
          (text "p")
          PhysicalType.float
          none
          CompressionCodec.gzip
          ((6, 8) ∷ (3, 4) ∷ []))
        m
build_map_compressed-IsMap_example =
    build_map_compressed-IsMap serialize serialize-IsSmall 4 false 9 (text "p") float32 zlib
      (record {
        num_blks = 2;
        blk_sz = 8;
        last_blk_sz = 4;
        compressed_blk_sz = 6 ∷ 3 ∷ [];
        data_start = 9;
      })
      (6 ∷ []) 3 PhysicalType.float none CompressionCodec.gzip is_four is_float plain is_gzip refl
      refl refl (omega arith) (omega arith, tt) (omega arith) (omega arith) (omega arith)

-- two values of four bytes
abbrev pub floats : UncompressedArray
floats = record { total_bytes = 8; data_start = 9 }

build_map_uncompressed-IsMap_example :
    (m : FileMap) × (build_map_uncompressed serialize (text "p") float32 false floats ≡ ok m)
    × IsMap false 9
        (file_regions serialize 4
          (text "p")
          PhysicalType.float
          none
          CompressionCodec.uncompressed
          (pages_of 8))
        m
build_map_uncompressed-IsMap_example =
    build_map_uncompressed-IsMap serialize serialize-IsSmall 4 false 9 (text "p") float32 floats
      PhysicalType.float none is_four is_float plain refl (omega arith) (omega arith)

build_map_uncompressed-data_example :
    (m : FileMap) × (rs : List Region) × (build_map_uncompressed serialize
        (text "p")
        float32
        false
        floats
      ≡ ok m)
    × IsMap false 9 rs m
    × AllInside (length (text "abcdefgh")) rs
    × (mapped_bytes (text "abcdefgh") rs ≡ text "abcdefgh")
build_map_uncompressed-data_example =
    build_map_uncompressed-data serialize serialize-IsSmall 4 false 9 (text "p") float32 floats
      PhysicalType.float none is_four is_float plain (text "abcdefgh") refl (omega arith)
      (omega arith) refl

-- a compressed array of one block of two bytes behind its header
abbrev pub content : List ℕ
content = header_bytes 8 1 10 10 (2 ∷ []) ++ 7 ∷ 7 ∷ []

has_header : HasHeader content 8 1 10 10 (2 ∷ []) (7 ∷ 7 ∷ []) 0
has_header = record {
  at = refl;
  inside = omega arith;
  small = omega arith;
  count = refl;
  heads = (omega arith, (omega arith, (omega arith, tt)));
  sizes = (omega arith, tt);
}

view-IsExact :
    IsExact (new_array_header_reader decode_none (string_buf_file content) 0 false) content
unfolding new_array_header_reader offsetted_file
view-IsExact size offset h =
    rw (add64_exact 0 offset (omega arith), zero-add) (string_buf_file_lem content size offset)

is_zlib : zlib ≢ CompressionType.uncompressed
is_zlib e = cc

pub parsed_array :
    (m : FileMap) × (parse_appended_array decode_none serialize
        (string_buf_file content)
        (text "p")
        float32
        zlib
        EncodingType.raw
        uint64
        0
      ≡ ok m)
    × IsMap false 32
        (file_regions serialize 4
          (text "p")
          PhysicalType.float
          none
          CompressionCodec.gzip
          ((2, 10) ∷ []))
        m
parsed_array =
    parse_appended_array-compressed decode_none serialize serialize-IsSmall
      (string_buf_file content) (text "p") float32 zlib EncodingType.raw 0 4 PhysicalType.float none
      CompressionCodec.gzip is_four is_float plain is_gzip is_zlib content 1 10 10 [] 2 (7 ∷ 7 ∷ [])
      view-IsExact has_header (omega arith) tt (omega arith) (omega arith) (omega arith)
      (omega arith)

parse_appended_array-compressed_example :
    (m : FileMap) × (parse_appended_array decode_none serialize
        (string_buf_file content)
        (text "p")
        float32
        zlib
        EncodingType.raw
        uint64
        0
      ≡ ok m)
    × IsMap false 32
        (file_regions serialize 4
          (text "p")
          PhysicalType.float
          none
          CompressionCodec.gzip
          ((2, 10) ∷ []))
        m
parse_appended_array-compressed_example =
    parse_appended_array-compressed decode_none serialize serialize-IsSmall
      (string_buf_file content) (text "p") float32 zlib EncodingType.raw 0 4 PhysicalType.float none
      CompressionCodec.gzip is_four is_float plain is_gzip is_zlib content 1 10 10 [] 2 (7 ∷ 7 ∷ [])
      view-IsExact has_header (omega arith) tt (omega arith) (omega arith) (omega arith)
      (omega arith)
