-- ===== src/Examples/Maps.antt =====
-- Maps over a small file.
use lanl_vir_parquet.Prelude.{ℕ, ◌≡◌, refl, List, [], ◌∷◌, false, arith}
use lanl_vir_parquet.Prelude.Text.{text}
use lanl_vir_parquet.File.{done, diverged, string_buf_file, offsetted_file}
use lanl_vir_parquet.File.Serves.{Serves, string_buf_file-Serves, offsetted_file-Serves}
use lanl_vir_parquet.Base64.{DecodeTriplet}
use lanl_vir_parquet.FMap.{
  FileMap, MapBuilder, map_builder, add_direct, add_mapped_region, finish, pread, pread_loop,
}
use lanl_vir_parquet.FMap.Region.{Region, direct, mapped}
use lanl_vir_parquet.FMap.Build.{
  Represents, IsMap, map_builder-Represents, add_direct-Represents, add_mapped_region-Represents,
  finish-IsMap,
}
use lanl_vir_parquet.FMap.Serve.{mapped_source}
use lanl_vir_parquet.FMap.Read.{pread_lem}
use lanl_vir_parquet.FMap.Faults.{pread_loop_hangs}

abbrev pub decode_none : DecodeTriplet
decode_none i0 i1 i2 i3 = record { count = 0; c0 = 0; c1 = 0; c2 = 0 }

-- Two bytes of the map's own and three of the data, which starts behind the first byte of the file.
abbrev pub data_bytes : List ℕ
data_bytes = text "abcdef"

abbrev pub vtk_bytes : List ℕ
vtk_bytes = text "xabcdef"

abbrev pub regions : List Region
regions = direct (text "PA") ∷ mapped 1 3 ∷ []

abbrev pub builder : MapBuilder
builder = add_mapped_region 1 3 (add_direct (text "PA") (map_builder false 1))

abbrev pub small_map : FileMap
small_map = finish builder

has_direct :
    Represents false 1 (direct (text "PA") ∷ []) (add_direct (text "PA") (map_builder false 1))
has_direct = add_direct-Represents (map_builder-Represents false 1) (text "PA") (omega arith)

has_regions : Represents false 1 regions builder
has_regions = add_mapped_region-Represents has_direct 1 3 (omega arith) (omega arith)

pub small_map-IsMap : IsMap false 1 regions small_map
small_map-IsMap = finish-IsMap has_regions (omega arith)

add_direct-Represents_example :
    Represents false 1 (direct (text "PA") ∷ []) (add_direct (text "PA") (map_builder false 1))
add_direct-Represents_example =
    add_direct-Represents (map_builder-Represents false 1) (text "PA") (omega arith)

add_mapped_region-Represents_example : Represents false 1 regions builder
add_mapped_region-Represents_example =
    add_mapped_region-Represents has_direct 1 3 (omega arith) (omega arith)

finish-IsMap_example : IsMap false 1 regions small_map
finish-IsMap_example = finish-IsMap has_regions (omega arith)

pub vtk-Serves : Serves (mapped_source decode_none false 1 (string_buf_file vtk_bytes)) data_bytes
vtk-Serves =
    offsetted_file-Serves (string_buf_file vtk_bytes) vtk_bytes 1 (omega arith) (omega arith)
      (string_buf_file-Serves vtk_bytes)

offsetted_file-Serves_example : Serves (offsetted_file (string_buf_file vtk_bytes) 1) data_bytes
offsetted_file-Serves_example =
    offsetted_file-Serves (string_buf_file vtk_bytes) vtk_bytes 1 (omega arith) (omega arith)
      (string_buf_file-Serves vtk_bytes)

pread_lem_example : pread decode_none small_map (string_buf_file vtk_bytes) 3 1 ≡ done (text "Abc")
pread_lem_example =
    pread_lem decode_none (string_buf_file vtk_bytes) false 1 small_map regions data_bytes
      small_map-IsMap vtk-Serves (omega arith) (omega arith) 3 1 (omega arith, tt) (omega arith)

-- the same map over a file that has lost its last bytes
no_byte : string_buf_file (text "xa") 2 2 ≡ done []
unfolding string_buf_file
no_byte = refl

pread_loop_hangs_example :
    pread_loop decode_none small_map (string_buf_file (text "xa")) 9 1 2 2 [] ≡ diverged
pread_loop_hangs_example =
    pread_loop_hangs decode_none (string_buf_file (text "xa")) 1 small_map regions small_map-IsMap
      (omega arith) 9 (direct (text "PA") ∷ []) [] 1 3 0 2 [] refl (omega arith) (omega arith)
      (omega arith) (omega arith) no_byte
