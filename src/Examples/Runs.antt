-- ===== src/Examples/Runs.antt =====
-- Runs of the benchmark on small files.
use lanl_vir_parquet.Prelude.{◌≡◌, refl, ◌∷◌, false, some, arith, take, drop}
use lanl_vir_parquet.Prelude.Text.{text}
use lanl_vir_parquet.File.{OsPread, string_buf_file}
use lanl_vir_parquet.Result.{ok, hang}
use lanl_vir_parquet.Fuse.{slash}
use lanl_vir_parquet.Bench.{run_posix, run_bypass}
use lanl_vir_parquet.Bench.Whole.{run_posix-whole, run_posix-empty_buffer, run_bypass-whole}
use lanl_vir_parquet.Examples.Maps.{
  decode_none, vtk_bytes, small_map, regions, data_bytes, small_map-IsMap, vtk-Serves,
}
use lanl_vir_parquet.Examples.Trees.{tree, path, arrays, is_dir, is_entry}

abbrev five_bytes : OsPread
five_bytes size off = some (take size (drop off (text "abcde")))

run_posix-whole_example : run_posix 6 (some five_bytes) 2 ≡ ok (some 5)
run_posix-whole_example =
    run_posix-whole five_bytes (text "abcde") 2 6 (omega arith) (omega arith) (omega arith)
      (λ size off h. refl) (omega arith)

run_posix-empty_buffer_example : run_posix 9 (some five_bytes) 0 ≡ hang
run_posix-empty_buffer_example = run_posix-empty_buffer five_bytes 9 refl

run_bypass-whole_example : run_bypass decode_none 6 tree (slash ∷ path) 2 ≡ ok (some 5)
run_bypass-whole_example =
    run_bypass-whole decode_none (string_buf_file vtk_bytes) false 1 small_map regions data_bytes
      small_map-IsMap tree path (text "pointdata") 112 (text ".parquet") arrays refl is_dir is_entry
      (omega arith, tt) vtk-Serves (omega arith) (omega arith) (omega arith) 2 6 (omega arith)
      (omega arith) (omega arith)
