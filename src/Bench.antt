-- ===== src/Bench.antt =====
-- bench.c: reading a file from its begin to its end, through the file system or past it. A run reports
-- the bytes that it has read; the times are not modelled.
pub mod Whole
use lanl_vir_parquet.Prelude.{
  ℕ, zero, suc, ◌+◌, ◌<◌, List, [], ◌∷◌, Bool, true, false, Option, none, some, ◌==◌, ltb, leb,
  if◌then◌else◌, length, i64_max, to_u32,
}
use lanl_vir_parquet.Prelude.Int.{ℤ, pos, negsuc, to_i32, from_i64}
use lanl_vir_parquet.Prelude.Text.{Text, text, text_eq}
use lanl_vir_parquet.File.{OsPread}
use lanl_vir_parquet.Result.{Result, ok, ub, hang, ◌>>=◌}
use lanl_vir_parquet.Base64.{DecodeTriplet}
use lanl_vir_parquet.BuildMap.{Serializer}
use lanl_vir_parquet.Parser.{XmlDataElement, XmlReader, OsOpen, parse_vtk_file}
use lanl_vir_parquet.Vfs.{StatBuf, VtkTree}
use lanl_vir_parquet.Fuse.{Handle}
use lanl_vir_parquet.Fuse.Bypass.{OrExit, goes_on, exits, test_init_tree, test_open, test_read}

-- The loop of run_bypass and of run_posix on the variable `off`, an off_t. `read` is the int that the
-- read returns; after an error there is no report.
unfoldable pub read_loop : (read : ℕ → Result ℤ) (bufsz : ℕ) (fuel off : ℕ) → Result (Option ℕ)
read_loop read bufsz zero off = hang
read_loop read bufsz (suc fuel) off = read off >>= λ nr. elim nr [
  | negsuc n ↦ ok none
  | pos n ↦
      let rest = read_loop read bufsz fuel (off + n) in
      if leb (off + n) i64_max then (if ltb n bufsz then ok (some (off + n)) else rest) else ub
]

module _ (decode_triplet : DecodeTriplet) (fuel : ℕ) where
  -- run_bypass: without a file there is no report
  unfoldable pub run_bypass : VtkTree → Text → (bufsz : ℕ) → Result (Option ℕ)
  unfolding test_open test_read read_loop
  run_bypass tree fname bufsz = test_open decode_triplet tree fname >>= λ file. elim file [
    | none ↦ ok none
    | some f ↦ read_loop (λ off. test_read (some f) bufsz (pos off) >>= λ r. ok r.0) bufsz fuel 0
  ]

-- the int of a `pread` of the system
unfoldable pub posix_read : OsPread → (bufsz off : ℕ) → Result ℤ
posix_read os bufsz off = elim (os bufsz off) [
  | none ↦ ok (negsuc 0)
  | some bs ↦ ok (to_i32 (to_u32 (length bs)))
]

-- run_posix on what `open` gives, `none` for -1
unfoldable pub run_posix : ℕ → Option OsPread → (bufsz : ℕ) → Result (Option ℕ)
unfolding posix_read read_loop
run_posix fuel none bufsz = ok none
run_posix fuel (some os) bufsz = read_loop (posix_read os bufsz) bufsz fuel 0

-- the variables that the options set
pub record Options : Type 0 where
  pub mode : ℤ
  pub bufsz : ℕ

abbrev pub default_options : Options
default_options = record { mode = pos 1; bufsz = 131072 }

-- `atoi` of the C library is a parameter; its int becomes a size_t.
module _ (atoi : Text → ℤ) where
  unfoldable pub option : Options → (c : Text) → (optarg : Text) → Options
  option o c optarg =
      if text_eq c (text "b")
      then record o { bufsz = from_i64 (atoi optarg) }
      else if text_eq c (text "m")
      then record o { mode = atoi optarg }
      else o

  -- the options that `getopt` finds, in order
  unfoldable pub get_options : Options → List (Text × Text) → Options
  unfolding option
  get_options o [] = o
  get_options o (c ∷ cs) = get_options (option o c.0 c.1) cs

abbrev pub is_zero : ℤ → Bool
is_zero (pos zero) = true
is_zero i = false

-- what `open` gives, without `fstat`
abbrev opened : Option (OsPread × Option StatBuf) → Option OsPread
opened none = none
opened (some (os, statbuf)) = some os

-- What the program is to the system around it: its options and arguments, files, trees, and whether
-- the caches can be dropped. `ended` is its exit code and its report.
module _ (atoi : Text → ℤ) (E : Type 0) (xml : XmlDataElement E)
    (update_information : Text → Text → Option (XmlReader E)) (os_open : OsOpen)
    (decode_triplet : DecodeTriplet) (serialize : Serializer) (drop_caches : Bool) (fuel : ℕ) where
  abbrev report : Result (Option ℕ) → Result (ℕ × Option ℕ)
  report r = r >>= λ bytes. ok (0, bytes)

  abbrev bench_tree : Text → (bufsz : ℕ) → OrExit VtkTree → Result (ℕ × Option ℕ)
  bench_tree vir_fname bufsz (exits code) = ok (code, none)
  bench_tree vir_fname bufsz (goes_on tree) =
      if drop_caches
      then report (run_bypass decode_triplet fuel tree vir_fname bufsz)
      else ok (1, none)

  -- main, behind the options
  abbrev run_mode : Options → List Text → Result (ℕ × Option ℕ)
  run_mode o args = if is_zero o.mode then posix args else bypass args
    where
      posix : List Text → Result (ℕ × Option ℕ)
      posix [] = ok (1, none)
      posix (fname ∷ args) =
          if drop_caches
          then report (run_posix fuel (opened (os_open fname)) o.bufsz)
          else ok (1, none)

      bypass : List Text → Result (ℕ × Option ℕ)
      bypass (vtk_fname ∷ vir_fname ∷ args) =
          test_init_tree
            (parse_vtk_file E xml update_information os_open decode_triplet serialize vtk_fname)
          >>= bench_tree vir_fname o.bufsz
      bypass args = ok (1, none)

  unfoldable pub bench_main :
      (found : List (Text × Text)) (args : List Text) → Result (ℕ × Option ℕ)
  unfolding run_bypass run_posix get_options test_init_tree parse_vtk_file
  bench_main found args = run_mode (get_options atoi default_options found) args
