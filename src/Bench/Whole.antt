-- ===== src/Bench/Whole.antt =====
-- What a run of the benchmark reports: the size of the whole file, unless the buffer is empty.
use lanl_vir_parquet.Prelude.{
  ℕ, zero, suc, ◌+◌, ◌-◌, ◌≤◌, ◌<◌, min, ◌≡◌, refl, ap, subst, ◌∙◌, List, [], ◌∷◌, Bool, none, some,
  arith, lt→ltb, le→ltb, le→leb, length, take, drop, length-take, length-drop, i64_max, u64_mod,
  to_u32, to_u32_exact,
}
use native.Mathlib.Decide.{dec_le}
use lanl_vir_parquet.Prelude.Int.{ℤ, pos}
use lanl_vir_parquet.Prelude.Text.{Text}
use lanl_vir_parquet.Prelude.Table.{Table, find}
use lanl_vir_parquet.File.{OsPread, RandomAccessFile}
use lanl_vir_parquet.File.Serves.{Serves}
use lanl_vir_parquet.Result.{Result, ok, hang, ◌>>=◌}
use lanl_vir_parquet.Base64.{DecodeTriplet}
use lanl_vir_parquet.FMap.{FileMap}
use lanl_vir_parquet.FMap.Build.{IsMap}
use lanl_vir_parquet.FMap.Serve.{mapped_source}
use lanl_vir_parquet.FMap.Region.{Region, total, virtual, length-virtual, AllInside}
use lanl_vir_parquet.Vfs.{array_dir, VtkTree, find_dir, virtual_file}
use lanl_vir_parquet.Fuse.{slash, vtk_open}
use lanl_vir_parquet.Fuse.Resolve.{components}
use lanl_vir_parquet.Fuse.Tree.{vtk_open-array}
use lanl_vir_parquet.Fuse.Bypass.{test_open, test_read}
use lanl_vir_parquet.Bench.{read_loop, run_bypass, posix_read, run_posix}

-- A round before the end of a file.
read_loop-next :
    (read : ℕ → Result ℤ) (bufsz fuel off n : ℕ)
    → read off ≡ ok (pos n)
    → off + n ≤ i64_max
    → bufsz ≤ n
    → read_loop read bufsz (suc fuel) off ≡ read_loop read bufsz fuel (off + n)
unfolding read_loop
read_loop-next read bufsz fuel off n e fits full =
    rw (read_loop, e, le→leb (off + n) i64_max fits, le→ltb n bufsz full) refl

-- The last round.
read_loop-last :
    (read : ℕ → Result ℤ) (bufsz fuel off n : ℕ)
    → read off ≡ ok (pos n)
    → off + n ≤ i64_max
    → n < bufsz
    → read_loop read bufsz (suc fuel) off ≡ ok (some (off + n))
unfolding read_loop
read_loop-last read bufsz fuel off n e fits short =
    rw (read_loop, e, le→leb (off + n) i64_max fits, lt→ltb n bufsz short) refl

-- Reads of a file of `len` bytes.
abbrev Reads : (ℕ → Result ℤ) → (bufsz len : ℕ) → Type 0
Reads read bufsz len = (off : ℕ) → off ≤ len → read off ≡ ok (pos (min bufsz (len - off)))

read_loop-whole :
    (read : ℕ → Result ℤ) (bufsz len fuel off : ℕ)
    → 0 < bufsz
    → len ≤ i64_max
    → Reads read bufsz len
    → off ≤ len
    → len < fuel + off
    → read_loop read bufsz fuel off ≡ ok (some len)
read_loop-whole read bufsz len zero off some_buffer fits reads inside enough = absurd (omega arith)
read_loop-whole read bufsz len (suc fuel) off some_buffer fits reads inside enough =
    elim (dec_le bufsz (len - off)) [
      | yes full ↦
          let e : read off ≡ ok (pos bufsz) =
            reads off inside ∙ ap (λ n. ok (pos n)) (omega arith) in
          read_loop-next read bufsz fuel off bufsz e (omega arith) (omega arith)
          ∙ read_loop-whole read bufsz len fuel (off + bufsz) some_buffer fits reads (omega arith)
              (omega arith)
      | no h ↦
          let e : read off ≡ ok (pos (len - off)) =
            reads off inside ∙ ap (λ n. ok (pos n)) (omega arith) in
          read_loop-last read bufsz fuel off (len - off) e (omega arith) (omega arith)
          ∙ ap (λ n. ok (some n)) (omega arith)
    ]

read_loop-empty :
    (read : ℕ → Result ℤ) (fuel off : ℕ)
    → read off ≡ ok (pos 0)
    → off ≤ i64_max
    → read_loop read 0 fuel off ≡ hang
unfolding read_loop
read_loop-empty read zero off e fits = refl
read_loop-empty read (suc fuel) off e fits =
    read_loop-next read 0 fuel off 0 e (omega arith) (omega arith)
    ∙ read_loop-empty read fuel (off + 0) (subst (λ n. read n ≡ ok (pos 0)) (omega arith) e)
        (omega arith)

-- run_posix with a buffer of at least one byte and below 2^31 ends and reports the size of the file,
-- if `pread` gives all it is asked for up to the end of the file.
pub run_posix-whole :
    (os : OsPread) (content : List ℕ) (bufsz fuel : ℕ)
    → 0 < bufsz
    → bufsz < 0x8000_0000
    → length content ≤ i64_max
    → ((size off : ℕ) → off ≤ length content → os size off ≡ some (take size (drop off content)))
    → length content < fuel
    → run_posix fuel (some os) bufsz ≡ ok (some (length content))
unfolding run_posix posix_read
run_posix-whole os content bufsz fuel some_buffer small fits exact enough =
    read_loop-whole (posix_read os bufsz) bufsz (length content) fuel 0 some_buffer fits
      (λ off inside.
        let n : length (take bufsz (drop off content)) ≡ min bufsz (length content - off) =
          omega (arith, length-take bufsz (drop off content), length-drop off content) in
        rw
          (
            posix_read,
            exact bufsz off inside,
            n,
            to_u32_exact (min bufsz (length content - off)) (omega arith),
            lt→ltb (min bufsz (length content - off)) 0x8000_0000 (omega arith),
          )
          refl)
      (omega arith) (omega arith)

-- With an empty buffer run_posix does not end, however long it runs, on any file of which `pread`
-- gives no byte where it is asked for none.
pub run_posix-empty_buffer :
    (os : OsPread) (fuel : ℕ) → os 0 0 ≡ some [] → run_posix fuel (some os) 0 ≡ hang
unfolding run_posix posix_read to_u32
run_posix-empty_buffer os fuel e =
    read_loop-empty (posix_read os 0) fuel 0 (rw (posix_read, e) refl) (omega arith)

-- A Parquet file through the TEST_ functions.
module _ (dec : DecodeTriplet) (base : RandomAccessFile) (pending : Bool) (start : ℕ) (m : FileMap)
    (rs : List Region) (data_bytes : List ℕ) (is_map : IsMap pending start rs m) (tree : VtkTree)
    (path n : Text) (c : ℕ) (name : Text) (t : Table FileMap)
    (is_path : components path ≡ n ∷ (c ∷ name) ∷ [])
    (is_dir : find_dir n tree.subdirs ≡ some (array_dir t base))
    (is_entry : find (c ∷ name) t ≡ some m) (inside : AllInside (length data_bytes) rs) where
  -- run_bypass on the path of an array's file, with a buffer of at least one byte and below 2^31, ends
  -- and reports the size of the Parquet file, as vtk_getattr gives it, if the base file serves the
  -- data, be it in parts.
  pub run_bypass-whole :
      Serves (mapped_source dec pending start base) data_bytes
      → start + length data_bytes + 1 < u64_mod
      → total rs + length rs + 1 < u64_mod
      → total rs ≤ i64_max
      → (bufsz fuel : ℕ) → 0 < bufsz
      → bufsz < 0x8000_0000
      → total rs < fuel
      → run_bypass dec fuel tree (slash ∷ path) bufsz ≡ ok (some (length (virtual data_bytes rs)))
  unfolding run_bypass test_open test_read vtk_open
  run_bypass-whole serves small fits positive bufsz fuel some_buffer short enough =
      let at = λ (off : ℕ).
        vtk_open-array dec base pending start m rs data_bytes is_map tree path n c name t is_path
          is_dir is_entry inside serves small fits 0 refl none bufsz off short in
      let len = length-virtual data_bytes rs inside in
      rw ((at 0).0) (
        read_loop-whole
          (λ off. test_read (some (virtual_file dec m base)) bufsz (pos off) >>= λ r. ok r.0) bufsz
          (length (virtual data_bytes rs)) fuel 0 some_buffer (omega (arith, len))
          (λ off within.
            rw (test_read, (at off).1)
              (ap (λ k. ok (pos k))
                (omega (
                  arith,
                  length-take bufsz (drop off (virtual data_bytes rs)),
                  length-drop off (virtual data_bytes rs),
                ))))
          (omega arith) (omega (arith, len)))
