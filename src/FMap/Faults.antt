-- ===== src/FMap/Faults.antt =====
-- Where `FileMap::Pread` does not end.
use lanl_vir_parquet.Prelude.{
  ℕ, zero, suc, ◌+◌, ◌-◌, ◌<◌, ◌≡◌, refl, ap, ◌∙◌, false, List, [], ◌∷◌, ◌++◌, arith, lt→leb, min,
  length, append-nil, u64_mod, add64_exact,
}
use lanl_vir_parquet.Prelude.Int.{pos}
use lanl_vir_parquet.File.{done, diverged, RandomAccessFile, offsetted_file}
use lanl_vir_parquet.Base64.{DecodeTriplet}
use lanl_vir_parquet.FMap.{FileMap, read, pread_loop}
use lanl_vir_parquet.FMap.Build.{IsMap}
use lanl_vir_parquet.FMap.Region.{Region, mapped, region_size, total, unders, directs, total-append}
use lanl_vir_parquet.FMap.Rounds.{loop_step}
use lanl_vir_parquet.FMap.Serve.{read-eq, read_at-mapped, get-unders}

module _ (dec : DecodeTriplet) (base : RandomAccessFile) (start : ℕ) (m : FileMap)
    (rs : List Region) (is_map : IsMap false start rs m)
    (fits : total rs + length rs + 1 < u64_mod) where
  -- A round that gets no byte leads to the same round again.
  same_round :
      (fuel : ℕ) (before : List Region) (r : Region) (after : List Region) (k size : ℕ)
      (out : List ℕ)
      → rs ≡ before ++ r ∷ after
      → k < region_size r
      → 0 < size
      → size < u64_mod
      → read dec m base (length before) k (min size (region_size r - k)) ≡ done []
      → pread_loop dec m base fuel (length before) size (total before + k) out ≡ diverged
  unfolding pread_loop
  same_round zero before r after k size out e h p w reads = refl
  same_round (suc fuel) before r after k size out e h p w reads =
      let inside : total before + k < total rs =
        omega (arith, ap total e, total-append before (r ∷ after)) in
      let again : k + 0 ≡ k = omega arith in
      let left : size - 0 ≡ size = omega arith in
      loop_step dec base false start m rs is_map fits fuel before r after k size out [] e
        (omega arith) p inside reads (omega arith) w
      ∙ rw (again, left, append-nil, lt→leb (region_size r) k h)
          (same_round fuel before r after k size out e h p w reads)

  -- If the VTK file ends before a mapped region does, so that a read of the base file inside the
  -- region returns 0, the loop of FileMap::Pread runs out of any number of rounds.
  pub pread_loop_hangs :
      (fuel : ℕ) (before after : List Region) (offset len k size : ℕ) (out : List ℕ)
      → rs ≡ before ++ mapped offset len ∷ after
      → k < len
      → 0 < size
      → size < u64_mod
      → start + offset + k + 1 < u64_mod
      → base (min size (len - k)) (start + (offset + k)) ≡ done []
      → pread_loop dec m base fuel (length before) size (total before + k) out ≡ diverged
  unfolding offsetted_file
  pread_loop_hangs fuel before after offset len k size out e h p w small ends =
      same_round fuel before (mapped offset len) after k size out e h p w reads
    where
      reads : read dec m base (length before) k (min size (len - k)) ≡ done []
      reads =
          read-eq dec base m (length before) k (min size (len - k)) (pos (suc offset)) (
            get-unders false start m rs is_map before after (mapped offset len) (pos (suc offset))
              (unders (length (directs before)) after) e refl)
          ∙ read_at-mapped dec base false start m offset k (min size (len - k)) is_map.same_pending
              is_map.same_start small
          ∙ rw (add64_exact start (offset + k) (omega arith)) ends
