-- ===== src/FMap/Rounds.antt =====
-- One round of the loop of `FileMap::Pread` over the map of a list of regions.
use lanl_vir_parquet.Prelude.{
  ℕ, suc, ◌+◌, ◌-◌, ◌≤◌, ◌<◌, ◌≡◌, refl, sym, ap, ◌∙◌, Bool, true, false, List, [], ◌∷◌, ◌++◌, some,
  arith, ◌==◌, ltb, leb, lt→ltb, if◌then◌else◌, min, length, get_elem?, length-append, append_assoc,
  append-nil, add64, sub64, add64_exact, sub64_exact, u64_mod,
}
use native.Mathlib.Nat.{zero-add}
use lanl_vir_parquet.File.{done, at, or_undefined, RandomAccessFile}
use lanl_vir_parquet.Base64.{DecodeTriplet}
use lanl_vir_parquet.FMap.{FileMap, read, pread_loop}
use lanl_vir_parquet.FMap.Build.{IsMap}
use lanl_vir_parquet.FMap.Region.{Region, region_size, total, starts, total-append}

-- where the region after `before` begins
get-starts :
    (o : ℕ) (before after : List Region)
    → get_elem? (starts o (before ++ after) ++ (o + total (before ++ after)) ∷ []) (length before)
      ≡ some (o + total before)
get-starts o [] [] = refl
get-starts o [] (r ∷ after) = ap some (omega arith)
get-starts o (r ∷ before) after =
    let e : o + region_size r + total (before ++ after)
        ≡ o + (region_size r + total (before ++ after)) =
      omega arith in
    let e' : o + region_size r + total before ≡ o + (region_size r + total before) = omega arith in
    rw (← e, ← e') (get-starts (o + region_size r) before after)

module _ (dec : DecodeTriplet) (base : RandomAccessFile) (pending : Bool) (start : ℕ) (m : FileMap)
    (rs : List Region) (is_map : IsMap pending start rs m)
    (fits : total rs + length rs + 1 < u64_mod) where
  pub at-offsets :
      (before after : List Region)
      → rs ≡ before ++ after
      → at m.offsets (length before) ≡ done (total before)
  at-offsets before after e =
      rw (is_map.at_offsets, e) (ap or_undefined (simp zero-add at (get-starts 0 before after)))

  -- at the end of the file the loop stops
  pub loop_stop :
      (fuel i size offset : ℕ) (out : List ℕ)
      → total rs ≤ offset
      → pread_loop dec m base (suc fuel) i size offset out ≡ done out
  unfolding pread_loop
  loop_stop fuel i size offset out h =
      let e : at m.offsets m.n ≡ done (total rs) =
        rw is_map.regions (at-offsets rs [] (sym (append-nil rs))) in
      ground (arith, e)

  -- One round that reads a region and gets `got`.
  pub loop_step :
      (fuel : ℕ) (before : List Region) (r : Region) (after : List Region) (k size : ℕ)
      (out got : List ℕ)
      → rs ≡ before ++ r ∷ after
      → k ≤ region_size r
      → 0 < size
      → total before + k < total rs
      → read dec m base (length before) k (min size (region_size r - k)) ≡ done got
      → length got ≤ min size (region_size r - k)
      → size < u64_mod
      → pread_loop dec m base (suc fuel) (length before) size (total before + k) out
        ≡ pread_loop dec m base fuel
            (if leb (region_size r) (k + length got) then length before + 1 else length before)
            (size - length got)
            (total before + (k + length got))
            (out ++ got)
  unfolding pread_loop
  loop_step fuel before r after k size out got e h some_left inside reads le w =
      let last : at m.offsets m.n ≡ done (total rs) =
        rw is_map.regions (at-offsets rs [] (sym (append-nil rs))) in
      let lo : at m.offsets (length before) ≡ done (total before) =
        at-offsets before (r ∷ after) e in
      let n : length (before ++ r ∷ []) ≡ length before + 1 =
        omega (arith, length-append before (r ∷ [])) in
      let t : total (before ++ r ∷ []) ≡ total before + region_size r =
        omega (arith, total-append before (r ∷ [])) in
      let hi : at m.offsets (length before + 1) ≡ done (total before + region_size r) =
        rw (← n, ← t)
          (at-offsets (before ++ r ∷ []) after (e ∙ sym (append_assoc before (r ∷ []) after))) in
      let whole : total before + region_size r ≤ total rs =
        omega (arith, ap total e, total-append before (r ∷ after)) in
      let few : length before < length rs =
        omega (arith, ap length e, length-append before (r ∷ after)) in
      let next : add64 (length before) 1 ≡ length before + 1 =
        add64_exact (length before) 1 (omega arith) in
      let from : sub64 (total before + k) (total before) ≡ k =
        sub64_exact (total before + k) (total before) (omega arith) (omega arith) ∙ omega arith in
      let lim : sub64 (total before + region_size r) (total before + k) ≡ region_size r - k =
        sub64_exact (total before + region_size r) (total before + k) (omega arith) (omega arith)
        ∙ omega arith in
      let offset' : add64 (total before + k) (length got) ≡ total before + (k + length got) =
        add64_exact (total before + k) (length got) (omega arith) ∙ omega arith in
      let left : sub64 size (length got) ≡ size - length got =
        sub64_exact size (length got) (omega arith) w in
      let test : leb (total before + region_size r) (total before + (k + length got))
          ≡ leb (region_size r) (k + length got) =
        ground arith in
      let nonzero : (size == 0) ≡ false = ground arith in
      let more : ltb (total before + k) (total rs) ≡ true =
        lt→ltb (total before + k) (total rs) inside in
      ground arith
