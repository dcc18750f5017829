-- ===== src/FMap/Read.antt =====
-- `FileMap::Pread` refines the specification: it reads the virtual file that the regions make up.
use lanl_vir_parquet.Prelude.{
  ℕ, zero, suc, ◌+◌, ◌-◌, ◌≤◌, ◌<◌, ◌≡◌, refl, sym, ap, subst, ◌∙◌, Bool, List, [], ◌∷◌, ◌++◌,
  arith, le→leb, lt→leb, min, length, take, drop, length-append, length-drop, append_assoc,
  append-nil, drop_all, nil_of_length, take_nil, sub64, sub64_exact, u64_mod,
}
use native.Mathlib.Decide.{dec_lt, dec_le}
use native.Mathlib.Nat.{zero-add}
use lanl_vir_parquet.File.{done, RandomAccessFile}
use lanl_vir_parquet.File.Serves.{Serves}
use lanl_vir_parquet.Base64.{DecodeTriplet}
use lanl_vir_parquet.FMap.{FileMap, upper_bound, pread_loop, pread}
use lanl_vir_parquet.FMap.Build.{IsMap}
use lanl_vir_parquet.FMap.Rounds.{loop_stop, loop_step}
use lanl_vir_parquet.FMap.Serve.{mapped_source, read-Served}
use lanl_vir_parquet.FMap.Region.{
  Region, region_size, region_bytes, total, virtual, starts, AllInside, total-append, length-starts,
  length-virtual, AllInside-append, AllInside-front, drop-virtual,
}
use lanl_vir_parquet.FMap.Locate.{Located, locate, read_join, length-region_bytes}

module _ (dec : DecodeTriplet) (base : RandomAccessFile) (pending : Bool) (start : ℕ) (m : FileMap)
    (rs : List Region) (data_bytes : List ℕ) (is_map : IsMap pending start rs m)
    (serves : Serves (mapped_source dec pending start base) data_bytes)
    (small : start + length data_bytes + 1 < u64_mod)
    (fits : total rs + length rs + 1 < u64_mod) where
  -- After the last byte of a region the loop goes on with the next one, if there is one.
  loop_next :
      (fuel : ℕ) (before : List Region) (r : Region) (after : List Region) (size : ℕ) (out : List ℕ)
      → rs ≡ before ++ r ∷ after
      → 0 < fuel
      → ((r2 : Region) (rest : List Region)
          → after ≡ r2 ∷ rest
          → pread_loop dec m base fuel
              (length (before ++ r ∷ []))
              size
              (total (before ++ r ∷ []) + 0)
              out
            ≡ done (out ++ take size (region_bytes data_bytes r2 ++ virtual data_bytes rest)))
      → pread_loop dec m base fuel (length before + 1) size (total before + region_size r) out
        ≡ done (out ++ take size (virtual data_bytes after))
  loop_next zero before r after size out e p ih = absurd (omega arith)
  loop_next (suc fuel) before r [] size out e p ih =
      let t : total before + region_size r ≡ total rs =
        omega (arith, ap total e, total-append before (r ∷ [])) in
      rw (t, take_nil {A = ℕ} size, append-nil)
        (loop_stop dec base pending start m rs is_map fits fuel (length before + 1) size (total rs)
          out (omega arith))
  loop_next (suc fuel) before r (r2 ∷ rest) size out e p ih =
      let n : length (before ++ r ∷ []) ≡ length before + 1 =
        omega (arith, length-append before (r ∷ [])) in
      let t : total (before ++ r ∷ []) + 0 ≡ total before + region_size r =
        omega (arith, total-append before (r ∷ [])) in
      rw (← n, ← t) (ih r2 rest refl)

  loop_reads :
      (fuel : ℕ) (before : List Region) (r : Region) (after : List Region) (k size : ℕ)
      (out : List ℕ)
      → rs ≡ before ++ r ∷ after
      → AllInside (length data_bytes) rs
      → k ≤ region_size r
      → size + length after + 1 < fuel
      → size < u64_mod
      → pread_loop dec m base fuel (length before) size (total before + k) out
        ≡ done (out ++ take size (drop k (region_bytes data_bytes r) ++ virtual data_bytes after))
  unfolding pread_loop
  loop_reads zero before r after k size out e inside h f w = absurd (omega arith)
  loop_reads (suc fuel) before r after k zero out e inside h f w = ap done (sym (append-nil out))
  loop_reads (suc fuel) before r after k (suc s) out e inside h f w =
      let tail : AllInside (length data_bytes) (r ∷ after) =
        AllInside-append (length data_bytes) before (r ∷ after)
          (subst (AllInside (length data_bytes)) e inside) in
      let b : length (region_bytes data_bytes r) ≡ region_size r =
        length-region_bytes data_bytes r after tail in
      elim (dec_lt (total before + k) (total rs)) [
        | no past ↦
            let t : total before + k ≡ total rs =
              omega (arith, ap total e, total-append before (r ∷ after)) in
            let z : drop k (region_bytes data_bytes r) ++ virtual data_bytes after ≡ [] =
              nil_of_length (drop k (region_bytes data_bytes r) ++ virtual data_bytes after) (
                omega (
                  arith,
                  b,
                  ap total e,
                  total-append before (r ∷ after),
                  length-append (drop k (region_bytes data_bytes r)) (virtual data_bytes after),
                  length-drop k (region_bytes data_bytes r),
                  length-virtual data_bytes after
                      (AllInside-append (length data_bytes) (r ∷ []) after tail),
                )) in
            ap (λ o. pread_loop dec m base (suc fuel) (length before) (suc s) o out) t
            ∙ loop_stop dec base pending start m rs is_map fits fuel (length before) (suc s)
                (total rs) out (omega arith)
            ∙ ap done (sym (ap (λ xs. out ++ take (suc s) xs) z ∙ append-nil out))
        | yes more ↦
            let v =
              read-Served dec base pending start m rs data_bytes is_map serves small fits before r
                after k (min (suc s) (region_size r - k)) e inside (omega arith) in
            loop_step dec base pending start m rs is_map fits fuel before r after k (suc s) out
              v.got e h (omega arith) more v.returns v.fits w
            ∙ elim (dec_le (region_size r) (k + length v.got)) [
              | yes ended ↦
                  let whole : k + length v.got ≡ region_size r = omega (arith, v.fits) in
                  let none_left : drop (k + length v.got) (region_bytes data_bytes r) ≡ [] =
                    drop_all (k + length v.got) (region_bytes data_bytes r) (omega (arith, b)) in
                  rw (le→leb (region_size r) (k + length v.got) ended) (
                    ap
                      (λ o.
                        pread_loop dec m base fuel (length before + 1) (suc s - length v.got)
                          (total before + o) (out ++ v.got))
                      whole
                    ∙ loop_next fuel before r after (suc s - length v.got) (out ++ v.got) e
                        (omega arith)
                        (λ r2 rest q.
                          loop_reads fuel (before ++ r ∷ []) r2 rest 0 (suc s - length v.got)
                            (out ++ v.got)
                            (e
                              ∙ ap (λ xs. before ++ r ∷ xs) q
                              ∙ sym (append_assoc before (r ∷ []) (r2 ∷ rest)))
                            inside (omega arith) (omega (arith, ap length q)) (omega arith)))
                  ∙ ap done (
                      rw none_left at (
                        read_join out v.got (region_bytes data_bytes r) (virtual data_bytes after) k
                          (suc s) v.from (omega (arith, v.fits))))
              | no inner ↦
                  rw (lt→leb (region_size r) (k + length v.got) (omega arith)) (
                    loop_reads fuel before r after (k + length v.got) (suc s - length v.got)
                      (out ++ v.got) e inside (omega arith) (omega (arith, v.progress, v.fits))
                      (omega arith))
                  ∙ ap done (
                      read_join out v.got (region_bytes data_bytes r) (virtual data_bytes after) k
                        (suc s) v.from (omega (arith, v.fits)))
            ]
      ]

  -- A read that begins inside of the file.
  pread_inside :
      (size offset : ℕ)
      → AllInside (length data_bytes) rs
      → size < u64_mod
      → Located 0 offset rs
      → length m.offsets ≡ length rs + 1
      → pread dec m base size offset ≡ done (take size (drop offset (virtual data_bytes rs)))
  unfolding pread
  pread_inside size offset inside w l len =
      let ub : upper_bound m.offsets offset ≡ suc (length l.before) =
        ap (λ os. upper_bound os offset) is_map.at_offsets ∙ simp zero-add at l.index in
      let few : length l.before < length rs =
        omega (arith, ap length l.split, length-append l.before (l.region ∷ l.after)) in
      let i : sub64 (upper_bound m.offsets offset) 1 ≡ length l.before =
        ap (λ x. sub64 x 1) ub
        ∙ sub64_exact (suc (length l.before)) 1 (omega arith) (omega arith)
        ∙ omega arith in
      let o : offset ≡ total l.before + (offset - total l.before) = omega (arith, l.low) in
      let all : AllInside (length data_bytes) (l.before ++ l.region ∷ l.after) =
        subst (AllInside (length data_bytes)) l.split inside in
      let b : length (region_bytes data_bytes l.region) ≡ region_size l.region =
        length-region_bytes data_bytes l.region l.after
          (AllInside-append (length data_bytes) l.before (l.region ∷ l.after) all) in
      let n : length rs ≡ length l.before + suc (length l.after) =
        omega (arith, ap length l.split, length-append l.before (l.region ∷ l.after)) in
      rw i (
        ap (λ x. pread_loop dec m base (size + length m.offsets + 2) (length l.before) size x []) o
        ∙ loop_reads (size + length m.offsets + 2) l.before l.region l.after
            (offset - total l.before) size [] l.split inside (omega (arith, l.high)) (omega arith) w
        ∙ ap (λ xs. done (take size xs))
            (sym (
              drop-virtual data_bytes l.before l.region l.after (offset - total l.before)
                (AllInside-front (length data_bytes) l.before (l.region ∷ l.after) all)
                (omega (arith, b, l.high))))
        ∙ ap (λ x. done (take size (drop x (virtual data_bytes (l.before ++ l.region ∷ l.after)))))
            (sym o)
        ∙ ap (λ xs. done (take size (drop offset (virtual data_bytes xs)))) (sym l.split))

  -- Whatever the offset and the size, and however short the reads of the base file are, FileMap::Pread
  -- ends and returns exactly the bytes of the virtual file from the offset on, cut at its end.
  pub pread_lem :
      (size offset : ℕ)
      → AllInside (length data_bytes) rs
      → size < u64_mod
      → pread dec m base size offset ≡ done (take size (drop offset (virtual data_bytes rs)))
  unfolding pread
  pread_lem size offset inside w =
      let rounds : size + length m.offsets + 2 ≡ suc (size + length m.offsets + 1) = omega arith in
      let len : length m.offsets ≡ length rs + 1 =
        ap length is_map.at_offsets
        ∙ omega (arith, length-append (starts 0 rs) (total rs ∷ []), length-starts 0 rs) in
      elim (dec_lt offset (total rs)) [
        | no past ↦
            let z : drop offset (virtual data_bytes rs) ≡ [] =
              drop_all offset (virtual data_bytes rs)
                (omega (arith, length-virtual data_bytes rs inside)) in
            rw (rounds, z, take_nil {A = ℕ} size)
              (loop_stop dec base pending start m rs is_map fits (size + length m.offsets + 1) _
                size offset [] (omega arith))
        | yes there ↦
            pread_inside size offset inside w (locate 0 offset rs (omega arith) (omega arith)) len
      ]
