-- ===== src/FMap/Serve.antt =====
-- `FileMap::Read` of a part of a region gives a part of the region's bytes.
use lanl_vir_parquet.Prelude.{
  ℕ, zero, suc, ◌+◌, ◌-◌, ◌≤◌, ◌<◌, ◌≡◌, refl, sym, ap, subst, ◌∙◌, Bool, List, ◌∷◌, ◌++◌, some,
  arith, le→leb, if◌then◌else◌, length, drop, get_elem?, length-append, length-drop, drop-append,
  drop-append_le, take-append_le, get_elem?-append, add64, sub64, add64_exact, sub64_exact, u64_mod,
}
use native.Mathlib.Nat.{zero-add}
use lanl_vir_parquet.Prelude.Int.{ℤ, pos, neg}
use lanl_vir_parquet.File.{done, ◌>>=◌, or_undefined, RandomAccessFile, offsetted_file}
use lanl_vir_parquet.File.Serves.{Served, Serves, Served-whole, Served-part}
use lanl_vir_parquet.Base64.{DecodeTriplet, base64_reader}
use lanl_vir_parquet.FMap.{FileMap, copy_direct, read_at, read}
use lanl_vir_parquet.FMap.Build.{IsMap}
use lanl_vir_parquet.FMap.Region.{
  Region, direct, mapped, region_size, region_bytes, total, unders, directs, AllInside,
  total-append, directs-append, unders-append, length-unders, length-directs-le-total,
  AllInside-append,
}

-- The view of the base file that the mapped regions are read from.
abbrev pub mapped_source : DecodeTriplet → Bool → ℕ → RandomAccessFile → RandomAccessFile
mapped_source dec pending start base size offset =
    if pending
    then base64_reader dec base start size offset
    else offsetted_file base start size offset

-- A copy out of the direct buffer reads the bytes of one region.
copy_direct-region :
    (front bs back : List ℕ) (k size : ℕ)
    → k + size ≤ length bs
    → Served bs size k (copy_direct (front ++ (bs ++ back)) (length front + k) size)
unfolding copy_direct
copy_direct-region front bs back k size h =
    let fits : length front + k + size ≤ length (front ++ (bs ++ back)) =
      omega (arith, length-append front (bs ++ back), length-append bs back) in
    let d : length front + k - length front ≡ k = omega arith in
    Served-whole bs size k _
      (rw
        (
          le→leb (length front + k + size) (length (front ++ (bs ++ back))) fits,
          drop-append (length front + k) front (bs ++ back) (omega arith),
          d,
          drop-append_le k bs back (omega arith),
        )
        (ap done (take-append_le size (drop k bs) back (omega (arith, length-drop k bs)))))
      h

module _ (dec : DecodeTriplet) (base : RandomAccessFile) (pending : Bool) (start : ℕ)
    (m : FileMap) where
  -- A positive underlying offset is read through the view of the base file.
  pub read_at-mapped :
      (offset k size : ℕ)
      → m.pending_base64_decoding ≡ pending
      → m.data_start ≡ start
      → start + offset + k + 1 < u64_mod
      → read_at dec m base (pos (suc offset)) k size
        ≡ mapped_source dec pending start base size (offset + k)
  unfolding read_at offsetted_file
  read_at-mapped offset k size ep es small =
      let a : add64 (sub64 (suc offset) 1) k ≡ offset + k =
        ap (λ x. add64 x k) (sub64_exact (suc offset) 1 (omega arith) (omega arith))
        ∙ add64_exact (suc offset - 1) k (omega arith)
        ∙ omega arith in
      let b : add64 (sub64 (add64 start (suc offset)) 1) k ≡ add64 start (offset + k) =
        ap (λ x. add64 (sub64 x 1) k) (add64_exact start (suc offset) (omega arith))
        ∙ ap (λ x. add64 x k) (sub64_exact (start + suc offset) 1 (omega arith) (omega arith))
        ∙ add64_exact (start + suc offset - 1) k (omega arith)
        ∙ omega arith
        ∙ sym (add64_exact start (offset + k) (omega arith)) in
      rw (ep, es, a, b)

module _ (dec : DecodeTriplet) (base : RandomAccessFile) (m : FileMap) where
  pub read-eq :
      (i k size : ℕ) (u : ℤ)
      → get_elem? m.underlying_offsets i ≡ some u
      → read dec m base i k size ≡ read_at dec m base u k size
  unfolding read
  read-eq i k size u e = ap (λ o. or_undefined o >>= λ v. read_at dec m base v k size) e

  read_at-direct :
      (d k size : ℕ) → read_at dec m base (neg d) k size ≡ copy_direct m.direct_buf (add64 d k) size
  unfolding read_at
  read_at-direct zero k size = refl
  read_at-direct (suc d) k size = refl

pub get-unders :
    (pending : Bool) (start : ℕ) (m : FileMap) (rs : List Region)
    → IsMap pending start rs m
    → (before after : List Region) (r : Region) (u : ℤ) (tail : List ℤ) → rs ≡ before ++ r ∷ after
    → unders (length (directs before)) (r ∷ after) ≡ u ∷ tail
    → get_elem? m.underlying_offsets (length before) ≡ some u
get-unders pending start m rs is_map before after r u tail e t =
    rw (is_map.at_unders, e, unders-append 0 before (r ∷ after), zero-add, t)
      (ap (λ n. get_elem? (unders 0 before ++ u ∷ tail) n) (sym (length-unders 0 before))
        ∙ get_elem?-append (unders 0 before) u tail)

module _ (dec : DecodeTriplet) (base : RandomAccessFile) (pending : Bool) (start : ℕ) (m : FileMap)
    (rs : List Region) (data_bytes : List ℕ) (is_map : IsMap pending start rs m)
    (serves : Serves (mapped_source dec pending start base) data_bytes)
    (small : start + length data_bytes + 1 < u64_mod)
    (fits : total rs + length rs + 1 < u64_mod) where
  -- A read of a part of a region gives a part of the region's bytes.
  pub read-Served :
      (before : List Region) (r : Region) (after : List Region) (k size : ℕ)
      → rs ≡ before ++ r ∷ after
      → AllInside (length data_bytes) rs
      → k + size ≤ region_size r
      → Served (region_bytes data_bytes r) size k (read dec m base (length before) k size)
  read-Served before (direct bs) after k size e inside h =
      let n : ℕ = length (directs before) in
      let u : get_elem? m.underlying_offsets (length before) ≡ some (neg n) =
        get-unders pending start m rs is_map before after (direct bs) (neg n)
          (unders (n + length bs) after) e refl in
      let l : n + k < u64_mod = omega (
        arith,
        length-directs-le-total before,
        ap total e,
        total-append before (direct bs ∷ after),
      ) in
      let d : m.direct_buf ≡ directs before ++ (bs ++ directs after) =
        is_map.at_direct ∙ ap directs e ∙ directs-append before (direct bs ∷ after) in
      rw
        (
          read-eq dec base m (length before) k size (neg n) u,
          read_at-direct dec base m n k size,
          add64_exact n k l,
          d,
        )
        (copy_direct-region (directs before) bs (directs after) k size h)
  read-Served before (mapped offset len) after k size e inside h =
      let u : get_elem? m.underlying_offsets (length before) ≡ some (pos (suc offset)) =
        get-unders pending start m rs is_map before after (mapped offset len) (pos (suc offset))
          (unders (length (directs before)) after) e refl in
      let i : offset + len ≤ length data_bytes =
        (AllInside-append (length data_bytes) before (mapped offset len ∷ after)
          (subst (AllInside (length data_bytes)) e inside)).0 in
      rw
        (
          read-eq dec base m (length before) k size (pos (suc offset)) u,
          read_at-mapped dec base pending start m offset k size is_map.same_pending
              is_map.same_start (omega arith),
        )
        (Served-part data_bytes offset len k size h (serves size (offset + k) (omega arith)))
