-- ===== src/BuildMap/Pages.antt =====
-- The loop invariant of both `BuildMap`: the builder holds the magic and the pages so far, and the
-- running totals are theirs.
use lanl_vir_parquet.Prelude.{
  ℕ, ◌+◌, ◌-◌, ◌*◌, ◌≤◌, ◌<◌, ◌≡◌, refl, sym, ap, ◌∙◌, subst, List, [], ◌∷◌, ◌++◌, Bool, arith,
  length, append_assoc, add64, add64_exact, u64_mod,
}
use native.Mathlib.Nat.{zero-add}
use lanl_vir_parquet.FMap.{MapBuilder, add_direct, add_mapped_region}
use lanl_vir_parquet.FMap.Build.{
  Represents, map_builder-Represents, add_direct-Represents, add_mapped_region-Represents,
}
use lanl_vir_parquet.FMap.Region.{direct, mapped, total, total-append}
use lanl_vir_parquet.Parquet.Protocol.{Call}
use lanl_vir_parquet.BuildMap.{Serializer, Totals, magic, start_totals, append_page}
use lanl_vir_parquet.BuildMap.Header.{page_header-declared}
use lanl_vir_parquet.BuildMap.Layout.{
  Sizes, sum_by, AllSizes, sum_by-append, mapped_size, header, pages, compressed_share,
  uncompressed_share, value_share, pages-append, total-pages,
}

-- Sizes and headers are numbers of an int32_t that are not negative.
abbrev pub half_word : ℕ
half_word = 0x8000_0000

abbrev pub IsPage : Sizes → Type 0
IsPage p = (p.0 < half_word) × (p.1 < half_word)

-- The serializer makes buffers whose length a non-negative int32_t can hold.
abbrev pub IsSmall : Serializer → Type 0
IsSmall serialize = (calls : List Call) → length (serialize calls) < half_word

-- A running total after one more page.
next_sum :
    (f : Sizes → ℕ) (ps : List Sizes) (p : Sizes) (a b : ℕ)
    → a ≡ sum_by f ps
    → b ≡ add64 a (f p)
    → sum_by f ps + f p < u64_mod
    → b ≡ sum_by f (ps ++ p ∷ [])
next_sum f ps p a b ea eb small =
    eb
    ∙ ap (λ k. add64 k (f p)) ea
    ∙ add64_exact (sum_by f ps) (f p) small
    ∙ omega (arith, sum_by-append f ps (p ∷ []))

AllSizes-snoc :
    (ps : List Sizes) (p : Sizes) → AllSizes IsPage ps → IsPage p → AllSizes IsPage (ps ++ p ∷ [])
AllSizes-snoc [] p h i = (i, tt)
AllSizes-snoc (q ∷ ps) p h i = (h.0, AllSizes-snoc ps p h.1 i)

module _ (serialize : Serializer) (is_small : IsSmall serialize) (value_size : ℕ) (flag : Bool)
    (pending : Bool) (start : ℕ) where
  pub record HasPages (ps : List Sizes) (t : Totals) : Type 0 where
    pub built : Represents pending start (direct magic ∷ pages serialize value_size 0 ps) t.builder
    pub at_offset : t.offset ≡ sum_by mapped_size ps
    pub at_compressed : t.compressed ≡ sum_by (compressed_share serialize value_size) ps
    pub at_uncompressed : t.uncompressed ≡ sum_by (uncompressed_share serialize value_size) ps
    pub at_count : t.count ≡ sum_by (value_share serialize value_size) ps
    pub valid : AllSizes IsPage ps

  pub start-HasPages : HasPages [] (start_totals pending start)
  start-HasPages = record {
    built = add_direct-Represents (map_builder-Represents pending start) magic (omega arith);
    at_offset = refl;
    at_compressed = refl;
    at_uncompressed = refl;
    at_count = refl;
    valid = tt;
  }

  -- No total of at most 2^31 valid pages comes near 2^63.
  mapped-bound :
      (ps : List Sizes) → AllSizes IsPage ps → sum_by mapped_size ps ≤ (half_word - 1) * length ps
  mapped-bound [] h = omega arith
  mapped-bound (p ∷ ps) h = omega (arith, mapped-bound ps h.1)

  pub compressed-bound :
      (ps : List Sizes)
      → AllSizes IsPage ps
      → sum_by (compressed_share serialize value_size) ps ≤ (2 * half_word - 2) * length ps
  compressed-bound [] h = omega arith
  compressed-bound (p ∷ ps) h = omega (arith, compressed-bound ps h.1, is_small)

  uncompressed-bound :
      (ps : List Sizes)
      → AllSizes IsPage ps
      → sum_by (uncompressed_share serialize value_size) ps ≤ (2 * half_word - 2) * length ps
  uncompressed-bound [] h = omega arith
  uncompressed-bound (p ∷ ps) h = omega (arith, uncompressed-bound ps h.1, is_small)

  value-bound :
      (ps : List Sizes)
      → AllSizes IsPage ps
      → sum_by (value_share serialize value_size) ps ≤ half_word * length ps
  value-bound [] h = omega arith
  value-bound (p ∷ ps) h = omega (arith, value-bound ps h.1)

  -- AppendPage adds the header that the page is to have, and then its data.
  append_page-declared :
      (p : Sizes) (b : MapBuilder) (offset : ℕ)
      → IsPage p
      → append_page serialize b value_size offset p.0 p.1 flag ≡ (
        add_mapped_region offset p.0 (add_direct (header serialize value_size p) b),
        length (header serialize value_size p),
      )
  unfolding append_page
  append_page-declared p b offset fits =
      rw (page_header-declared value_size p.0 p.1 flag fits.0 fits.1) refl

  -- AppendPage adds a page at the end.
  append_page-Represents :
      (ps : List Sizes) (p : Sizes) (b : MapBuilder) (offset : ℕ)
      → Represents pending start (direct magic ∷ pages serialize value_size 0 ps) b
      → offset ≡ sum_by mapped_size ps
      → AllSizes IsPage ps
      → IsPage p
      → length ps < half_word
      → Represents pending start
          (direct magic ∷ pages serialize value_size 0 (ps ++ p ∷ []))
          (append_page serialize b value_size offset p.0 p.1 flag).0
  append_page-Represents ps p b offset built at valid fits few =
      let rs = direct magic ∷ pages serialize value_size 0 ps in
      let t : total rs ≡ 4 + sum_by (compressed_share serialize value_size) ps =
        omega (arith, total-pages serialize value_size 0 ps) in
      let small : length (header serialize value_size p) < half_word = is_small _ in
      let one : Represents pending start (rs ++ direct (header serialize value_size p) ∷ [])
          (add_direct (header serialize value_size p) b) =
        add_direct-Represents built (header serialize value_size p)
          (omega (arith, compressed-bound ps valid)) in
      let two = add_mapped_region-Represents one offset p.0 (omega (arith, mapped-bound ps valid)) (
        omega (
          arith,
          compressed-bound ps valid,
          total-append rs (direct (header serialize value_size p) ∷ []),
        )) in
      let e : rs ++ direct (header serialize value_size p) ∷ [] ++ mapped offset p.0 ∷ []
          ≡ direct magic ∷ pages serialize value_size 0 (ps ++ p ∷ []) =
        rw (at, append_assoc)
          (ap (λ xs. direct magic ∷ xs)
            (sym (simp zero-add at (pages-append serialize value_size 0 ps p)))) in
      rw (append_page-declared p b offset fits) (
        subst
          (λ xs.
            Represents pending start xs
              (add_mapped_region offset p.0 (add_direct (header serialize value_size p) b)))
          e two)

  -- A round of either loop keeps the invariant, if its sums do not wrap.
  pub next-HasPages :
      (ps : List Sizes) (p : Sizes) (t u : Totals)
      → HasPages ps t
      → IsPage p
      → length ps < half_word
      → u.builder ≡ (append_page serialize t.builder value_size t.offset p.0 p.1 flag).0
      → u.offset ≡ add64 t.offset p.0
      → u.compressed ≡ add64 t.compressed (compressed_share serialize value_size p)
      → u.uncompressed ≡ add64 t.uncompressed (uncompressed_share serialize value_size p)
      → u.count ≡ add64 t.count (value_share serialize value_size p)
      → HasPages (ps ++ p ∷ []) u
  next-HasPages ps p t u h fits few eb eo ec eu en =
      let small : length (header serialize value_size p) < half_word = is_small _ in
      record {
        built =
            rw eb
              (append_page-Represents ps p t.builder t.offset h.built h.at_offset h.valid fits few);
        at_offset =
            next_sum mapped_size ps p t.offset u.offset h.at_offset eo
              (omega (arith, mapped-bound ps h.valid));
        at_compressed =
            next_sum (compressed_share serialize value_size) ps p t.compressed u.compressed
              h.at_compressed ec (omega (arith, compressed-bound ps h.valid));
        at_uncompressed =
            next_sum (uncompressed_share serialize value_size) ps p t.uncompressed u.uncompressed
              h.at_uncompressed eu (omega (arith, uncompressed-bound ps h.valid));
        at_count =
            next_sum (value_share serialize value_size) ps p t.count u.count h.at_count en
              (omega (arith, value-bound ps h.valid));
        valid = AllSizes-snoc ps p h.valid fits;
      }
