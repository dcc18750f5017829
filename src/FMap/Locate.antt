-- ===== src/FMap/Locate.antt =====
-- Where an offset lies among the regions of a map, and what a read there puts together.
use lanl_vir_parquet.Prelude.{
  ℕ, suc, ◌+◌, ◌-◌, ◌≤◌, ◌<◌, ◌≡◌, refl, ap, List, [], ◌∷◌, ◌++◌, arith, lt→ltb, le→ltb, length,
  take, drop, length-take, length-drop, append_assoc, take-append,
}
use native.Mathlib.Decide.{dec_lt}
use lanl_vir_parquet.FMap.{upper_bound}
use lanl_vir_parquet.FMap.Region.{
  Region, direct, mapped, region_size, region_bytes, total, starts, AllInside,
}

-- Where an offset lies: `std::upper_bound` gives the index after its region.
pub record Located (o x : ℕ) (rs : List Region) : Type 0 where
  pub before : List Region
  pub region : Region
  pub after : List Region
  pub split : rs ≡ before ++ region ∷ after
  pub index : upper_bound (starts o rs ++ (o + total rs) ∷ []) x ≡ suc (length before)
  pub low : o + total before ≤ x
  pub high : x < o + total before + region_size region

upper_bound-above :
    (o x : ℕ) (rs : List Region) → x < o → upper_bound (starts o rs ++ (o + total rs) ∷ []) x ≡ 0
unfolding upper_bound
upper_bound-above o x [] h = rw (lt→ltb x (o + 0) (omega arith))
upper_bound-above o x (r ∷ rs) h = rw (lt→ltb x o h)

upper_bound-below :
    (o x : ℕ) (os : List ℕ) → o ≤ x → upper_bound (o ∷ os) x ≡ suc (upper_bound os x)
unfolding upper_bound
upper_bound-below o x os h = rw (le→ltb x o h)

pub locate : (o x : ℕ) (rs : List Region) → o ≤ x → x < o + total rs → Located o x rs
locate o x [] h l = absurd (omega arith)
locate o x (r ∷ rs) h l =
    let a : o + (region_size r + total rs) ≡ o + region_size r + total rs = omega arith in
    elim (dec_lt x (o + region_size r)) [
      | yes here ↦ record {
        before = [];
        region = r;
        after = rs;
        split = refl;
        index = rw (
          a,
          upper_bound-below o x
              (starts (o + region_size r) rs ++ (o + region_size r + total rs) ∷ []) h,
          upper_bound-above (o + region_size r) x rs here,
        );
        low = omega arith;
        high = omega arith;
      }
      | no there ↦
          let rec = locate (o + region_size r) x rs (omega arith) (omega arith) in
          record {
            before = r ∷ rec.before;
            region = rec.region;
            after = rec.after;
            split = ap (λ xs. r ∷ xs) rec.split;
            index = rw (
              a,
              upper_bound-below o x
                  (starts (o + region_size r) rs ++ (o + region_size r + total rs) ∷ []) h,
              rec.index,
            );
            low = omega (arith, rec.low);
            high = omega (arith, rec.high);
          }
    ]

-- What a round has read and what the rounds after it read is what was asked for.
pub read_join :
    (out got bs rest : List ℕ) (k size : ℕ)
    → drop k bs ≡ got ++ drop (k + length got) bs
    → length got ≤ size
    → out ++ got ++ take (size - length got) (drop (k + length got) bs ++ rest)
      ≡ out ++ take size (drop k bs ++ rest)
read_join out got bs rest k size from le = rw (
  from,
  append_assoc got (drop (k + length got) bs) rest,
  take-append size got (drop (k + length got) bs ++ rest) le,
  append_assoc out got (take (size - length got) (drop (k + length got) bs ++ rest)),
)

pub length-region_bytes :
    (data_bytes : List ℕ) (r : Region) (after : List Region)
    → AllInside (length data_bytes) (r ∷ after)
    → length (region_bytes data_bytes r) ≡ region_size r
length-region_bytes data_bytes (direct bs) after h = refl
length-region_bytes data_bytes (mapped offset size) after h =
    omega (arith, length-take size (drop offset data_bytes), length-drop offset data_bytes)
