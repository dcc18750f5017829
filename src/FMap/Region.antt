-- ===== src/FMap/Region.antt =====
-- The specification of a map: a list of regions, each with bytes of its own or with a range of the
-- mapped data, and the file that they make up.
use lanl_vir_parquet.Prelude.{
  ℕ, suc, ◌+◌, ◌-◌, ◌≤◌, ◌≡◌, refl, ap, List, [], ◌∷◌, ◌++◌, arith, length, take, drop,
  length-append, length-take, length-drop, drop-append, drop-append_le, append_assoc,
}
use lanl_vir_parquet.Prelude.Int.{ℤ, pos, neg}

pub data Region : Type 0 where
  direct : List ℕ → Region
  mapped : (offset size : ℕ) → Region

abbrev pub region_size : Region → ℕ
region_size (direct bs) = length bs
region_size (mapped offset size) = size

abbrev pub total : List Region → ℕ
total [] = 0
total (r ∷ rs) = region_size r + total rs

abbrev pub region_bytes : List ℕ → Region → List ℕ
region_bytes data_bytes (direct bs) = bs
region_bytes data_bytes (mapped offset size) = take size (drop offset data_bytes)

-- The whole virtual file.
abbrev pub virtual : List ℕ → List Region → List ℕ
virtual data_bytes [] = []
virtual data_bytes (r ∷ rs) = region_bytes data_bytes r ++ virtual data_bytes rs

-- where the regions begin in the virtual file, the first one at `o`
abbrev pub starts : ℕ → List Region → List ℕ
starts o [] = []
starts o (r ∷ rs) = o ∷ starts (o + region_size r) rs

-- the underlying offsets, with `d` bytes in the direct buffer before
abbrev pub unders : ℕ → List Region → List ℤ
unders d [] = []
unders d (direct bs ∷ rs) = neg d ∷ unders (d + length bs) rs
unders d (mapped offset size ∷ rs) = pos (suc offset) ∷ unders d rs

abbrev pub directs : List Region → List ℕ
directs [] = []
directs (direct bs ∷ rs) = bs ++ directs rs
directs (mapped offset size ∷ rs) = directs rs

-- Each mapped region lies inside `size` bytes of data.
abbrev pub AllInside : ℕ → List Region → Type 0
AllInside limit [] = Unit
AllInside limit (direct bs ∷ rs) = AllInside limit rs
AllInside limit (mapped offset size ∷ rs) = (offset + size ≤ limit) × AllInside limit rs

pub total-append : (xs ys : List Region) → total (xs ++ ys) ≡ total xs + total ys
total-append [] ys = omega arith
total-append (r ∷ xs) ys = omega (arith, total-append xs ys)

pub starts-append :
    (o : ℕ) (xs ys : List Region) → starts o (xs ++ ys) ≡ starts o xs ++ starts (o + total xs) ys
starts-append o [] ys = ap (λ k. starts k ys) (omega arith)
starts-append o (r ∷ xs) ys =
    let e : o + region_size r + total xs ≡ o + (region_size r + total xs) = omega arith in
    rw (← e) (ap (λ t. o ∷ t) (starts-append (o + region_size r) xs ys))

pub length-starts : (o : ℕ) (xs : List Region) → length (starts o xs) ≡ length xs
length-starts o [] = refl
length-starts o (r ∷ xs) = ap suc (length-starts (o + region_size r) xs)

pub directs-append : (xs ys : List Region) → directs (xs ++ ys) ≡ directs xs ++ directs ys
directs-append [] ys = refl
directs-append (direct bs ∷ xs) ys = rw (directs-append xs ys, append_assoc)
directs-append (mapped offset size ∷ xs) ys = directs-append xs ys

pub unders-append :
    (d : ℕ) (xs ys : List Region)
    → unders d (xs ++ ys) ≡ unders d xs ++ unders (d + length (directs xs)) ys
unders-append d [] ys = ap (λ k. unders k ys) (omega arith)
unders-append d (direct bs ∷ xs) ys =
    let e : d + length bs + length (directs xs) ≡ d + length (bs ++ directs xs) =
      omega (arith, length-append bs (directs xs)) in
    rw (← e) (ap (λ t. neg d ∷ t) (unders-append (d + length bs) xs ys))
unders-append d (mapped offset size ∷ xs) ys =
    ap (λ t. pos (suc offset) ∷ t) (unders-append d xs ys)

pub length-unders : (d : ℕ) (xs : List Region) → length (unders d xs) ≡ length xs
length-unders d [] = refl
length-unders d (direct bs ∷ xs) = ap suc (length-unders (d + length bs) xs)
length-unders d (mapped offset size ∷ xs) = ap suc (length-unders d xs)

pub AllInside-append :
    (limit : ℕ) (xs ys : List Region) → AllInside limit (xs ++ ys) → AllInside limit ys
AllInside-append limit [] ys h = h
AllInside-append limit (direct bs ∷ xs) ys h = AllInside-append limit xs ys h
AllInside-append limit (mapped offset size ∷ xs) ys h = AllInside-append limit xs ys h.1

pub length-directs-le-total : (xs : List Region) → length (directs xs) ≤ total xs
length-directs-le-total [] = omega arith
length-directs-le-total (direct bs ∷ xs) =
    omega (arith, length-append bs (directs xs), length-directs-le-total xs)
length-directs-le-total (mapped offset size ∷ xs) = omega (arith, length-directs-le-total xs)

-- The virtual file is as long as its regions together.
pub length-virtual :
    (data_bytes : List ℕ) (rs : List Region)
    → AllInside (length data_bytes) rs
    → length (virtual data_bytes rs) ≡ total rs
length-virtual data_bytes [] h = refl
length-virtual data_bytes (direct bs ∷ rs) h =
    omega (arith, length-append bs (virtual data_bytes rs), length-virtual data_bytes rs h)
length-virtual data_bytes (mapped offset size ∷ rs) h = omega (
  arith,
  length-append (take size (drop offset data_bytes)) (virtual data_bytes rs),
  length-take size (drop offset data_bytes),
  length-drop offset data_bytes,
  length-virtual data_bytes rs h.1,
)

pub AllInside-join :
    (limit : ℕ) (xs ys : List Region)
    → AllInside limit xs
    → AllInside limit ys
    → AllInside limit (xs ++ ys)
AllInside-join limit [] ys h k = k
AllInside-join limit (direct bs ∷ xs) ys h k = AllInside-join limit xs ys h k
AllInside-join limit (mapped offset size ∷ xs) ys h k = (h.0, AllInside-join limit xs ys h.1 k)

pub AllInside-front :
    (limit : ℕ) (xs ys : List Region) → AllInside limit (xs ++ ys) → AllInside limit xs
AllInside-front limit [] ys h = tt
AllInside-front limit (direct bs ∷ xs) ys h = AllInside-front limit xs ys h
AllInside-front limit (mapped offset size ∷ xs) ys h = (h.0, AllInside-front limit xs ys h.1)

virtual-append :
    (data_bytes : List ℕ) (xs ys : List Region)
    → virtual data_bytes (xs ++ ys) ≡ virtual data_bytes xs ++ virtual data_bytes ys
virtual-append data_bytes [] ys = refl
virtual-append data_bytes (r ∷ xs) ys = rw (virtual-append data_bytes xs ys, append_assoc)

-- The virtual file from the middle of a region on.
pub drop-virtual :
    (data_bytes : List ℕ) (xs : List Region) (r : Region) (ys : List Region) (k : ℕ)
    → AllInside (length data_bytes) xs
    → k ≤ length (region_bytes data_bytes r)
    → drop (total xs + k) (virtual data_bytes (xs ++ r ∷ ys))
      ≡ drop k (region_bytes data_bytes r) ++ virtual data_bytes ys
drop-virtual data_bytes xs r ys k h le =
    let n : length (virtual data_bytes xs) ≡ total xs = length-virtual data_bytes xs h in
    let d : total xs + k - length (virtual data_bytes xs) ≡ k = omega (arith, n) in
    rw
      (
        virtual-append data_bytes xs (r ∷ ys),
        drop-append (total xs + k) (virtual data_bytes xs) (virtual data_bytes (r ∷ ys))
            (omega (arith, n)),
        d,
      )
      (drop-append_le k (region_bytes data_bytes r) (virtual data_bytes ys) le)
