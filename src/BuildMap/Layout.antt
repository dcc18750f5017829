-- ===== src/BuildMap/Layout.antt =====
-- The layout that the Parquet file of an array is to have: the magic, for each page its header and
-- the mapped range of its data, the footer, the length of the footer, and the magic.
use lanl_vir_parquet.Prelude.{
  ℕ, ◌+◌, ◌-◌, ◌*◌, ◌/◌, ◌≤◌, ◌≡◌, refl, ap, List, [], ◌∷◌, ◌++◌, Option, arith, length, take, drop,
  drop-drop, take_split, append_assoc, append-nil, to_u32,
}
use lanl_vir_parquet.Prelude.Text.{Text}
use lanl_vir_parquet.Arr.Words.{to_bytes}
use lanl_vir_parquet.FMap.Region.{
  Region, direct, mapped, total, region_bytes, AllInside, AllInside-join,
}
use lanl_vir_parquet.Parquet.{PhysicalType, ConvertedType, CompressionCodec}
use lanl_vir_parquet.Parquet.Write.{write_page_header, write_file_meta_data}
use lanl_vir_parquet.BuildMap.{Serializer, file_meta_data, magic}
use lanl_vir_parquet.BuildMap.Header.{declared_header}

-- A page by its sizes, compressed and uncompressed.
abbrev pub Sizes : Type 0
Sizes = ℕ × ℕ

abbrev pub sum_by : (Sizes → ℕ) → List Sizes → ℕ
sum_by f [] = 0
sum_by f (p ∷ ps) = f p + sum_by f ps

abbrev pub AllSizes : (Sizes → Type 0) → List Sizes → Type 0
AllSizes P [] = Unit
AllSizes P (p ∷ ps) = P p × AllSizes P ps

pub sum_by-append :
    (f : Sizes → ℕ) (ps qs : List Sizes) → sum_by f (ps ++ qs) ≡ sum_by f ps + sum_by f qs
sum_by-append f [] qs = omega arith
sum_by-append f (p ∷ ps) qs = omega (arith, sum_by-append f ps qs)

pub sum_by-le :
    (f : Sizes → ℕ) (b : ℕ) (ps : List Sizes)
    → AllSizes (λ p. f p ≤ b) ps
    → sum_by f ps ≤ b * length ps
sum_by-le f b [] h = omega arith
sum_by-le f b (p ∷ ps) h = omega (arith, sum_by-le f b ps h.1)

abbrev pub mapped_size : Sizes → ℕ
mapped_size p = p.0

module _ (serialize : Serializer) (value_size : ℕ) where
  abbrev pub header : Sizes → List ℕ
  header p = serialize (write_page_header (declared_header value_size p.0 p.1))

  -- the pages whose data stands one behind the other from `o` on
  abbrev pub pages : ℕ → List Sizes → List Region
  pages o [] = []
  pages o (p ∷ ps) = direct (header p) ∷ mapped o p.0 ∷ pages (o + p.0) ps

  -- a page's share of the totals in the footer
  abbrev pub compressed_share : Sizes → ℕ
  compressed_share p = length (header p) + p.0

  abbrev pub uncompressed_share : Sizes → ℕ
  uncompressed_share p = length (header p) + p.1

  abbrev pub value_share : Sizes → ℕ
  value_share p = p.1 / value_size

  pub pages-append :
      (o : ℕ) (ps : List Sizes) (p : Sizes)
      → pages o (ps ++ p ∷ [])
        ≡ pages o ps ++ direct (header p) ∷ mapped (o + sum_by mapped_size ps) p.0 ∷ []
  pages-append o [] p = ap (λ k. direct (header p) ∷ mapped k p.0 ∷ []) (omega arith)
  pages-append o (q ∷ ps) p =
      let e : o + q.0 + sum_by mapped_size ps ≡ o + (q.0 + sum_by mapped_size ps) = omega arith in
      rw (← e) (ap (λ t. direct (header q) ∷ mapped o q.0 ∷ t) (pages-append (o + q.0) ps p))

  pub total-pages : (o : ℕ) (ps : List Sizes) → total (pages o ps) ≡ sum_by compressed_share ps
  total-pages o [] = refl
  total-pages o (p ∷ ps) = omega (arith, total-pages (o + p.0) ps)

  pub length-pages : (o : ℕ) (ps : List Sizes) → length (pages o ps) ≡ 2 * length ps
  length-pages o [] = refl
  length-pages o (p ∷ ps) = omega (arith, length-pages (o + p.0) ps)

  pub pages-AllInside :
      (limit o : ℕ) (ps : List Sizes)
      → o + sum_by mapped_size ps ≤ limit
      → AllInside limit (pages o ps)
  pages-AllInside limit o [] h = tt
  pages-AllInside limit o (p ∷ ps) h =
      (omega arith, pages-AllInside limit (o + p.0) ps (omega arith))

  -- The footer, over the totals of the pages.
  abbrev pub footer :
      Text → PhysicalType → Option ConvertedType → CompressionCodec → List Sizes → List ℕ
  footer name storage conv codec ps = serialize (
      write_file_meta_data (
        file_meta_data name storage conv codec (sum_by compressed_share ps)
          (sum_by uncompressed_share ps) (sum_by value_share ps)))

  abbrev pub tail_regions : List ℕ → List Region
  tail_regions foot = direct foot ∷ direct (to_bytes 4 (to_u32 (length foot))) ∷ direct magic ∷ []

  abbrev pub file_regions :
      Text → PhysicalType → Option ConvertedType → CompressionCodec → List Sizes → List Region
  file_regions name storage conv codec ps =
      (direct magic ∷ pages 0 ps) ++ tail_regions (footer name storage conv codec ps)

-- The bytes that come out of mapped regions, in order.
abbrev pub mapped_bytes : List ℕ → List Region → List ℕ
mapped_bytes data_bytes [] = []
mapped_bytes data_bytes (direct bs ∷ rs) = mapped_bytes data_bytes rs
mapped_bytes data_bytes (mapped o s ∷ rs) =
    region_bytes data_bytes (mapped o s) ++ mapped_bytes data_bytes rs

pub mapped_bytes-append :
    (data_bytes : List ℕ) (xs ys : List Region)
    → mapped_bytes data_bytes (xs ++ ys) ≡ mapped_bytes data_bytes xs ++ mapped_bytes data_bytes ys
mapped_bytes-append data_bytes [] ys = refl
mapped_bytes-append data_bytes (direct bs ∷ xs) ys = mapped_bytes-append data_bytes xs ys
mapped_bytes-append data_bytes (mapped o s ∷ xs) ys =
    rw (mapped_bytes-append data_bytes xs ys, append_assoc)

-- The data of the pages is the array, byte for byte and in order.
pub mapped_bytes-pages :
    (serialize : Serializer) (value_size : ℕ) (data_bytes : List ℕ) (o : ℕ) (ps : List Sizes)
    → mapped_bytes data_bytes (pages serialize value_size o ps)
      ≡ take (sum_by mapped_size ps) (drop o data_bytes)
mapped_bytes-pages serialize value_size data_bytes o [] = refl
mapped_bytes-pages serialize value_size data_bytes o (p ∷ ps) =
    let e : p.0 + sum_by mapped_size ps - p.0 ≡ sum_by mapped_size ps = omega arith in
    rw (
      mapped_bytes-pages serialize value_size data_bytes (o + p.0) ps,
      take_split p.0 (p.0 + sum_by mapped_size ps) (drop o data_bytes) (omega arith),
      e,
      drop-drop p.0 o data_bytes,
    )

pub file_regions-AllInside :
    (serialize : Serializer) (value_size : ℕ) (name : Text) (storage : PhysicalType)
    (conv : Option ConvertedType) (codec : CompressionCodec) (limit : ℕ) (ps : List Sizes)
    → sum_by mapped_size ps ≤ limit
    → AllInside limit (file_regions serialize value_size name storage conv codec ps)
file_regions-AllInside serialize value_size name storage conv codec limit ps h =
    AllInside-join limit (direct magic ∷ pages serialize value_size 0 ps) _
      (pages-AllInside serialize value_size limit 0 ps (omega arith)) tt

-- The mapped bytes of a whole file, its magics, headers and footer left out, are the data of the
-- pages: the first bytes of the array, as many as the pages hold, each once and in order.
pub mapped_bytes-file_regions :
    (serialize : Serializer) (value_size : ℕ) (data_bytes : List ℕ) (name : Text)
    (storage : PhysicalType) (conv : Option ConvertedType) (codec : CompressionCodec)
    (ps : List Sizes)
    → mapped_bytes data_bytes (file_regions serialize value_size name storage conv codec ps)
      ≡ take (sum_by mapped_size ps) data_bytes
mapped_bytes-file_regions serialize value_size data_bytes name storage conv codec ps =
    rw
      (
        mapped_bytes-append data_bytes (direct magic ∷ pages serialize value_size 0 ps) (
            tail_regions serialize value_size
              (footer serialize value_size name storage conv codec ps)),
        mapped_bytes-pages serialize value_size data_bytes 0 ps,
      )
      (append-nil (take (sum_by mapped_size ps) data_bytes))
