-- ===== src/BuildMap/Uncompressed.antt =====
-- `BuildMap` of an uncompressed array: pages of 32768 bytes and a last one with what is left.
use lanl_vir_parquet.Prelude.{
  ℕ, zero, suc, ◌+◌, ◌-◌, ◌*◌, ◌/◌, ◌%◌, ◌<◌, ◌≡◌, refl, sym, ap, ◌∙◌, subst, List, [], ◌∷◌, ◌++◌,
  Bool, true, false, Option, arith, leb, le→leb, length, append_assoc, append-nil, length-append,
  take, take_all, add64, sub64, add64_exact, sub64_exact,
}
use lanl_vir_parquet.Prelude.Text.{Text}
use lanl_vir_parquet.Result.{ok}
use lanl_vir_parquet.Arr.{DataType, CompressionType, UncompressedArray, get_value_size}
use lanl_vir_parquet.FMap.{FileMap}
use lanl_vir_parquet.FMap.Build.{IsMap}
use lanl_vir_parquet.FMap.Region.{Region, AllInside}
use lanl_vir_parquet.Parquet.{PhysicalType, ConvertedType, CompressionCodec}
use lanl_vir_parquet.BuildMap.{
  Serializer, Totals, start_totals, uncompressed_page, uncompressed_pages, build_map_uncompressed,
  finish_map, blk_sz, int_max, to_parquet_type, to_parquet_converted_type, to_parquet_codec,
}
use lanl_vir_parquet.BuildMap.Layout.{
  Sizes, sum_by, sum_by-append, mapped_size, file_regions, file_regions-AllInside, mapped_bytes,
  mapped_bytes-file_regions,
}
use lanl_vir_parquet.BuildMap.Header.{page_header-declared}
use lanl_vir_parquet.BuildMap.Pages.{IsSmall, HasPages, half_word, start-HasPages, next-HasPages}
use lanl_vir_parquet.BuildMap.Finish.{finish_map-IsMap}

abbrev pub full_pages : ℕ → List Sizes
full_pages zero = []
full_pages (suc n) = (32768, 32768) ∷ full_pages n

-- The pages of an array of `total_bytes` bytes, of which there is at least one.
abbrev pub pages_of : ℕ → List Sizes
pages_of total_bytes =
    full_pages ((total_bytes - 1) / 32768)
    ++ ((total_bytes - 1) % 32768 + 1, (total_bytes - 1) % 32768 + 1) ∷ []

length-full_pages : (n : ℕ) → length (full_pages n) ≡ n
length-full_pages zero = refl
length-full_pages (suc n) = ap suc (length-full_pages n)

mapped-full_pages : (n : ℕ) → sum_by mapped_size (full_pages n) ≡ 32768 * n
mapped-full_pages zero = omega arith
mapped-full_pages (suc n) = omega (arith, mapped-full_pages n)

-- The pages hold all bytes of the array.
pub mapped-pages_of :
    (total_bytes : ℕ) → 0 < total_bytes → sum_by mapped_size (pages_of total_bytes) ≡ total_bytes
mapped-pages_of total_bytes h =
    let n = (total_bytes - 1) / 32768 in
    let last = (total_bytes - 1) % 32768 + 1 in
    omega (arith, sum_by-append mapped_size (full_pages n) ((last, last) ∷ []), mapped-full_pages n)

full_pages-snoc :
    (n : ℕ) (ps : List Sizes) → ps ++ (32768, 32768) ∷ [] ++ full_pages n ≡ ps ++ full_pages (suc n)
full_pages-snoc n ps = append_assoc ps ((32768, 32768) ∷ []) (full_pages n)

module _ (serialize : Serializer) (is_small : IsSmall serialize) (value_size : ℕ) (pending : Bool)
    (start : ℕ) where
  page-HasPages :
      (ps : List Sizes) (size : ℕ) (t : Totals)
      → HasPages serialize is_small value_size false pending start ps t
      → size < half_word
      → length ps < half_word
      → HasPages serialize is_small value_size false pending start
          (ps ++ (size, size) ∷ [])
          (uncompressed_page serialize value_size size t)
  unfolding uncompressed_page
  page-HasPages ps size t h fits few =
      let e = page_header-declared value_size size size false fits fits in
      next-HasPages serialize is_small value_size false pending start ps (size, size) t
        (uncompressed_page serialize value_size size t) h (fits, fits) few refl refl (rw e refl)
        (rw e refl) refl

  uncompressed_pages-HasPages :
      (rounds : ℕ) (ps : List Sizes) (t : Totals)
      → HasPages serialize is_small value_size false pending start ps t
      → length ps + rounds < half_word
      → HasPages serialize is_small value_size false pending start
          (ps ++ full_pages rounds)
          (uncompressed_pages serialize rounds value_size t)
  unfolding uncompressed_pages
  uncompressed_pages-HasPages zero ps t h few =
      subst (λ xs. HasPages serialize is_small value_size false pending start xs t)
        (sym (append-nil ps)) h
  uncompressed_pages-HasPages (suc rounds) ps t h few =
      subst
        (λ xs. HasPages serialize is_small value_size false pending start xs (
          uncompressed_pages serialize rounds value_size
            (uncompressed_page serialize value_size blk_sz t)))
        (full_pages-snoc rounds ps)
        (uncompressed_pages-HasPages rounds (ps ++ (32768, 32768) ∷ [])
          (uncompressed_page serialize value_size blk_sz t)
          (page-HasPages ps 32768 t h (omega arith) (omega arith))
          (omega (arith, length-append ps ((32768, 32768) ∷ []))))

  module _ (name : Text) (type : DataType) (arr : UncompressedArray) (storage : PhysicalType)
      (conv : Option ConvertedType) (is_value_size : get_value_size type ≡ ok value_size)
      (is_type : to_parquet_type type ≡ ok storage)
      (is_conv : to_parquet_converted_type type ≡ ok conv) where
    -- BuildMap of an uncompressed array that is not empty and below 2^46 bytes returns the map of the
    -- file that the layout gives: the magic, pages of 32768 bytes that hold the whole array in order,
    -- each behind its header, the footer with the totals of the pages, its length, and the magic.
    pub build_map_uncompressed-IsMap :
        arr.data_start ≡ start
        → 0 < arr.total_bytes
        → arr.total_bytes < 0x4000_0000_0000
        → (m : FileMap) × (build_map_uncompressed serialize name type pending arr ≡ ok m)
          × IsMap pending start
              (file_regions serialize value_size name storage conv CompressionCodec.uncompressed
                (pages_of arr.total_bytes))
              m
    unfolding build_map_uncompressed to_parquet_codec
    build_map_uncompressed-IsMap at some_data small =
        let n : ℕ = (arr.total_bytes - 1) / 32768 in
        let last : ℕ = (arr.total_bytes - 1) % 32768 + 1 in
        let num : sub64 (add64 arr.total_bytes blk_sz) 1 / blk_sz ≡ n + 1 =
          ap (λ k. sub64 k 1 / 32768) (add64_exact arr.total_bytes 32768 (omega arith))
          ∙ ap (λ k. k / 32768)
              (sub64_exact (arr.total_bytes + 32768) 1 (omega arith) (omega arith))
          ∙ omega arith in
        let rounds : sub64 (n + 1) 1 ≡ n =
          sub64_exact (n + 1) 1 (omega arith) (omega arith) ∙ omega arith in
        let rest : add64 (sub64 arr.total_bytes 1 % 32768) 1 ≡ last =
          ap (λ k. add64 (k % 32768) 1) (sub64_exact arr.total_bytes 1 some_data (omega arith))
          ∙ add64_exact ((arr.total_bytes - 1) % 32768) 1 (omega arith) in
        let few : leb n int_max ≡ true = le→leb n int_max (omega arith) in
        let paged : build_map_uncompressed serialize name type pending arr
            ≡ finish_map serialize name type CompressionType.uncompressed (
                uncompressed_page serialize value_size last
                  (uncompressed_pages serialize n value_size (start_totals pending start))) =
          rw (is_value_size, num, rounds, few, num, rounds, rest, at) refl in
        let first =
          uncompressed_pages-HasPages n [] (start_totals pending start)
            (start-HasPages serialize is_small value_size false pending start) (omega arith) in
        let h =
          page-HasPages (full_pages n) last
            (uncompressed_pages serialize n value_size (start_totals pending start)) first
            (omega arith) (omega (arith, length-full_pages n)) in
        let r =
          finish_map-IsMap serialize is_small value_size false pending start name type
            CompressionType.uncompressed storage conv CompressionCodec.uncompressed is_type is_conv
            refl (pages_of arr.total_bytes) _ h
            (omega
              (arith, length-append (full_pages n) ((last, last) ∷ []), length-full_pages n)) in
        (r.0, paged ∙ r.1, r.2)

    -- The map of an array that is not empty and below 2^46 bytes has the whole array in its file: its
    -- mapped regions lie inside of the array, and their bytes in the order of the file are the array's.
    pub build_map_uncompressed-data :
        (data_bytes : List ℕ)
        → arr.data_start ≡ start
        → 0 < arr.total_bytes
        → arr.total_bytes < 0x4000_0000_0000
        → length data_bytes ≡ arr.total_bytes
        → (m : FileMap) × (rs : List Region) × (build_map_uncompressed serialize name type pending
              arr
            ≡ ok m)
          × IsMap pending start rs m
          × AllInside (length data_bytes) rs
          × (mapped_bytes data_bytes rs ≡ data_bytes)
    build_map_uncompressed-data data_bytes at some_data small len =
        let r = build_map_uncompressed-IsMap at some_data small in
        let ps = pages_of arr.total_bytes in
        let size : sum_by mapped_size ps ≡ length data_bytes =
          mapped-pages_of arr.total_bytes some_data ∙ sym len in
        (
          r.0,
          file_regions serialize value_size name storage conv CompressionCodec.uncompressed ps,
          r.1,
          r.2,
          file_regions-AllInside serialize value_size name storage conv
              CompressionCodec.uncompressed (length data_bytes) ps (omega (arith, size)),
          mapped_bytes-file_regions serialize value_size data_bytes name storage conv
                CompressionCodec.uncompressed ps
              ∙ ap (λ k. take k data_bytes) size
              ∙ take_all (length data_bytes) data_bytes (omega arith),
        )
