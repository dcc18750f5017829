-- ===== src/BuildMap/Compressed.antt =====
-- `BuildMap` of a compressed array: a page for each compressed block.
use lanl_vir_parquet.Prelude.{
  ℕ, suc, ◌+◌, ◌<◌, ◌≡◌, refl, sym, ap, ◌∙◌, subst, List, [], ◌∷◌, ◌++◌, Bool, true, Option, arith,
  leb, le→leb, length, append_assoc, append-nil, length-append, to_u32, to_u32_exact, sub64,
  sub64_exact,
}
use lanl_vir_parquet.Prelude.Text.{Text}
use lanl_vir_parquet.Result.{ok, ◌>>=◌}
use lanl_vir_parquet.Arr.{DataType, CompressionType, CompressedArray, get_value_size}
use lanl_vir_parquet.FMap.{FileMap}
use lanl_vir_parquet.FMap.Build.{IsMap}
use lanl_vir_parquet.Parquet.{PhysicalType, ConvertedType, CompressionCodec}
use lanl_vir_parquet.BuildMap.{
  Serializer, Totals, start_totals, block, compressed_page, compressed_pages, build_map_compressed,
  finish_map, int_max, to_parquet_type, to_parquet_converted_type, to_parquet_codec,
}
use lanl_vir_parquet.BuildMap.Layout.{Sizes, header, file_regions}
use lanl_vir_parquet.BuildMap.Header.{page_header-declared}
use lanl_vir_parquet.BuildMap.Pages.{IsSmall, HasPages, half_word, start-HasPages, next-HasPages}
use lanl_vir_parquet.BuildMap.Finish.{finish_map-IsMap}

-- The pages of blocks that all hold `page_sz` bytes when decompressed.
abbrev pub block_pages : ℕ → List ℕ → List Sizes
block_pages page_sz [] = []
block_pages page_sz (b ∷ bs) = (b, page_sz) ∷ block_pages page_sz bs

abbrev pub AllBelow : ℕ → List ℕ → Type 0
AllBelow limit [] = Unit
AllBelow limit (b ∷ bs) = (b < limit) × AllBelow limit bs

length-block_pages : (page_sz : ℕ) (bs : List ℕ) → length (block_pages page_sz bs) ≡ length bs
length-block_pages page_sz [] = refl
length-block_pages page_sz (b ∷ bs) = ap suc (length-block_pages page_sz bs)

-- the element behind a prefix
block-append : (pre : List ℕ) (b : ℕ) (bs : List ℕ) → block (pre ++ b ∷ bs) (length pre) ≡ ok b
block-append [] b bs = refl
block-append (a ∷ pre) b bs = block-append pre b bs

module _ (serialize : Serializer) (is_small : IsSmall serialize) (value_size : ℕ) (pending : Bool)
    (start : ℕ) where
  page-HasPages :
      (ps : List Sizes) (size page_sz : ℕ) (t : Totals)
      → HasPages serialize is_small value_size true pending start ps t
      → size < half_word
      → page_sz < half_word
      → length ps < half_word
      → HasPages serialize is_small value_size true pending start
          (ps ++ (size, page_sz) ∷ [])
          (compressed_page serialize value_size page_sz size t)
  unfolding compressed_page
  page-HasPages ps size page_sz t h fits fits' few =
      let a : to_u32 size ≡ size = to_u32_exact size (omega arith) in
      let b : to_u32 page_sz ≡ page_sz = to_u32_exact page_sz (omega arith) in
      let small : length (header serialize value_size (size, page_sz)) < half_word = is_small _ in
      let c =
        to_u32_exact (length (header serialize value_size (size, page_sz)) + size) (omega arith) in
      let d =
        to_u32_exact (length (header serialize value_size (size, page_sz)) + page_sz)
          (omega arith) in
      let e = page_header-declared value_size size page_sz true fits fits' in
      next-HasPages serialize is_small value_size true pending start ps (size, page_sz) t
        (compressed_page serialize value_size page_sz size t) h (fits, fits') few (rw (a, b) refl)
        (rw a refl) (rw (a, b, e, c) refl) (rw (a, b, e, d) refl) (rw b refl)

  -- The loop adds the pages of the blocks from its counter on.
  compressed_pages-HasPages :
      (page_sz : ℕ) (pre bs : List ℕ) (last : ℕ) (ps : List Sizes) (t : Totals)
      → HasPages serialize is_small value_size true pending start ps t
      → AllBelow half_word bs
      → page_sz < half_word
      → length ps + length bs < half_word
      → (u : Totals) × (compressed_pages serialize
            (length bs)
            (length pre)
            value_size
            page_sz
            (pre ++ (bs ++ last ∷ []))
            t
          ≡ ok u)
        × HasPages serialize is_small value_size true pending start (ps ++ block_pages page_sz bs) u
  unfolding compressed_pages
  compressed_pages-HasPages page_sz pre [] last ps t h below fits few = (
    t,
    refl,
    subst (λ xs. HasPages serialize is_small value_size true pending start xs t)
        (sym (append-nil ps)) h,
  )
  compressed_pages-HasPages page_sz pre (b ∷ bs) last ps t h below fits few =
      let r =
        compressed_pages-HasPages page_sz (pre ++ b ∷ []) bs last (ps ++ (b, page_sz) ∷ [])
          (compressed_page serialize value_size page_sz b t)
          (page-HasPages ps b page_sz t h below.0 fits (omega arith)) below.1 fits
          (omega (arith, length-append ps ((b, page_sz) ∷ []))) in
      let counter : length (pre ++ b ∷ []) ≡ length pre + 1 =
        omega (arith, length-append pre (b ∷ [])) in
      let blocks : (pre ++ b ∷ []) ++ (bs ++ last ∷ []) ≡ pre ++ b ∷ (bs ++ last ∷ []) =
        append_assoc pre (b ∷ []) (bs ++ last ∷ []) in
      (
        r.0,
        ap
              (λ m. m >>= λ size.
                compressed_pages serialize (length bs) (length pre + 1) value_size page_sz
                  (pre ++ b ∷ (bs ++ last ∷ []))
                  (compressed_page serialize value_size page_sz size t))
              (block-append pre b (bs ++ last ∷ []))
            ∙ subst
                (λ k.
                  compressed_pages serialize (length bs) k value_size page_sz
                    (pre ++ b ∷ (bs ++ last ∷ []))
                    (compressed_page serialize value_size page_sz b t)
                  ≡ ok r.0)
                counter
                (subst
                  (λ xs.
                    compressed_pages serialize (length bs) (length (pre ++ b ∷ [])) value_size
                      page_sz xs (compressed_page serialize value_size page_sz b t)
                    ≡ ok r.0)
                  blocks r.1),
        subst (λ xs. HasPages serialize is_small value_size true pending start xs r.0)
            (append_assoc ps ((b, page_sz) ∷ []) (block_pages page_sz bs)) r.2,
      )

  module _ (name : Text) (type : DataType) (codec : CompressionType) (arr : CompressedArray)
      (blocks : List ℕ) (last : ℕ) (storage : PhysicalType) (conv : Option ConvertedType)
      (c : CompressionCodec) (is_value_size : get_value_size type ≡ ok value_size)
      (is_type : to_parquet_type type ≡ ok storage)
      (is_conv : to_parquet_converted_type type ≡ ok conv)
      (is_codec : to_parquet_codec codec ≡ ok c) where
    -- what is left when the loop has ended
    build_map_compressed-paged :
        (t : Totals)
        → arr.data_start ≡ start
        → arr.compressed_blk_sz ≡ blocks ++ last ∷ []
        → arr.num_blks ≡ length blocks + 1
        → length blocks < half_word
        → compressed_pages serialize
            (length blocks)
            0
            value_size
            arr.blk_sz
            (blocks ++ last ∷ [])
            (start_totals pending start)
          ≡ ok t
        → build_map_compressed serialize name type codec pending arr
          ≡ finish_map serialize name type codec
              (compressed_page serialize value_size arr.last_blk_sz last t)
    unfolding build_map_compressed
    build_map_compressed-paged t at_start at_blocks at_num few loop =
        let rounds : sub64 arr.num_blks 1 ≡ length blocks =
          ap (λ k. sub64 k 1) at_num
          ∙ sub64_exact (length blocks + 1) 1 (omega arith) (omega arith)
          ∙ omega arith in
        let small : leb (length blocks) int_max ≡ true =
          le→leb (length blocks) int_max (omega arith) in
        rw
          (
            is_value_size,
            rounds,
            small,
            rounds,
            at_start,
            at_blocks,
            loop,
            block-append blocks last [],
          )
          refl

    -- BuildMap of a compressed array of at least one and at most 2^31 blocks, all sizes below 2^31,
    -- returns the map of the file that the layout gives: the magic, a page for each block that maps
    -- its compressed bytes in order, each behind its header, the footer with the totals of the pages,
    -- its length, and the magic.
    pub build_map_compressed-IsMap :
        arr.data_start ≡ start
        → arr.compressed_blk_sz ≡ blocks ++ last ∷ []
        → arr.num_blks ≡ length blocks + 1
        → length blocks < half_word
        → AllBelow half_word blocks
        → last < half_word
        → arr.blk_sz < half_word
        → arr.last_blk_sz < half_word
        → (m : FileMap) × (build_map_compressed serialize name type codec pending arr ≡ ok m)
          × IsMap pending start
              (file_regions serialize value_size name storage conv c
                (block_pages arr.blk_sz blocks ++ (last, arr.last_blk_sz) ∷ []))
              m
    build_map_compressed-IsMap at_start at_blocks at_num few below fits fits' fits'' =
        let loop =
          compressed_pages-HasPages arr.blk_sz [] blocks last [] (start_totals pending start)
            (start-HasPages serialize is_small value_size true pending start) below fits'
            (omega arith) in
        let h =
          page-HasPages (block_pages arr.blk_sz blocks) last arr.last_blk_sz loop.0 loop.2 fits
            fits'' (omega (arith, length-block_pages arr.blk_sz blocks)) in
        let paged = build_map_compressed-paged loop.0 at_start at_blocks at_num few loop.1 in
        let r =
          finish_map-IsMap serialize is_small value_size true pending start name type codec storage
            conv c is_type is_conv is_codec
            (block_pages arr.blk_sz blocks ++ (last, arr.last_blk_sz) ∷ []) _ h
            (omega (
              arith,
              length-append (block_pages arr.blk_sz blocks) ((last, arr.last_blk_sz) ∷ []),
              length-block_pages arr.blk_sz blocks,
            )) in
        (r.0, paged ∙ r.1, r.2)
