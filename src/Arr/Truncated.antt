-- ===== src/Arr/Truncated.antt =====
-- Array headers that are cut off by the end of the file.
use lanl_vir_parquet.Prelude.{
  ℕ, ◌+◌, ◌-◌, ◌*◌, ◌≤◌, ◌<◌, ◌≡◌, refl, ap, ◌∙◌, List, [], ◌∷◌, arith, le→leb, length, take, drop,
  length-take, length-drop, length-append, take_prefix, take-append, append-nil, add64, mul64,
  add64_exact, mul64_exact, u32_mod, u64_mod, Bool-cases, inl, inr, ltb, ltb→lt, ltb→le,
  if◌then◌else◌,
}
use lanl_vir_parquet.File.{RandomAccessFile}
use lanl_vir_parquet.Result.{
  ok, throw, ◌>>=◌, read_exactly, array_header_unread, block_sizes_unread,
}
use lanl_vir_parquet.Arr.{
  parse_compressed64, parse_compressed32, parse_blocks64, parse_blocks32, size32, max_words64,
}
use lanl_vir_parquet.Arr.Words.{
  words, all_bytes, AllBelow, word_limit, length-all_bytes, words-all_bytes,
}
use lanl_vir_parquet.Arr.Header.{header_bytes}
use lanl_vir_parquet.Arr.Short.{GivesAll, read_past, read_inside}

-- The file ends after the first `n` bytes of a header at the offset.
pub record IsCut (content : List ℕ) (w num size last : ℕ) (blocks : List ℕ) (n offset : ℕ)
    : Type 0 where
  pub at : drop offset content ≡ take n (header_bytes w num size last blocks)
  pub inside : offset ≤ length content
  pub small : length content < u64_mod
  pub cut : n < length (header_bytes w num size last blocks)
  pub count : length blocks ≡ num
  pub heads : AllBelow (word_limit w) (num ∷ size ∷ last ∷ [])

module _ (f : RandomAccessFile) (content : List ℕ) (gives : GivesAll f content) (num size last : ℕ)
    (blocks : List ℕ) (n offset : ℕ) where
  cut-length : (w : ℕ) → IsCut content w num size last blocks n offset → length content ≡ offset + n
  cut-length w c = omega (
    arith,
    length-drop offset content,
    ap length c.at,
    length-take n (header_bytes w num size last blocks),
    c.inside,
    c.cut,
  )

  cut-header :
      (w : ℕ)
      → (k : ℕ) → IsCut content w num size last blocks n offset
      → length (all_bytes w (num ∷ size ∷ last ∷ [])) ≡ k
      → k ≤ n
      → read_exactly f k offset array_header_unread ≡ ok (all_bytes w (num ∷ size ∷ last ∷ []))
  cut-header w k c len enough =
      let heads = all_bytes w (num ∷ size ∷ last ∷ []) in
      let e : take k (drop offset content) ≡ heads =
        ap (take k) (c.at ∙ take-append n heads (all_bytes w blocks) (omega (arith, len)))
        ∙ take_prefix k heads (take (n - length heads) (all_bytes w blocks)) len in
      read_inside f content gives offset k array_header_unread (omega (arith, cut-length w c))
      ∙ ap ok e

  cut-words :
      (w : ℕ)
      → IsCut content w num size last blocks n offset
      → words 3 w (all_bytes w (num ∷ size ∷ last ∷ [])) ≡ num ∷ size ∷ last ∷ []
  cut-words w c =
      rw (← append-nil (all_bytes w (num ∷ size ∷ last ∷ [])))
        (words-all_bytes w (num ∷ size ∷ last ∷ []) [] c.heads)

  -- If the file ends inside a header in 64-bit words, ParseCompressed64 throws: that the header
  -- cannot be read if it ends in the first 24 bytes, and that the sizes of the blocks cannot if it ends behind them.
  pub parse_compressed64-cut :
      IsCut content 8 num size last blocks n offset
      → num ≤ max_words64
      → parse_compressed64 f offset
        ≡ throw (if ltb n 24 then array_header_unread else block_sizes_unread)
  unfolding parse_compressed64
  parse_compressed64-cut c few =
      let total = cut-length 8 c in
      let room : length (header_bytes 8 num size last blocks) ≡ 24 + 8 * num = omega (
        arith,
        length-append (all_bytes 8 (num ∷ size ∷ last ∷ [])) (all_bytes 8 blocks),
        length-all_bytes 8 blocks,
        c.count,
      ) in
      elim (Bool-cases (ltb n 24)) [
        | inl early ↦
            rw
              (
                early,
                read_past f content gives offset 24 array_header_unread (omega arith)
                    (omega (arith, total, ltb→lt n 24 early)),
              )
              refl
        | inr late ↦
            let enough = ltb→le n 24 late in
            let start : add64 offset 24 ≡ offset + 24 =
              add64_exact offset 24 (omega (arith, total, c.small)) in
            let bytes : mul64 8 num ≡ 8 * num = mul64_exact 8 num (omega arith) in
            rw late (
              ap (λ r. r >>= λ bs. parse_blocks64 f offset (words 3 8 bs))
                (cut-header 8 24 c refl enough)
              ∙ ap (parse_blocks64 f offset) (cut-words 8 c)
              ∙ rw
                  (
                    parse_blocks64,
                    le→leb num max_words64 few,
                    bytes,
                    start,
                    read_past f content gives (offset + 24) (8 * num) block_sizes_unread
                        (omega (arith, room, c.cut)) (omega (arith, total, room, c.cut)),
                  )
                  refl)
      ]

  -- If the file ends inside a header in 32-bit words whose block sizes take less than 2^32 bytes,
  -- ParseCompressed32 throws: that the header cannot be read if it ends in the first 12 bytes, and
  -- that the sizes of the blocks cannot if it ends behind them.
  pub parse_compressed32-cut :
      IsCut content 4 num size last blocks n offset
      → 4 * num < u32_mod
      → parse_compressed32 f offset
        ≡ throw (if ltb n 12 then array_header_unread else block_sizes_unread)
  unfolding parse_compressed32
  parse_compressed32-cut c few =
      let total = cut-length 4 c in
      let room : length (header_bytes 4 num size last blocks) ≡ 12 + 4 * num = omega (
        arith,
        length-append (all_bytes 4 (num ∷ size ∷ last ∷ [])) (all_bytes 4 blocks),
        length-all_bytes 4 blocks,
        c.count,
      ) in
      elim (Bool-cases (ltb n 12)) [
        | inl early ↦
            rw
              (
                early,
                read_past f content gives offset 12 array_header_unread (omega arith)
                    (omega (arith, total, ltb→lt n 12 early)),
              )
              refl
        | inr late ↦
            let enough = ltb→le n 12 late in
            let start : add64 offset 12 ≡ offset + 12 =
              add64_exact offset 12 (omega (arith, total, c.small)) in
            let bytes : size32 num ≡ 4 * num = unfold size32 in omega arith in
            rw late (
              ap (λ r. r >>= λ bs. parse_blocks32 f offset (words 3 4 bs))
                (cut-header 4 12 c refl enough)
              ∙ ap (parse_blocks32 f offset) (cut-words 4 c)
              ∙ rw
                  (
                    parse_blocks32,
                    bytes,
                    start,
                    read_past f content gives (offset + 12) (4 * num) block_sizes_unread
                        (omega (arith, room, c.cut)) (omega (arith, total, room, c.cut)),
                  )
                  refl)
      ]
