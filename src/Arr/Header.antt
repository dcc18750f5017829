-- ===== src/Arr/Header.antt =====
-- Array headers: what was written is read back, a file that is too short is an exception, and where
-- the 32-bit arithmetic of a header goes wrong.
use lanl_vir_parquet.Prelude.{
  ℕ, ◌+◌, ◌*◌, ◌/◌, ◌≤◌, ◌<◌, ◌≡◌, refl, sym, ap, ◌∙◌, true, List, [], ◌∷◌, ◌++◌, arith, ◌==◌,
  eq→==, le→leb, length, take, drop, length-append, length-drop, drop-drop, take_prefix,
  drop_prefix, append-nil, append_assoc, add64, mul64, add64_exact, mul64_exact, u32_mod, u64_mod,
}
use lanl_vir_parquet.File.{done, RandomAccessFile}
use lanl_vir_parquet.File.Serves.{IsExact}
use lanl_vir_parquet.Result.{
  Exn, ok, ◌>>=◌, exactly, read_exactly, array_header_unread, block_sizes_unread,
}
use lanl_vir_parquet.Arr.{
  parse_compressed64, parse_compressed32, parse_blocks64, parse_blocks32, size32, max_words64,
}
use lanl_vir_parquet.Arr.Words.{
  words, all_bytes, AllBelow, word_limit, length-all_bytes, words-all_bytes,
}

-- The header of a compressed array as a writer lays it out, in words of `w` bytes.
abbrev pub header_bytes : (w : ℕ) (num size last : ℕ) (blocks : List ℕ) → List ℕ
header_bytes w num size last blocks = all_bytes w (num ∷ size ∷ last ∷ []) ++ all_bytes w blocks

-- A file that holds the header of a compressed array at an offset, in words of `w` bytes.
pub record HasHeader (content : List ℕ) (w num size last : ℕ) (blocks rest : List ℕ) (offset : ℕ)
    : Type 0 where
  pub at : drop offset content ≡ header_bytes w num size last blocks ++ rest
  pub inside : offset ≤ length content
  pub small : length content < u64_mod
  pub count : length blocks ≡ num
  pub heads : AllBelow (word_limit w) (num ∷ size ∷ last ∷ [])
  pub sizes : AllBelow (word_limit w) blocks

module _ (f : RandomAccessFile) (content : List ℕ) (exact : IsExact f content) where
  -- A read of exactly the bytes that stand at an offset.
  read_exactly-at :
      (bs rest : List ℕ) (size offset : ℕ) (e : Exn)
      → drop offset content ≡ bs ++ rest
      → length bs ≡ size
      → offset ≤ length content
      → read_exactly f size offset e ≡ ok bs
  read_exactly-at bs rest size offset e at n le =
      let fits : offset + size ≤ length content =
        omega (arith, length-drop offset content, ap length at, length-append bs rest) in
      let r : f size offset ≡ done bs =
        exact size offset fits
        ∙ ap (λ xs. done (take size xs)) at
        ∙ ap done (take_prefix size bs rest n) in
      rw (r, exactly, eq→== (length bs) size n)

  -- what stands behind what stands at an offset
  drop-behind :
      (bs rest : List ℕ) (size offset : ℕ)
      → drop offset content ≡ bs ++ rest
      → length bs ≡ size
      → drop (offset + size) content ≡ rest
  drop-behind bs rest size offset at n =
      sym (drop-drop size offset content) ∙ ap (drop size) at ∙ drop_prefix size bs rest n

  read_words :
      (w : ℕ) (ns : List ℕ) → AllBelow (word_limit w) ns → words (length ns) w (all_bytes w ns) ≡ ns
  read_words w ns b = rw (← append-nil (all_bytes w ns)) (words-all_bytes w ns [] b)

  module _ (num size last : ℕ) (blocks rest : List ℕ) (offset : ℕ)
      (h : HasHeader content 8 num size last blocks rest offset) where
    header64-at :
        drop offset content ≡ all_bytes 8 (num ∷ size ∷ last ∷ []) ++ (all_bytes 8 blocks ++ rest)
    header64-at =
        h.at ∙ append_assoc (all_bytes 8 (num ∷ size ∷ last ∷ [])) (all_bytes 8 blocks) rest

    header64-length : length (all_bytes 8 blocks) ≡ 8 * num
    header64-length = omega (arith, length-all_bytes 8 blocks, h.count)

    header64-room : offset + 24 + 8 * num ≤ length content
    header64-room = omega (
      arith,
      length-drop offset content,
      ap length header64-at,
      length-append (all_bytes 8 (num ∷ size ∷ last ∷ [])) (all_bytes 8 blocks ++ rest),
      length-append (all_bytes 8 blocks) rest,
      header64-length,
      h.inside,
    )

    header64-blocks :
        read_exactly f (8 * num) (offset + 24) block_sizes_unread ≡ ok (all_bytes 8 blocks)
    header64-blocks =
        read_exactly-at (all_bytes 8 blocks) rest (8 * num) (offset + 24) block_sizes_unread
          (drop-behind (all_bytes 8 (num ∷ size ∷ last ∷ [])) (all_bytes 8 blocks ++ rest) 24 offset
            header64-at refl)
          header64-length (omega (arith, header64-room))

    header64-words : words num 8 (all_bytes 8 blocks) ≡ blocks
    header64-words =
        ap (λ n. words n 8 (all_bytes 8 blocks)) (sym h.count) ∙ read_words 8 blocks h.sizes

    -- A header in 64-bit words is read back as it was written, and the data starts behind it.
    pub parse_compressed64-header :
        num ≤ max_words64
        → parse_compressed64 f offset
          ≡ ok (record {
            num_blks = num;
            blk_sz = size;
            last_blk_sz = last;
            compressed_blk_sz = blocks;
            data_start = offset + 24 + 8 * num;
          })
    unfolding parse_compressed64
    parse_compressed64-header few =
        let head : read_exactly f 24 offset array_header_unread
            ≡ ok (all_bytes 8 (num ∷ size ∷ last ∷ [])) =
          read_exactly-at (all_bytes 8 (num ∷ size ∷ last ∷ [])) (all_bytes 8 blocks ++ rest) 24
            offset array_header_unread header64-at refl h.inside in
        let start : add64 offset 24 ≡ offset + 24 =
          add64_exact offset 24 (omega (arith, header64-room, h.small)) in
        let bytes : mul64 8 num ≡ 8 * num = mul64_exact 8 num (omega arith) in
        let begins : add64 (offset + 24) (8 * num) ≡ offset + 24 + 8 * num =
          add64_exact (offset + 24) (8 * num) (omega (arith, header64-room, h.small)) in
        ap (λ r. r >>= λ bs. parse_blocks64 f offset (words 3 8 bs)) head
        ∙ ap (parse_blocks64 f offset) (read_words 8 (num ∷ size ∷ last ∷ []) h.heads)
        ∙ rw (
          parse_blocks64,
          le→leb num max_words64 few,
          bytes,
          start,
          header64-blocks,
          header64-words,
          begins,
        )

  module _ (num size last : ℕ) (blocks rest : List ℕ) (offset : ℕ)
      (h : HasHeader content 4 num size last blocks rest offset) where
    header32-at :
        drop offset content ≡ all_bytes 4 (num ∷ size ∷ last ∷ []) ++ (all_bytes 4 blocks ++ rest)
    header32-at =
        h.at ∙ append_assoc (all_bytes 4 (num ∷ size ∷ last ∷ [])) (all_bytes 4 blocks) rest

    header32-length : length (all_bytes 4 blocks) ≡ 4 * num
    header32-length = omega (arith, length-all_bytes 4 blocks, h.count)

    header32-room : offset + 12 + 4 * num ≤ length content
    header32-room = omega (
      arith,
      length-drop offset content,
      ap length header32-at,
      length-append (all_bytes 4 (num ∷ size ∷ last ∷ [])) (all_bytes 4 blocks ++ rest),
      length-append (all_bytes 4 blocks) rest,
      header32-length,
      h.inside,
    )

    header32-blocks :
        read_exactly f (4 * num) (offset + 12) block_sizes_unread ≡ ok (all_bytes 4 blocks)
    header32-blocks =
        read_exactly-at (all_bytes 4 blocks) rest (4 * num) (offset + 12) block_sizes_unread
          (drop-behind (all_bytes 4 (num ∷ size ∷ last ∷ [])) (all_bytes 4 blocks ++ rest) 12 offset
            header32-at refl)
          header32-length (omega (arith, header32-room))

    header32-words : words num 4 (all_bytes 4 blocks) ≡ blocks
    header32-words =
        ap (λ n. words n 4 (all_bytes 4 blocks)) (sym h.count) ∙ read_words 4 blocks h.sizes

    -- A header in 32-bit words is read back as it was written, and the data starts behind it.
    pub parse_compressed32-header :
        4 * num < u32_mod
        → parse_compressed32 f offset
          ≡ ok (record {
            num_blks = num;
            blk_sz = size;
            last_blk_sz = last;
            compressed_blk_sz = blocks;
            data_start = offset + 12 + 4 * num;
          })
    unfolding parse_compressed32
    parse_compressed32-header few =
        let head : read_exactly f 12 offset array_header_unread
            ≡ ok (all_bytes 4 (num ∷ size ∷ last ∷ [])) =
          read_exactly-at (all_bytes 4 (num ∷ size ∷ last ∷ [])) (all_bytes 4 blocks ++ rest) 12
            offset array_header_unread header32-at refl h.inside in
        let start : add64 offset 12 ≡ offset + 12 =
          add64_exact offset 12 (omega (arith, header32-room, h.small)) in
        let bytes : size32 num ≡ 4 * num = unfold size32 in omega arith in
        let whole : (4 * num / 4 == num) ≡ true = eq→== (4 * num / 4) num (omega arith) in
        let begins : add64 (offset + 12) (4 * num) ≡ offset + 12 + 4 * num =
          add64_exact (offset + 12) (4 * num) (omega (arith, header32-room, h.small)) in
        ap (λ r. r >>= λ bs. parse_blocks32 f offset (words 3 4 bs)) head
        ∙ ap (parse_blocks32 f offset) (read_words 4 (num ∷ size ∷ last ∷ []) h.heads)
        ∙ rw (
          bytes, start, header32-blocks, parse_blocks32, whole, header32-words, start, bytes,
          begins,
        )
