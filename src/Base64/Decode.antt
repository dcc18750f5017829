-- ===== src/Base64/Decode.antt =====
-- `Base64Reader` reads the bytes that its base file encodes, at any offset, and fails on a read
-- past their end.
use lanl_vir_parquet.Prelude.{
  ℕ, zero, suc, ◌+◌, ◌-◌, ◌*◌, ◌/◌, ◌%◌, ◌≤◌, ◌<◌, ◌≡◌, sym, ap, ◌∙◌, List, [], ◌∷◌, ◌++◌, arith,
  min, ◌⊎◌, inl, inr, length, take, drop, drop-drop, take_split, take-drop-take, append_assoc,
  append-nil, add64, mul64, add64_exact, mul64_exact, u64_mod,
}
use native.Mathlib.Decide.{dec_le, dec_lt}
use lanl_vir_parquet.File.{done, failed, RandomAccessFile}
use lanl_vir_parquet.File.Serves.{Serves, Served-whole}
use lanl_vir_parquet.Base64.{
  Triplet, DecodeTriplet, chars, decode_in, decode4, decode_loop, pread_typed, base64_reader,
}

-- The bytes of a round and those of the rounds after it are the bytes asked for. After the last
-- round it does not matter where the next one would start.
round_join :
    (content out taken : List ℕ) (pos next n needed : ℕ)
    → taken ≡ take n (drop pos content)
    → n ≤ needed
    → (needed ≡ n) ⊎ (next ≡ pos + n)
    → (out ++ taken) ++ take (needed - n) (drop next content)
      ≡ out ++ take needed (drop pos content)
round_join content out taken pos next n needed e h (inl whole) =
    let z : needed - n ≡ 0 = omega arith in rw (z, append-nil, e, whole)
round_join content out taken pos next n needed e h (inr follows) =
    rw (e, follows, take_split n needed (drop pos content) h, drop-drop n pos content)
      (append_assoc out (take n (drop pos content)) (take (needed - n) (drop (pos + n) content)))

-- A round either copies all that is needed or ends where the next group begins.
round_end :
    (k skip needed size count : ℕ)
    → count ≡ min 3 (size - 3 * k)
    → skip < count
    → 3 * k + skip + needed ≤ size
    → (needed ≡ min (count - skip) needed)
      ⊎ (3 * (k + 1) + 0 ≡ 3 * k + skip + min (count - skip) needed)
round_end k skip needed size count e more h = elim (dec_le needed (count - skip)) [
  | yes few ↦ inl (omega arith)
  | no many ↦ inr (omega arith)
]

module _ (dec : DecodeTriplet) (base : RandomAccessFile) (start : ℕ) where
  -- The k-th group of four characters stands for the three bytes of `content` at 3k, or for what is
  -- left of them at its end.
  pub record Group (content : List ℕ) (k : ℕ) : Type 0 where
    pub i0 : ℕ
    pub i1 : ℕ
    pub i2 : ℕ
    pub i3 : ℕ
    pub reads : base 4 (start + 4 * k) ≡ done (i0 ∷ i1 ∷ i2 ∷ i3 ∷ [])
    pub counts : (dec i0 i1 i2 i3).count ≡ min 3 (length content - 3 * k)
    pub stands :
        take (dec i0 i1 i2 i3).count (chars (dec i0 i1 i2 i3)) ≡ take 3 (drop (3 * k) content)

  -- The file encodes `content` from `start` on.
  pub record Encodes (content : List ℕ) : Type 0 where
    pub small : start + 4 * length content + 8 < u64_mod
    pub group : (k : ℕ) → 3 * k < length content → Group content k

  module _ (content : List ℕ) (enc : Encodes content) where
    decode4-Group :
        (k : ℕ) (g : Group content k)
        → start + 4 * k < u64_mod
        → decode4 dec base start (4 * k) ≡ done (dec g.i0 g.i1 g.i2 g.i3)
    unfolding decode4 decode_in
    decode4-Group k g h = rw (add64_exact start (4 * k) h, g.reads)

    -- the bytes that a round copies are those of the content
    piece :
        (k skip n : ℕ) (t : Triplet)
        → take t.count (chars t) ≡ take 3 (drop (3 * k) content)
        → skip + n ≤ t.count
        → t.count ≤ 3
        → take n (drop skip (chars t)) ≡ take n (drop (3 * k + skip) content)
    piece k skip n t e h b =
        sym (take-drop-take n skip t.count (chars t) h)
        ∙ ap (λ xs. take n (drop skip xs)) e
        ∙ take-drop-take n skip 3 (drop (3 * k) content) (omega arith)
        ∙ ap (take n) (drop-drop skip (3 * k) content)

    -- One round of the loop inside the content.
    decode_loop_step :
        (fuel k skip needed : ℕ) (out : List ℕ) (g : Group content k)
        → 0 < needed
        → skip < (dec g.i0 g.i1 g.i2 g.i3).count
        → start + 4 * k + 4 < u64_mod
        → decode_loop dec base start (suc fuel) (4 * k) skip needed out
          ≡ decode_loop dec base start fuel
              (4 * (k + 1))
              0
              (needed - min ((dec g.i0 g.i1 g.i2 g.i3).count - skip) needed)
              (out
                ++ take
                    (min ((dec g.i0 g.i1 g.i2 g.i3).count - skip) needed)
                    (drop skip (chars (dec g.i0 g.i1 g.i2 g.i3))))
    unfolding decode_loop
    decode_loop_step fuel k skip needed out g some_left more small =
        let e : add64 (4 * k) 4 ≡ 4 * (k + 1) = add64_exact (4 * k) 4 (omega arith) ∙ omega arith in
        ground (arith, decode4-Group k g (omega arith), e)

    decode_loop-inside :
        (fuel k skip needed : ℕ) (out : List ℕ)
        → needed < fuel
        → skip < 3
        → (0 < needed → 3 * k + skip + needed ≤ length content)
        → decode_loop dec base start fuel (4 * k) skip needed out
          ≡ done (out ++ take needed (drop (3 * k + skip) content))
    unfolding decode_loop
    decode_loop-inside zero k skip needed out f s h = absurd (omega arith)
    decode_loop-inside (suc fuel) k skip zero out f s h = ap done (sym (append-nil out))
    decode_loop-inside (suc fuel) k skip (suc m) out f s h =
        let inside : 3 * k + skip + suc m ≤ length content = h (omega arith) in
        let g : Group content k = enc.group k (omega arith) in
        let t : Triplet = dec g.i0 g.i1 g.i2 g.i3 in
        let n : ℕ = min (t.count - skip) (suc m) in
        let more : skip < t.count = omega (arith, g.counts) in
        let small : start + 4 * k + 4 < u64_mod = omega (arith, enc.small) in
        let next =
          decode_loop-inside fuel (k + 1) 0 (suc m - n) (out ++ take n (drop skip (chars t)))
            (omega (arith, more)) (omega arith) (λ p. omega (arith, g.counts)) in
        decode_loop_step fuel k skip (suc m) out g (omega arith) more small
        ∙ next
        ∙ ap done (
            round_join content out (take n (drop skip (chars t))) (3 * k + skip) (3 * (k + 1) + 0) n
              (suc m) (piece k skip n t g.stands (omega arith) (omega (arith, g.counts)))
              (omega arith)
              (round_end k skip (suc m) (length content) t.count g.counts more inside))

    -- A read inside the encoded content returns exactly its bytes, wherever in a group of four
    -- characters it begins and ends, if each group of characters decodes to its part of the content.
    pub pread_typed_lem :
        (size offset : ℕ)
        → offset + size ≤ length content
        → pread_typed dec base start size offset ≡ done (take size (drop offset content))
    unfolding pread_typed
    pread_typed_lem size offset h =
        let e : mul64 (offset / 3) 4 ≡ 4 * (offset / 3) =
          mul64_exact (offset / 3) 4 (omega (arith, enc.small)) ∙ omega arith in
        let p : 3 * (offset / 3) + offset % 3 ≡ offset = omega arith in
        rw e (
          decode_loop-inside (size + 1) (offset / 3) (offset % 3) size [] (omega arith)
            (omega arith) (λ _. omega arith)
          ∙ ap (λ k. done (take size (drop k content))) p)

    pub base64_reader-Serves : Serves (base64_reader dec base start) content
    unfolding base64_reader
    base64_reader-Serves size offset h =
        Served-whole content size offset (base64_reader dec base start size offset)
          (pread_typed_lem size offset h) h

    -- If no group follows the last one, a loop that needs more than is left fails.
    decode_loop-past :
        (fuel k skip needed : ℕ) (out : List ℕ)
        → decode4 dec base start (4 * ((length content + 2) / 3)) ≡ failed
        → needed < fuel
        → 0 < needed
        → k ≤ (length content + 2) / 3
        → (k < (length content + 2) / 3 → length content < 3 * k + skip + needed)
        → decode_loop dec base start fuel (4 * k) skip needed out ≡ failed
    unfolding decode_loop
    decode_loop-past zero k skip needed out ends f pos le h = absurd (omega arith)
    decode_loop-past (suc fuel) k skip needed out ends f pos le h =
        elim (dec_lt k ((length content + 2) / 3)) [
          | no last ↦
              let e : (length content + 2) / 3 ≡ k = omega arith in
              let fails : decode4 dec base start (4 * k) ≡ failed = rw e at ends in ground arith
          | yes inner ↦
              let g : Group content k = enc.group k (omega arith) in
              let small : start + 4 * k + 4 < u64_mod = omega (arith, enc.small) in
              elim (dec_lt skip (dec g.i0 g.i1 g.i2 g.i3).count) [
                | no none_left ↦ ground (arith, decode4-Group k g (omega arith))
                | yes more ↦
                    decode_loop_step fuel k skip needed out g pos more small
                    ∙ decode_loop-past fuel (k + 1) 0 _ _ ends (omega arith)
                        (omega (arith, g.counts, h inner)) (omega arith)
                        (λ l. omega (arith, g.counts, h inner))
              ]
        ]

    -- A read that begins at or before the end of the encoded content and asks for more than is left
    -- returns -1, if no group of four characters can be read after the last one.
    pub base64_reader_past :
        (size offset : ℕ)
        → decode4 dec base start (4 * ((length content + 2) / 3)) ≡ failed
        → offset ≤ length content
        → length content < offset + size
        → base64_reader dec base start size offset ≡ failed
    unfolding base64_reader
    base64_reader_past size offset ends h past =
        let e : mul64 (offset / 3) 4 ≡ 4 * (offset / 3) =
          mul64_exact (offset / 3) 4 (omega (arith, enc.small)) ∙ omega arith in
        rw e (
          decode_loop-past (size + 1) (offset / 3) (offset % 3) size [] ends (omega arith)
            (omega arith) (omega arith) (λ _. omega arith))
