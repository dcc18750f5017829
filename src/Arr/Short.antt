-- ===== src/Arr/Short.antt =====
-- Array headers of one word, whole or cut off, and the 32-bit header whose size does not fit 32 bits.
use lanl_vir_parquet.Prelude.{
  ℕ, ◌+◌, ◌*◌, ◌/◌, ◌≤◌, ◌<◌, ◌≡◌, refl, ap, ◌∙◌, false, List, [], ◌∷◌, arith, ◌==◌, eq→==, length,
  take, drop, length-take, length-drop, take_all, add64, add64_exact, u32_mod, u64_mod, Bool-cases,
  inl, inr, ltb, ltb→lt, ltb→le, if◌then◌else◌,
}
use lanl_vir_parquet.File.{done, RandomAccessFile}
use lanl_vir_parquet.Result.{
  Exn, Result, ok, throw, ub, ◌>>=◌, exactly, read_exactly, array_header_unread, block_sizes_unread,
}
use lanl_vir_parquet.Arr.{
  UncompressedArray, uncompressed_array, parse_compressed32, parse_uncompressed64,
  parse_uncompressed32, parse_blocks32, size32,
}
use lanl_vir_parquet.Arr.Words.{words, little_endian}

-- A file that answers a read with all that it holds there, fewer bytes at its end.
abbrev pub GivesAll : RandomAccessFile → List ℕ → Type 0
GivesAll f content = (size offset : ℕ) → f size offset ≡ done (take size (drop offset content))

pub exactly-short :
    (size : ℕ) (e : Exn) (bs : List ℕ) → length bs < size → exactly size e (done bs) ≡ throw e
exactly-short size e bs h =
    let differs : (length bs == size) ≡ false = ground arith in rw (exactly, differs)

pub exactly-whole :
    (size : ℕ) (e : Exn) (bs : List ℕ) → length bs ≡ size → exactly size e (done bs) ≡ ok bs
exactly-whole size e bs h = rw (exactly, eq→== (length bs) size h)

-- A file with any content, read at any offset.
module _ (f : RandomAccessFile) (content : List ℕ) (gives : GivesAll f content) (offset : ℕ) where
  pub read_past :
      (size : ℕ) (e : Exn)
      → 0 < size
      → length content < offset + size
      → read_exactly f size offset e ≡ throw e
  read_past size e some_size h = rw (gives size offset) (
      exactly-short size e (take size (drop offset content))
        (omega (arith, length-take size (drop offset content), length-drop offset content, h)))

  pub read_inside :
      (size : ℕ) (e : Exn)
      → offset + size ≤ length content
      → read_exactly f size offset e ≡ ok (take size (drop offset content))
  read_inside size e h = rw (gives size offset) (
      exactly-whole size e (take size (drop offset content))
        (omega (arith, length-take size (drop offset content), length-drop offset content)))

  -- what a parser of one word of `w` bytes is to return
  abbrev pub one_word : (w : ℕ) → Result UncompressedArray
  one_word w =
      if ltb (length content) (offset + w)
      then throw array_header_unread
      else ok (record {
        total_bytes = little_endian (take w (drop offset content));
        data_start = offset + w;
      })

  parse_word :
      (w : ℕ)
      → 0 < w
      → length content < u64_mod
      → (read_exactly f w offset array_header_unread >>= λ head.
          uncompressed_array (words 1 w head) (add64 offset w))
        ≡ one_word w
  unfolding uncompressed_array
  parse_word w some_bytes small = elim (Bool-cases (ltb (length content) (offset + w))) [
    | inl past ↦
        rw
          (
            past,
            read_past w array_header_unread some_bytes (ltb→lt (length content) (offset + w) past),
          )
          refl
    | inr inside ↦
        let room = ltb→le (length content) (offset + w) inside in
        let word = take w (drop offset content) in
        let whole : take w word ≡ word =
          take_all w word (omega (arith, length-take w (drop offset content))) in
        rw
          (
            inside,
            read_inside w array_header_unread room,
            whole,
            add64_exact offset w (omega arith),
          )
          refl
  ]

  -- On a file below 2^64 bytes, ParseUncompressed64 and ParseUncompressed32 read the number in the
  -- first 8 or 4 bytes at the offset, little-endian, with the data behind it, and throw exactly if
  -- the file ends before the number does.
  pub parse_uncompressed_lem :
      length content < u64_mod
      → (parse_uncompressed64 f offset ≡ one_word 8) × (parse_uncompressed32 f offset ≡ one_word 4)
  unfolding parse_uncompressed64 parse_uncompressed32
  parse_uncompressed_lem small =
      (parse_word 8 (omega arith) small, parse_word 4 (omega arith) small)

module _ (f : RandomAccessFile) (offset : ℕ) (num size last : ℕ) (head : List ℕ) where
  -- With 2^30 or more blocks the size of the block sizes wraps around 32 bits, so ParseCompressed32
  -- takes a read of fewer bytes for all of them and goes on to read uninitialised words.
  pub parse_compressed32_wraps :
      (blocks : List ℕ)
      → f 12 offset ≡ done head
      → length head ≡ 12
      → words 3 4 head ≡ num ∷ size ∷ last ∷ []
      → u32_mod ≤ 4 * num
      → f (size32 num) (add64 offset 12) ≡ done blocks
      → length blocks ≡ size32 num
      → (length blocks < 4 * num) × (parse_compressed32 f offset ≡ ub)
  unfolding parse_compressed32
  parse_compressed32_wraps blocks r n w many r2 n2 =
      let whole : exactly 12 array_header_unread (f 12 offset) ≡ ok head = rw (r, exactly, n) in
      let all : exactly (size32 num) block_sizes_unread (f (size32 num) (add64 offset 12))
          ≡ ok blocks =
        rw r2 (exactly-whole (size32 num) block_sizes_unread blocks n2) in
      let partial : (size32 num / 4 == num) ≡ false = ground arith in
      (omega arith, rw whole (ap (parse_blocks32 f offset) w ∙ rw (parse_blocks32, all, partial)))
