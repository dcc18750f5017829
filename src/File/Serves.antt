-- ===== src/File/Serves.antt =====
-- What a file has to do for a reader: each read inside its content gives a part of the content from
-- the offset on, at least one byte if one was asked for. A short read is allowed.
use lanl_vir_parquet.Prelude.{
  ℕ, ◌+◌, ◌-◌, ◌≤◌, ◌<◌, ◌≡◌, ◌∙◌, ap, some, List, ◌++◌, arith, length, take, drop, ltb, Bool-cases,
  inl, inr, ltb→le, take_min, drop_all, take_nil, length-drop, length-take, drop-drop, drop-take,
  take-append, drop_split, add64_exact, u64_mod,
}
use lanl_vir_parquet.Prelude.Text.{Text}
use lanl_vir_parquet.File.{
  Pread, done, RandomAccessFile, OsPread, readonly_os_file, offsetted_file, string_buf_file,
}

-- `r` is the outcome of a read of `size` bytes at `offset` of `content`.
pub record Served (content : List ℕ) (size offset : ℕ) (r : Pread) : Type 0 where
  pub got : List ℕ
  pub returns : r ≡ done got
  pub from : drop offset content ≡ got ++ drop (offset + length got) content
  pub fits : length got ≤ size
  pub progress : 0 < size → 0 < length got

-- Every read of a part of `content` is served.
abbrev pub Serves : RandomAccessFile → List ℕ → Type 0
Serves f content =
    (size offset : ℕ) → offset + size ≤ length content → Served content size offset (f size offset)

-- Every read of a part of `content` gives all of it.
abbrev pub IsExact : RandomAccessFile → List ℕ → Type 0
IsExact f content =
    (size offset : ℕ)
    → offset + size ≤ length content
    → f size offset ≡ done (take size (drop offset content))

-- The documented behaviour of `pread` on a regular file with this content.
abbrev pub OsServes : OsPread → List ℕ → Type 0
OsServes os content =
    (size offset : ℕ)
    → offset + size ≤ length content
    → (got : List ℕ) × (os size offset ≡ some got)
      × (drop offset content ≡ got ++ drop (offset + length got) content)
      × (length got ≤ size)
      × (0 < size → 0 < length got)

-- A read that gives all it was asked for is served.
pub Served-whole :
    (content : List ℕ) (size offset : ℕ) (r : Pread)
    → r ≡ done (take size (drop offset content))
    → offset + size ≤ length content
    → Served content size offset r
Served-whole content size offset r e h =
    let n : length (take size (drop offset content)) ≡ size =
      omega (arith, length-take size (drop offset content), length-drop offset content) in
    record {
      got = take size (drop offset content);
      returns = e;
      from = rw n (drop_split offset size content);
      fits = omega (arith, n);
      progress = λ p. omega (arith, n);
    }

pub readonly_os_file-Serves :
    (os : OsPread) (content : List ℕ) → OsServes os content → Serves (readonly_os_file os) content
unfolding readonly_os_file
readonly_os_file-Serves os content h size offset p =
    let s = h size offset p in
    record {
      got = s.0;
      returns = rw (readonly_os_file, s.1);
      from = s.2;
      fits = s.3;
      progress = s.4;
    }

-- A view at an offset serves what the file holds from there on, if the file serves its content, which
-- is below 2^64 bytes, and the offset is not past its end.
pub offsetted_file-Serves :
    (f : RandomAccessFile) (content : List ℕ) (base : ℕ)
    → length content < u64_mod
    → base ≤ length content
    → Serves f content
    → Serves (offsetted_file f base) (drop base content)
unfolding offsetted_file
offsetted_file-Serves f content base small inside serves size offset p =
    let room : base + offset + size ≤ length content = omega (arith, length-drop base content) in
    let s = serves size (base + offset) room in
    record {
      got = s.got;
      returns = rw (add64_exact base offset (omega arith)) s.returns;
      from =
          rw (drop-drop offset base content, drop-drop (offset + length s.got) base content)
            (s.from ∙ ap (λ k. s.got ++ drop k content) (omega arith));
      fits = s.fits;
      progress = s.progress;
    }

-- A text is read exactly, at every offset: past its end there is nothing.
pub string_buf_file_lem :
    (t : Text) (size offset : ℕ) → string_buf_file t size offset ≡ done (take size (drop offset t))
unfolding string_buf_file
string_buf_file_lem t size offset = elim (Bool-cases (ltb offset (length t))) [
  | inl inside ↦
      let e : length t - offset ≡ length (drop offset t) = omega (arith, length-drop offset t) in
      rw (inside, e) (ap done (take_min size (drop offset t)))
  | inr past ↦ rw (past, drop_all offset t (ltb→le offset (length t) past), take_nil size)
]

pub string_buf_file-Serves : (t : Text) → Serves (string_buf_file t) t
string_buf_file-Serves t size offset h =
    Served-whole t size offset (string_buf_file t size offset) (string_buf_file_lem t size offset) h

-- A part of a content is served by what serves the whole, at the shifted offset.
pub Served-part :
    (content : List ℕ) (o s k size : ℕ) {r : Pread}
    → k + size ≤ s
    → Served content size (o + k) r
    → Served (take s (drop o content)) size k r
Served-part content o s k size h v =
    let e : k + length v.got ≤ s = omega (arith, v.fits) in
    let d : s - (k + length v.got) ≡ s - k - length v.got = omega arith in
    let a : o + (k + length v.got) ≡ o + k + length v.got = omega arith in
    record {
      got = v.got;
      returns = v.returns;
      from =
          rw
            (
              drop-take k s (drop o content),
              drop-take (k + length v.got) s (drop o content),
              drop-drop k o content,
              drop-drop (k + length v.got) o content,
              d,
              a,
            )
            (ap (take (s - k)) v.from
              ∙ take-append (s - k) v.got (drop (o + k + length v.got) content) (omega arith));
      fits = v.fits;
      progress = v.progress;
    }
