-- ===== src/Arr/Words.antt =====
-- Little-endian words of a header, and the bytes that stand for them.
use lanl_vir_parquet.Prelude.{
  ℕ, zero, suc, ◌+◌, ◌*◌, ◌/◌, ◌%◌, ◌<◌, ◌≡◌, refl, ap, List, [], ◌∷◌, ◌++◌, arith, length, take,
  drop, length-append, take_prefix, drop_prefix, append_assoc,
}

-- the number that the bytes of a little-endian word stand for
abbrev pub little_endian : List ℕ → ℕ
little_endian [] = 0
little_endian (b ∷ bs) = b + 256 * little_endian bs

-- An array of `n` words of `w` bytes each, filled from the bytes read.
abbrev pub words : (n w : ℕ) → List ℕ → List ℕ
words zero w bs = []
words (suc n) w bs = little_endian (take w bs) ∷ words n w (drop w bs)

-- the `w` bytes of a word
abbrev pub to_bytes : (w n : ℕ) → List ℕ
to_bytes zero n = []
to_bytes (suc w) n = n % 256 ∷ to_bytes w (n / 256)

abbrev pub all_bytes : ℕ → List ℕ → List ℕ
all_bytes w [] = []
all_bytes w (n ∷ ns) = to_bytes w n ++ all_bytes w ns

abbrev pub AllBelow : ℕ → List ℕ → Type 0
AllBelow limit [] = Unit
AllBelow limit (n ∷ ns) = (n < limit) × AllBelow limit ns

pub length-to_bytes : (w n : ℕ) → length (to_bytes w n) ≡ w
length-to_bytes zero n = refl
length-to_bytes (suc w) n = ap suc (length-to_bytes w (n / 256))

-- 256 to the power w, by doubling out
abbrev pub word_limit : ℕ → ℕ
word_limit zero = 1
word_limit (suc w) = 256 * word_limit w

pub little_endian-to_bytes : (w n : ℕ) → n < word_limit w → little_endian (to_bytes w n) ≡ n
little_endian-to_bytes zero n h = omega arith
little_endian-to_bytes (suc w) n h = omega (arith, little_endian-to_bytes w (n / 256) (omega arith))

pub length-all_bytes : (w : ℕ) (ns : List ℕ) → length (all_bytes w ns) ≡ length ns * w
length-all_bytes w [] = omega arith
length-all_bytes w (n ∷ ns) = grind (
  arith,
  length-append (to_bytes w n) (all_bytes w ns),
  length-to_bytes w n,
  length-all_bytes w ns,
)

-- The words of the bytes of some words, with any bytes after them, are those words.
pub words-all_bytes :
    (w : ℕ) (ns rest : List ℕ)
    → AllBelow (word_limit w) ns
    → words (length ns) w (all_bytes w ns ++ rest) ≡ ns
words-all_bytes w [] rest h = refl
words-all_bytes w (n ∷ ns) rest h = rw (
  append_assoc (to_bytes w n) (all_bytes w ns) rest,
  take_prefix w (to_bytes w n) (all_bytes w ns ++ rest) (length-to_bytes w n),
  drop_prefix w (to_bytes w n) (all_bytes w ns ++ rest) (length-to_bytes w n),
  little_endian-to_bytes w n h.0,
  words-all_bytes w ns rest h.1,
)
