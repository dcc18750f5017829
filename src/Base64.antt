-- ===== src/Base64.antt =====
-- base64.h, base64.cc: `Base64Reader`, a file that decodes another one from `start` on.
-- `vtkBase64Utilities::DecodeTriplet` belongs to VTK and is a parameter.
pub mod Decode
use lanl_vir_parquet.Prelude.{
  ℕ, zero, suc, ◌+◌, ◌-◌, ◌/◌, ◌%◌, List, [], ◌∷◌, ◌++◌, true, false, ◌==◌, leb, min, take, drop,
  add64, mul64,
}
use lanl_vir_parquet.File.{Outcome, done, failed, diverged, ◌>>=◌, Pread, RandomAccessFile}

-- The int that `DecodeTriplet` returns and the three bytes that it writes.
pub record Triplet : Type 0 where
  pub count : ℕ
  pub c0 : ℕ
  pub c1 : ℕ
  pub c2 : ℕ

abbrev pub DecodeTriplet : Type 0
DecodeTriplet = ℕ → ℕ → ℕ → ℕ → Triplet

abbrev pub chars : Triplet → List ℕ
chars t = t.c0 ∷ t.c1 ∷ t.c2 ∷ []

module _ (decode_triplet : DecodeTriplet) where
  -- `if (nr != 4) return -1;`, else the bytes are decoded
  unfoldable pub decode_in : List ℕ → Outcome Triplet
  decode_in (i0 ∷ i1 ∷ i2 ∷ i3 ∷ []) = done (decode_triplet i0 i1 i2 i3)
  decode_in _ = failed

  module _ (base : RandomAccessFile) (start : ℕ) where
    unfoldable pub decode4 : ℕ → Outcome Triplet
    decode4 offset = base 4 (add64 start offset) >>= decode_in

    -- `while (p != end)` with `needed = end - p`; `out` is what stands before `p`.
    unfoldable pub decode_loop : ℕ → (base64_offset skip needed : ℕ) → List ℕ → Pread
    decode_loop zero base64_offset skip needed out = diverged
    decode_loop (suc fuel) base64_offset skip needed out = elim (needed == 0) [
      | true ↦ done out
      | false ↦ decode4 base64_offset >>= λ c. elim (leb c.count skip) [
        | true ↦ failed
        | false ↦
            let n = min (c.count - skip) needed in
            decode_loop fuel (add64 base64_offset 4) 0 (needed - n)
              (out ++ take n (drop skip (chars c)))
      ]
    ]

    -- Base64Reader::PreadTyped. A round moves `p`, so `size` rounds and the last test are enough.
    unfoldable pub pread_typed : ℕ → ℕ → Pread
    unfolding decode_loop decode4 decode_in
    pread_typed size offset = decode_loop (size + 1) (mul64 (offset / 3) 4) (offset % 3) size []

    -- Base64Reader(base, start), by its Pread
    unfoldable pub base64_reader : RandomAccessFile
    unfolding pread_typed
    base64_reader size offset = pread_typed size offset
