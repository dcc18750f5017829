-- ===== src/Prelude/Int.antt =====
-- Signed integers over the native numbers, with the conversions from and to machine words.
use lanl_vir_parquet.Prelude.{
  ℕ, zero, suc, ◌-◌, ◌/◌, Bool, true, false, ltb, leb, if◌then◌else◌, u32_mod, u64_mod, i64_max,
}

-- `negsuc n` is -(n + 1).
pub data ℤ : Type 0 where
  pos : ℕ → ℤ
  negsuc : ℕ → ℤ

-- -n
abbrev pub neg : ℕ → ℤ
neg zero = pos zero
neg (suc n) = negsuc n

-- `i > 0`
abbrev pub is_positive : ℤ → Bool
is_positive (pos zero) = false
is_positive (pos (suc n)) = true
is_positive (negsuc n) = false

-- `1 + i`
abbrev pub inc : ℤ → ℤ
inc (pos n) = pos (suc n)
inc (negsuc n) = neg n

-- `int64_t(w)` of a uint64_t
abbrev pub to_i64 : ℕ → ℤ
to_i64 w = if leb w i64_max then pos w else negsuc (u64_mod - w - 1)

-- `uint64_t(i)` of an int64_t
abbrev pub from_i64 : ℤ → ℕ
from_i64 (pos n) = n
from_i64 (negsuc n) = u64_mod - suc n

-- `uint64_t(-i)` of an int64_t
abbrev pub negate_i64 : ℤ → ℕ
negate_i64 (pos zero) = zero
negate_i64 (pos (suc n)) = u64_mod - suc n
negate_i64 (negsuc n) = suc n

-- `int32_t(w)` of a uint32_t
abbrev pub to_i32 : ℕ → ℤ
to_i32 w = if ltb w 0x8000_0000 then pos w else negsuc (u32_mod - w - 1)

-- `i / v` of an int32_t by a positive int: towards zero
abbrev pub div_trunc : ℤ → ℕ → ℤ
div_trunc (pos n) v = pos (n / v)
div_trunc (negsuc n) v = neg (suc n / v)
