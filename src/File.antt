-- ===== src/File.antt =====
-- fmap.h `RandomAccessFile` and its plain implementations: the file of the operating system
-- (fmap.cc), a base64 view is in Base64, a view at an offset (parser.cc) and a text (vfs.cc).
pub mod Serves
use lanl_vir_parquet.Prelude.{
  ℕ, ◌-◌, Option, none, some, List, [], ltb, if◌then◌else◌, min, length, take, drop, get_elem?,
  add64,
}
use lanl_vir_parquet.Prelude.Text.{Text}

-- How a call ends. `done` returns; `failed` returns -1; `undefined` is an access outside of an
-- object; `diverged` is a loop that has not ended within its fuel.
pub data Outcome (A : Type 0) : Type 0 where
  done : A → Outcome A
  failed undefined diverged : Outcome A

infixl 5 ◌>>=◌
abbrev pub ◌>>=◌ : {A B : Type 0} → Outcome A → (A → Outcome B) → Outcome B
done a >>= f = f a
failed >>= f = failed
undefined >>= f = undefined
diverged >>= f = diverged

abbrev pub or_undefined : {A : Type 0} → Option A → Outcome A
or_undefined none = undefined
or_undefined (some a) = done a

-- `v[i]` of a vector: undefined out of its bounds
abbrev pub at : {A : Type 0} → List A → ℕ → Outcome A
at xs i = or_undefined (get_elem? xs i)

-- What a call of `Pread` does: `done bs` has written `bs` to the buffer and returns its length.
abbrev pub Pread : Type 0
Pread = Outcome (List ℕ)

-- The virtual method `Pread(buf, size, offset)`, and so the object.
abbrev pub RandomAccessFile : Type 0
RandomAccessFile = ℕ → ℕ → Pread

-- `pread` of the operating system on an open file: a parameter, `none` for -1.
abbrev pub OsPread : Type 0
OsPread = ℕ → ℕ → Option (List ℕ)

unfoldable pub readonly_os_file : OsPread → RandomAccessFile
readonly_os_file os size offset = elim (os size offset) [ none ↦ failed | some bs ↦ done bs ]

-- OffsettedRandomAccessFile of parser.cc
unfoldable pub offsetted_file : RandomAccessFile → ℕ → RandomAccessFile
offsetted_file base base_offset size offset = base size (add64 base_offset offset)

-- StringBufFile of vfs.cc
unfoldable pub string_buf_file : Text → RandomAccessFile
string_buf_file strbuf size offset =
    let n = length strbuf in
    if ltb offset n then done (take (min (n - offset) size) (drop offset strbuf)) else done []
