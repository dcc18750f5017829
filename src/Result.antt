-- ===== src/Result.antt =====
-- Functions that may throw. The exceptions of the program by what they say, and those of the
-- standard library. `ub` is undefined behaviour and `hang` a loop that does not end.
pub mod Ensures
use lanl_vir_parquet.Prelude.{ℕ, List, true, false, ◌==◌, length}
use lanl_vir_parquet.File.{Outcome, done, failed, undefined, diverged, RandomAccessFile}

pub data Exn : Type 0 where
  array_header_unread block_sizes_unread unknown_data_type : Exn
  unsupported_array_type unsupported_compression : Exn
  unsupported_data_array_type unsupported_data_array_format unsupported_data_compression : Exn
  unknown_header_type unsupported_mesh unparsed_file unsupported_file_format : Exn
  cannot_open cannot_stat : Exn
  out_of_range bad_array_new_length serialize_failed : Exn

pub data Result (A : Type 0) : Type 0 where
  ok : A → Result A
  throw : Exn → Result A
  ub hang : Result A

infixl 5 ◌>>=◌
abbrev pub ◌>>=◌ : {A B : Type 0} → Result A → (A → Result B) → Result B
hang >>= next = hang
ub >>= next = ub
throw e >>= next = throw e
ok a >>= next = next a

-- `nr = file->Pread(…, size, offset); if (nr != size) throw`, where `size` is no 2^64 - 1: then the
-- -1 of a failed read differs from it too.
abbrev pub exactly : ℕ → Exn → Outcome (List ℕ) → Result (List ℕ)
exactly size e (done bs) = elim (length bs == size) [ true ↦ ok bs | false ↦ throw e ]
exactly size e failed = throw e
exactly size e undefined = ub
exactly size e diverged = hang

abbrev pub read_exactly : RandomAccessFile → (size offset : ℕ) → Exn → Result (List ℕ)
read_exactly file size offset e = exactly size e (file size offset)
