-- ===== src/Parquet/Protocol.antt =====
-- The calls that the generated code makes on a Thrift protocol (`TProtocol`), in their order. What
-- bytes a protocol makes of them belongs to Thrift and is a parameter wherever it matters.
use lanl_vir_parquet.Prelude.{ℕ, List, Bool}
use lanl_vir_parquet.Prelude.Int.{ℤ}
use lanl_vir_parquet.Prelude.Text.{Text}

-- the values of `TType` in use
pub data WireType : Type 0 where
  t_bool t_i16 t_i32 t_i64 t_string t_struct t_list : WireType

pub data Call : Type 0 where
  struct_begin : Text → Call
  struct_end : Call
  field_begin : Text → WireType → ℕ → Call
  field_end field_stop : Call
  list_begin : WireType → ℕ → Call
  list_end : Call
  write_bool : Bool → Call
  write_i16 : ℤ → Call
  write_i32 : ℤ → Call
  write_i64 : ℤ → Call
  write_string : Text → Call
  write_binary : List ℕ → Call
