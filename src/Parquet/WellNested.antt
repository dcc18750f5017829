-- ===== src/Parquet/WellNested.antt =====
-- Each `write` keeps the discipline of the protocol: it makes the calls of one whole struct.
use lanl_vir_parquet.Prelude.{
  ℕ, suc, ◌≤◌, ◌<◌, ◌≡◌, refl, List, [], ◌∷◌, ◌++◌, true, Option, none, some, arith, Bool, lt→ltb,
  length, to_u32_exact, u32_mod, IfSome, All,
}
use lanl_vir_parquet.Prelude.Int.{ℤ}
use lanl_vir_parquet.Prelude.Text.{Text}
use lanl_vir_parquet.Parquet.Protocol.{
  WireType, t_bool, t_i16, t_i32, t_i64, t_string, t_struct, t_list, Call, struct_end, field_end,
  field_stop, list_end, write_bool, write_i16, write_i32, write_i64, write_string, write_binary,
}
use lanl_vir_parquet.Parquet.Write.{field, optional_field, each, list_of, struct_of}
use lanl_vir_parquet.Parquet.Nesting.{
  Frame, in_struct, wants, filled, in_list, same_type, put, accept, accept_all, accept_all_seq,
}

-- The calls are those of one value of the type, wherever one is due.
abbrev pub Fills : WireType → List Call → Type 0
Fills t calls = (s u : List Frame) → put t s ≡ some u → accept_all calls s ≡ some u

pub same_type_refl : (t : WireType) → same_type t t ≡ true
same_type_refl t_bool = refl
same_type_refl t_i16 = refl
same_type_refl t_i32 = refl
same_type_refl t_i64 = refl
same_type_refl t_string = refl
same_type_refl t_struct = refl
same_type_refl t_list = refl

put-wants : (t : WireType) (s : List Frame) → put t (wants t ∷ s) ≡ some (filled ∷ s)
unfolding put
put-wants t s = rw same_type_refl refl

put-in_list :
    (t : WireType) (n : ℕ) (s : List Frame) → put t (in_list t (suc n) ∷ s) ≡ some (in_list t n ∷ s)
unfolding put
put-in_list t n s = rw same_type_refl refl

-- one call that writes a value
call-Fills :
    (t : WireType) (c : Call) → ((s : List Frame) → accept c s ≡ put t s) → Fills t (c ∷ [])
unfolding accept_all
call-Fills t c h s u e = rw (h s, e) refl

pub i32-Fills : (i : ℤ) → Fills t_i32 (write_i32 i ∷ [])
unfolding accept
i32-Fills i = call-Fills t_i32 (write_i32 i) (λ s. refl)

pub i64-Fills : (i : ℤ) → Fills t_i64 (write_i64 i ∷ [])
unfolding accept
i64-Fills i = call-Fills t_i64 (write_i64 i) (λ s. refl)

pub i16-Fills : (i : ℤ) → Fills t_i16 (write_i16 i ∷ [])
unfolding accept
i16-Fills i = call-Fills t_i16 (write_i16 i) (λ s. refl)

pub bool-Fills : (b : Bool) → Fills t_bool (write_bool b ∷ [])
unfolding accept
bool-Fills b = call-Fills t_bool (write_bool b) (λ s. refl)

pub string-Fills : (x : Text) → Fills t_string (write_string x ∷ [])
unfolding accept
string-Fills x = call-Fills t_string (write_string x) (λ s. refl)

pub binary-Fills : (x : List ℕ) → Fills t_string (write_binary x ∷ [])
unfolding accept
binary-Fills x = call-Fills t_string (write_binary x) (λ s. refl)

-- The fields of a struct: their ids ascend and their values have their types.
pub data Chain : ℕ → List (List Call) → Type 1 where
  end : {lo : ℕ} → Chain lo []
  must :
      {lo : ℕ} (id : ℕ) (name : Text) (t : WireType) (body : List Call) {fields : List (List Call)}
      → lo < id
      → Fills t body
      → Chain id fields
      → Chain lo (field name t id body ∷ fields)
  may :
      {A : Type 0} {lo : ℕ} (id : ℕ) (name : Text) (t : WireType) (body : A → List Call)
      (x : Option A) {fields : List (List Call)}
      → lo < id
      → IfSome (λ a. Fills t (body a)) x
      → Chain id fields
      → Chain lo (optional_field name t id body x ∷ fields)

-- From an open struct to the same struct with a later last field.
abbrev Opens : ℕ → List Frame → List Call → Type 0
Opens last s calls =
    (last' : ℕ) × (accept_all calls (in_struct last ∷ s) ≡ some (in_struct last' ∷ s))

field-accept :
    (name : Text) (t : WireType) (last id : ℕ) (body : List Call) (s : List Frame)
    → last < id
    → Fills t body
    → accept_all (field name t id body) (in_struct last ∷ s) ≡ some (in_struct id ∷ s)
unfolding accept_all accept field
field-accept name t last id body s less h = rw (lt→ltb last id less) (
    accept_all_seq body (field_end ∷ []) (wants t ∷ in_struct id ∷ s) (filled ∷ in_struct id ∷ s)
      (h (wants t ∷ in_struct id ∷ s) (filled ∷ in_struct id ∷ s) (put-wants t (in_struct id ∷ s)))
      refl)

-- One more field in front.
field-Opens :
    (last id : ℕ) (calls rest : List Call) (s : List Frame)
    → accept_all calls (in_struct last ∷ s) ≡ some (in_struct id ∷ s)
    → Opens id s rest
    → Opens last s (calls ++ rest)
field-Opens last id calls rest s h k =
    (k.0, accept_all_seq calls rest (in_struct last ∷ s) (in_struct id ∷ s) h k.1)

Chain-Opens :
    {lo : ℕ} {fields : List (List Call)}
    → Chain lo fields
    → (last : ℕ) (s : List Frame) → last ≤ lo
    → Opens last s (each (λ c. c) fields)
unfolding accept_all each optional_field
Chain-Opens end last s le = (last, refl)
Chain-Opens (must id name t body {fields = fields} less h k) last s le =
    field-Opens last id (field name t id body) (each (λ c. c) fields) s
      (field-accept name t last id body s (omega arith) h) (Chain-Opens k id s (omega arith))
Chain-Opens (may id name t body none {fields = fields} less h k) last s le =
    Chain-Opens k last s (omega arith)
Chain-Opens (may id name t body (some a) {fields = fields} less h k) last s le =
    field-Opens last id (field name t id (body a)) (each (λ c. c) fields) s
      (field-accept name t last id (body a) s (omega arith) h) (Chain-Opens k id s (omega arith))

-- The fields of a struct, between its begin and its end, are one value.
pub struct_of-Fills :
    (name : Text) {fields : List (List Call)}
    → Chain 0 fields
    → Fills t_struct (struct_of name fields)
unfolding accept_all accept struct_of
struct_of-Fills name {fields = fields} chain s u e =
    let a = Chain-Opens chain 0 u (omega arith) in
    rw e (
      accept_all_seq (each (λ c. c) fields) (field_stop ∷ struct_end ∷ []) (in_struct 0 ∷ u)
        (in_struct a.0 ∷ u) a.1 refl)

each-in_list :
    {A : Type 0} (t : WireType) (body : A → List Call) (xs : List A) (s : List Frame)
    → All (λ a. Fills t (body a)) xs
    → accept_all (each body xs) (in_list t (length xs) ∷ s) ≡ some (in_list t 0 ∷ s)
unfolding accept_all each
each-in_list t body [] s h = refl
each-in_list t body (a ∷ xs) s h =
    accept_all_seq (body a) (each body xs) (in_list t (suc (length xs)) ∷ s)
      (in_list t (length xs) ∷ s)
      (h.0 (in_list t (suc (length xs)) ∷ s) (in_list t (length xs) ∷ s)
        (put-in_list t (length xs) s))
      (each-in_list t body xs s h.1)

-- A list of fewer than 2^32 elements has the length that it declares.
pub list_of-Fills :
    {A : Type 0} (t : WireType) (body : A → List Call) (xs : List A)
    → length xs < u32_mod
    → All (λ a. Fills t (body a)) xs
    → Fills t_list (list_of t body xs)
unfolding accept_all accept list_of
list_of-Fills t body xs small h s u e =
    rw (e, to_u32_exact (length xs) small)
      (accept_all_seq (each body xs) (list_end ∷ []) (in_list t (length xs) ∷ u) (in_list t 0 ∷ u)
        (each-in_list t body xs u h) refl)
