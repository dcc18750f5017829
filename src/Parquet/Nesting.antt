-- ===== src/Parquet/Nesting.antt =====
-- The discipline of a Thrift protocol, as a machine over the calls: values have the type that their
-- field or list declares, the ids of a struct's fields ascend, lists have the declared length, and
-- everything that is begun is ended.
use lanl_vir_parquet.Prelude.{
  ℕ, zero, suc, ◌≡◌, refl, ◌∙◌, List, [], ◌∷◌, ◌++◌, Bool, true, false, Option, none, some, ltb,
  if◌then◌else◌,
}
use lanl_vir_parquet.Parquet.Protocol.{
  WireType, t_bool, t_i16, t_i32, t_i64, t_string, t_struct, t_list, Call, struct_begin, struct_end,
  field_begin, field_end, field_stop, list_begin, list_end, write_bool, write_i16, write_i32,
  write_i64, write_string, write_binary,
}

-- What is open: a struct with the id of its last field, a struct whose fields have been stopped, a
-- place for one value, that place when it is filled, and a list with the elements that are to come.
pub data Frame : Type 0 where
  in_struct : (last : ℕ) → Frame
  stopped : Frame
  wants : WireType → Frame
  filled : Frame
  in_list : WireType → (left : ℕ) → Frame

abbrev pub same_type : WireType → WireType → Bool
same_type t_bool t_bool = true
same_type t_i16 t_i16 = true
same_type t_i32 t_i32 = true
same_type t_i64 t_i64 = true
same_type t_string t_string = true
same_type t_struct t_struct = true
same_type t_list t_list = true
same_type t u = false

-- A value of a type arrives.
unfoldable pub put : WireType → List Frame → Option (List Frame)
put t (wants u ∷ s) = if same_type t u then some (filled ∷ s) else none
put t (in_list u (suc n) ∷ s) = if same_type t u then some (in_list u n ∷ s) else none
put t s = none

abbrev pub then_open : Frame → Option (List Frame) → Option (List Frame)
then_open f none = none
then_open f (some s) = some (f ∷ s)

unfoldable pub accept : Call → List Frame → Option (List Frame)
unfolding put
accept (struct_begin name) s = then_open (in_struct 0) (put t_struct s)
accept struct_end (stopped ∷ s) = some s
accept struct_end s = none
accept (field_begin name t id) (in_struct last ∷ s) =
    if ltb last id then some (wants t ∷ in_struct id ∷ s) else none
accept (field_begin name t id) s = none
accept field_end (filled ∷ s) = some s
accept field_end s = none
accept field_stop (in_struct last ∷ s) = some (stopped ∷ s)
accept field_stop s = none
accept (list_begin t n) s = then_open (in_list t n) (put t_list s)
accept list_end (in_list t zero ∷ s) = some s
accept list_end s = none
accept (write_bool b) s = put t_bool s
accept (write_i16 i) s = put t_i16 s
accept (write_i32 i) s = put t_i32 s
accept (write_i64 i) s = put t_i64 s
accept (write_string x) s = put t_string s
accept (write_binary x) s = put t_string s

infixl 5 ◌>>=◌
abbrev pub ◌>>=◌ : {A B : Type 0} → Option A → (A → Option B) → Option B
none >>= next = none
some a >>= next = next a

unfoldable pub accept_all : List Call → List Frame → Option (List Frame)
unfolding accept
accept_all [] s = some s
accept_all (c ∷ cs) s = accept c s >>= accept_all cs

-- The calls of one whole struct, and nothing else.
abbrev pub IsStruct : List Call → Type 0
IsStruct calls = accept_all calls (wants t_struct ∷ []) ≡ some (filled ∷ [])

>>=-congr :
    {A B : Type 0} (m : Option A) (f : A → Option B) (g : A → Option A) (k : A → Option B)
    → ((a : A) → f a ≡ (g a >>= k))
    → (m >>= f) ≡ ((m >>= g) >>= k)
>>=-congr none f g k h = refl
>>=-congr (some a) f g k h = h a

pub accept_all-append :
    (xs ys : List Call) (s : List Frame)
    → accept_all (xs ++ ys) s ≡ (accept_all xs s >>= accept_all ys)
unfolding accept_all
accept_all-append [] ys s = refl
accept_all-append (x ∷ xs) ys s =
    >>=-congr (accept x s) (accept_all (xs ++ ys)) (accept_all xs) (accept_all ys)
      (accept_all-append xs ys)

-- From one stack through two lists of calls.
pub accept_all_seq :
    (xs ys : List Call) (s t : List Frame) {u : List Frame}
    → accept_all xs s ≡ some t
    → accept_all ys t ≡ some u
    → accept_all (xs ++ ys) s ≡ some u
accept_all_seq xs ys s t h k = accept_all-append xs ys s ∙ rw h k
