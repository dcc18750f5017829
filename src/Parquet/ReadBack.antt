-- ===== src/Parquet/ReadBack.antt =====
-- Reading what has been written: from the protocol's calls to whole structs.
pub mod Pages
pub mod Columns
pub mod Footer
use lanl_vir_parquet.Prelude.{
  ℕ, zero, suc, ◌<◌, ◌≡◌, refl, sym, ◌∙◌, subst, List, [], ◌∷◌, ◌++◌, Bool, true, Option, none,
  some, arith, length, append_assoc, IfSome, IsGiven, All, to_u32_exact, u32_mod,
}
use lanl_vir_parquet.Prelude.Int.{ℤ}
use lanl_vir_parquet.Prelude.Text.{Text}
use lanl_vir_parquet.File.{Outcome, done, ◌>>=◌}
use lanl_vir_parquet.Parquet.Protocol.{
  WireType, Call, struct_begin, struct_end, field_begin, field_end, field_stop, list_begin,
  list_end, write_bool, write_i16, write_i32, write_i64, write_string, write_binary,
}
use lanl_vir_parquet.Parquet.Write.{field, optional_field, each, list_of, struct_of}
use lanl_vir_parquet.Parquet.Nesting.{same_type}
use lanl_vir_parquet.Parquet.WellNested.{same_type_refl}
use lanl_vir_parquet.Parquet.Read.{
  InputProtocol, cast_to, read_enum, read_elements, read_list, store, read_fields, read_struct,
}

-- What `calls` have written is read as `a`, whatever follows.
abbrev pub ReadsAs :
    {S A : Type 0} → (List Call → S → Type 0) → (S → Outcome (A × S)) → List Call → A → Type 0
ReadsAs {S} Holds read calls a =
    (cs : List Call) (s : S)
    → Holds (calls ++ cs) s
    → (s' : S) × (read s ≡ done (a, s')) × Holds cs s'

-- The same for a call without a value.
abbrev pub Passes : {S : Type 0} → (List Call → S → Type 0) → (S → Outcome S) → Call → Type 0
Passes {S} Holds read c =
    (cs : List Call) (s : S) → Holds (c ∷ cs) s → (s' : S) × (read s ≡ done s') × Holds cs s'

-- A protocol reads what it has written: in a state that `Holds` some calls, each of them is read with
-- its values, and the others remain.
pub record ReadsBack {S : Type 0} (p : InputProtocol S) : Type 1 where
  pub Holds : List Call → S → Type 0
  pub struct_begin_back : (name : Text) → Passes Holds p.read_struct_begin (struct_begin name)
  pub struct_end_back : Passes Holds p.read_struct_end struct_end
  pub field_begin_back :
      (name : Text) (t : WireType) (id : ℕ)
      → ReadsAs Holds p.read_field_begin (field_begin name t id ∷ []) (some (t, id))
  pub field_stop_back : ReadsAs Holds p.read_field_begin (field_stop ∷ []) none
  pub field_end_back : Passes Holds p.read_field_end field_end
  pub list_begin_back :
      (t : WireType) (n : ℕ) → ReadsAs Holds p.read_list_begin (list_begin t n ∷ []) n
  pub list_end_back : Passes Holds p.read_list_end list_end
  pub bool_back : (b : Bool) → ReadsAs Holds p.read_bool (write_bool b ∷ []) b
  pub i16_back : (i : ℤ) → ReadsAs Holds p.read_i16 (write_i16 i ∷ []) i
  pub i32_back : (i : ℤ) → ReadsAs Holds p.read_i32 (write_i32 i ∷ []) i
  pub i64_back : (i : ℤ) → ReadsAs Holds p.read_i64 (write_i64 i ∷ []) i
  pub string_back : (x : Text) → ReadsAs Holds p.read_string (write_string x ∷ []) x
  pub binary_back : (x : List ℕ) → ReadsAs Holds p.read_binary (write_binary x ∷ []) x

module _ {S : Type 0} (p : InputProtocol S) (b : ReadsBack p) where
  unfoldable pub Reads : {A : Type 0} → (S → Outcome (A × S)) → List Call → A → Type 0
  Reads read calls a = ReadsAs b.Holds read calls a

  pub bool-Reads : (x : Bool) → Reads p.read_bool (write_bool x ∷ []) x
  unfolding Reads
  bool-Reads x = b.bool_back x

  pub i16-Reads : (x : ℤ) → Reads p.read_i16 (write_i16 x ∷ []) x
  unfolding Reads
  i16-Reads x = b.i16_back x

  pub i32-Reads : (x : ℤ) → Reads p.read_i32 (write_i32 x ∷ []) x
  unfolding Reads
  i32-Reads x = b.i32_back x

  pub i64-Reads : (x : ℤ) → Reads p.read_i64 (write_i64 x ∷ []) x
  unfolding Reads
  i64-Reads x = b.i64_back x

  pub string-Reads : (x : Text) → Reads p.read_string (write_string x ∷ []) x
  unfolding Reads
  string-Reads x = b.string_back x

  pub binary-Reads : (x : List ℕ) → Reads p.read_binary (write_binary x ∷ []) x
  unfolding Reads
  binary-Reads x = b.binary_back x

  -- calls one behind the other
  holds_assoc :
      (xs ys cs : List Call) (s : S) → b.Holds ((xs ++ ys) ++ cs) s → b.Holds (xs ++ (ys ++ cs)) s
  holds_assoc xs ys cs s h = subst (λ zs. b.Holds zs s) (append_assoc xs ys cs) h

  pub enum-Reads :
      {E : Type 0} (names : List (Option E)) (i : ℤ) (e : E)
      → cast_to names i ≡ done e
      → Reads (read_enum p names) (write_i32 i ∷ []) e
  unfolding Reads read_enum
  enum-Reads names i e is_named cs s h =
      let r = b.i32_back i cs s h in (r.0, rw (r.1, is_named) refl, r.2)

  elements-Reads :
      {A : Type 0} (read : S → Outcome (A × S)) (body : A → List Call) (xs : List A)
      → All (λ a. Reads read (body a) a) xs
      → Reads (read_elements p read (length xs)) (each body xs) xs
  unfolding Reads read_elements each
  elements-Reads read body [] h cs s k = (s, refl, k)
  elements-Reads read body (a ∷ xs) h cs s k =
      let r = h.0 (each body xs ++ cs) s (holds_assoc (body a) (each body xs) cs s k) in
      let q = elements-Reads read body xs h.1 cs r.0 r.2 in (q.0, rw (r.1, q.1) refl, q.2)

  pub list-Reads :
      {A : Type 0} (t : WireType) (read : S → Outcome (A × S)) (body : A → List Call) (xs : List A)
      → length xs < u32_mod
      → All (λ a. Reads read (body a) a) xs
      → Reads (read_list p read) (list_of t body xs) xs
  unfolding Reads read_list list_of
  list-Reads t read body xs small h cs s k =
      let n = b.list_begin_back t (length xs) ((each body xs ++ list_end ∷ []) ++ cs) s (
        subst (λ m. b.Holds (list_begin t m ∷ (each body xs ++ list_end ∷ []) ++ cs) s)
          (to_u32_exact (length xs) small) k) in
      let r =
        elements-Reads read body xs h (list_end ∷ cs) n.0
          (holds_assoc (each body xs) (list_end ∷ []) cs n.0 n.2) in
      let e = b.list_end_back cs r.0 r.2 in (e.0, rw (n.1, r.1, e.1) refl, e.2)

  pub store-Reads :
      {A D : Type 0} (t : WireType) (d : D) (set : A → D) (read : S → Outcome (A × S))
      (calls : List Call) (a : A)
      → Reads read calls a
      → Reads (store p t t d set read) calls (set a)
  unfolding Reads
  store-Reads t d set read calls a h cs s k =
      let r = h cs s k in (r.0, rw (same_type_refl t, r.1) refl, r.2)

  regroup :
      (body fields cs : List Call)
      → ((body ++ field_end ∷ []) ++ fields) ++ cs ≡ body ++ (field_end ∷ (fields ++ cs))
  regroup body fields cs =
      append_assoc (body ++ field_end ∷ []) fields cs
      ∙ append_assoc body (field_end ∷ []) (fields ++ cs)

  module _ {D : Type 0} (case : ℕ → WireType → D → S → Outcome (D × S)) where
    -- The loop over `n` fields takes `d` to `d'`.
    unfoldable pub FieldsRead : ℕ → List (List Call) → D → D → Type 0
    FieldsRead n fields d d' =
        (fuel : ℕ)
        → n < fuel
        → (cs : List Call) (s : S) → b.Holds (each (λ c. c) fields ++ field_stop ∷ cs) s
        → (s' : S) × (read_fields p case fuel d s ≡ done (d', s')) × b.Holds cs s'

    pub no_field : (d : D) → FieldsRead 0 [] d d
    unfolding FieldsRead read_fields each
    no_field d zero enough cs s k = absurd (omega arith)
    no_field d (suc fuel) enough cs s k =
        let r = b.field_stop_back cs s k in (r.0, rw r.1 refl, r.2)

    one_field :
        (n : ℕ) (name : Text) (t : WireType) (id : ℕ) (body : List Call) (fields : List (List Call))
        (d d1 d' : D)
        → Reads (case id t d) body d1
        → FieldsRead n fields d1 d'
        → FieldsRead (suc n) (field name t id body ∷ fields) d d'
    unfolding FieldsRead Reads read_fields each field
    one_field n name t id body fields d d1 d' h rest zero enough cs s k = absurd (omega arith)
    one_field n name t id body fields d d1 d' h rest (suc fuel) enough cs s k =
        let all = each (λ c. c) fields ++ field_stop ∷ cs in
        let f = b.field_begin_back name t id (body ++ field_end ∷ all) s (
          subst (λ zs. b.Holds (field_begin name t id ∷ zs) s)
            (regroup body (each (λ c. c) fields) (field_stop ∷ cs)) k) in
        let v = h (field_end ∷ all) f.0 f.2 in
        let e = b.field_end_back all v.0 v.2 in
        let r = rest fuel (omega arith) cs e.0 e.2 in (r.0, rw (f.1, v.1, e.1) r.1, r.2)

    -- A field that is always there, and that the switch stores.
    pub present :
        {A : Type 0} (n : ℕ) (name : Text) (t : WireType) (id : ℕ) (body : List Call)
        (fields : List (List Call)) (d : D) (set : A → D) (d' : D) (read : S → Outcome (A × S))
        (a : A)
        → case id t d ≡ store p t t d set read
        → Reads read body a
        → FieldsRead n fields (set a) d'
        → FieldsRead (suc n) (field name t id body ∷ fields) d d'
    present n name t id body fields d set d' read a stored h rest =
        one_field n name t id body fields d (set a) d'
          (subst (λ r. Reads r body (set a)) (sym stored) (store-Reads t d set read body a h)) rest

    -- A field that may be there.
    pub maybe :
        {A : Type 0} (n : ℕ) (name : Text) (t : WireType) (id : ℕ) (body : A → List Call)
        (x : Option A) (fields : List (List Call)) (set : Option A → D) (d' : D)
        (read : S → Outcome (A × S))
        → case id t (set none) ≡ store p t t (set none) (λ a. set (some a)) read
        → IfSome (λ a. Reads read (body a) a) x
        → FieldsRead n fields (set x) d'
        → FieldsRead (suc n) (optional_field name t id body x ∷ fields) (set none) d'
    unfolding FieldsRead each optional_field
    maybe n name t id body none fields set d' read stored h rest fuel enough cs s k =
        rest fuel (omega arith) cs s k
    maybe n name t id body (some a) fields set d' read stored h rest fuel enough cs s k =
        present n name t id (body a) fields (set none) (λ v. set (some v)) d' read a stored h rest
          fuel enough cs s k

    -- An optional field that is there, whatever it holds before it is read.
    pub set_field :
        {A : Type 0} (n : ℕ) (name : Text) (t : WireType) (id : ℕ) (body : A → List Call)
        (x : Option A) (fields : List (List Call)) (d : D) (set : Option A → D) (d' : D)
        (read : S → Outcome (A × S))
        → IsGiven x
        → case id t d ≡ store p t t d (λ a. set (some a)) read
        → IfSome (λ a. Reads read (body a) a) x
        → FieldsRead n fields (set x) d'
        → FieldsRead (suc n) (optional_field name t id body x ∷ fields) d d'
    unfolding optional_field
    set_field n name t id body none fields d set d' read is_set stored h rest = absurd is_set
    set_field n name t id body (some a) fields d set d' read is_set stored h rest =
        present n name t id (body a) fields d (λ v. set (some v)) d' read a stored h rest

    pub struct-Reads :
        {A : Type 0} (n : ℕ) (name : Text) (fields : List (List Call)) (fuel : ℕ) (d d' : D)
        (checked : D → Outcome A) (a : A)
        → FieldsRead n fields d d'
        → checked d' ≡ done a
        → n < fuel
        → Reads (read_struct p fuel case d checked) (struct_of name fields) a
    unfolding FieldsRead Reads read_struct struct_of
    struct-Reads n name fields fuel d d' checked a h c enough cs s k =
        let all = each (λ c. c) fields in
        let o = b.struct_begin_back name ((all ++ field_stop ∷ struct_end ∷ []) ++ cs) s k in
        let r =
          h fuel enough (struct_end ∷ cs) o.0
            (holds_assoc all (field_stop ∷ struct_end ∷ []) cs o.0 o.2) in
        let e = b.struct_end_back cs r.0 r.2 in (e.0, rw (o.1, r.1, e.1, c) refl, e.2)
