-- ===== src/Examples/Serial.antt =====
-- A small protocol that writes the id of a field as its distance from the last one, and the metadata
-- of an array through one serializer.
use lanl_vir_parquet.Prelude.{
  ℕ, suc, zero, ◌-◌, ◌≡◌, refl, subst, List, [], ◌∷◌, ◌++◌, true, false, Bool, ltb, Option, none,
  some, if◌then◌else◌,
}
use mathlib.Core.Option.{none-ne-some, some-injective}
use lanl_vir_parquet.Prelude.Text.{text}
use lanl_vir_parquet.Parquet.{PhysicalType, CompressionCodec}
use lanl_vir_parquet.Parquet.Protocol.{
  WireType, Call, struct_begin, struct_end, field_begin, field_end, field_stop, list_begin,
  list_end, write_bool, write_i16, write_i32, write_i64, write_string, write_binary, t_struct,
  t_list, t_bool, t_i16, t_i32, t_i64, t_string,
}
use lanl_vir_parquet.Parquet.Write.{write_page_header, write_file_meta_data}
use lanl_vir_parquet.Parquet.Nesting.{
  Frame, in_struct, stopped, wants, filled, in_list, same_type, put, then_open, accept, IsStruct,
}
use lanl_vir_parquet.BuildMap.{page_header, file_meta_data}
use lanl_vir_parquet.BuildMap.Metadata.{page_header-IsStruct, file_meta_data-IsStruct}
use lanl_vir_parquet.Result.{ok, throw, serialize_failed}
use lanl_vir_parquet.Serializer.{thrift_serializer, write, serialize_to_buffer, serialize_each}
use lanl_vir_parquet.Serializer.Reuse.{
  IsProtocol, serialize_to_buffer-reuse, serialize_to_buffer-throws,
}

-- the state is the last ids of the open structs
abbrev delta : Call → List ℕ → Option (List ℕ × List ℕ)
delta (struct_begin name) s = some (0 ∷ s, [])
delta struct_end (x ∷ s) = some (s, [])
delta struct_end [] = none
delta (field_begin name t id) (x ∷ s) = some (id ∷ s, (id - x) ∷ [])
delta (field_begin name t id) [] = none
delta field_end s = some (s, [])
delta field_stop s = some (s, 0 ∷ [])
delta (list_begin t n) s = some (s, n ∷ [])
delta list_end s = some (s, [])
delta (write_bool b) s = some (s, (if b then 1 else 2) ∷ [])
delta (write_i16 i) s = some (s, 3 ∷ [])
delta (write_i32 i) s = some (s, 4 ∷ [])
delta (write_i64 i) s = some (s, 5 ∷ [])
delta (write_string x) s = some (s, x)
delta (write_binary x) s = some (s, x)

abbrev At : List Frame → List ℕ → Type 0
At [] [] = Unit
At [] (x ∷ s) = ⊥
At (in_struct last ∷ f) [] = ⊥
At (in_struct last ∷ f) (x ∷ s) = At f s
At (stopped ∷ f) [] = ⊥
At (stopped ∷ f) (x ∷ s) = At f s
At (wants t ∷ f) s = At f s
At (filled ∷ f) s = At f s
At (in_list t n ∷ f) s = At f s

to_At : {f g : List Frame} (s : List ℕ) → some f ≡ some g → At f s → At g s
to_At {f} {g} s e at = subst (λ h. At h s) (some-injective f g e) at

if_put :
    (b : Bool) (f h g : List Frame) (s : List ℕ)
    → (if b then some h else none) ≡ some g
    → At h s
    → At g s
if_put true f h g s e at = to_At s e at
if_put false f h g s e at = absurd (none-ne-some g e)

put-At : (t : WireType) (f g : List Frame) (s : List ℕ) → put t f ≡ some g → At f s → At g s
unfolding put
put-At t [] g s e at = absurd (none-ne-some g e)
put-At t (in_struct last ∷ f) g s e at = absurd (none-ne-some g e)
put-At t (stopped ∷ f) g s e at = absurd (none-ne-some g e)
put-At t (wants u ∷ f) g s e at = if_put (same_type t u) f (filled ∷ f) g s e at
put-At t (filled ∷ f) g s e at = absurd (none-ne-some g e)
put-At t (in_list u zero ∷ f) g s e at = absurd (none-ne-some g e)
put-At t (in_list u (suc n) ∷ f) g s e at = if_put (same_type t u) f (in_list u n ∷ f) g s e at

-- The goal of `step` at a call.
abbrev Steps : Call → List Frame → List ℕ → Type 0
Steps c g s = (r : List ℕ × List ℕ) × (delta c s ≡ some r) × At g r.0

opens-At :
    (fr : Frame) (o : Option (List Frame)) (t : WireType) (f g : List Frame) (s : List ℕ)
    → put t f ≡ o
    → then_open fr o ≡ some g
    → At f s
    → (h : List Frame) × (fr ∷ h ≡ g) × At h s
opens-At fr none t f g s p e at = absurd (none-ne-some g e)
opens-At fr (some h) t f g s p e at = (h, some-injective (fr ∷ h) g e, put-At t f h s p at)

delta-step : (c : Call) (f g : List Frame) (s : List ℕ) → accept c f ≡ some g → At f s → Steps c g s
unfolding accept
delta-step (struct_begin name) f g s e at =
    let o = opens-At (in_struct 0) (put t_struct f) t_struct f g s refl e at in
    ((0 ∷ s, []), refl, subst (λ h. At h (0 ∷ s)) o.1 o.2)
delta-step struct_end (stopped ∷ f) g (x ∷ s) e at = ((s, []), refl, to_At s e at)
delta-step struct_end (stopped ∷ f) g [] e at = absurd at
delta-step struct_end [] g s e at = absurd (none-ne-some g e)
delta-step struct_end (in_struct l ∷ f) g s e at = absurd (none-ne-some g e)
delta-step struct_end (wants t ∷ f) g s e at = absurd (none-ne-some g e)
delta-step struct_end (filled ∷ f) g s e at = absurd (none-ne-some g e)
delta-step struct_end (in_list t n ∷ f) g s e at = absurd (none-ne-some g e)
delta-step (field_begin name t id) (in_struct l ∷ f) g (x ∷ s) e at = (
  (id ∷ s, (id - x) ∷ []),
  refl,
  if_put (ltb l id) f (wants t ∷ in_struct id ∷ f) g (id ∷ s) e at,
)
delta-step (field_begin name t id) (in_struct l ∷ f) g [] e at = absurd at
delta-step (field_begin name t id) [] g s e at = absurd (none-ne-some g e)
delta-step (field_begin name t id) (stopped ∷ f) g s e at = absurd (none-ne-some g e)
delta-step (field_begin name t id) (wants u ∷ f) g s e at = absurd (none-ne-some g e)
delta-step (field_begin name t id) (filled ∷ f) g s e at = absurd (none-ne-some g e)
delta-step (field_begin name t id) (in_list u n ∷ f) g s e at = absurd (none-ne-some g e)
delta-step field_end (filled ∷ f) g s e at = ((s, []), refl, to_At s e at)
delta-step field_end [] g s e at = absurd (none-ne-some g e)
delta-step field_end (in_struct l ∷ f) g s e at = absurd (none-ne-some g e)
delta-step field_end (stopped ∷ f) g s e at = absurd (none-ne-some g e)
delta-step field_end (wants t ∷ f) g s e at = absurd (none-ne-some g e)
delta-step field_end (in_list t n ∷ f) g s e at = absurd (none-ne-some g e)
delta-step field_stop (in_struct l ∷ f) g (x ∷ s) e at = ((x ∷ s, 0 ∷ []), refl, to_At (x ∷ s) e at)
delta-step field_stop (in_struct l ∷ f) g [] e at = absurd at
delta-step field_stop [] g s e at = absurd (none-ne-some g e)
delta-step field_stop (stopped ∷ f) g s e at = absurd (none-ne-some g e)
delta-step field_stop (wants t ∷ f) g s e at = absurd (none-ne-some g e)
delta-step field_stop (filled ∷ f) g s e at = absurd (none-ne-some g e)
delta-step field_stop (in_list t n ∷ f) g s e at = absurd (none-ne-some g e)
delta-step (list_begin t n) f g s e at =
    let o = opens-At (in_list t n) (put t_list f) t_list f g s refl e at in
    ((s, n ∷ []), refl, subst (λ h. At h s) o.1 o.2)
delta-step list_end (in_list t zero ∷ f) g s e at = ((s, []), refl, to_At s e at)
delta-step list_end (in_list t (suc n) ∷ f) g s e at = absurd (none-ne-some g e)
delta-step list_end [] g s e at = absurd (none-ne-some g e)
delta-step list_end (in_struct l ∷ f) g s e at = absurd (none-ne-some g e)
delta-step list_end (stopped ∷ f) g s e at = absurd (none-ne-some g e)
delta-step list_end (wants t ∷ f) g s e at = absurd (none-ne-some g e)
delta-step list_end (filled ∷ f) g s e at = absurd (none-ne-some g e)
delta-step (write_bool b) f g s e at = (_, refl, put-At t_bool f g s e at)
delta-step (write_i16 i) f g s e at = (_, refl, put-At t_i16 f g s e at)
delta-step (write_i32 i) f g s e at = (_, refl, put-At t_i32 f g s e at)
delta-step (write_i64 i) f g s e at = (_, refl, put-At t_i64 f g s e at)
delta-step (write_string x) f g s e at = (_, refl, put-At t_string f g s e at)
delta-step (write_binary x) f g s e at = (_, refl, put-At t_string f g s e at)

delta-ends : (s : List ℕ) → At (filled ∷ []) s → s ≡ []
delta-ends [] at = refl
delta-ends (x ∷ s) at = absurd at

delta-IsProtocol : IsProtocol [] delta
delta-IsProtocol = record { At = At; begins = tt; ends = delta-ends; step = delta-step }

abbrev a_page : List Call
a_page = write_page_header (page_header 8 64 64 false)

abbrev a_footer : List Call
a_footer =
    write_file_meta_data
      (file_meta_data (text "rho") PhysicalType.double none CompressionCodec.uncompressed 84 84 8)

-- A page's header twice, then the footer.
serialize_to_buffer-reuse_example :
    (bs : List ℕ) × ((serialize_to_buffer [] delta a_footer
        (serialize_each [] delta (a_page ∷ a_page ∷ []) (thrift_serializer [] delta))).1
      ≡ ok bs)
    × ((serialize_to_buffer [] delta a_footer (thrift_serializer [] delta)).1 ≡ ok bs)
serialize_to_buffer-reuse_example =
    serialize_to_buffer-reuse [] delta delta-IsProtocol (a_page ∷ a_page ∷ []) a_footer
      (page_header-IsStruct 8 64 64 false, (page_header-IsStruct 8 64 64 false, tt))
      (file_meta_data-IsStruct (text "rho") PhysicalType.double none CompressionCodec.uncompressed
        84 84 8)

-- A struct that is ended twice.
serialize_to_buffer-throws_example :
    serialize_to_buffer [] delta
      ((struct_begin (text "s") ∷ field_stop ∷ struct_end ∷ [])
        ++ struct_end ∷ write_bool true ∷ [])
      (thrift_serializer [] delta)
    ≡ (record { mem_buffer = 0 ∷ []; protocol = [] }, throw serialize_failed)
unfolding write
serialize_to_buffer-throws_example =
    serialize_to_buffer-throws [] delta (struct_begin (text "s") ∷ field_stop ∷ struct_end ∷ [])
      (write_bool true ∷ []) struct_end (thrift_serializer [] delta) (0 ∷ []) [] refl refl

page_header-IsStruct_example : IsStruct (write_page_header (page_header 8 64 64 false))
page_header-IsStruct_example = page_header-IsStruct 8 64 64 false

file_meta_data-IsStruct_example : IsStruct a_footer
file_meta_data-IsStruct_example =
    file_meta_data-IsStruct (text "rho") PhysicalType.double none CompressionCodec.uncompressed 84
      84 8
