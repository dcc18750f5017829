-- ===== src/Serializer/Reuse.antt =====
-- One serializer for many objects: what a protocol must do for that, and that it then is as good as a
-- new serializer for each object.
use lanl_vir_parquet.Prelude.{ℕ, ◌≡◌, refl, ap, subst, List, [], ◌∷◌, ◌++◌, Option, none, some, All}
use mathlib.Core.Option.{none-ne-some, some-injective}
use lanl_vir_parquet.Parquet.Protocol.{Call, t_struct}
use lanl_vir_parquet.Parquet.Nesting.{Frame, wants, filled, accept, accept_all, ◌>>=◌, IsStruct}
use lanl_vir_parquet.Result.{ok, throw, serialize_failed}
use lanl_vir_parquet.Serializer.{
  ThriftSerializer, Written, returned, thrown, thrift_serializer, write, serialize_to_buffer,
  serialize_each,
}

-- A protocol throws nothing at calls that keep the discipline, and where one value has been written,
-- it is in its first state again. `At` relates what is open to the protocol's state.
pub record IsProtocol {S : Type 0} (start : S) (emit : Call → S → Option (S × List ℕ))
    : Type 1 where
  pub At : List Frame → S → Type 0
  pub begins : At (wants t_struct ∷ []) start
  pub ends : (s : S) → At (filled ∷ []) s → s ≡ start
  pub step :
      (c : Call) (f g : List Frame) (s : S)
      → accept c f ≡ some g
      → At f s
      → (r : S × List ℕ) × (emit c s ≡ some r) × At g r.0

module _ {S : Type 0} (start : S) (emit : Call → S → Option (S × List ℕ))
    (p : IsProtocol start emit) where
  -- What becomes of calls that keep the discipline: they return, and the protocol is where they are.
  abbrev Goes : List Call → List ℕ → List Frame → S → Type 0
  Goes calls buffer g s =
      (v : S) × (bs : List ℕ) × (write start emit calls buffer s ≡ returned bs v) × p.At g v

  one_more :
      (c : Call) (calls : List Call) (buffer : List ℕ) (f g : List Frame) (s : S)
      (next : Option (List Frame))
      → accept c f ≡ next
      → (next >>= accept_all calls) ≡ some g
      → p.At f s
      → ((b : List ℕ) (h : List Frame) (u : S)
          → accept_all calls h ≡ some g
          → p.At h u
          → Goes calls b g u)
      → Goes (c ∷ calls) buffer g s
  unfolding write
  one_more c calls buffer f g s none e h at rest = absurd (none-ne-some g h)
  one_more c calls buffer f g s (some k) e h at rest =
      let here = p.step c f k s e at in
      let there = rest (buffer ++ here.0.1) k here.0.0 h here.2 in
      (there.0, there.1, rw (write, here.1) there.2, there.3)

  write-Goes :
      (calls : List Call) (buffer : List ℕ) (f g : List Frame) (s : S)
      → accept_all calls f ≡ some g
      → p.At f s
      → Goes calls buffer g s
  unfolding write accept_all
  write-Goes [] buffer f g s h at =
      (s, buffer, refl, subst (λ k. p.At k s) (some-injective f g h) at)
  write-Goes (c ∷ calls) buffer f g s h at =
      one_more c calls buffer f g s (accept c f) refl h at
        (λ b k u e a. write-Goes calls b k g u e a)

  start-Goes : (calls : List Call) → IsStruct calls → Goes calls [] (filled ∷ []) start
  start-Goes calls h = write-Goes calls [] (wants t_struct ∷ []) (filled ∷ []) start h p.begins

  -- An object leaves the serializer with its bytes and with the protocol in its first state.
  serialize_to_buffer-struct :
      (calls : List Call)
      → IsStruct calls
      → (bs : List ℕ) × ((t : ThriftSerializer S)
          → t.protocol ≡ start
          → serialize_to_buffer start emit calls t
            ≡ (record { mem_buffer = bs; protocol = start }, ok bs))
  unfolding serialize_to_buffer
  serialize_to_buffer-struct calls h =
      let w = start-Goes calls h in (w.1, λ t k. rw (k, w.2, p.ends w.0 w.3) refl)

  each-keeps :
      (objects : List (List Call)) (t : ThriftSerializer S)
      → All IsStruct objects
      → t.protocol ≡ start
      → (serialize_each start emit objects t).protocol ≡ start
  unfolding serialize_each
  each-keeps [] t h k = k
  each-keeps (o ∷ objects) t h k =
      each-keeps objects (serialize_to_buffer start emit o t).0 h.1
        (ap (λ r. r.0.protocol) ((serialize_to_buffer-struct o h.0).1 t k))

  -- However many whole structs a serializer has written, the next one comes out as from a new
  -- serializer, and no exception is thrown.
  pub serialize_to_buffer-reuse :
      (objects : List (List Call)) (calls : List Call)
      → All IsStruct objects
      → IsStruct calls
      → (bs : List ℕ) × ((serialize_to_buffer start emit calls
            (serialize_each start emit objects (thrift_serializer start emit))).1
          ≡ ok bs)
        × ((serialize_to_buffer start emit calls (thrift_serializer start emit)).1 ≡ ok bs)
  serialize_to_buffer-reuse objects calls hs h =
      let new = thrift_serializer start emit in
      let used = serialize_each start emit objects new in
      let a = serialize_to_buffer-struct calls h in
      (a.0, ap (λ r. r.1) (a.1 used (each-keeps objects new hs refl)), ap (λ r. r.1) (a.1 new refl))

module _ {S : Type 0} (start : S) (emit : Call → S → Option (S × List ℕ)) where
  -- what follows a part of a `write`
  abbrev go_on : List Call → Written S → Written S
  go_on calls (returned buffer s) = write start emit calls buffer s
  go_on calls (thrown buffer s) = thrown buffer s

  append_one :
      (c : Call) (xs ys : List Call) (buffer : List ℕ) (s : S) (o : Option (S × List ℕ))
      → emit c s ≡ o
      → ((b : List ℕ) (u : S)
          → write start emit (xs ++ ys) b u ≡ go_on ys (write start emit xs b u))
      → write start emit (c ∷ xs ++ ys) buffer s ≡ go_on ys (write start emit (c ∷ xs) buffer s)
  unfolding write
  append_one c xs ys buffer s none e rest = rw (write, e) refl
  append_one c xs ys buffer s (some r) e rest = rw (write, e) (rest (buffer ++ r.1) r.0)

  write-append :
      (xs ys : List Call) (buffer : List ℕ) (s : S)
      → write start emit (xs ++ ys) buffer s ≡ go_on ys (write start emit xs buffer s)
  unfolding write
  write-append [] ys buffer s = refl
  write-append (c ∷ xs) ys buffer s =
      append_one c xs ys buffer s (emit c s) refl (λ b u. write-append xs ys b u)

  -- An exception from the protocol reaches the caller as the serializer's own, whatever had been
  -- written before it.
  pub serialize_to_buffer-throws :
      (before after : List Call) (c : Call) (t : ThriftSerializer S) (bs : List ℕ) (s : S)
      → write start emit before [] t.protocol ≡ returned bs s
      → emit c s ≡ none
      → serialize_to_buffer start emit (before ++ c ∷ after) t
        ≡ (record { mem_buffer = bs; protocol = s }, throw serialize_failed)
  unfolding serialize_to_buffer
  serialize_to_buffer-throws before after c t bs s h e =
      rw (write-append before (c ∷ after) [] t.protocol, h, write, e) refl
