-- ===== src/FMap/Build.antt =====
-- `MapBuilder` keeps the list of regions that it was given, and `Finish` makes the map of that list.
use lanl_vir_parquet.Prelude.{
  ℕ, suc, ◌+◌, ◌<◌, ◌≡◌, refl, ◌∙◌, Bool, List, [], ◌∷◌, ◌++◌, arith, le→leb, length, length-append,
  append-nil, add64_exact, sub64_exact, u64_mod, i64_max,
}
use native.Mathlib.Nat.{zero-add}
use lanl_vir_parquet.Prelude.Int.{pos, inc, to_i64}
use lanl_vir_parquet.FMap.{FileMap, MapBuilder, map_builder, add_direct, add_mapped_region, finish}
use lanl_vir_parquet.FMap.Region.{
  Region, direct, mapped, total, starts, unders, directs, total-append, starts-append,
  length-starts, directs-append, unders-append,
}

-- The builder holds exactly these regions.
pub record Represents (pending : Bool) (start : ℕ) (rs : List Region) (b : MapBuilder)
    : Type 0 where
  pub same_pending : b.pending_base64_decoding ≡ pending
  pub same_start : b.data_start ≡ start
  pub written : b.bytes_written ≡ total rs
  pub at_offsets : b.offsets ≡ starts 0 rs
  pub at_unders : b.underlying_offsets ≡ unders 0 rs
  pub at_direct : b.direct_buf ≡ directs rs

-- The map is the map of exactly these regions.
pub record IsMap (pending : Bool) (start : ℕ) (rs : List Region) (m : FileMap) : Type 0 where
  pub same_pending : m.pending_base64_decoding ≡ pending
  pub same_start : m.data_start ≡ start
  pub at_offsets : m.offsets ≡ starts 0 rs ++ total rs ∷ []
  pub at_unders : m.underlying_offsets ≡ unders 0 rs
  pub at_direct : m.direct_buf ≡ directs rs
  pub regions : m.n ≡ length rs

pub map_builder-Represents :
    (pending : Bool) (start : ℕ) → Represents pending start [] (map_builder pending start)
unfolding map_builder
map_builder-Represents pending start = record {
  same_pending = refl;
  same_start = refl;
  written = refl;
  at_offsets = refl;
  at_unders = refl;
  at_direct = refl;
}

module _ {pending : Bool} {start : ℕ} {rs : List Region} {b : MapBuilder}
    (h : Represents pending start rs b) where
  -- AddDirect adds a region of bytes at the end and changes no other region, if the sizes stay below 2^64.
  pub add_direct-Represents :
      (bs : List ℕ)
      → total rs + length bs < u64_mod
      → Represents pending start (rs ++ direct bs ∷ []) (add_direct bs b)
  unfolding add_direct
  add_direct-Represents bs small = record {
    same_pending = h.same_pending;
    same_start = h.same_start;
    written =
        rw (h.written, add64_exact (total rs) (length bs) small)
          (omega (arith, total-append rs (direct bs ∷ [])));
    at_offsets = rw (h.at_offsets, h.written, starts-append 0 rs (direct bs ∷ []), zero-add);
    at_unders = rw (h.at_unders, h.at_direct, unders-append 0 rs (direct bs ∷ []), zero-add);
    at_direct = rw (h.at_direct, directs-append rs (direct bs ∷ []), append-nil);
  }

  -- AddMappedRegion adds a mapped region at the end and changes no other region, if its offset can
  -- be incremented as an int64_t.
  pub add_mapped_region-Represents :
      (offset size : ℕ)
      → offset < i64_max
      → total rs + size < u64_mod
      → Represents pending start (rs ++ mapped offset size ∷ []) (add_mapped_region offset size b)
  unfolding add_mapped_region
  add_mapped_region-Represents offset size signed small =
      let e : inc (to_i64 offset) ≡ pos (suc offset) = rw (le→leb offset i64_max (omega arith)) in
      record {
        same_pending = h.same_pending;
        same_start = h.same_start;
        written =
            rw (h.written, add64_exact (total rs) size small)
              (omega (arith, total-append rs (mapped offset size ∷ [])));
        at_offsets =
            rw (h.at_offsets, h.written, starts-append 0 rs (mapped offset size ∷ []), zero-add);
        at_unders = rw (h.at_unders, e, unders-append 0 rs (mapped offset size ∷ []));
        at_direct = rw (h.at_direct, directs-append rs (mapped offset size ∷ []), append-nil);
      }

  -- Finish makes the map of exactly the regions that were added, if they are fewer than 2^64 - 1.
  pub finish-IsMap : length rs + 1 < u64_mod → IsMap pending start rs (finish b)
  unfolding finish
  finish-IsMap few = record {
    same_pending = h.same_pending;
    same_start = h.same_start;
    at_offsets = rw (h.at_offsets, h.written);
    at_unders = h.at_unders;
    at_direct = h.at_direct;
    regions =
        rw (h.at_offsets, length-append (starts 0 rs) (b.bytes_written ∷ []), length-starts 0 rs)
          (sub64_exact (length rs + 1) 1 (omega arith) few ∙ omega arith);
  }
