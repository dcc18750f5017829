-- ===== src/FMap.antt =====
-- fmap.h, fmap.cc: `FileMap`, the map from a Parquet file to bytes made up and to ranges of a VTK
-- file, and `MapBuilder`, which makes one region by region.
pub mod Region
pub mod Build
pub mod Rounds
pub mod Serve
pub mod Locate
pub mod Read
pub mod Size
pub mod Faults
use lanl_vir_parquet.Prelude.{
  ℕ, zero, suc, ◌+◌, ◌≤◌, List, [], ◌∷◌, ◌++◌, Bool, true, false, Option, none, some, ◌==◌, ltb,
  leb, if◌then◌else◌, min, length, take, drop, add64, sub64,
}
use lanl_vir_parquet.Prelude.Int.{
  ℤ, pos, negsuc, neg, inc, is_positive, to_i64, from_i64, negate_i64,
}
use lanl_vir_parquet.File.{
  Outcome, done, failed, undefined, diverged, ◌>>=◌, at, Pread, RandomAccessFile,
}
use lanl_vir_parquet.Base64.{DecodeTriplet, base64_reader}

pub record FileMap : Type 0 where
  pub pending_base64_decoding : Bool
  pub data_start : ℕ
  pub offsets : List ℕ
  pub underlying_offsets : List ℤ
  pub direct_buf : List ℕ
  pub n : ℕ

-- The constructor: `n_(offsets_.size() - 1)`, a size_t.
unfoldable pub file_map : Bool → ℕ → List ℕ → List ℤ → List ℕ → FileMap
file_map pending start offsets underlying direct = record {
  pending_base64_decoding = pending;
  data_start = start;
  offsets = offsets;
  underlying_offsets = underlying;
  direct_buf = direct;
  n = sub64 (length offsets) 1;
}

-- `memcpy` out of the direct buffer
unfoldable pub copy_direct : List ℕ → ℕ → ℕ → Pread
copy_direct buf from size =
    if leb (from + size) (length buf) then done (take size (drop from buf)) else undefined

-- std::upper_bound on an ascending vector: the index of the first element above `x`
unfoldable pub upper_bound : List ℕ → ℕ → ℕ
upper_bound [] x = 0
upper_bound (o ∷ os) x = if ltb x o then 0 else suc (upper_bound os x)

module _ (decode_triplet : DecodeTriplet) (m : FileMap) (base : RandomAccessFile) where
  -- FileMap::Read, on the region's underlying offset `u`
  unfoldable pub read_at : ℤ → (region_offset size : ℕ) → Pread
  read_at u region_offset size =
      if is_positive u
      then (if m.pending_base64_decoding
          then base64_reader decode_triplet base m.data_start size
              (add64 (sub64 (from_i64 u) 1) region_offset)
          else base size (add64 (sub64 (add64 m.data_start (from_i64 u)) 1) region_offset))
      else copy_direct m.direct_buf (add64 (negate_i64 u) region_offset) size

  unfoldable pub read : (region_id region_offset size : ℕ) → Pread
  unfolding read_at copy_direct
  read region_id region_offset size =
      at m.underlying_offsets region_id >>= λ u. read_at u region_offset size

  -- `while (size != 0 && offset < offsets_[n_])`; `out` is what stands before `buf`. The region's
  -- bounds are read once in a round.
  unfoldable pub pread_loop : ℕ → (i size offset : ℕ) → List ℕ → Pread
  pread_loop zero i size offset out = diverged
  pread_loop (suc fuel) i size offset out = elim (size == 0) [
    | true ↦ done out
    | false ↦ at m.offsets m.n >>= λ last. elim (ltb offset last) [
      | false ↦ done out
      | true ↦ at m.offsets (add64 i 1) >>= λ hi. at m.offsets i >>= λ lo.
          read i (sub64 offset lo) (min size (sub64 hi offset)) >>= λ got.
          let offset' = add64 offset (length got) in
          pread_loop fuel (if leb hi offset' then add64 i 1 else i) (sub64 size (length got))
            offset' (out ++ got)
    ]
  ]

  -- FileMap::Pread. A round copies a byte or goes on to the next region, so these rounds suffice
  -- unless a read of the base file makes no progress.
  unfoldable pub pread : RandomAccessFile
  unfolding pread_loop read upper_bound
  pread size offset =
      pread_loop (size + length m.offsets + 2) (sub64 (upper_bound m.offsets offset) 1) size offset
        []

-- FileMap::file_size
unfoldable pub file_size : FileMap → Outcome ℕ
file_size m = at m.offsets m.n

pub record MapBuilder : Type 0 where
  pub pending_base64_decoding : Bool
  pub data_start : ℕ
  pub bytes_written : ℕ
  pub offsets : List ℕ
  pub underlying_offsets : List ℤ
  pub direct_buf : List ℕ

unfoldable pub map_builder : Bool → ℕ → MapBuilder
map_builder pending start = record {
  pending_base64_decoding = pending;
  data_start = start;
  bytes_written = 0;
  offsets = [];
  underlying_offsets = [];
  direct_buf = [];
}

-- MapBuilder::AddDirect
unfoldable pub add_direct : List ℕ → MapBuilder → MapBuilder
add_direct buf b = record b {
  offsets = b.offsets ++ b.bytes_written ∷ [];
  direct_buf = b.direct_buf ++ buf;
  underlying_offsets = b.underlying_offsets ++ neg (length b.direct_buf) ∷ [];
  bytes_written = add64 b.bytes_written (length buf);
}

-- MapBuilder::AddMappedRegion
unfoldable pub add_mapped_region : (offset size : ℕ) → MapBuilder → MapBuilder
add_mapped_region offset size b = record b {
  offsets = b.offsets ++ b.bytes_written ∷ [];
  underlying_offsets = b.underlying_offsets ++ inc (to_i64 offset) ∷ [];
  bytes_written = add64 b.bytes_written size;
}

-- MapBuilder::Finish
unfoldable pub finish : MapBuilder → FileMap
unfolding file_map
finish b =
    file_map b.pending_base64_decoding b.data_start (b.offsets ++ b.bytes_written ∷ [])
      b.underlying_offsets b.direct_buf
