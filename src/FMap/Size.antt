-- ===== src/FMap/Size.antt =====
-- The size of a map that Finish has made.
use lanl_vir_parquet.Prelude.{
  ℕ, zero, suc, ◌<◌, ◌≡◌, refl, List, [], ◌∷◌, ◌++◌, arith, length, length-append, sub64,
}
use lanl_vir_parquet.File.{done, at}
use lanl_vir_parquet.FMap.{FileMap, MapBuilder, finish, file_map, file_size}

abbrev pub HasSize : FileMap → Type 0
HasSize m = (n : ℕ) × (file_size m ≡ done n)

element : (xs : List ℕ) (i : ℕ) → i < length xs → (a : ℕ) × (at xs i ≡ done a)
element [] i h = absurd (omega arith)
element (x ∷ xs) zero h = (x, refl)
element (x ∷ xs) (suc i) h = element xs i (omega arith)

last_index : (n : ℕ) → 0 < n → sub64 n 1 < n
unfolding sub64
last_index n h = omega arith

pub finish-HasSize : (b : MapBuilder) → HasSize (finish b)
unfolding finish file_map file_size
finish-HasSize b =
    let xs = b.offsets ++ b.bytes_written ∷ [] in
    element xs (sub64 (length xs) 1)
      (last_index (length xs) (omega (arith, length-append b.offsets (b.bytes_written ∷ []))))
