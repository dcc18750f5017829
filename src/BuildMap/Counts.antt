-- ===== src/BuildMap/Counts.antt =====
-- The number of values that the footer of an uncompressed array declares.
use lanl_vir_parquet.Prelude.{ℕ, ◌≡◌, ◌⊎◌, List, ◌∷◌, ◌++◌, Option}
use lanl_vir_parquet.Prelude.Text.{Text}
use lanl_vir_parquet.FMap.Region.{Region, direct}
use lanl_vir_parquet.Parquet.{PhysicalType, ConvertedType, CompressionCodec}
use lanl_vir_parquet.Parquet.Write.{write_file_meta_data}
use lanl_vir_parquet.BuildMap.{Serializer, file_meta_data, magic}
use lanl_vir_parquet.BuildMap.Layout.{
  sum_by, compressed_share, uncompressed_share, pages, tail_regions,
}
use lanl_vir_parquet.BuildMap.Uncompressed.{pages_of}

-- The sizes of values divide the size of a page.
abbrev IsValueSize : ℕ → Type 0
IsValueSize v = (v ≡ 1) ⊎ ((v ≡ 4) ⊎ (v ≡ 8))

module _ (serialize : Serializer) (value_size : ℕ) (name : Text) (storage : PhysicalType)
    (conv : Option ConvertedType) (total_bytes : ℕ) where
  -- the layout of the file with `count` rows and values in its footer
  abbrev pub counted : (count : ℕ) → List Region
  counted count =
      (direct magic ∷ pages serialize value_size 0 (pages_of total_bytes))
      ++ tail_regions serialize value_size (
          serialize (
            write_file_meta_data (
              file_meta_data name storage conv CompressionCodec.uncompressed
                (sum_by (compressed_share serialize value_size) (pages_of total_bytes))
                (sum_by (uncompressed_share serialize value_size) (pages_of total_bytes)) count)))
