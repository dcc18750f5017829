-- ===== src/BuildMap/Sized.antt =====
-- Every map that BuildMap returns has a size.
use lanl_vir_parquet.Prelude.{Bool, leb, true, false, sub64, add64, ◌/◌}
use lanl_vir_parquet.Prelude.Text.{Text}
use lanl_vir_parquet.Result.{Result, ub}
use lanl_vir_parquet.Result.Ensures.{Ensures, Ensures-any}
use lanl_vir_parquet.Arr.{
  DataType, CompressionType, CompressedArray, UncompressedArray, get_value_size,
}
use lanl_vir_parquet.FMap.{FileMap}
use lanl_vir_parquet.FMap.Size.{HasSize, finish-HasSize}
use lanl_vir_parquet.BuildMap.{
  Serializer, Totals, append_footer, finish_map, build_map_compressed, build_map_uncompressed,
  compressed_pages, block, start_totals, int_max, blk_sz,
}

guarded :
    (b : Bool) (r : Result FileMap)
    → Ensures HasSize r
    → Ensures HasSize (elim b [ false ↦ ub | true ↦ r ])
unfolding Ensures
guarded true r h = h
guarded false r h = tt

module _ (serialize : Serializer) where
  finish_map-HasSize :
      (name : Text) (type : DataType) (codec : CompressionType) (t : Totals)
      → Ensures HasSize (finish_map serialize name type codec t)
  unfolding finish_map Ensures
  finish_map-HasSize name type codec t =
      Ensures-any HasSize
        (append_footer serialize t.builder name type codec t.compressed t.uncompressed t.count) _
        (λ foot. finish-HasSize _)

  pub build_map_uncompressed-HasSize :
      (name : Text) (type : DataType) (pending : Bool) (arr : UncompressedArray)
      → Ensures HasSize (build_map_uncompressed serialize name type pending arr)
  unfolding build_map_uncompressed
  build_map_uncompressed-HasSize name type pending arr =
      Ensures-any HasSize (get_value_size type) _ (λ value_size.
        guarded (leb (sub64 (sub64 (add64 arr.total_bytes blk_sz) 1 / blk_sz) 1) int_max) _
          (finish_map-HasSize name type CompressionType.uncompressed _))

  pub build_map_compressed-HasSize :
      (name : Text) (type : DataType) (codec : CompressionType) (pending : Bool)
      (arr : CompressedArray)
      → Ensures HasSize (build_map_compressed serialize name type codec pending arr)
  unfolding build_map_compressed
  build_map_compressed-HasSize name type codec pending arr =
      Ensures-any HasSize (get_value_size type) _ (λ value_size.
        guarded (leb (sub64 arr.num_blks 1) int_max) _ (
          Ensures-any HasSize
            (compressed_pages serialize (sub64 arr.num_blks 1) 0 value_size arr.blk_sz
              arr.compressed_blk_sz (start_totals pending arr.data_start))
            _
            (λ t.
              Ensures-any HasSize (block arr.compressed_blk_sz (sub64 arr.num_blks 1)) _
                (λ last. finish_map-HasSize name type codec _))))
