-- ===== src/BuildMap/Finish.antt =====
-- What follows the pages: the footer with the totals of the pages, its length, and the magic.

use lanl_vir_parquet.Prelude.{
  ℕ, ◌+◌, ◌≤◌, ◌<◌, ◌≡◌, ◌∙◌, subst, List, [], ◌∷◌, ◌++◌, Bool, Option, arith, length, append_assoc,
  length-append, to_u32,
}
use lanl_vir_parquet.Prelude.Text.{Text}
use lanl_vir_parquet.Result.{ok}
use lanl_vir_parquet.Arr.{DataType, CompressionType}
use lanl_vir_parquet.Arr.Words.{to_bytes}
use lanl_vir_parquet.FMap.{FileMap, add_direct, finish}
use lanl_vir_parquet.FMap.Build.{IsMap, add_direct-Represents, finish-IsMap}
use lanl_vir_parquet.FMap.Region.{direct, total, total-append}
use lanl_vir_parquet.Parquet.{PhysicalType, ConvertedType, CompressionCodec}
use lanl_vir_parquet.BuildMap.{
  Serializer, Totals, magic, append_footer, finish_map, to_parquet_type, to_parquet_converted_type,
  to_parquet_codec,
}
use lanl_vir_parquet.BuildMap.Layout.{
  Sizes, pages, footer, file_regions, compressed_share, length-pages, total-pages, sum_by,
}
use lanl_vir_parquet.BuildMap.Pages.{IsSmall, HasPages, half_word, compressed-bound}

module _ (serialize : Serializer) (is_small : IsSmall serialize) (value_size : ℕ) (flag : Bool)
    (pending : Bool) (start : ℕ) (name : Text) (type : DataType) (codec : CompressionType)
    (storage : PhysicalType) (conv : Option ConvertedType) (c : CompressionCodec)
    (is_type : to_parquet_type type ≡ ok storage)
    (is_conv : to_parquet_converted_type type ≡ ok conv)
    (is_codec : to_parquet_codec codec ≡ ok c) where
  module _ (ps : List Sizes) (t : Totals)
      (h : HasPages serialize is_small value_size flag pending start ps t) where
    abbrev foot : List ℕ
    foot = footer serialize value_size name storage conv c ps

    append_footer-eq :
        append_footer serialize t.builder name type codec t.compressed t.uncompressed t.count
        ≡ ok (add_direct foot t.builder, length foot)
    unfolding append_footer
    append_footer-eq =
        rw (is_type, is_conv, is_codec, h.at_compressed, h.at_uncompressed, h.at_count)

    -- The map that comes out is that of the whole file.
    pub finish_map-IsMap :
        length ps ≤ half_word
        → (m : FileMap) × (finish_map serialize name type codec t ≡ ok m)
          × IsMap pending start (file_regions serialize value_size name storage conv c ps) m
    unfolding finish_map
    finish_map-IsMap few =
        let rs = direct magic ∷ pages serialize value_size 0 ps in
        let len = to_bytes 4 (to_u32 (length foot)) in
        let size : total rs ≡ 4 + sum_by (compressed_share serialize value_size) ps =
          omega (arith, total-pages serialize value_size 0 ps) in
        let bound = compressed-bound serialize is_small value_size flag pending start ps h.valid in
        let small : length foot < half_word = is_small _ in
        let one = add_direct-Represents h.built foot (omega (arith, bound)) in
        let two =
          add_direct-Represents one len
            (omega (arith, bound, total-append rs (direct foot ∷ []))) in
        let three = add_direct-Represents two magic (
          omega (
            arith,
            bound,
            total-append rs (direct foot ∷ []),
            total-append (rs ++ direct foot ∷ []) (direct len ∷ []),
          )) in
        (
          finish (add_direct magic (add_direct len (add_direct foot t.builder))),
          rw append_footer-eq,
          subst
              (λ xs.
                IsMap pending start xs
                  (finish (add_direct magic (add_direct len (add_direct foot t.builder)))))
              (append_assoc (rs ++ direct foot ∷ []) (direct len ∷ []) (direct magic ∷ [])
                ∙ append_assoc rs (direct foot ∷ []) (direct len ∷ direct magic ∷ []))
              (finish-IsMap three (
                omega (
                  arith,
                  length-pages serialize value_size 0 ps,
                  length-append rs (direct foot ∷ []),
                  length-append (rs ++ direct foot ∷ []) (direct len ∷ []),
                  length-append (rs ++ direct foot ∷ [] ++ direct len ∷ []) (direct magic ∷ []),
                ))),
        )
