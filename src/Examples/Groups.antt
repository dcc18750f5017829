-- ===== src/Examples/Groups.antt =====
-- The directory of a group with one array.
use lanl_vir_parquet.Prelude.{[], ◌∷◌, ◌++◌}
use lanl_vir_parquet.Prelude.Text.{Text, text}
use lanl_vir_parquet.Prelude.Table.{Table, emplace}
use lanl_vir_parquet.FMap.{FileMap}
use lanl_vir_parquet.Parser.Array.{suffix}
use lanl_vir_parquet.Examples.Builds.{parsed_array}

abbrev info : Table Text
info =
    (text "type", text "Float32")
    ∷ (text "format", text "appended")
    ∷ (text "offset", text "0")
    ∷ []

abbrev group_maps : Table FileMap
group_maps = emplace (text "p" ++ suffix) parsed_array.0 []
