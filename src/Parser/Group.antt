-- ===== src/Parser/Group.antt =====
-- `ParseArrayGroup`: which files the directory of a group of arrays has.
use lanl_vir_parquet.Prelude.{ℕ}
use lanl_vir_parquet.Prelude.Text.{Text}
use lanl_vir_parquet.Prelude.Table.{Table}
use lanl_vir_parquet.File.{RandomAccessFile}
use lanl_vir_parquet.Result.{Result}
use lanl_vir_parquet.Base64.{DecodeTriplet}
use lanl_vir_parquet.Arr.{EncodingType, DataType, CompressionType}
use lanl_vir_parquet.FMap.{FileMap}
use lanl_vir_parquet.BuildMap.{Serializer}
use lanl_vir_parquet.Parser.Array.{parse_vtk_data_array, parse_arrays}

module _ (dec : DecodeTriplet) (serialize : Serializer) (base : RandomAccessFile)
    (codec : CompressionType) (enc : EncodingType) (header_type : DataType) (pos : ℕ) where
  -- the map that the array of a name gets
  abbrev parse_one : Text → Table Text → Result FileMap
  parse_one name info = parse_vtk_data_array dec serialize base name codec enc header_type info pos

  abbrev parse_rest : Table (Table Text) → Table FileMap → Result (Table FileMap)
  parse_rest arr_info maps = parse_arrays dec serialize base codec enc header_type arr_info pos maps
