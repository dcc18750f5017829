-- ===== src/Parser.antt =====
-- parser.cc: from a VTK file to the tree of its arrays. What VTK's XML reader makes of the file is a
-- parameter: elements of a type that only VTK knows, and their methods by what they return.
pub mod Array
pub mod Appended
pub mod Group
pub mod SizedGroup
pub mod Sized
use lanl_vir_parquet.Prelude.{
  ℕ, zero, suc, ◌+◌, ◌-◌, List, [], ◌∷◌, Bool, true, false, Option, none, some, ltb, if◌then◌else◌,
  length, drop,
}
use lanl_vir_parquet.Prelude.Text.{Text, text, text_eq}
use lanl_vir_parquet.Prelude.Table.{Table, find, assign}
use lanl_vir_parquet.File.{RandomAccessFile, OsPread, readonly_os_file}
use lanl_vir_parquet.Result.{
  Result, ok, throw, ub, ◌>>=◌, unsupported_data_compression, unknown_header_type, unsupported_mesh,
  unparsed_file, unsupported_file_format, cannot_open, cannot_stat,
}
use lanl_vir_parquet.Base64.{DecodeTriplet}
use lanl_vir_parquet.Arr.{EncodingType, raw, base64, DataType, uint32, uint64, CompressionType}
use lanl_vir_parquet.BuildMap.{Serializer}
use lanl_vir_parquet.Vfs.{
  StatBuf, Dir, metadata_dir, Dirs, no_dirs, emplace_dir, VtkTree, vtk_tree, at_key,
}
use lanl_vir_parquet.Fuse.{deref}
use Array.{parse_array_group}

-- vtkXMLDataElement. `attributes` gives GetAttributeName(i) and GetAttributeValue(i) up to
-- GetNumberOfAttributes(), `nested` gives GetNestedElement(i) up to GetNumberOfNestedElements(). A null
-- pointer is `none`.
pub record XmlDataElement (E : Type 0) : Type 0 where
  pub attributes : E → List (Text × Text)
  pub get_attribute : E → Text → Option Text
  pub nested : E → List E
  pub lookup_element_with_name : E → Text → Option E
  pub find_nested_element_with_name : E → Text → Option E

-- vtkXMLReader after UpdateInformation has returned true, with its vtkXMLDataParser. The compressor
-- is given by its `IsA`.
pub record XmlReader (E : Type 0) : Type 0 where
  pub compressor : Option (Text → Bool)
  pub appended_data_position : ℕ
  pub root_element : E
  pub point_arrays : List Text
  pub cell_arrays : List Text

-- open(2) and fstat(2) on a path: `none` for -1
abbrev pub OsOpen : Type 0
OsOpen = Text → Option (OsPread × Option StatBuf)

-- NewOSFile, with the `struct stat` that it fills in
unfoldable pub new_os_file : OsOpen → Text → Result (RandomAccessFile × StatBuf)
new_os_file os_open fname = elim (os_open fname) [
  | none ↦ throw cannot_open
  | some (os, none) ↦ throw cannot_stat
  | some (os, some statbuf) ↦ ok (readonly_os_file os, statbuf)
]

unfoldable pub identify_compression_type : Option (Text → Bool) → Result CompressionType
identify_compression_type none = ok CompressionType.uncompressed
identify_compression_type (some is_a) =
    if is_a (text "vtkZLibDataCompressor")
    then ok CompressionType.zlib
    else if is_a (text "vtkLZ4DataCompressor")
    then ok CompressionType.lz4
    else throw unsupported_data_compression

unfoldable pub parse_header_type : Table Text → Result DataType
parse_header_type map = do
  t ← at_key (find (text "header_type") map)
  if text_eq t (text "UInt32")
      then ok uint32
      else if text_eq t (text "UInt64")
      then ok uint64
      else throw unknown_header_type

-- EndsWith
unfoldable pub ends_with : Text → Text → Bool
ends_with str suffix =
    if ltb (length str) (length suffix)
    then false
    else text_eq (drop (length str - length suffix) str) suffix

-- CreateReader, by the reader that the mesh type names
abbrev pub is_mesh_type : Text → Bool
is_mesh_type t =
    if text_eq t (text "UnstructuredGrid")
    then true
    else if text_eq t (text "StructuredGrid")
    then true
    else text_eq t (text "ImageData")

-- a group of arrays that is left out unless its flag is set
abbrev pub optionally : {A : Type 0} → Bool → Result A → Result (Option A)
optionally false m = ok none
optionally true m = m >>= λ a. ok (some a)

abbrev pub emplace_some : Text → Option Dir → Dirs → Dirs
emplace_some name none ds = ds
emplace_some name (some d) ds = emplace_dir name d ds

-- The directories of a tree, from the first `emplace` to the last. In which order a walk of the hash
-- table meets them is left to `HashOrder`.
unfoldable pub subdirs : Table Text → Dir → Option Dir → Dir → Option Dir → Dirs
subdirs root_attrs point_data points cell_data cells = emplace_some (text "cells") cells (
    emplace_dir (text "celldata") cell_data (
      emplace_some (text "points") points (
        emplace_dir (text "pointdata") point_data
          (emplace_dir (text "METADATA") (metadata_dir root_attrs) no_dirs))))

-- a group on its own, if there is one
abbrev pub map_some : {A B : Type 0} → Option A → (A → Result B) → Result (Option B)
map_some none f = ok none
map_some (some a) f = f a >>= λ b. ok (some b)

module _ (E : Type 0) (xml : XmlDataElement E) where
  -- `(*des)[name] = value` for each attribute
  unfoldable pub assign_all : Table Text → List (Text × Text) → Table Text
  assign_all des [] = des
  assign_all des ((name, v) ∷ attrs) = assign_all (assign name v des) attrs

  unfoldable pub copy_attrs : Table Text → Option E → Result (Table Text)
  unfolding assign_all
  copy_attrs des src = deref src >>= λ e. ok (assign_all des (xml.attributes e))

  -- `(*info)[name]`, which is empty where there is none
  abbrev pub entry : Text → Table (Table Text) → Table Text
  entry name info = elim (find name info) [ none ↦ [] | some t ↦ t ]

  unfoldable pub parse_encoding_type : Option E → Result EncodingType
  parse_encoding_type none = ok raw
  parse_encoding_type (some app) = deref (xml.get_attribute app (text "encoding")) >>= λ e.
      ok (if text_eq e (text "base64") then base64 else raw)

  -- the loop of ExtractCellsInfo and ExtractPointsInfo: arrays that are named by an attribute
  unfoldable pub extract_named : List E → Table (Table Text) → Result (Table (Table Text))
  unfolding copy_attrs
  extract_named [] info = ok info
  extract_named (arr ∷ arrs) info = do
    name ← deref (xml.get_attribute arr (text "Name"))
    attrs ← copy_attrs (entry name info) (some arr)
    extract_named arrs (assign name attrs info)

  -- ExtractCellsInfo and ExtractPointsInfo, by the name of the parent
  unfoldable pub extract_info : Text → E → Result (Table (Table Text))
  unfolding extract_named
  extract_info parent root =
      deref (xml.lookup_element_with_name root parent) >>= λ p. extract_named (xml.nested p) []

  -- a loop of ExtractFieldArrayInfo: the reader names the arrays, in the order of the elements
  unfoldable pub extract_fields :
      List Text → List E → Table (Table Text) → Result (Table (Table Text))
  unfolding copy_attrs
  extract_fields [] elements info = ok info
  extract_fields (name ∷ names) [] info = ub
  extract_fields (name ∷ names) (e ∷ es) info = do
    attrs ← copy_attrs (entry name info) (some e)
    extract_fields names es (assign name attrs info)

  -- one half of ExtractFieldArrayInfo, on the element of the name; no array, no call on the element
  unfoldable pub extract_field_array_info : Text → List Text → E → Result (Table (Table Text))
  unfolding extract_fields
  extract_field_array_info parent [] root = ok []
  extract_field_array_info parent (name ∷ names) root =
      deref (xml.lookup_element_with_name root parent) >>= λ p.
      extract_fields (name ∷ names) (xml.nested p) []

  module _ (update_information : Text → Text → Option (XmlReader E)) (os_open : OsOpen)
      (decode_triplet : DecodeTriplet) (serialize : Serializer) where
    -- CreateReader, SetFileName and UpdateInformation
    unfoldable pub read_information : (mesh_type fname : Text) → Result (XmlReader E)
    read_information mesh_type fname =
        if is_mesh_type mesh_type
        then elim (update_information mesh_type fname) [
          | none ↦ throw unparsed_file
          | some r ↦ ok r
        ]
        else throw unsupported_mesh

    unfoldable pub parse_vtk_file_internal :
        (fname mesh_type : Text) (load_points load_cells : Bool) → Result VtkTree
    unfolding read_information subdirs copy_attrs parse_encoding_type extract_info
        extract_field_array_info
    parse_vtk_file_internal fname mesh_type load_points load_cells = do
      reader ← read_information mesh_type fname
      codec ← identify_compression_type reader.compressor
      let pos = reader.appended_data_position
      let root = reader.root_element
      enc ← parse_encoding_type (xml.find_nested_element_with_name root (text "AppendedData"))
      attrs ← copy_attrs [] (some root)
      header_type ← parse_header_type attrs
      root_attrs ← copy_attrs attrs (xml.find_nested_element_with_name root mesh_type)
      point_arr_info ← extract_field_array_info (text "PointData") reader.point_arrays root
      cell_arr_info ← extract_field_array_info (text "CellData") reader.cell_arrays root
      points_info ← optionally load_points (extract_info (text "Points") root)
      cells_info ← optionally load_cells (extract_info (text "Cells") root)
      file ← new_os_file os_open fname
      let group = λ (info : Table (Table Text)).
          parse_array_group decode_triplet serialize file.0 codec enc header_type info pos
      point_data ← group point_arr_info
      points ← map_some points_info group
      cell_data ← group cell_arr_info
      cells ← map_some cells_info group
      ok (vtk_tree (subdirs root_attrs point_data points cell_data cells) file.1)

    unfoldable pub parse_vtk_file : Text → Result VtkTree
    unfolding parse_vtk_file_internal
    parse_vtk_file fname =
        if ends_with fname (text ".vtu")
        then parse_vtk_file_internal fname (text "UnstructuredGrid") true true
        else if ends_with fname (text ".vts")
        then parse_vtk_file_internal fname (text "StructuredGrid") true false
        else if ends_with fname (text ".vti")
        then parse_vtk_file_internal fname (text "ImageData") false false
        else throw unsupported_file_format
