-- ===== src/Parser/Sized.antt =====
-- ParseVtkFile gives trees in which every map has a size.
use lanl_vir_parquet.Prelude.{◌≡◌, [], Bool, true, false, Option, none, some, IfSome}
use lanl_vir_parquet.Prelude.Text.{Text, text}
use lanl_vir_parquet.Prelude.Table.{Table}
use lanl_vir_parquet.File.{RandomAccessFile}
use lanl_vir_parquet.Result.{Result, ok, ◌>>=◌}
use lanl_vir_parquet.Result.Ensures.{Ensures, Ensures-bind, Ensures-any, Ensures-if, Ensures-ok}
use lanl_vir_parquet.Base64.{DecodeTriplet}
use lanl_vir_parquet.BuildMap.{Serializer}
use lanl_vir_parquet.Vfs.{StatBuf, Dir, VtkTree, as_dir, vtk_tree}
use lanl_vir_parquet.Fuse.Total.{IsSized}
use lanl_vir_parquet.Parser.{
  XmlDataElement, XmlReader, OsOpen, ends_with, subdirs, read_information,
  identify_compression_type, parse_encoding_type, copy_attrs, parse_header_type,
  extract_field_array_info, extract_info, new_os_file, parse_vtk_file, parse_vtk_file_internal,
  optionally, map_some,
}
use lanl_vir_parquet.Parser.Array.{parse_array_group}
use lanl_vir_parquet.Parser.SizedGroup.{subdirs-AllSized, parse_array_group-IsSized}

map_some-IsSized :
    {A : Type 0} (o : Option A) (f : A → Result Dir)
    → ((a : A) → Ensures IsSized (f a))
    → Ensures (IfSome IsSized) (map_some o f)
unfolding Ensures
map_some-IsSized none f h = tt
map_some-IsSized (some a) f h =
    Ensures-bind IsSized (IfSome IsSized) (f a) (λ b. ok (some b)) (h a) (λ b k. k)

abbrev IsSizedTree : VtkTree → Type 0
IsSizedTree tree = IsSized (as_dir tree)

-- the end of ParseVtkFileInternal
groups-IsSized :
    (group : Table (Table Text) → Result Dir)
    → ((info : Table (Table Text)) → Ensures IsSized (group info))
    → (attrs : Table Text) (p : Table (Table Text)) (ps : Option (Table (Table Text)))
      (c : Table (Table Text)) (cs : Option (Table (Table Text))) (statbuf : StatBuf)
    → Ensures IsSizedTree (
        group p >>= λ point_data. map_some ps group >>= λ points. group c >>= λ cell_data.
        map_some cs group >>= λ cells.
        ok (vtk_tree (subdirs attrs point_data points cell_data cells) statbuf))
unfolding vtk_tree Ensures
groups-IsSized group sized attrs p ps c cs statbuf =
    Ensures-bind IsSized IsSizedTree (group p) _ (sized p) (λ point_data h.
      Ensures-bind (IfSome IsSized) IsSizedTree (map_some ps group) _
        (map_some-IsSized ps group sized)
        (λ points i. Ensures-bind IsSized IsSizedTree (group c) _ (sized c) (λ cell_data j.
          Ensures-bind (IfSome IsSized) IsSizedTree (map_some cs group) _
            (map_some-IsSized cs group sized)
            (λ cells k. subdirs-AllSized attrs point_data points cell_data cells h i j k))))

module _ (E : Type 0) (xml : XmlDataElement E)
    (update_information : Text → Text → Option (XmlReader E)) (os_open : OsOpen)
    (dec : DecodeTriplet) (serialize : Serializer) where
  internal-IsSized :
      (fname mesh_type : Text) (load_points load_cells : Bool)
      → Ensures IsSizedTree (
          parse_vtk_file_internal E xml update_information os_open dec serialize fname mesh_type
            load_points load_cells)
  unfolding parse_vtk_file_internal
  internal-IsSized fname mesh_type load_points load_cells =
      Ensures-any IsSizedTree
        (read_information E xml update_information os_open dec serialize mesh_type fname) _
        (λ (reader : XmlReader E).
          Ensures-any IsSizedTree (identify_compression_type reader.compressor) _ (λ codec.
            Ensures-any IsSizedTree
              (parse_encoding_type E xml
                (xml.find_nested_element_with_name reader.root_element (text "AppendedData")))
              _
              (λ enc.
                Ensures-any IsSizedTree (copy_attrs E xml [] (some reader.root_element)) _ (λ attrs.
                  Ensures-any IsSizedTree (parse_header_type attrs) _ (λ header_type.
                    Ensures-any IsSizedTree
                      (copy_attrs E xml attrs
                        (xml.find_nested_element_with_name reader.root_element mesh_type))
                      _
                      (λ root_attrs.
                        Ensures-any IsSizedTree
                          (extract_field_array_info E xml (text "PointData") reader.point_arrays
                            reader.root_element)
                          _
                          (λ point_arr_info.
                            Ensures-any IsSizedTree
                              (extract_field_array_info E xml (text "CellData") reader.cell_arrays
                                reader.root_element)
                              _
                              (λ cell_arr_info.
                                Ensures-any IsSizedTree
                                  (optionally load_points
                                    (extract_info E xml (text "Points") reader.root_element))
                                  _
                                  (λ points_info.
                                    Ensures-any IsSizedTree
                                      (optionally load_cells
                                        (extract_info E xml (text "Cells") reader.root_element))
                                      _
                                      (λ cells_info.
                                        Ensures-any IsSizedTree (new_os_file os_open fname) _
                                          (λ (file : RandomAccessFile × StatBuf).
                                            groups-IsSized
                                              (λ info.
                                                parse_array_group dec serialize file.0 codec enc
                                                  header_type info reader.appended_data_position)
                                              (λ info.
                                                parse_array_group-IsSized dec serialize file.0 codec
                                                  enc header_type info
                                                  reader.appended_data_position)
                                              root_attrs point_arr_info points_info cell_arr_info
                                              cells_info file.1)))))))))))

  -- Every map in a tree that ParseVtkFile returns has a size.
  pub parse_vtk_file-IsSized :
      (fname : Text) (tree : VtkTree)
      → parse_vtk_file E xml update_information os_open dec serialize fname ≡ ok tree
      → IsSized (as_dir tree)
  unfolding parse_vtk_file Ensures
  parse_vtk_file-IsSized fname tree e =
      Ensures-ok IsSizedTree _ tree
        (Ensures-if IsSizedTree (ends_with fname (text ".vtu")) _ _
          (internal-IsSized fname (text "UnstructuredGrid") true true)
          (Ensures-if IsSizedTree (ends_with fname (text ".vts")) _ _
            (internal-IsSized fname (text "StructuredGrid") true false)
            (Ensures-if IsSizedTree (ends_with fname (text ".vti")) _ _
              (internal-IsSized fname (text "ImageData") false false) tt)))
        e
