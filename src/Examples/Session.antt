-- ===== src/Examples/Session.antt =====
-- A VTK file of one array, from its XML to a session on it.
use lanl_vir_parquet.Vfs.{dir_open}
use lanl_vir_parquet.FMap.{map_builder}
use lanl_vir_parquet.BuildMap.{uncompressed_pages}
use lanl_vir_parquet.FMap.{add_mapped_region}
use lanl_vir_parquet.BuildMap.{uncompressed_page}
use lanl_vir_parquet.FMap.{add_direct}
use lanl_vir_parquet.Prelude.Table.{HashOrder, emplace}
use lanl_vir_parquet.Vfs.{get_dir}
use lanl_vir_parquet.Vfs.{emplace_dir}
use lanl_vir_parquet.Vfs.{vtk_tree}
use lanl_vir_parquet.Parser.{ends_with, identify_compression_type, parse_header_type, new_os_file}
use lanl_vir_parquet.Prelude.Text.{text_eq}
use lanl_vir_parquet.Prelude.Table.{find, assign}
use lanl_vir_parquet.Parser.Array.{parse_array_group}
use lanl_vir_parquet.Arr.{parse_uncompressed64, get_value_size}
use lanl_vir_parquet.File.{offsetted_file, readonly_os_file}
use lanl_vir_parquet.Prelude.{add64, sub64}
use lanl_vir_parquet.BuildMap.{build_map_uncompressed, finish_map}
use lanl_vir_parquet.Prelude.{
  ℕ, ◌≡◌, refl, List, [], ◌∷◌, ◌++◌, false, Bool, Option, none, some, take, drop,
}
use lanl_vir_parquet.Prelude.Int.{ℤ, pos}
use lanl_vir_parquet.Prelude.Text.{Text, text}
use lanl_vir_parquet.File.{RandomAccessFile}
use lanl_vir_parquet.Result.{Result, ok}
use lanl_vir_parquet.Vfs.{StatBuf, VtkTree, no_dirs, as_dir, stat, find_dir}
use lanl_vir_parquet.FMap.{file_size, finish}
use lanl_vir_parquet.Fuse.{Handle, vtk_open, vtk_getattr, vtk_readdir, read_reply}
use lanl_vir_parquet.Fuse.Total.{IsSized, Returns, operations-Returns}
use lanl_vir_parquet.Parser.Sized.{parse_vtk_file-IsSized}
use lanl_vir_parquet.FuseMain.Session.{session-Returns, session-read}
use lanl_vir_parquet.Parser.{XmlDataElement, XmlReader, OsOpen, parse_vtk_file}
use lanl_vir_parquet.FuseMain.{
  FsConf, FuseState, fs_oper, fs_init_tree, Reached, started, stepped, call_open,
}
use lanl_vir_parquet.Examples.Maps.{decode_none}
use lanl_vir_parquet.Examples.Builds.{serialize}

abbrev statbuf : StatBuf
statbuf = record {
  st_mode = 33188;
  st_size = pos 40;
  st_atim = 1;
  st_mtim = 1;
  st_ctim = 1;
  st_rdev = 0;
  st_dev = 0;
  st_uid = 0;
  st_gid = 0;
}

-- every element has these attributes and one element in it
abbrev xml : XmlDataElement Unit
xml = record {
  attributes = λ e.
      (text "header_type", text "UInt64")
      ∷ (text "type", text "Float64")
      ∷ (text "format", text "appended")
      ∷ (text "offset", text "0")
      ∷ [];
  get_attribute = λ e a. some (text "raw");
  nested = λ e. tt ∷ [];
  lookup_element_with_name = λ e n. some tt;
  find_nested_element_with_name = λ e n. some tt;
}

abbrev reader : XmlReader Unit
reader = record {
  compressor = none;
  appended_data_position = 1;
  root_element = tt;
  point_arrays = [];
  cell_arrays = text "prs" ∷ [];
}

-- a header of eight bytes with the length of the eight bytes behind it
abbrev vtk_file : List ℕ
vtk_file = text "_" ++ 8 ∷ 0 ∷ 0 ∷ 0 ∷ 0 ∷ 0 ∷ 0 ∷ 0 ∷ text "abcdefgh"

abbrev os_open : OsOpen
os_open fname = some ((λ size off. some (take size (drop off vtk_file))), some statbuf)

abbrev update : Text → Text → Option (XmlReader Unit)
update mesh fname = some reader

-- a hash table that is walked in the order of its list
abbrev in_order : HashOrder
in_order ks = ks

abbrev tree_of : Result (Option VtkTree × Bool) → VtkTree
tree_of (ok (some t, b)) = t
tree_of r = record { subdirs = no_dirs; base_statbuf = statbuf }

abbrev conf : FsConf
conf = record { underlying_file = some (text "a.vti") }

abbrev the_tree : VtkTree
the_tree = tree_of (fs_init_tree Unit xml update os_open decode_none serialize in_order conf)

init_works :
    (fs_oper Unit xml update os_open decode_none serialize in_order).op_init conf
    ≡ ok (some the_tree, false)
unfolding fs_oper fs_init_tree ends_with text_eq identify_compression_type parse_header_type find
    assign new_os_file parse_array_group parse_uncompressed64 offsetted_file readonly_os_file add64
    build_map_uncompressed get_value_size sub64 finish_map
init_works = refl

abbrev a_path : Option Text
a_path = some (text "/celldata/prs.parquet")

abbrev handle_of : Result (ℤ × Handle) → Handle
handle_of (ok r) = r.1
handle_of r = none

abbrev the_handle : Handle
the_handle = handle_of (vtk_open decode_none the_tree 0 a_path none)

open_works :
    (fs_oper Unit xml update os_open decode_none serialize in_order).op_open the_tree 0 a_path none
    ≡ ok (pos 0, the_handle)
unfolding fs_oper ends_with text_eq identify_compression_type parse_header_type find assign
    new_os_file parse_array_group parse_uncompressed64 offsetted_file readonly_os_file add64
    build_map_uncompressed get_value_size sub64 finish_map fs_init_tree stat find_dir file_size
    finish vtk_tree emplace_dir get_dir emplace add_direct uncompressed_page add_mapped_region
    uncompressed_pages map_builder dir_open
open_works = refl

abbrev State : Type 0
State = FuseState Unit xml update os_open decode_none serialize in_order

abbrev at_start : State
at_start = record { tree = the_tree; handles = [] }

abbrev opened : State
opened = record { tree = the_tree; handles = the_handle ∷ [] }

session_opened : Reached Unit xml update os_open decode_none serialize in_order conf opened
session_opened =
    stepped (started the_tree init_works) (call_open at_start 0 a_path none the_handle open_works)

session-Returns_example :
    Returns decode_none (
      (fs_oper Unit xml update os_open decode_none serialize in_order).op_getattr the_tree a_path
        statbuf)
    × Returns decode_none (
        (fs_oper Unit xml update os_open decode_none serialize in_order).op_readdir the_tree a_path
          [])
    × Returns decode_none (
        (fs_oper Unit xml update os_open decode_none serialize in_order).op_open the_tree 0 a_path
          none)
session-Returns_example =
    session-Returns Unit xml update os_open decode_none serialize in_order conf opened
      session_opened a_path statbuf [] 0 none

session-read_example :
    (f : RandomAccessFile) × (the_handle ≡ some f)
    × ((fs_oper Unit xml update os_open decode_none serialize in_order).op_read the_handle 4 (pos 0)
        ≡ read_reply (f 4 0))
session-read_example =
    session-read Unit xml update os_open decode_none serialize in_order conf opened session_opened
      [] [] the_handle 4 (pos 0) refl

parsed : parse_vtk_file Unit xml update os_open decode_none serialize (text "a.vti") ≡ ok the_tree
unfolding fs_oper ends_with text_eq identify_compression_type parse_header_type find assign
    new_os_file parse_array_group parse_uncompressed64 offsetted_file readonly_os_file add64
    build_map_uncompressed get_value_size sub64 finish_map parse_vtk_file fs_init_tree
parsed = refl

the_tree-IsSized : IsSized (as_dir the_tree)
the_tree-IsSized =
    parse_vtk_file-IsSized Unit xml update os_open decode_none serialize (text "a.vti") the_tree
      parsed

parse_vtk_file-IsSized_example : IsSized (as_dir the_tree)
parse_vtk_file-IsSized_example =
    parse_vtk_file-IsSized Unit xml update os_open decode_none serialize (text "a.vti") the_tree
      parsed

operations-Returns_example :
    Returns decode_none (vtk_getattr the_tree a_path statbuf)
    × Returns decode_none (vtk_readdir in_order the_tree a_path [])
    × Returns decode_none (vtk_open decode_none the_tree 0 a_path none)
operations-Returns_example =
    operations-Returns decode_none in_order the_tree the_tree-IsSized a_path statbuf [] 0 none
