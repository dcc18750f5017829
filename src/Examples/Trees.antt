-- ===== src/Examples/Trees.antt =====
-- The file system on a tree with one array.
use lanl_vir_parquet.Prelude.{◌≡◌, refl, List, ◌++◌, [], ◌∷◌, none, some, false, arith, bit_or}
use lanl_vir_parquet.Prelude.Int.{pos, to_i64}
use lanl_vir_parquet.Prelude.Text.{Text, text, text_eq}
use lanl_vir_parquet.Prelude.Table.{Table, HashOrder, find, keys}
use lanl_vir_parquet.File.{string_buf_file}
use lanl_vir_parquet.Result.{ok}
use lanl_vir_parquet.FMap.{FileMap}
use lanl_vir_parquet.Vfs.{
  StatBuf, metadata_dir, array_dir, no_dirs, add_dir, VtkTree, as_dir, find_dir, dir_keys,
  virtual_file, stat,
}
use lanl_vir_parquet.Fuse.{
  slash, s_ifreg, resolve_path, vtk_getattr, vtk_readdir, vtk_open, vtk_read,
}
use lanl_vir_parquet.Fuse.Resolve.{walk, resolve_path-walk}
use lanl_vir_parquet.Fuse.Tree.{vtk_getattr-array, vtk_open-array}
use lanl_vir_parquet.Fuse.Metadata.{vtk_open-metadata}
use lanl_vir_parquet.Fuse.Listing.{
  WalksAll, Distinct, HasDistinctKeys, occurrences, found, vtk_readdir-entries, vtk_readdir-root,
}
use lanl_vir_parquet.Examples.Maps.{
  decode_none, data_bytes, vtk_bytes, regions, small_map, small_map-IsMap, vtk-Serves,
}

abbrev statbuf : StatBuf
statbuf = record {
  st_mode = 292;
  st_size = pos 0;
  st_atim = 1;
  st_mtim = 2;
  st_ctim = 3;
  st_rdev = 0;
  st_dev = 4;
  st_uid = 5;
  st_gid = 6;
}

abbrev pub arrays : Table FileMap
arrays = (text "p.parquet", small_map) ∷ []

abbrev pub tree : VtkTree
tree = record {
  subdirs = add_dir (text "pointdata") (array_dir arrays (string_buf_file vtk_bytes)) no_dirs;
  base_statbuf = statbuf;
}

-- the path "/pointdata//p.parquet" behind its first slash
abbrev pub path : Text
path = text "pointdata//p.parquet"

pub is_dir :
    find_dir (text "pointdata") tree.subdirs ≡ some (array_dir arrays (string_buf_file vtk_bytes))
unfolding find_dir text_eq
is_dir = refl

pub is_entry : find (text "p.parquet") arrays ≡ some small_map
unfolding find text_eq
is_entry = refl

resolve_path-walk_example :
    resolve_path (as_dir tree) (some (slash ∷ path))
    ≡ walk (as_dir tree) (text "pointdata" ∷ text "p.parquet" ∷ [])
resolve_path-walk_example = resolve_path-walk (as_dir tree) path

-- a hash table that is walked in the order of its list
abbrev in_order : HashOrder
in_order ks = ks

in_order-WalksAll : WalksAll in_order
in_order-WalksAll ks k = refl

arrays-Distinct : HasDistinctKeys (array_dir arrays (string_buf_file vtk_bytes))
unfolding keys
arrays-Distinct = (refl, tt)

root-Distinct : Distinct (dir_keys tree.subdirs)
unfolding dir_keys
root-Distinct = (refl, tt)

vtk_readdir-entries_example :
    (names : List Text) × (vtk_readdir in_order tree (some (slash ∷ text "pointdata/")) []
      ≡ ok (pos 0, [] ++ names))
    × ((k : Text)
        → occurrences k names ≡ found (stat (array_dir arrays (string_buf_file vtk_bytes)) k))
vtk_readdir-entries_example =
    vtk_readdir-entries in_order in_order-WalksAll tree (text "pointdata/") [] 112 (text "ointdata")
      (array_dir arrays (string_buf_file vtk_bytes)) refl is_dir arrays-Distinct

vtk_readdir-root_example :
    (names : List Text) × (vtk_readdir in_order tree (some (slash ∷ text "//")) []
      ≡ ok (pos 0, [] ++ names))
    × ((k : Text) → occurrences k names ≡ found (stat (as_dir tree) k))
vtk_readdir-root_example =
    vtk_readdir-root in_order in_order-WalksAll tree (text "//") [] refl root-Distinct

vtk_getattr-array_example :
    vtk_getattr tree (some (slash ∷ path)) statbuf
    ≡ ok (pos 0, record statbuf { st_size = to_i64 5; st_mode = bit_or 292 s_ifreg })
vtk_getattr-array_example =
    vtk_getattr-array decode_none (string_buf_file vtk_bytes) false 1 small_map regions data_bytes
      small_map-IsMap tree path (text "pointdata") 112 (text ".parquet") arrays refl is_dir is_entry
      (omega arith, tt) statbuf

vtk_open-array_example :
    (vtk_open decode_none tree 0 (some (slash ∷ path)) none
      ≡ ok (pos 0, some (virtual_file decode_none small_map (string_buf_file vtk_bytes))))
    × (vtk_read (some (virtual_file decode_none small_map (string_buf_file vtk_bytes))) 4 (pos 1)
        ≡ ok (pos 4, text "Abcd"))
vtk_open-array_example =
    vtk_open-array decode_none (string_buf_file vtk_bytes) false 1 small_map regions data_bytes
      small_map-IsMap tree path (text "pointdata") 112 (text ".parquet") arrays refl is_dir is_entry
      (omega arith, tt) vtk-Serves (omega arith) (omega arith) 0 refl none 4 1 (omega arith)

-- a tree with one attribute
abbrev attributes : Table Text
attributes = (text "type", text "ImageData") ∷ []

abbrev metadata_tree : VtkTree
metadata_tree = record {
  subdirs = add_dir (text "METADATA") (metadata_dir attributes) no_dirs;
  base_statbuf = statbuf;
}

is_metadata : find_dir (text "METADATA") metadata_tree.subdirs ≡ some (metadata_dir attributes)
unfolding find_dir text_eq
is_metadata = refl

is_attribute : find (text "type") attributes ≡ some (text "ImageData")
unfolding find text_eq
is_attribute = refl

vtk_open-metadata_example :
    (vtk_getattr metadata_tree (some (slash ∷ text "METADATA/type")) statbuf
      ≡ ok (pos 0, record statbuf { st_size = to_i64 9; st_mode = bit_or 292 s_ifreg }))
    × (vtk_open decode_none metadata_tree 0 (some (slash ∷ text "METADATA/type")) none
        ≡ ok (pos 0, some (string_buf_file (text "ImageData"))))
    × (vtk_read (some (string_buf_file (text "ImageData"))) 100 (pos 5) ≡ ok (pos 4, text "Data"))
vtk_open-metadata_example =
    vtk_open-metadata decode_none metadata_tree (text "METADATA/type") (text "METADATA") 116
      (text "ype") (text "ImageData") attributes refl is_metadata is_attribute statbuf 0 refl none
      100 5 (omega arith)
