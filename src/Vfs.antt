-- ===== src/Vfs.antt =====
-- vfs.h, vfs.cc: the directories of the file system and what they answer. An object of class `Dir` is
-- one of its three implementations. A null pointer is `none`.
use lanl_vir_parquet.Prelude.{
  ℕ, List, [], ◌∷◌, Bool, true, false, Option, none, some, length, if◌then◌else◌, bit_and,
}
use lanl_vir_parquet.Prelude.Int.{ℤ}
use lanl_vir_parquet.Prelude.Text.{Text, text_eq}
use lanl_vir_parquet.Prelude.Table.{Table, HashOrder, find, keys}
use lanl_vir_parquet.File.{Outcome, done, RandomAccessFile, string_buf_file}
use lanl_vir_parquet.Result.{Result, ok, throw, ub, ◌>>=◌, out_of_range}
use lanl_vir_parquet.Base64.{DecodeTriplet}
use lanl_vir_parquet.FMap.{FileMap, pread, file_size}

pub record FileStat : Type 0 where
  pub file_size : ℕ
  pub is_dir : Bool

-- `struct stat`, by the fields in use; the times are in nanoseconds
pub record StatBuf : Type 0 where
  pub st_mode : ℕ
  pub st_size : ℤ
  pub st_atim : ℕ
  pub st_mtim : ℕ
  pub st_ctim : ℕ
  pub st_rdev : ℕ
  pub st_dev : ℕ
  pub st_uid : ℕ
  pub st_gid : ℕ

mutual
  -- MetadataDir, ArrayDir and VtkTree by the fields that a `Dir` uses
  pub data Dir : Type 0 where
    metadata_dir : Table Text → Dir
    array_dir : Table FileMap → RandomAccessFile → Dir
    vtk_tree_dir : Dirs → Dir

  -- the entries of `subdirs_`; their order here is not the one in which a walk meets them
  pub data Dirs : Type 0 where
    no_dirs : Dirs
    add_dir : Text → Dir → Dirs → Dirs

-- VtkTree. Only its deletion uses the base file.
pub record VtkTree : Type 0 where
  pub subdirs : Dirs
  pub base_statbuf : StatBuf

abbrev pub as_dir : VtkTree → Dir
as_dir t = vtk_tree_dir t.subdirs

unfoldable pub find_dir : Text → Dirs → Option Dir
find_dir name no_dirs = none
find_dir name (add_dir k d ds) = if text_eq k name then some d else find_dir name ds

-- `emplace` on `subdirs`
unfoldable pub emplace_dir : Text → Dir → Dirs → Dirs
emplace_dir name d no_dirs = add_dir name d no_dirs
emplace_dir name d (add_dir k e ds) =
    if text_eq k name then add_dir k e ds else add_dir k e (emplace_dir name d ds)

unfoldable pub dir_keys : Dirs → List Text
dir_keys no_dirs = []
dir_keys (add_dir k d ds) = k ∷ dir_keys ds

-- `map.at(name)`
abbrev pub at_key : {A : Type 0} → Option A → Result A
at_key none = throw out_of_range
at_key (some a) = ok a

-- VirtualFile
unfoldable pub virtual_file : DecodeTriplet → FileMap → RandomAccessFile → RandomAccessFile
virtual_file decode_triplet m base size offset = pread decode_triplet m base size offset

-- Dir::Open
unfoldable pub dir_open : DecodeTriplet → Dir → Text → Result (Option RandomAccessFile)
unfolding virtual_file
dir_open decode_triplet (metadata_dir t) name =
    at_key (find name t) >>= λ strbuf. ok (some (string_buf_file strbuf))
dir_open decode_triplet (array_dir t base) name =
    at_key (find name t) >>= λ m. ok (some (virtual_file decode_triplet m base))
dir_open decode_triplet (vtk_tree_dir ds) name = ok none

-- Dir::GetDir
unfoldable pub get_dir : Dir → Text → Result (Option Dir)
get_dir (metadata_dir t) name = ok none
get_dir (array_dir t base) name = ok none
get_dir (vtk_tree_dir ds) name = at_key (find_dir name ds) >>= λ d. ok (some d)

-- a file's size in its FileStat; outside of the vector it is undefined
abbrev pub file_stat : Outcome ℕ → Result (Option FileStat)
file_stat (done n) = ok (some (record { file_size = n; is_dir = false }))
file_stat _ = ub

-- Dir::Stat: `none` where it returns false
unfoldable pub stat : Dir → Text → Result (Option FileStat)
stat (metadata_dir t) name = elim (find name t) [
  | none ↦ ok none
  | some strbuf ↦ file_stat (done (length strbuf))
]
stat (array_dir t base) name = elim (find name t) [
  | none ↦ ok none
  | some m ↦ file_stat (file_size m)
]
stat (vtk_tree_dir ds) name = elim (find_dir name ds) [
  | none ↦ ok none
  | some d ↦ ok (some (record { file_size = 0; is_dir = true }))
]

-- KeyIter: the keys in the order of a walk, and those from the iterator's place on
pub record KeyIter : Type 0 where
  pub all : List Text
  pub it : List Text

-- Dir::NewIter, which begins at the end
unfoldable pub new_iter : HashOrder → Dir → KeyIter
new_iter order (metadata_dir t) = record { all = order (keys t); it = [] }
new_iter order (array_dir t base) = record { all = order (keys t); it = [] }
new_iter order (vtk_tree_dir ds) = record { all = order (dir_keys ds); it = [] }

unfoldable pub valid : KeyIter → Bool
valid i = elim i.it [ [] ↦ false | k ∷ ks ↦ true ]

unfoldable pub value : KeyIter → Result Text
value i = elim i.it [ [] ↦ ub | k ∷ ks ↦ ok k ]

unfoldable pub next : KeyIter → Result KeyIter
next i = elim i.it [ [] ↦ ub | k ∷ ks ↦ ok (record i { it = ks }) ]

unfoldable pub seek_to_first : KeyIter → KeyIter
seek_to_first i = record i { it = i.all }

-- S_IRUSR | S_IRGRP | S_IROTH
abbrev pub read_bits : ℕ
read_bits = 292

-- SanitizedStat
unfoldable pub sanitized_stat : StatBuf → StatBuf
sanitized_stat input = record {
  st_mode = bit_and input.st_mode read_bits;
  st_size = ℤ.pos 0;
  st_atim = input.st_atim;
  st_mtim = input.st_mtim;
  st_ctim = input.st_ctim;
  st_rdev = input.st_rdev;
  st_dev = input.st_dev;
  st_uid = input.st_uid;
  st_gid = input.st_gid;
}

-- the constructor of VtkTree
unfoldable pub vtk_tree : Dirs → StatBuf → VtkTree
unfolding sanitized_stat
vtk_tree subdir statbuf = record { subdirs = subdir; base_statbuf = sanitized_stat statbuf }
