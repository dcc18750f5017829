-- ===== src/Fuse/Tree.antt =====
-- The file system from outside: what its operations answer on the files and directories of a tree.
use lanl_vir_parquet.Prelude.{
  ℕ, suc, ◌+◌, ◌<◌, ◌≡◌, refl, sym, ap, ◌∙◌, List, [], ◌∷◌, ◌++◌, Bool, true, false, some, arith,
  length, take, drop, length-take, append_assoc, append-nil, to_u32_exact, lt→ltb, get_elem?-append,
  bit_and, bit_or, u64_mod,
}
use lanl_vir_parquet.Prelude.Int.{pos, to_i64}
use lanl_vir_parquet.Prelude.Text.{Text}
use lanl_vir_parquet.Prelude.Table.{Table, HashOrder, find}
use lanl_vir_parquet.File.{done, RandomAccessFile}
use lanl_vir_parquet.File.Serves.{Serves}
use lanl_vir_parquet.Result.{ok}
use lanl_vir_parquet.Base64.{DecodeTriplet}
use lanl_vir_parquet.FMap.{FileMap, file_size}
use lanl_vir_parquet.FMap.Build.{IsMap}
use lanl_vir_parquet.FMap.Serve.{mapped_source}
use lanl_vir_parquet.FMap.Read.{pread_lem}
use lanl_vir_parquet.FMap.Region.{
  Region, total, virtual, starts, AllInside, length-starts, length-virtual,
}
use lanl_vir_parquet.Vfs.{
  StatBuf, Dir, array_dir, vtk_tree_dir, Dirs, VtkTree, find_dir, dir_open, get_dir, stat,
  virtual_file, new_iter, seek_to_first, valid, value, next,
}
use lanl_vir_parquet.Fuse.{
  slash, s_ifreg, lookup, dir, file, resolve_path, getattr_in, vtk_getattr, readdir_loop, readdir,
  Handle, open_in, open_path, vtk_open, read_reply, vtk_read,
}
use lanl_vir_parquet.Fuse.Resolve.{components, walk, resolve_path-walk}

-- what a directory lists
abbrev pub entries : HashOrder → Dir → List Text
entries order d = (new_iter order d).all

readdir_loop-all :
    (all ks filled : List Text)
    → readdir_loop (suc (length ks)) (record { all = all; it = ks }) filled
      ≡ ok (pos 0, filled ++ ks)
unfolding readdir_loop valid value next
readdir_loop-all all [] filled = ap (λ xs. ok (pos 0, xs)) (sym (append-nil filled))
readdir_loop-all all (k ∷ ks) filled =
    readdir_loop-all all ks (filled ++ k ∷ [])
    ∙ ap (λ xs. ok (pos 0, xs)) (append_assoc filled (k ∷ []) ks)

pub readdir-entries :
    (order : HashOrder) (d : Dir) (filled : List Text)
    → readdir order d filled ≡ ok (pos 0, filled ++ entries order d)
unfolding readdir seek_to_first
readdir-entries order d filled = readdir_loop-all (entries order d) (entries order d) filled

stat-subdir :
    (ds : Dirs) (name : Text) (d : Dir)
    → find_dir name ds ≡ some d
    → stat (vtk_tree_dir ds) name ≡ ok (some (record { file_size = 0; is_dir = true }))
unfolding stat
stat-subdir ds name d f = rw (stat, f) refl

stat-array :
    (t : Table FileMap) (base : RandomAccessFile) (name : Text) (m : FileMap) (size : ℕ)
    → find name t ≡ some m
    → file_size m ≡ done size
    → stat (array_dir t base) name ≡ ok (some (record { file_size = size; is_dir = false }))
unfolding stat
stat-array t base name m size f e = rw (stat, f, e) refl

dir_open-array :
    (dec : DecodeTriplet) (t : Table FileMap) (base : RandomAccessFile) (name : Text) (m : FileMap)
    → find name t ≡ some m
    → dir_open dec (array_dir t base) name ≡ ok (some (virtual_file dec m base))
unfolding dir_open
dir_open-array dec t base name m f = rw (dir_open, f) refl

pub lookup-subdir :
    (ds : Dirs) (name : Text) (d : Dir)
    → find_dir name ds ≡ some d
    → lookup (vtk_tree_dir ds) name ≡ ok dir
unfolding lookup
lookup-subdir ds name d f = rw (stat-subdir ds name d f) refl

pub get_dir-subdir :
    (ds : Dirs) (name : Text) (d : Dir)
    → find_dir name ds ≡ some d
    → get_dir (vtk_tree_dir ds) name ≡ ok (some d)
unfolding get_dir
get_dir-subdir ds name d f = rw f refl

pub resolve_path-one :
    (root : Dir) (path name : Text)
    → components path ≡ name ∷ []
    → resolve_path root (some (slash ∷ path)) ≡ ok (pos 0, root, name)
resolve_path-one root path name e = resolve_path-walk root path ∙ ap (walk root) e

pub resolve_path-two :
    (ds : Dirs) (path n name : Text) (d : Dir)
    → components path ≡ n ∷ name ∷ []
    → find_dir n ds ≡ some d
    → resolve_path (vtk_tree_dir ds) (some (slash ∷ path)) ≡ ok (pos 0, d, name)
resolve_path-two ds path n name d e f =
    resolve_path-walk (vtk_tree_dir ds) path
    ∙ ap (walk (vtk_tree_dir ds)) e
    ∙ rw (walk, lookup-subdir ds n d f, get_dir-subdir ds n d f) refl

file_size-total :
    (pending : Bool) (start : ℕ) (rs : List Region) (m : FileMap)
    → IsMap pending start rs m
    → file_size m ≡ done (total rs)
unfolding file_size
file_size-total pending start rs m is_map =
    rw
      (
        is_map.at_offsets,
        is_map.regions,
        ← length-starts 0 rs,
        get_elem?-append (starts 0 rs) (total rs) [],
      )
      refl

-- An answer whose length an int can hold is returned as it is.
pub read_reply-short :
    (bs : List ℕ) → length bs < 0x8000_0000 → read_reply (done bs) ≡ ok (pos (length bs), bs)
unfolding read_reply
read_reply-short bs h =
    rw (read_reply, to_u32_exact (length bs) (omega arith), lt→ltb (length bs) 0x8000_0000 h) refl

-- A Parquet file in a directory of arrays.
module _ (dec : DecodeTriplet) (base : RandomAccessFile) (pending : Bool) (start : ℕ) (m : FileMap)
    (rs : List Region) (data_bytes : List ℕ) (is_map : IsMap pending start rs m) (tree : VtkTree)
    (path n : Text) (c : ℕ) (name : Text) (t : Table FileMap)
    (is_path : components path ≡ n ∷ (c ∷ name) ∷ [])
    (is_dir : find_dir n tree.subdirs ≡ some (array_dir t base))
    (is_entry : find (c ∷ name) t ≡ some m) (inside : AllInside (length data_bytes) rs) where
  -- vtk_getattr on the path of an array's file answers with the attributes of the VTK file as a
  -- regular file, and with a size that is the number of bytes that the Parquet file has.
  pub vtk_getattr-array :
      (statbuf : StatBuf)
      → vtk_getattr tree (some (slash ∷ path)) statbuf
        ≡ ok (
          pos 0,
          record tree.base_statbuf {
            st_size = to_i64 (length (virtual data_bytes rs));
            st_mode = bit_or tree.base_statbuf.st_mode s_ifreg;
          },
        )
  unfolding vtk_getattr getattr_in
  vtk_getattr-array statbuf =
      let size : file_size m ≡ done (length (virtual data_bytes rs)) =
        file_size-total pending start rs m is_map
        ∙ ap done (sym (length-virtual data_bytes rs inside)) in
      rw (resolve_path-two tree.subdirs path n (c ∷ name) (array_dir t base) is_path is_dir) (
        rw
          (
            getattr_in,
            stat-array t base (c ∷ name) m (length (virtual data_bytes rs)) is_entry size,
          )
          refl)

  -- vtk_open for reading on the path of an array's file gives a handle on the array's VirtualFile. A
  -- vtk_read of less than 2^31 bytes on it, at any offset, returns exactly the bytes of the Parquet
  -- file from the offset on, and their number, 0 at its end. The base file may answer reads in parts.
  pub vtk_open-array :
      Serves (mapped_source dec pending start base) data_bytes
      → start + length data_bytes + 1 < u64_mod
      → total rs + length rs + 1 < u64_mod
      → (flags : ℕ) → bit_and flags 3 ≡ 0
      → (fh : Handle) (size off : ℕ) → size < 0x8000_0000
      → (vtk_open dec tree flags (some (slash ∷ path)) fh
          ≡ ok (pos 0, some (virtual_file dec m base)))
        × (vtk_read (some (virtual_file dec m base)) size (pos off)
            ≡ ok (
              pos (length (take size (drop off (virtual data_bytes rs)))),
              take size (drop off (virtual data_bytes rs)),
            ))
  unfolding vtk_open open_path open_in vtk_read
  vtk_open-array serves small fits flags read_only fh size off h =
      let found : lookup (array_dir t base) (c ∷ name) ≡ ok file =
        unfold lookup in
        rw
          (stat-array t base (c ∷ name) m (total rs) is_entry
            (file_size-total pending start rs m is_map))
          refl in
      (
        rw
            (
              read_only,
              resolve_path-two tree.subdirs path n (c ∷ name) (array_dir t base) is_path is_dir,
            )
            (rw (open_in, found, dir_open-array dec t base (c ∷ name) m is_entry) refl),
        unfold virtual_file in
            rw
              (
                vtk_read,
                pread_lem dec base pending start m rs data_bytes is_map serves small fits size off
                    inside (omega arith),
              )
              (read_reply-short (take size (drop off (virtual data_bytes rs)))
                (omega (arith, length-take size (drop off (virtual data_bytes rs))))),
      )
