-- ===== src/Fuse/Metadata.antt =====
-- The files of METADATA, from outside.
use lanl_vir_parquet.Prelude.{
  ℕ, ◌<◌, ◌≡◌, refl, false, [], ◌∷◌, some, arith, length, take, drop, length-take, bit_and, bit_or,
}
use lanl_vir_parquet.Prelude.Int.{pos, to_i64}
use lanl_vir_parquet.Prelude.Text.{Text}
use lanl_vir_parquet.Prelude.Table.{Table, find}
use lanl_vir_parquet.File.{string_buf_file}
use lanl_vir_parquet.File.Serves.{string_buf_file_lem}
use lanl_vir_parquet.Result.{ok}
use lanl_vir_parquet.Base64.{DecodeTriplet}
use lanl_vir_parquet.Vfs.{StatBuf, metadata_dir, VtkTree, find_dir, dir_open, stat}
use lanl_vir_parquet.Fuse.{
  slash, s_ifreg, lookup, file, getattr_in, vtk_getattr, Handle, open_in, open_path, vtk_open,
  vtk_read,
}
use lanl_vir_parquet.Fuse.Resolve.{components}
use lanl_vir_parquet.Fuse.Tree.{resolve_path-two, read_reply-short}

stat-metadata :
    (t : Table Text) (name v : Text)
    → find name t ≡ some v
    → stat (metadata_dir t) name ≡ ok (some (record { file_size = length v; is_dir = false }))
unfolding stat
stat-metadata t name v f = rw (stat, f) refl

dir_open-metadata :
    (dec : DecodeTriplet) (t : Table Text) (name v : Text)
    → find name t ≡ some v
    → dir_open dec (metadata_dir t) name ≡ ok (some (string_buf_file v))
unfolding dir_open
dir_open-metadata dec t name v f = rw (dir_open, f) refl

module _ (dec : DecodeTriplet) (tree : VtkTree) (path n : Text) (c : ℕ) (name v : Text)
    (t : Table Text) (is_path : components path ≡ n ∷ (c ∷ name) ∷ [])
    (is_dir : find_dir n tree.subdirs ≡ some (metadata_dir t))
    (is_entry : find (c ∷ name) t ≡ some v) where
  -- On the path of an attribute of the VTK file, vtk_getattr answers with a regular file of the length
  -- of the attribute's value. vtk_open for reading gives a handle on the value, and a vtk_read of less
  -- than 2^31 bytes on it returns exactly the bytes of the value from the offset on, and their number.
  pub vtk_open-metadata :
      (statbuf : StatBuf) (flags : ℕ)
      → bit_and flags 3 ≡ 0
      → (fh : Handle) (size off : ℕ) → size < 0x8000_0000
      → (vtk_getattr tree (some (slash ∷ path)) statbuf
          ≡ ok (
            pos 0,
            record tree.base_statbuf {
              st_size = to_i64 (length v);
              st_mode = bit_or tree.base_statbuf.st_mode s_ifreg;
            },
          ))
        × (vtk_open dec tree flags (some (slash ∷ path)) fh ≡ ok (pos 0, some (string_buf_file v)))
        × (vtk_read (some (string_buf_file v)) size (pos off)
            ≡ ok (pos (length (take size (drop off v))), take size (drop off v)))
  unfolding vtk_getattr getattr_in vtk_open open_path open_in vtk_read
  vtk_open-metadata statbuf flags read_only fh size off h =
      let r = resolve_path-two tree.subdirs path n (c ∷ name) (metadata_dir t) is_path is_dir in
      let found : lookup (metadata_dir t) (c ∷ name) ≡ ok file =
        unfold lookup in rw (stat-metadata t (c ∷ name) v is_entry) refl in
      (
        rw r (rw (getattr_in, stat-metadata t (c ∷ name) v is_entry) refl),
        rw (read_only, r) (rw (open_in, found, dir_open-metadata dec t (c ∷ name) v is_entry) refl),
        rw (vtk_read, string_buf_file_lem v size off)
            (read_reply-short (take size (drop off v))
              (omega (arith, length-take size (drop off v)))),
      )
