-- ===== src/Fuse.antt =====
-- c.cc: the operations that FUSE calls. An operation returns the source's `int`, beside what it
-- leaves in the objects that it gets. Error codes are those of Linux. The bytes of a path are those
-- before its terminating NUL.
pub mod Resolve
pub mod Tree
pub mod Listing
pub mod Metadata
pub mod Bypass
pub mod Total
use lanl_vir_parquet.Prelude.{
  ℕ, zero, suc, ◌+◌, List, [], ◌∷◌, ◌++◌, Bool, true, false, Option, none, some, ◌==◌, length,
  if◌then◌else◌, bit_and, bit_or, to_u32,
}
use lanl_vir_parquet.Prelude.Int.{ℤ, pos, negsuc, neg, to_i32, to_i64, from_i64}
use lanl_vir_parquet.Prelude.Text.{Text}
use lanl_vir_parquet.Prelude.Table.{HashOrder}
use lanl_vir_parquet.File.{Outcome, done, failed, undefined, diverged, RandomAccessFile}
use lanl_vir_parquet.Result.{Result, ok, throw, ub, hang, ◌>>=◌}
use lanl_vir_parquet.Base64.{DecodeTriplet}
use lanl_vir_parquet.Vfs.{
  FileStat, StatBuf, Dir, VtkTree, as_dir, KeyIter, dir_open, get_dir, stat, new_iter, valid, value,
  next, seek_to_first,
}

abbrev pub eperm : ℕ
eperm = 1

abbrev pub enoent : ℕ
enoent = 2

abbrev pub eio : ℕ
eio = 5

abbrev pub enotdir : ℕ
enotdir = 20

abbrev pub eisdir : ℕ
eisdir = 21

abbrev pub einval : ℕ
einval = 22

-- '/'
abbrev pub slash : ℕ
slash = 47

abbrev pub s_ifdir : ℕ
s_ifdir = 16384

abbrev pub s_ifreg : ℕ
s_ifreg = 32768

pub data LookupRes : Type 0 where
  dir file notfound : LookupRes

unfoldable pub lookup : Dir → Text → Result LookupRes
lookup d name = stat d name >>= λ s. elim s [
  | none ↦ ok notfound
  | some st ↦ ok (if st.is_dir then dir else file)
]

-- a call on a pointer, which is undefined on the null pointer
abbrev pub deref : {A : Type 0} → Option A → Result A
deref none = ub
deref (some a) = ok a

-- `while (*p == '/') ++p;`
unfoldable pub skip_slashes : Text → Text
skip_slashes [] = []
skip_slashes (c ∷ p) = if c == slash then skip_slashes p else c ∷ p

-- `while (*p && *p != '/') ++p;`: the component, and `p` behind it
unfoldable pub component : Text → Text × Text
component [] = ([], [])
component (c ∷ p) = if c == slash then ([], c ∷ p) else (c ∷ (component p).0, (component p).1)

-- what ResolvePath returns and leaves in `*parent` and `*name`
abbrev pub Resolved : Type 0
Resolved = ℤ × Dir × Text

-- The loop of ResolvePath from `p` on, which is shorter after each round.
unfoldable pub resolve_loop : ℕ → Dir → Text → Result Resolved
unfolding lookup component skip_slashes
resolve_loop zero parent p = hang
resolve_loop (suc fuel) parent p =
    let part = component p in
    elim (skip_slashes part.1) [
      | [] ↦ ok (pos 0, parent, part.0)
      | c ∷ rest ↦ lookup parent part.0 >>= λ r. elim r [
        | dir ↦ get_dir parent part.0 >>= λ d. deref d >>= λ sub. resolve_loop fuel sub (c ∷ rest)
        | file ↦ ok (neg enotdir, parent, part.0)
        | notfound ↦ ok (neg enoent, parent, part.0)
      ]
    ]

-- ResolvePath, with the root in `*parent` and no name in `*name` before, as all callers have it
unfoldable pub resolve_path : Dir → Option Text → Result Resolved
unfolding resolve_loop
resolve_path root none = ok (neg einval, root, [])
resolve_path root (some []) = ok (neg einval, root, [])
resolve_path root (some (c ∷ path)) =
    if c == slash
    then elim (skip_slashes (c ∷ path)) [
      | [] ↦ ok (pos 0, root, [])
      | d ∷ p ↦ resolve_loop (length (d ∷ p)) root (d ∷ p)
    ]
    else ok (neg einval, root, [])

-- `if (mode & from) new_mode |= to;`
abbrev pub grant : (mode from to new_mode : ℕ) → ℕ
grant mode from to new_mode = if bit_and mode from == 0 then new_mode else bit_or new_mode to

unfoldable pub make_dir_mode : ℕ → ℕ
make_dir_mode mode = grant mode 4 5 (grant mode 32 40 (grant mode 256 320 s_ifdir))

-- Getattr on the parent directory
unfoldable pub getattr_in : Dir → Text → StatBuf → Result (ℤ × StatBuf)
unfolding make_dir_mode
getattr_in parent [] statbuf =
    ok (pos 0, record statbuf { st_mode = make_dir_mode statbuf.st_mode })
getattr_in parent (c ∷ name) statbuf = stat parent (c ∷ name) >>= λ s. elim s [
  | none ↦ ok (neg enoent, statbuf)
  | some st ↦ ok (
    pos 0,
    if st.is_dir
        then record statbuf { st_mode = make_dir_mode statbuf.st_mode }
        else record statbuf {
          st_size = to_i64 st.file_size;
          st_mode = bit_or statbuf.st_mode s_ifreg;
        },
  )
]

-- Goes on with the parent and the name if ResolvePath returned 0.
abbrev pub resolved : {A : Type 0} → Resolved → A → (Dir → Text → Result (ℤ × A)) → Result (ℤ × A)
resolved (pos zero, parent, name) a f = f parent name
resolved (r, parent, name) a f = ok (r, a)

-- Getattr on the tree, and so vtk_getattr
unfoldable pub vtk_getattr : VtkTree → Option Text → StatBuf → Result (ℤ × StatBuf)
unfolding resolve_path getattr_in
vtk_getattr tree path statbuf = resolve_path (as_dir tree) path >>= λ r.
    resolved r statbuf λ parent name. getattr_in parent name tree.base_statbuf

-- `while (it->Valid())`, with the names that the filler has got
unfoldable pub readdir_loop : ℕ → KeyIter → List Text → Result (ℤ × List Text)
readdir_loop zero it filled = hang
readdir_loop (suc fuel) it filled = elim (valid it) [
  | false ↦ ok (pos 0, filled)
  | true ↦ value it >>= λ k. next it >>= λ it'. readdir_loop fuel it' (filled ++ k ∷ [])
]

-- Readdir on a directory. There is a round for each of its keys.
unfoldable pub readdir : HashOrder → Dir → List Text → Result (ℤ × List Text)
unfolding readdir_loop
readdir order d filled =
    let it = seek_to_first (new_iter order d) in readdir_loop (suc (length it.it)) it filled

unfoldable pub readdir_in : HashOrder → Dir → Text → List Text → Result (ℤ × List Text)
unfolding readdir lookup
readdir_in order parent [] filled = readdir order parent filled
readdir_in order parent (c ∷ name) filled = lookup parent (c ∷ name) >>= λ r. elim r [
  | dir ↦ get_dir parent (c ∷ name) >>= λ d. deref d >>= λ sub. readdir order sub filled
  | file ↦ ok (neg enotdir, filled)
  | notfound ↦ ok (neg enoent, filled)
]

unfoldable pub vtk_readdir : HashOrder → VtkTree → Option Text → List Text → Result (ℤ × List Text)
unfolding resolve_path readdir_in
vtk_readdir order tree path filled = resolve_path (as_dir tree) path >>= λ r.
    resolved r filled λ parent name. readdir_in order parent name filled

-- `fi->fh`: a pointer to a file
abbrev pub Handle : Type 0
Handle = Option RandomAccessFile

module _ (decode_triplet : DecodeTriplet) where
  -- Open on the parent directory
  unfoldable pub open_in : Dir → Text → Handle → Result (ℤ × Handle)
  unfolding lookup
  open_in parent [] fh = ok (neg eisdir, fh)
  open_in parent (c ∷ name) fh = lookup parent (c ∷ name) >>= λ r. elim r [
    | dir ↦ ok (neg eisdir, fh)
    | file ↦ dir_open decode_triplet parent (c ∷ name) >>= λ f. ok (pos 0, f)
    | notfound ↦ ok (neg enoent, fh)
  ]

  -- Open on the tree
  unfoldable pub open_path : VtkTree → Option Text → Handle → Result (ℤ × Handle)
  unfolding resolve_path open_in
  open_path tree path fh =
      resolve_path (as_dir tree) path >>= λ r. resolved r fh λ parent name. open_in parent name fh

  -- vtk_open: O_ACCMODE is 3 and O_RDONLY is 0
  unfoldable pub vtk_open : VtkTree → (flags : ℕ) → Option Text → Handle → Result (ℤ × Handle)
  unfolding open_path
  vtk_open tree flags path fh =
      if bit_and flags 3 == 0 then open_path tree path fh else ok (neg eperm, fh)

-- `int nr = …` of the int64_t that Pread returns, with the bytes that it has written
unfoldable pub read_reply : Outcome (List ℕ) → Result (ℤ × List ℕ)
read_reply (done bs) = elim (to_i32 (to_u32 (length bs))) [
  | negsuc zero ↦ ok (neg eio, bs)
  | nr ↦ ok (nr, bs)
]
read_reply failed = ok (neg eio, [])
read_reply undefined = ub
read_reply diverged = hang

-- Read, and so vtk_read
unfoldable pub vtk_read : Handle → (size : ℕ) → (off : ℤ) → Result (ℤ × List ℕ)
unfolding read_reply
vtk_read fh size off = deref fh >>= λ f. read_reply (f size (from_i64 off))

-- vtk_flush
unfoldable pub vtk_flush : ℤ
vtk_flush = pos 0

-- Release, and so vtk_release, which deletes the file: a handle that is gone is the null pointer
unfoldable pub vtk_release : Handle → ℤ × Handle
vtk_release fh = (pos 0, none)

-- vtk_init_tree_int on what ParseVtkFile does: the tree or the null pointer, and whether it stops the
-- FUSE session. Every exception of the program is a std::exception.
unfoldable pub vtk_init_tree_int : Result VtkTree → Result (Option VtkTree × Bool)
vtk_init_tree_int (ok tree) = ok (some tree, false)
vtk_init_tree_int (throw e) = ok (none, true)
vtk_init_tree_int ub = ub
vtk_init_tree_int hang = hang
