-- ===== src/Fuse/Total.antt =====
-- What c.cc says of a tree that has been made: from then on no exception is thrown. Here: on any path
-- an operation returns, with no exception, no null pointer and no loop without end.
use lanl_vir_parquet.Prelude.{
  ℕ, zero, suc, ◌≡◌, refl, sym, ◌∙◌, subst, List, [], ◌∷◌, ◌++◌, Bool, true, false, Option, none,
  some, ◌==◌, if◌then◌else◌, inl, inr, Bool-cases, ==→eq, length, IfSome, bit_or, bit_and,
}
use lanl_vir_parquet.Prelude.Int.{ℤ, pos, negsuc, neg, to_i64}
use lanl_vir_parquet.Prelude.Text.{Text, text_eq}
use lanl_vir_parquet.Prelude.Table.{HashOrder, Table, find}
use lanl_vir_parquet.File.{RandomAccessFile, string_buf_file}
use lanl_vir_parquet.Result.{Result, ok, ◌>>=◌}
use lanl_vir_parquet.Base64.{DecodeTriplet}
use lanl_vir_parquet.FMap.{FileMap}
use lanl_vir_parquet.FMap.Size.{HasSize}
use lanl_vir_parquet.Vfs.{
  StatBuf, Dir, metadata_dir, array_dir, vtk_tree_dir, Dirs, no_dirs, add_dir, VtkTree, as_dir,
  find_dir, dir_open, get_dir, stat, virtual_file,
}
use lanl_vir_parquet.Fuse.{
  slash, enoent, enotdir, eisdir, einval, eperm, s_ifreg, make_dir_mode, lookup, resolve_path,
  Resolved, resolved, getattr_in, vtk_getattr, readdir_in, vtk_readdir, Handle, open_in, open_path,
  vtk_open,
}
use lanl_vir_parquet.Fuse.Resolve.{components, walk, enter, resolve_path-walk}
use lanl_vir_parquet.Fuse.Tree.{entries, readdir-entries}

abbrev pub HaveSizes : Table FileMap → Type 0
HaveSizes [] = Unit
HaveSizes ((k, m) ∷ t) = HasSize m × HaveSizes t

-- Every map in the directory, and below it, has a size.
abbrev mutual
  pub IsSized : Dir → Type 0
  IsSized (metadata_dir t) = Unit
  IsSized (array_dir t base) = HaveSizes t
  IsSized (vtk_tree_dir ds) = AllSized ds

  pub AllSized : Dirs → Type 0
  AllSized no_dirs = Unit
  AllSized (add_dir k d ds) = IsSized d × AllSized ds

-- What a directory has under a name, and what it then answers.
module _ (dec : DecodeTriplet) (d : Dir) (name : Text) where
  pub data Entry : Type 0 where
    no_entry : stat d name ≡ ok none → Entry
    directory :
        (sub : Dir)
        → stat d name ≡ ok (some (record { file_size = 0; is_dir = true }))
        → get_dir d name ≡ ok (some sub)
        → IsSized sub
        → Entry
    regular :
        (n : ℕ) (f : RandomAccessFile)
        → stat d name ≡ ok (some (record { file_size = n; is_dir = false }))
        → dir_open dec d name ≡ ok (some f)
        → Entry

pub if_both :
    {A : Type 0} (P : A → Type 0) (b : Bool) (x y : A) → P x → P y → P (if b then x else y)
if_both P true x y h k = h
if_both P false x y h k = k

find-HasSize : (t : Table FileMap) (name : Text) → HaveSizes t → IfSome HasSize (find name t)
unfolding find
find-HasSize [] name h = tt
find-HasSize ((k, m) ∷ t) name h =
    if_both (IfSome HasSize) (text_eq k name) (some m) (find name t) h.0 (find-HasSize t name h.1)

find_dir-IsSized : (ds : Dirs) (name : Text) → AllSized ds → IfSome IsSized (find_dir name ds)
unfolding find_dir
find_dir-IsSized no_dirs name h = tt
find_dir-IsSized (add_dir k d ds) name h =
    if_both (IfSome IsSized) (text_eq k name) (some d) (find_dir name ds) h.0
      (find_dir-IsSized ds name h.1)

module _ (dec : DecodeTriplet) (name : Text) where
  metadata-Entry :
      (t : Table Text) (o : Option Text) → find name t ≡ o → Entry dec (metadata_dir t) name
  unfolding stat dir_open
  metadata-Entry t none e = no_entry (rw (stat, e) refl)
  metadata-Entry t (some x) e =
      regular (length x) (string_buf_file x) (rw (stat, e) refl) (rw (dir_open, e) refl)

  array-Entry :
      (t : Table FileMap) (base : RandomAccessFile) (o : Option FileMap)
      → find name t ≡ o
      → IfSome HasSize o
      → Entry dec (array_dir t base) name
  unfolding stat dir_open
  array-Entry t base none e h = no_entry (rw (stat, e) refl)
  array-Entry t base (some m) e h =
      regular h.0 (virtual_file dec m base) (rw (stat, e, h.1) refl) (rw (dir_open, e) refl)

  subdir-Entry :
      (ds : Dirs) (o : Option Dir)
      → find_dir name ds ≡ o
      → IfSome IsSized o
      → Entry dec (vtk_tree_dir ds) name
  unfolding stat get_dir
  subdir-Entry ds none e h = no_entry (rw (stat, e) refl)
  subdir-Entry ds (some d) e h = directory d (rw (stat, e) refl) (rw (get_dir, e) refl) h

  pub entry : (d : Dir) → IsSized d → Entry dec d name
  entry (metadata_dir t) h = metadata-Entry t (find name t) refl
  entry (array_dir t base) h = array-Entry t base (find name t) refl (find-HasSize t name h)
  entry (vtk_tree_dir ds) h = subdir-Entry ds (find_dir name ds) refl (find_dir-IsSized ds name h)

module _ (dec : DecodeTriplet) where
  -- The operation returns.
  abbrev pub Returns : {A : Type 0} → Result A → Type 0
  Returns {A = A} r = (a : A) × (r ≡ ok a)

  enter-Returns :
      (d : Dir) (n : Text) (f : Dir → Result Resolved)
      → IsSized d
      → Entry dec d n
      → ((sub : Dir) → IsSized sub → (r : Resolved) × (f sub ≡ ok r) × IsSized r.1)
      → (r : Resolved) × (enter d n f ≡ ok r) × IsSized r.1
  unfolding lookup
  enter-Returns d n f h (no_entry e) go = ((neg enoent, d, n), rw e refl, h)
  enter-Returns d n f h (directory sub e g k) go = let r = go sub k in (r.0, rw (e, g) r.1, r.2)
  enter-Returns d n f h (regular k file e o) go = ((neg enotdir, d, n), rw e refl, h)

  walk-Returns :
      (d : Dir) (cs : List Text) → IsSized d → (r : Resolved) × (walk d cs ≡ ok r) × IsSized r.1
  walk-Returns d [] h = ((pos 0, d, []), refl, h)
  walk-Returns d (n ∷ []) h = ((pos 0, d, n), refl, h)
  walk-Returns d (n ∷ m ∷ ns) h =
      enter-Returns d n (λ sub. walk sub (m ∷ ns)) h (entry dec n d h)
        (λ sub k. walk-Returns sub (m ∷ ns) k)

  pub resolve_path-Returns :
      (root : Dir) (path : Option Text)
      → IsSized root
      → (r : Resolved) × (resolve_path root path ≡ ok r) × IsSized r.1
  unfolding resolve_path
  resolve_path-Returns root none h = ((neg einval, root, []), refl, h)
  resolve_path-Returns root (some []) h = ((neg einval, root, []), refl, h)
  resolve_path-Returns root (some (c ∷ path)) h = elim (Bool-cases (c == slash)) [
    | inl here ↦
        let w = walk-Returns root (components path) h in
        (
          w.0,
          subst (λ k. resolve_path root (some (k ∷ path)) ≡ ok w.0) (sym (==→eq c slash here))
              (resolve_path-walk root path ∙ w.1),
          w.2,
        )
    | inr other ↦ ((neg einval, root, []), rw (resolve_path, other) refl, h)
  ]

  resolved-Returns :
      {A : Type 0} (r : Resolved) (a : A) (f : Dir → Text → Result (ℤ × A))
      → IsSized r.1
      → ((d : Dir) (name : Text) → IsSized d → Returns (f d name))
      → Returns (resolved r a f)
  resolved-Returns (pos zero, d, name) a f h go = go d name h
  resolved-Returns (pos (suc n), d, name) a f h go = ((pos (suc n), a), refl)
  resolved-Returns (negsuc n, d, name) a f h go = ((negsuc n, a), refl)

  at_path :
      {A : Type 0} (root : Dir) (path : Option Text) (a : A) (f : Dir → Text → Result (ℤ × A))
      → IsSized root
      → ((d : Dir) (name : Text) → IsSized d → Returns (f d name))
      → Returns (resolve_path root path >>= λ r. resolved r a f)
  at_path root path a f h go =
      let r = resolve_path-Returns root path h in
      let s = resolved-Returns r.0 a f r.2 go in (s.0, rw r.1 s.1)

  getattr_in-Returns :
      (buf : StatBuf) (d : Dir) (name : Text) → IsSized d → Returns (getattr_in d name buf)
  unfolding getattr_in
  getattr_in-Returns buf d [] h = (_, refl)
  getattr_in-Returns buf d (c ∷ name) h = elim (entry dec (c ∷ name) d h) [
    | no_entry e ↦ ((neg enoent, buf), rw (getattr_in, e) refl)
    | directory sub e g k ↦
        ((pos 0, record buf { st_mode = make_dir_mode buf.st_mode }), rw (getattr_in, e) refl)
    | regular n f e o ↦ (
      (pos 0, record buf { st_size = to_i64 n; st_mode = bit_or buf.st_mode s_ifreg }),
      rw (getattr_in, e) refl,
    )
  ]

  readdir_in-Returns :
      (order : HashOrder) (filled : List Text) (d : Dir) (name : Text)
      → IsSized d
      → Returns (readdir_in order d name filled)
  unfolding readdir_in lookup
  readdir_in-Returns order filled d [] h =
      ((pos 0, filled ++ entries order d), readdir-entries order d filled)
  readdir_in-Returns order filled d (c ∷ name) h = elim (entry dec (c ∷ name) d h) [
    | no_entry e ↦ ((neg enoent, filled), rw (readdir_in, lookup, e) refl)
    | directory sub e g k ↦ (
      (pos 0, filled ++ entries order sub),
      rw (readdir_in, lookup, e, g) (readdir-entries order sub filled),
    )
    | regular n f e o ↦ ((neg enotdir, filled), rw (readdir_in, lookup, e) refl)
  ]

  open_in-Returns :
      (fh : Handle) (d : Dir) (name : Text) → IsSized d → Returns (open_in dec d name fh)
  unfolding open_in lookup
  open_in-Returns fh d [] h = ((neg eisdir, fh), refl)
  open_in-Returns fh d (c ∷ name) h = elim (entry dec (c ∷ name) d h) [
    | no_entry e ↦ ((neg enoent, fh), rw (open_in, lookup, e) refl)
    | directory sub e g k ↦ ((neg eisdir, fh), rw (open_in, lookup, e) refl)
    | regular n f e o ↦ ((pos 0, some f), rw (open_in, lookup, e, o) refl)
  ]

  open_path-Returns :
      (tree : VtkTree) (path : Option Text) (fh : Handle)
      → IsSized (as_dir tree)
      → Returns (open_path dec tree path fh)
  unfolding open_path
  open_path-Returns tree path fh h =
      at_path (as_dir tree) path fh (λ d name. open_in dec d name fh) h (open_in-Returns fh)

  vtk_open-Returns :
      (tree : VtkTree) (flags : ℕ) (path : Option Text) (fh : Handle)
      → IsSized (as_dir tree)
      → Returns (vtk_open dec tree flags path fh)
  unfolding vtk_open
  vtk_open-Returns tree flags path fh h =
      if_both Returns (bit_and flags 3 == 0) (open_path dec tree path fh) (ok (neg eperm, fh))
        (open_path-Returns tree path fh h) ((neg eperm, fh), refl)

  -- Once each map in a tree has a size, vtk_getattr, vtk_readdir and vtk_open return on every path,
  -- well-formed or not, and with every flag: no exception, no null pointer, no endless loop.
  pub operations-Returns :
      (order : HashOrder) (tree : VtkTree)
      → IsSized (as_dir tree)
      → (path : Option Text) (buf : StatBuf) (filled : List Text) (flags : ℕ) (fh : Handle)
      → Returns (vtk_getattr tree path buf)
        × Returns (vtk_readdir order tree path filled)
        × Returns (vtk_open dec tree flags path fh)
  unfolding vtk_getattr vtk_readdir
  operations-Returns order tree h path buf filled flags fh = (
    at_path (as_dir tree) path buf (λ d name. getattr_in d name tree.base_statbuf) h
        (getattr_in-Returns tree.base_statbuf),
    at_path (as_dir tree) path filled (λ d name. readdir_in order d name filled) h
        (readdir_in-Returns order filled),
    vtk_open-Returns tree flags path fh h,
  )
