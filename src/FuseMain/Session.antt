-- ===== src/FuseMain/Session.antt =====
-- What holds in every state of a session.
use lanl_vir_parquet.Prelude.{
  ℕ, zero, suc, ◌≡◌, refl, subst, List, [], ◌∷◌, ◌++◌, false, Option, none, some, All, bit_and,
  ◌==◌,
}
use lanl_vir_parquet.Prelude.Int.{ℤ, pos, negsuc, neg, from_i64}
use lanl_vir_parquet.Prelude.Text.{Text}
use lanl_vir_parquet.Prelude.Table.{HashOrder}
use lanl_vir_parquet.File.{RandomAccessFile}
use lanl_vir_parquet.Result.{Result, ok, throw, ub, hang}
use lanl_vir_parquet.Result.Ensures.{Ensures, Ensures-if, Ensures-ok}
use lanl_vir_parquet.Base64.{DecodeTriplet}
use lanl_vir_parquet.BuildMap.{Serializer}
use lanl_vir_parquet.Parser.{XmlDataElement, XmlReader, OsOpen, parse_vtk_file}
use lanl_vir_parquet.Parser.Sized.{parse_vtk_file-IsSized}
use lanl_vir_parquet.Vfs.{StatBuf, Dir, VtkTree, as_dir}
use lanl_vir_parquet.Fuse.{
  Handle, Resolved, resolved, lookup, eperm, open_in, open_path, vtk_open, vtk_read,
  vtk_init_tree_int, read_reply,
}
use lanl_vir_parquet.Fuse.Total.{
  IsSized, no_entry, directory, regular, entry, resolve_path-Returns, Returns, operations-Returns,
}
use lanl_vir_parquet.FuseMain.{
  FsConf, fs_init_tree, fs_oper, FuseState, Step, call_getattr, call_readdir, call_open,
  failed_open, call_read, call_flush, call_release, Reached, started, stepped,
}

-- If an operation has opened a file, it has given a handle that is not null.
abbrev IsOpened : ℤ × Handle → Type 0
IsOpened (pos zero, none) = ⊥
IsOpened (r, fh) = Unit

abbrev IsFile : Handle → Type 0
IsFile none = ⊥
IsFile (some f) = Unit

module _ (dec : DecodeTriplet) where
  open_in-IsOpened :
      (d : Dir) (name : Text) (fh : Handle) → IsSized d → Ensures IsOpened (open_in dec d name fh)
  unfolding open_in lookup Ensures
  open_in-IsOpened d [] fh h = tt
  open_in-IsOpened d (c ∷ name) fh h = elim (entry dec (c ∷ name) d h) [
    | no_entry e ↦ rw (open_in, lookup, e) tt
    | directory sub e g k ↦ rw (open_in, lookup, e) tt
    | regular n f e o ↦ rw (open_in, lookup, e, o) tt
  ]

  resolved-IsOpened :
      (r : Resolved) (fh : Handle)
      → IsSized r.1
      → Ensures IsOpened (resolved r fh λ parent name. open_in dec parent name fh)
  unfolding Ensures
  resolved-IsOpened (pos zero, d, name) fh h = open_in-IsOpened d name fh h
  resolved-IsOpened (pos (suc n), d, name) fh h = tt
  resolved-IsOpened (negsuc n, d, name) fh h = tt

  open_path-IsOpened :
      (tree : VtkTree) (path : Option Text) (fh : Handle)
      → IsSized (as_dir tree)
      → Ensures IsOpened (open_path dec tree path fh)
  unfolding open_path
  open_path-IsOpened tree path fh h =
      let r = resolve_path-Returns dec (as_dir tree) path h in
      rw (open_path, r.1) (resolved-IsOpened r.0 fh r.2)

  vtk_open-IsOpened :
      (tree : VtkTree) (flags : ℕ) (path : Option Text) (fh : Handle)
      → IsSized (as_dir tree)
      → Ensures IsOpened (vtk_open dec tree flags path fh)
  unfolding vtk_open Ensures
  vtk_open-IsOpened tree flags path fh h =
      Ensures-if IsOpened (bit_and flags 3 == 0) (open_path dec tree path fh) (ok (neg eperm, fh))
        (open_path-IsOpened tree path fh h) tt

opened-IsFile : (h : Handle) → IsOpened (pos 0, h) → IsFile h
opened-IsFile none k = k
opened-IsFile (some f) k = tt

All-append : (xs ys : List Handle) → All IsFile xs → All IsFile ys → All IsFile (xs ++ ys)
All-append [] ys h k = k
All-append (x ∷ xs) ys h k = (h.0, All-append xs ys h.1 k)

All-split : (xs ys : List Handle) → All IsFile (xs ++ ys) → All IsFile xs × All IsFile ys
All-split [] ys h = (tt, h)
All-split (x ∷ xs) ys h = let r = All-split xs ys h.1 in ((h.0, r.0), r.1)

file_of :
    (h : Handle) (size : ℕ) (off : ℤ)
    → IsFile h
    → (f : RandomAccessFile) × (h ≡ some f)
      × (vtk_read h size off ≡ read_reply (f size (from_i64 off)))
unfolding vtk_read
file_of none size off k = absurd k
file_of (some f) size off k = (f, refl, refl)

made_tree : (r : Result VtkTree) (t : VtkTree) → vtk_init_tree_int r ≡ ok (some t, false) → r ≡ ok t
unfolding vtk_init_tree_int
made_tree (ok tree) t e = cc
made_tree (throw x) t e = cc
made_tree ub t e = cc
made_tree hang t e = cc

module _ (E : Type 0) (xml : XmlDataElement E)
    (update_information : Text → Text → Option (XmlReader E)) (os_open : OsOpen)
    (dec : DecodeTriplet) (serialize : Serializer) (order : HashOrder) where
  -- in every state the maps of the tree have sizes, and each handle is that of a file
  abbrev IsGood : FuseState E xml update_information os_open dec serialize order → Type 0
  IsGood s = IsSized (as_dir s.tree) × All IsFile s.handles

  init-IsSized :
      (name : Option Text) (t : VtkTree)
      → fs_init_tree E xml update_information os_open dec serialize order
          (record { underlying_file = name })
        ≡ ok (some t, false)
      → IsSized (as_dir t)
  unfolding fs_init_tree
  init-IsSized none t e = cc
  init-IsSized (some fname) t e =
      parse_vtk_file-IsSized E xml update_information os_open dec serialize fname t
        (made_tree (parse_vtk_file E xml update_information os_open dec serialize fname) t e)

  Step-IsGood :
      {s t : FuseState E xml update_information os_open dec serialize order}
      → Step E xml update_information os_open dec serialize order s t
      → IsGood s
      → IsGood t
  unfolding fs_oper
  Step-IsGood (call_getattr s path buf) g = g
  Step-IsGood (call_readdir s path filled) g = g
  Step-IsGood (call_open s flags path fh h e) g = (
    g.0,
    (
      opened-IsFile h (
          Ensures-ok IsOpened (vtk_open dec s.tree flags path fh) (pos 0, h)
            (vtk_open-IsOpened dec s.tree flags path fh g.0) e),
      g.1,
    ),
  )
  Step-IsGood (failed_open s flags path fh) g = g
  Step-IsGood (call_read s before after h size off e) g = g
  Step-IsGood (call_flush s) g = g
  Step-IsGood (call_release s before after h e) g =
      let r = All-split before (h ∷ after) (subst (All IsFile) e g.1) in
      (g.0, All-append before after r.0 r.1.1)

  Reached-IsGood :
      {conf : FsConf} {s : FuseState E xml update_information os_open dec serialize order}
      → Reached E xml update_information os_open dec serialize order conf s
      → IsGood s
  unfolding fs_oper
  Reached-IsGood {conf = conf} (started t e) = (init-IsSized conf.underlying_file t e, tt)
  Reached-IsGood (stepped r st) = Step-IsGood st (Reached-IsGood r)

  -- In every state that a session on a VTK file reaches, whatever has been called before, the callbacks
  -- getattr, readdir and open return on any path and with any flags: they throw no exception, use no
  -- null pointer and do not run for ever.
  pub session-Returns :
      (conf : FsConf) (s : FuseState E xml update_information os_open dec serialize order)
      → Reached E xml update_information os_open dec serialize order conf s
      → (path : Option Text) (buf : StatBuf) (filled : List Text) (flags : ℕ) (fh : Handle)
      → Returns dec (
          (fs_oper E xml update_information os_open dec serialize order).op_getattr s.tree path buf)
        × Returns dec (
            (fs_oper E xml update_information os_open dec serialize order).op_readdir s.tree path
              filled)
        × Returns dec (
            (fs_oper E xml update_information os_open dec serialize order).op_open s.tree flags path
              fh)
  unfolding fs_oper
  session-Returns conf s r path buf filled flags fh =
      operations-Returns dec order s.tree (Reached-IsGood r).0 path buf filled flags fh

  -- In every state that a session reaches, each handle that is open is a pointer to a file and not
  -- null, so the callback read on it comes to the file's Pread.
  pub session-read :
      (conf : FsConf) (s : FuseState E xml update_information os_open dec serialize order)
      → Reached E xml update_information os_open dec serialize order conf s
      → (before after : List Handle) (h : Handle) (size : ℕ) (off : ℤ)
      → s.handles ≡ before ++ h ∷ after
      → (f : RandomAccessFile) × (h ≡ some f)
        × ((fs_oper E xml update_information os_open dec serialize order).op_read h size off
            ≡ read_reply (f size (from_i64 off)))
  unfolding fs_oper vtk_read
  session-read conf s r before after h size off e =
      let g = subst (All IsFile) e (Reached-IsGood r).1 in
      file_of h size off (All-split before (h ∷ after) g).1.0
