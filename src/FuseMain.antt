-- ===== src/FuseMain.antt =====
-- fuse_main.c: the program around the callbacks, and a session in which FUSE calls them. The options'
-- parser and the main loop of FUSE are parameters.
pub mod Session
use lanl_vir_parquet.Prelude.{ℕ, List, [], ◌∷◌, ◌++◌, Bool, true, false, Option, none, some, ◌≡◌}
use lanl_vir_parquet.Prelude.Int.{ℤ, pos, negsuc}
use lanl_vir_parquet.Prelude.Text.{Text}
use lanl_vir_parquet.Prelude.Table.{HashOrder}
use lanl_vir_parquet.Result.{Result, ok, ub}
use lanl_vir_parquet.Base64.{DecodeTriplet}
use lanl_vir_parquet.BuildMap.{Serializer}
use lanl_vir_parquet.Parser.{XmlDataElement, XmlReader, OsOpen, parse_vtk_file}
use lanl_vir_parquet.Vfs.{StatBuf, VtkTree}
use lanl_vir_parquet.Fuse.{
  Handle, vtk_getattr, vtk_readdir, vtk_open, vtk_read, vtk_flush, vtk_release, vtk_init_tree_int,
}
use lanl_vir_parquet.Fuse.Bypass.{destroy_tree}

-- `struct fs_conf`; a null pointer is `none`
pub record FsConf : Type 0 where
  pub underlying_file : Option Text

-- `struct fuse_operations` by the callbacks that are set
pub record FuseOperations : Type 0 where
  pub op_getattr : VtkTree → Option Text → StatBuf → Result (ℤ × StatBuf)
  pub op_open : VtkTree → (flags : ℕ) → Option Text → Handle → Result (ℤ × Handle)
  pub op_read : Handle → (size : ℕ) → (off : ℤ) → Result (ℤ × List ℕ)
  pub op_flush : ℤ
  pub op_release : Handle → ℤ × Handle
  pub op_readdir : VtkTree → Option Text → List Text → Result (ℤ × List Text)
  pub op_init : FsConf → Result (Option VtkTree × Bool)
  pub op_destroy : Option VtkTree → Option VtkTree

module _ (E : Type 0) (xml : XmlDataElement E)
    (update_information : Text → Text → Option (XmlReader E)) (os_open : OsOpen)
    (decode_triplet : DecodeTriplet) (serialize : Serializer) (order : HashOrder) where
  -- without a name the length of a null pointer is asked for
  unfoldable pub fs_init_tree : FsConf → Result (Option VtkTree × Bool)
  unfolding vtk_init_tree_int parse_vtk_file
  fs_init_tree conf = elim conf.underlying_file [
    | none ↦ ub
    | some fname ↦
        vtk_init_tree_int
          (parse_vtk_file E xml update_information os_open decode_triplet serialize fname)
  ]

  unfoldable pub fs_oper : FuseOperations
  unfolding fs_init_tree vtk_getattr vtk_readdir vtk_open vtk_read vtk_flush vtk_release
      destroy_tree
  fs_oper = record {
    op_getattr = vtk_getattr;
    op_open = vtk_open decode_triplet;
    op_read = vtk_read;
    op_flush = vtk_flush;
    op_release = vtk_release;
    op_readdir = vtk_readdir order;
    op_init = fs_init_tree;
    op_destroy = destroy_tree;
  }

  -- main: what fuse_opt_parse leaves in `g_conf`, and fuse_main by its result on the callbacks
  unfoldable pub fuse_program :
      (fuse_opt_parse : List Text → FsConf) (fuse_main : FsConf → FuseOperations → ℤ)
      (argv : List Text)
      → ℤ
  unfolding fs_oper
  fuse_program fuse_opt_parse fuse_main argv =
      let conf = fuse_opt_parse argv in
      elim conf.underlying_file [ none ↦ pos 1 | some file ↦ fuse_main conf fs_oper ]

  -- What FUSE keeps: the tree as its private data, and `fh` of each file that is open.
  pub record FuseState : Type 0 where
    pub tree : VtkTree
    pub handles : List Handle

  -- A call that FUSE makes. It reads, flushes and releases only what a call of open has opened.
  pub data Step : FuseState → FuseState → Type 0 where
    call_getattr : (s : FuseState) (path : Option Text) (buf : StatBuf) → Step s s
    call_readdir : (s : FuseState) (path : Option Text) (filled : List Text) → Step s s
    call_open :
        (s : FuseState) (flags : ℕ) (path : Option Text) (fh h : Handle)
        → fs_oper.op_open s.tree flags path fh ≡ ok (pos 0, h)
        → Step s (record s { handles = h ∷ s.handles })
    failed_open : (s : FuseState) (flags : ℕ) (path : Option Text) (fh : Handle) → Step s s
    call_read :
        (s : FuseState) (before after : List Handle) (h : Handle) (size : ℕ) (off : ℤ)
        → s.handles ≡ before ++ h ∷ after
        → Step s s
    call_flush : (s : FuseState) → Step s s
    call_release :
        (s : FuseState) (before after : List Handle) (h : Handle)
        → s.handles ≡ before ++ h ∷ after
        → Step s (record s { handles = before ++ after })

  -- The states of a session, from the callback init on.
  pub data Reached (conf : FsConf) : FuseState → Type 0 where
    started :
        (t : VtkTree)
        → fs_oper.op_init conf ≡ ok (some t, false)
        → Reached conf (record { tree = t; handles = [] })
    stepped : {s t : FuseState} → Reached conf s → Step s t → Reached conf t
