-- ===== src/Fuse/Bypass.antt =====
-- The TEST_ functions of c.cc (fuse_bypass.h): the operations without FUSE between, and the destruction
-- of the tree. `none` is the null pointer; where a function ends the program, it says with which code.
use lanl_vir_parquet.Prelude.{ℕ, zero, List, Option, none, some}
use lanl_vir_parquet.Prelude.Int.{ℤ, pos}
use lanl_vir_parquet.Prelude.Text.{Text}
use lanl_vir_parquet.Result.{Result, ok, throw, ub, hang, ◌>>=◌}
use lanl_vir_parquet.Base64.{DecodeTriplet}
use lanl_vir_parquet.Vfs.{VtkTree}
use lanl_vir_parquet.Fuse.{Handle, open_path, vtk_read, vtk_release}

-- what a function that may call `exit` does
pub data OrExit (A : Type 0) : Type 0 where
  goes_on : A → OrExit A
  exits : ℕ → OrExit A

-- TEST_init_tree on what ParseVtkFile does
unfoldable pub test_init_tree : Result VtkTree → Result (OrExit VtkTree)
test_init_tree (ok tree) = ok (goes_on tree)
test_init_tree (throw e) = ok (exits 1)
test_init_tree ub = ub
test_init_tree hang = hang

module _ (decode_triplet : DecodeTriplet) where
  -- TEST_open: `fi.fh` has no value of its own before Open
  unfoldable pub test_open : VtkTree → Text → Result Handle
  unfolding open_path
  test_open tree path = open_path decode_triplet tree (some path) none >>= λ r. elim r.0 [
    | pos zero ↦ ok r.1
    | error ↦ ok none
  ]

-- TEST_read
unfoldable pub test_read : Handle → (size : ℕ) → (off : ℤ) → Result (ℤ × List ℕ)
unfolding vtk_read
test_read fh size off = vtk_read fh size off

-- TEST_close
unfoldable pub test_close : Handle → Handle
unfolding vtk_release
test_close fh = (vtk_release fh).1

-- vtk_destroy_tree, TEST_destroy_tree: the tree is gone
unfoldable pub destroy_tree : Option VtkTree → Option VtkTree
destroy_tree tree = none
