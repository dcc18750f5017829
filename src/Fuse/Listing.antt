-- ===== src/Fuse/Listing.antt =====
-- What vtk_readdir lists, against what `Stat` of the directories finds.
use lanl_vir_parquet.Prelude.{
  ℕ, suc, ◌≡◌, refl, sym, ap, ◌∙◌, List, [], ◌∷◌, ◌++◌, Bool-cases, inl, inr, Option, none, some,
  if◌then◌else◌,
}
use lanl_vir_parquet.Prelude.Int.{pos}
use lanl_vir_parquet.Prelude.Text.{Text, text_eq, text_eq_sound}
use lanl_vir_parquet.Prelude.Table.{Table, HashOrder, find, keys}
use lanl_vir_parquet.File.{RandomAccessFile, Outcome, done, failed, undefined, diverged}
use lanl_vir_parquet.Result.{Result, ok}
use lanl_vir_parquet.FMap.{FileMap, file_size}
use lanl_vir_parquet.Vfs.{
  FileStat, Dir, metadata_dir, array_dir, vtk_tree_dir, Dirs, no_dirs, add_dir, VtkTree, as_dir,
  find_dir, dir_keys, file_stat, stat, new_iter,
}
use lanl_vir_parquet.Fuse.{slash, readdir_in, vtk_readdir}
use lanl_vir_parquet.Fuse.Resolve.{components, resolve_path-walk}
use lanl_vir_parquet.Fuse.Tree.{
  entries, readdir-entries, lookup-subdir, get_dir-subdir, resolve_path-one,
}

-- how often a name is in a list
abbrev pub occurrences : Text → List Text → ℕ
occurrences k [] = 0
occurrences k (j ∷ js) = let rest = occurrences k js in if text_eq j k then suc rest else rest

-- A walk of a hash table meets each key as often as the table has it.
abbrev pub WalksAll : HashOrder → Type 0
WalksAll order = (ks : List Text) (k : Text) → occurrences k (order ks) ≡ occurrences k ks

abbrev pub Distinct : List Text → Type 0
Distinct [] = Unit
Distinct (k ∷ ks) = (occurrences k ks ≡ 0) × Distinct ks

-- The table of a directory has each key once, as every std::unordered_map.
abbrev pub HasDistinctKeys : Dir → Type 0
HasDistinctKeys (metadata_dir t) = Distinct (keys t)
HasDistinctKeys (array_dir t base) = Distinct (keys t)
HasDistinctKeys (vtk_tree_dir ds) = Distinct (dir_keys ds)

-- 0 where Stat returns false, and 1 where there is an entry
abbrev pub found : Result (Option FileStat) → ℕ
found (ok none) = 0
found _ = 1

abbrev one_if : {A : Type 0} → Option A → ℕ
one_if none = 0
one_if (some a) = 1

occurrences-find :
    {A : Type 0} (k : Text) (t : Table A)
    → Distinct (keys t)
    → occurrences k (keys t) ≡ one_if (find k t)
unfolding keys find
occurrences-find k [] h = refl
occurrences-find k ((j, a) ∷ t) h = elim (Bool-cases (text_eq j k)) [
  | inl same ↦
      let e : occurrences k (keys t) ≡ 0 =
        ap (λ n. occurrences n (keys t)) (sym (text_eq_sound j k same)) ∙ h.0 in
      rw (same, e) refl
  | inr other ↦ rw other (occurrences-find k t h.1)
]

occurrences-find_dir :
    (k : Text) (ds : Dirs)
    → Distinct (dir_keys ds)
    → occurrences k (dir_keys ds) ≡ one_if (find_dir k ds)
unfolding dir_keys find_dir
occurrences-find_dir k no_dirs h = refl
occurrences-find_dir k (add_dir j d ds) h = elim (Bool-cases (text_eq j k)) [
  | inl same ↦
      let e : occurrences k (dir_keys ds) ≡ 0 =
        ap (λ n. occurrences n (dir_keys ds)) (sym (text_eq_sound j k same)) ∙ h.0 in
      rw (same, e) refl
  | inr other ↦ rw other (occurrences-find_dir k ds h.1)
]

found-file_stat : (n : Outcome ℕ) → found (file_stat n) ≡ 1
found-file_stat (done n) = refl
found-file_stat failed = refl
found-file_stat undefined = refl
found-file_stat diverged = refl

metadata-stat :
    (t : Table Text) (k : Text) (o : Option Text)
    → find k t ≡ o
    → one_if (find k t) ≡ found (stat (metadata_dir t) k)
unfolding stat
metadata-stat t k none e = rw (stat, e) refl
metadata-stat t k (some a) e = rw (stat, e) refl

array-stat :
    (t : Table FileMap) (base : RandomAccessFile) (k : Text) (o : Option FileMap)
    → find k t ≡ o
    → one_if (find k t) ≡ found (stat (array_dir t base) k)
unfolding stat
array-stat t base k none e = rw (stat, e) refl
array-stat t base k (some m) e = rw (stat, e) (sym (found-file_stat (file_size m)))

tree-stat :
    (ds : Dirs) (k : Text) (o : Option Dir)
    → find_dir k ds ≡ o
    → one_if (find_dir k ds) ≡ found (stat (vtk_tree_dir ds) k)
unfolding stat
tree-stat ds k none e = rw (stat, e) refl
tree-stat ds k (some d) e = rw (stat, e) refl

-- A walk meets a name once if Stat finds it, and else never.
listed :
    (order : HashOrder) (d : Dir) (k : Text)
    → WalksAll order
    → HasDistinctKeys d
    → occurrences k (entries order d) ≡ found (stat d k)
unfolding new_iter
listed order (metadata_dir t) k walks h =
    walks (keys t) k ∙ occurrences-find k t h ∙ metadata-stat t k (find k t) refl
listed order (array_dir t base) k walks h =
    walks (keys t) k ∙ occurrences-find k t h ∙ array-stat t base k (find k t) refl
listed order (vtk_tree_dir ds) k walks h =
    walks (dir_keys ds) k ∙ occurrences-find_dir k ds h ∙ tree-stat ds k (find_dir k ds) refl

readdir_in-subdir :
    (order : HashOrder) (ds : Dirs) (c : ℕ) (name : Text) (d : Dir) (filled : List Text)
    → find_dir (c ∷ name) ds ≡ some d
    → readdir_in order (vtk_tree_dir ds) (c ∷ name) filled ≡ ok (pos 0, filled ++ entries order d)
unfolding readdir_in
readdir_in-subdir order ds c name d filled f =
    rw (lookup-subdir ds (c ∷ name) d f, get_dir-subdir ds (c ∷ name) d f)
      (readdir-entries order d filled)

-- A walk of the directories' hash tables in any order that meets every key, and a root directory.
module _ (order : HashOrder) (walks : WalksAll order) (tree : VtkTree) (path : Text)
    (filled : List Text) where
  -- vtk_readdir on the path of a subdirectory of the root ends and hands the filler, in whatever order,
  -- each name that the directory's Stat finds, once, and no other name.
  pub vtk_readdir-entries :
      (c : ℕ) (name : Text) (d : Dir)
      → components path ≡ (c ∷ name) ∷ []
      → find_dir (c ∷ name) tree.subdirs ≡ some d
      → HasDistinctKeys d
      → (names : List Text) × (vtk_readdir order tree (some (slash ∷ path)) filled
          ≡ ok (pos 0, filled ++ names))
        × ((k : Text) → occurrences k names ≡ found (stat d k))
  unfolding vtk_readdir readdir_in
  vtk_readdir-entries c name d e f distinct = (
    entries order d,
    rw (resolve_path-one (as_dir tree) path (c ∷ name) e)
        (readdir_in-subdir order tree.subdirs c name d filled f),
    (λ k. listed order d k walks distinct),
  )

  -- vtk_readdir on the root, however its path is written, does so with the subdirectories of the tree.
  pub vtk_readdir-root :
      components path ≡ []
      → Distinct (dir_keys tree.subdirs)
      → (names : List Text) × (vtk_readdir order tree (some (slash ∷ path)) filled
          ≡ ok (pos 0, filled ++ names))
        × ((k : Text) → occurrences k names ≡ found (stat (as_dir tree) k))
  unfolding vtk_readdir readdir_in
  vtk_readdir-root e distinct = (
    entries order (as_dir tree),
    rw (resolve_path-walk (as_dir tree) path, e) (readdir-entries order (as_dir tree) filled),
    (λ k. listed order (as_dir tree) k walks distinct),
  )
