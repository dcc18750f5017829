-- ===== src/Fuse/Resolve.antt =====
-- `ResolvePath` against a walk over the components of the path.
use lanl_vir_parquet.Prelude.{
  ℕ, zero, suc, ◌≤◌, ◌≡◌, refl, sym, ap, ◌∙◌, subst, List, [], ◌∷◌, ◌++◌, ◌⊎◌, false, some, arith,
  ◌==◌, if◌then◌else◌, length, append_assoc, append-nil, Bool-cases, inl, inr,
}
use lanl_vir_parquet.Prelude.Int.{pos, neg}
use lanl_vir_parquet.Prelude.Text.{Text}
use lanl_vir_parquet.Result.{Result, ok, ◌>>=◌}
use lanl_vir_parquet.Vfs.{Dir, get_dir}
use lanl_vir_parquet.Fuse.{
  slash, enoent, enotdir, dir, file, notfound, lookup, deref, skip_slashes, component, Resolved,
  resolve_loop, resolve_path,
}

-- a word that has ended, if it has a byte
abbrev pub flush : Text → List Text → List Text
flush [] cs = cs
flush (c ∷ w) cs = (c ∷ w) ∷ cs

-- The components of a path behind the bytes `w` of the first one: what stands between slashes, the
-- empty ones left out.
abbrev pub components_from : Text → Text → List Text
components_from w [] = flush w []
components_from w (c ∷ p) =
    if c == slash then flush w (components_from [] p) else components_from (w ++ c ∷ []) p

abbrev pub components : Text → List Text
components p = components_from [] p

-- Goes into a subdirectory, as the source's loop does.
abbrev pub enter : Dir → Text → (Dir → Result Resolved) → Result Resolved
enter d n f = lookup d n >>= λ r. elim r [
  | dir ↦ get_dir d n >>= λ e. deref e >>= f
  | file ↦ ok (neg enotdir, d, n)
  | notfound ↦ ok (neg enoent, d, n)
]

-- From a directory through all components but the last, which must be directories, to the parent
-- of the last one and its name.
abbrev pub walk : Dir → List Text → Result Resolved
walk d [] = ok (pos 0, d, [])
walk d (n ∷ []) = ok (pos 0, d, n)
walk d (n ∷ m ∷ ns) = enter d n (λ sub. walk sub (m ∷ ns))

components_from-component :
    (w p : Text) → components_from w p ≡ flush (w ++ (component p).0) (components (component p).1)
unfolding component
components_from-component w [] = rw append-nil refl
components_from-component w (c ∷ p) = elim (Bool-cases (c == slash)) [
  | inl here ↦ rw (here, append-nil, here) refl
  | inr more ↦ rw more (components_from-component (w ++ c ∷ []) p ∙ rw append_assoc refl)
]

components-skip : (p : Text) → components (skip_slashes p) ≡ components p
unfolding skip_slashes
components-skip [] = refl
components-skip (c ∷ p) = elim (Bool-cases (c == slash)) [
  | inl here ↦ rw here (components-skip p)
  | inr more ↦ rw (more, more) refl
]

length-component : (p : Text) → length (component p).1 ≤ length p
unfolding component
length-component [] = omega arith
length-component (c ∷ p) = elim (Bool-cases (c == slash)) [
  | inl here ↦ rw here (omega arith)
  | inr more ↦ rw more (omega (arith, length-component p))
]

-- What is left behind slashes: nothing, or a path that begins with a component.
record Begins (p q : Text) : Type 0 where
  head : ℕ
  tail : Text
  same : p ≡ head ∷ tail
  is_name : (head == slash) ≡ false
  shorter : suc (length tail) ≤ length q

skip_slashes-cases : (p : Text) → (skip_slashes p ≡ []) ⊎ Begins (skip_slashes p) p
unfolding skip_slashes
skip_slashes-cases [] = inl refl
skip_slashes-cases (c ∷ p) = elim (Bool-cases (c == slash)) [
  | inl here ↦ rw here (elim (skip_slashes-cases p) [
    | inl e ↦ inl e
    | inr b ↦ inr (record {
      head = b.head;
      tail = b.tail;
      same = b.same;
      is_name = b.is_name;
      shorter = omega (arith, b.shorter);
    })
  ])
  | inr more ↦
      rw more
        (inr (record { head = c; tail = p; same = refl; is_name = more; shorter = omega arith }))
]

-- A path that begins with a component is that component and those behind it.
components-cons :
    (c : ℕ) (p : Text)
    → (c == slash) ≡ false
    → components (c ∷ p) ≡ (c ∷ (component p).0) ∷ components (component p).1
components-cons c p h = rw h (components_from-component (c ∷ []) p)

walk-enter :
    (d : Dir) (n : Text) (c : ℕ) (p : Text)
    → (c == slash) ≡ false
    → enter d n (λ sub. walk sub (components (c ∷ p))) ≡ walk d (n ∷ components (c ∷ p))
walk-enter d n c p h =
    subst (λ cs. enter d n (λ sub. walk sub cs) ≡ walk d (n ∷ cs)) (sym (components-cons c p h))
      refl

enter-cong :
    (d : Dir) (n : Text) (f g : Dir → Result Resolved)
    → ((e : Dir) → f e ≡ g e)
    → enter d n f ≡ enter d n g
enter-cong d n f g h = ap (enter d n) (λ i e. h e i)

component-cons :
    (c : ℕ) (p : Text)
    → (c == slash) ≡ false
    → component (c ∷ p) ≡ (c ∷ (component p).0, (component p).1)
unfolding component
component-cons c p h = rw h refl

-- the two ends of a round
module _ (fuel : ℕ) (d : Dir) (p w q : Text) (part : component p ≡ (w, q)) where
  resolve_loop-last : skip_slashes q ≡ [] → resolve_loop (suc fuel) d p ≡ ok (pos 0, d, w)
  unfolding resolve_loop
  resolve_loop-last h = rw (resolve_loop, part, h, part) refl

  resolve_loop-more :
      (c : ℕ) (rest : Text)
      → skip_slashes q ≡ c ∷ rest
      → resolve_loop (suc fuel) d p ≡ enter d w (λ sub. resolve_loop fuel sub (c ∷ rest))
  unfolding resolve_loop
  resolve_loop-more c rest h =
      rw (resolve_loop, part, h)
        (ap (λ x. enter d x.0 (λ sub. resolve_loop fuel sub (c ∷ rest))) part)

-- With a round for each byte the loop ends, and it walks the components that are left.
resolve_loop-walk :
    (fuel : ℕ) (d : Dir) (c : ℕ) (p : Text)
    → (c == slash) ≡ false
    → suc (length p) ≤ fuel
    → resolve_loop fuel d (c ∷ p) ≡ walk d (components (c ∷ p))
resolve_loop-walk zero d c p h few = absurd (omega arith)
resolve_loop-walk (suc fuel) d c p h few =
    let w : Text = c ∷ (component p).0 in
    let part = component-cons c p h in
    let behind = ap (λ t. w ∷ t) (sym (components-skip (component p).1)) in
    elim (skip_slashes-cases (component p).1) [
      | inl none_left ↦
          resolve_loop-last fuel d (c ∷ p) w (component p).1 part none_left
          ∙ ap (walk d)
              (sym (components-cons c p h ∙ behind ∙ ap (λ t. w ∷ components t) none_left))
      | inr b ↦
          resolve_loop-more fuel d (c ∷ p) w (component p).1 part b.head b.tail b.same
          ∙ enter-cong d w (λ sub. resolve_loop fuel sub (b.head ∷ b.tail))
              (λ sub. walk sub (components (b.head ∷ b.tail)))
              (λ sub.
                resolve_loop-walk fuel sub b.head b.tail b.is_name
                  (omega (arith, b.shorter, length-component p)))
          ∙ walk-enter d w b.head b.tail b.is_name
          ∙ ap (walk d) (sym (components-cons c p h ∙ behind ∙ ap (λ t. w ∷ components t) b.same))
    ]

-- ResolvePath, on any path that begins with a slash and in however many slashes its components are
-- separated or followed by, ends and gives what the walk over its components gives: the parent
-- directory and the last component, or the error of the first component that is no directory.
pub resolve_path-walk :
    (root : Dir) (path : Text)
    → resolve_path root (some (slash ∷ path)) ≡ walk root (components path)
unfolding resolve_path
resolve_path-walk root path = elim (skip_slashes-cases path) [
  | inl none_left ↦
      let e : components path ≡ [] = sym (components-skip path) ∙ ap components none_left in
      rw (e, none_left) refl
  | inr b ↦
      let e : components path ≡ components (b.head ∷ b.tail) =
        sym (components-skip path) ∙ ap components b.same in
      rw b.same (
        resolve_loop-walk (suc (length b.tail)) root b.head b.tail b.is_name (omega arith)
        ∙ ap (walk root) (sym e))
]
