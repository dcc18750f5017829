-- ===== src/Prelude/Predicates.antt =====
-- Predicates on what an option or a list holds.
use mathlib.Core.Option.{Option, none, some}
use mathlib.Core.List.{List, [], ◌∷◌}

abbrev pub IfSome : {A : Type 0} → (A → Type 0) → Option A → Type 0
IfSome P none = Unit
IfSome P (some a) = P a

abbrev pub All : {A : Type 0} → (A → Type 0) → List A → Type 0
All P [] = Unit
All P (a ∷ xs) = P a × All P xs

abbrev pub IsGiven : {A : Type 0} → Option A → Type 0
IsGiven none = ⊥
IsGiven (some a) = Unit

pub always : {A : Type 0} {P : A → Type 0} (x : Option A) → ((a : A) → P a) → IfSome P x
always none h = tt
always (some a) h = h a

pub all : {A : Type 0} {P : A → Type 0} (xs : List A) → ((a : A) → P a) → All P xs
all [] h = tt
all (a ∷ xs) h = (h a, all xs h)

pub if_some :
    {A : Type 0} {P Q : A → Type 0} (x : Option A) → IfSome P x → ((a : A) → P a → Q a) → IfSome Q x
if_some none h f = tt
if_some (some a) h f = f a h
