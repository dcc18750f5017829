-- ===== src/Result/Ensures.antt =====
-- What holds of a result if there is one, and how it goes through a chain of calls.
use lanl_vir_parquet.Prelude.{Bool, true, false, if◌then◌else◌, ◌≡◌, subst}
use lanl_vir_parquet.Result.{Result, ok, throw, ub, hang, ◌>>=◌}

unfoldable pub Ensures : {A : Type 0} → (A → Type 0) → Result A → Type 0
Ensures P (ok a) = P a
Ensures P (throw e) = Unit
Ensures P ub = Unit
Ensures P hang = Unit

pub Ensures-bind :
    {A B : Type 0} (P : A → Type 0) (Q : B → Type 0) (r : Result A) (f : A → Result B)
    → Ensures P r
    → ((a : A) → P a → Ensures Q (f a))
    → Ensures Q (r >>= f)
unfolding Ensures
Ensures-bind P Q (ok a) f h k = k a h
Ensures-bind P Q (throw e) f h k = tt
Ensures-bind P Q ub f h k = tt
Ensures-bind P Q hang f h k = tt

pub Ensures-any :
    {A B : Type 0} (Q : B → Type 0) (r : Result A) (f : A → Result B)
    → ((a : A) → Ensures Q (f a))
    → Ensures Q (r >>= f)
unfolding Ensures
Ensures-any Q (ok a) f k = k a
Ensures-any Q (throw e) f k = tt
Ensures-any Q ub f k = tt
Ensures-any Q hang f k = tt

pub Ensures-if :
    {A : Type 0} (P : A → Type 0) (b : Bool) (x y : Result A)
    → Ensures P x
    → Ensures P y
    → Ensures P (if b then x else y)
Ensures-if P true x y h k = h
Ensures-if P false x y h k = k

pub Ensures-ok : {A : Type 0} (P : A → Type 0) (r : Result A) (a : A) → Ensures P r → r ≡ ok a → P a
unfolding Ensures
Ensures-ok P r a h e = subst (Ensures P) e h
