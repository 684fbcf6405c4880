-- ===== src/Base/Exec/Results.antt =====
-- Expressions that may raise, without a state: `a.b(c)` and `d[k]` one after the other.
use mathlib.Core.Path.{◌≡◌, refl, subst}
use vaultwatch.Base.Exec.{Result, ok, err}

module _ {A B : Type 0} where
  infixl 5 ◌>>=◌
  abbrev pub ◌>>=◌ : Result A → (A → Result B) → Result B
  ok a >>= f = f a
  err e >>= f = err e

module _ {A : Type 0} where
  abbrev pub Holds : (A → Type 0) → Result A → Type 0
  Holds P (ok a) = P a
  Holds P (err e) = Unit

  -- `P` of the value, if there is one
  pub record Yields (P : A → Type 0) (r : Result A) : Type 0 where
    pub at : Holds P r

  pub Yields-ok : {P : A → Type 0} {r : Result A} {a : A} → Yields P r → r ≡ ok a → P a
  Yields-ok {P} h e = (subst (λ x. Yields P x) e h).at

  pub Yields-weaken :
      {P Q : A → Type 0} (r : Result A) → Yields P r → ((a : A) → P a → Q a) → Yields Q r
  Yields-weaken (ok a) h k = record { at = k a h.at }
  Yields-weaken (err e) h k = record { at = tt }

module _ {A B : Type 0} {P : B → Type 0} where
  -- the rule of `◌>>=◌`
  pub Yields-bind :
      (r : Result A) (f : A → Result B) → ((a : A) → r ≡ ok a → Yields P (f a)) → Yields P (r >>= f)
  Yields-bind (ok a) f k = k a refl
  Yields-bind (err e) f k = record { at = tt }
