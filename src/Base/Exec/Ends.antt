-- ===== src/Base/Exec/Ends.antt =====
-- What holds when a statement ends: `Q` of its value and state if it returns, `E` of its exception
-- and state if it raises.
use mathlib.Core.Path.{◌≡◌, refl, subst}
use mathlib.Core.Bool.{true, false}
use vaultwatch.Base.Exec.{
  Exc, value_error, runtime_error, http_error, http_exception, other_exception, cancelled,
  is_exception, Result, ok, err, Exec, continue, caught,
}

module _ {S A : Type 0} where
  abbrev pub Holds : (A → S → Type 0) → (Exc → S → Type 0) → Result A × S → Type 0
  Holds Q E (ok a, s) = Q a s
  Holds Q E (err e, s) = E e s

  pub record Ends (Q : A → S → Type 0) (E : Exc → S → Type 0) (r : Result A × S) : Type 0 where
    pub at : Holds Q E r

pub not_exception : (e : Exc) → is_exception e ≡ false → e ≡ cancelled
not_exception cancelled h = refl
not_exception (value_error m) h = cc
not_exception (runtime_error m) h = cc
not_exception (http_error m) h = cc
not_exception (http_exception n m) h = cc
not_exception (other_exception m) h = cc

module _ {S A B : Type 0} {P : A → S → Type 0} {Q : B → S → Type 0} {D E : Exc → S → Type 0} where
  -- the rule of `◌>>=◌`
  pub Ends-continue :
      (r : Result A × S) (f : A → Exec S B)
      → Ends P D r
      → ((e : Exc) (s : S) → D e s → E e s)
      → ((a : A) (s : S) → P a s → Ends Q E (f a s))
      → Ends Q E (continue f r)
  Ends-continue (ok a, s) f h d k = k a s h.at
  Ends-continue (err e, s) f h d k = record { at = d e s h.at }

module _ {S A : Type 0} {P : A → S → Type 0} {E D : Exc → S → Type 0} where
  -- the rule of `try`: what passes the handler is no `Exception`
  pub Ends-handled :
      (r : Result A × S) (handler : Exc → Exec S A)
      → Ends P E r
      → ((e : Exc) (s : S) → is_exception e ≡ true → E e s → Ends P D (handler e s))
      → ((s : S) → E cancelled s → D cancelled s)
      → Ends P D (caught handler r)
  Ends-handled (ok a, s) handler h k c = record { at = h.at }
  Ends-handled (err cancelled, s) handler h k c = record { at = c s h.at }
  Ends-handled (err (value_error m), s) handler h k c = k (value_error m) s refl h.at
  Ends-handled (err (runtime_error m), s) handler h k c = k (runtime_error m) s refl h.at
  Ends-handled (err (http_error m), s) handler h k c = k (http_error m) s refl h.at
  Ends-handled (err (http_exception n m), s) handler h k c = k (http_exception n m) s refl h.at
  Ends-handled (err (other_exception m), s) handler h k c = k (other_exception m) s refl h.at

  -- where the handler serves every exception
  pub Ends-caught :
      (r : Result A × S) (handler : Exc → Exec S A)
      → Ends P E r
      → ((e : Exc) (s : S) → E e s → Ends P D (handler e s))
      → ((s : S) → E cancelled s → D cancelled s)
      → Ends P D (caught handler r)
  Ends-caught r handler h k c = Ends-handled r handler h (λ e s _ x. k e s x) c

module _ {S A : Type 0} {P Q : A → S → Type 0} {E D : Exc → S → Type 0} where
  pub Ends-weaken :
      (r : Result A × S)
      → Ends P E r
      → ((a : A) (s : S) → P a s → Q a s)
      → ((e : Exc) (s : S) → E e s → D e s)
      → Ends Q D r
  Ends-weaken (ok a, s) h q d = record { at = q a s h.at }
  Ends-weaken (err e, s) h q d = record { at = d e s h.at }

module _ {S A B C : Type 0} {Q : C → S → Type 0} {E : Exc → S → Type 0} where
  -- a block inside a block
  pub Ends-assoc :
      (r : Result A × S) (g : A → Exec S B) (f : B → Exec S C)
      → Ends Q E (continue (λ a s. continue f (g a s)) r)
      → Ends Q E (continue f (continue g r))
  Ends-assoc (ok a, s) g f h = h
  Ends-assoc (err e, s) g f h = record { at = h.at }

module _ {S A : Type 0} {Q : A → S → Type 0} {E : Exc → S → Type 0} where
  pub Ends-ok : (r : Result A × S) {a : A} {s : S} → Ends Q E r → r ≡ (ok a, s) → Q a s
  Ends-ok r {a} {s} h e = (subst (λ x. Ends Q E x) e h).at

  pub Ends-err : (r : Result A × S) {x : Exc} {s : S} → Ends Q E r → r ≡ (err x, s) → E x s
  Ends-err r {x} {s} h e = (subst (λ y. Ends Q E y) e h).at

module _ {S A : Type 0} where
  -- a statement that may end either way
  pub Ends-self : (m : Result A × S) → Ends (λ a w. m ≡ (ok a, w)) (λ e w. m ≡ (err e, w)) m
  Ends-self (ok a, w) = record { at = refl }
  Ends-self (err e, w) = record { at = refl }

  pub Ends-any : (m : Result A × S) → Ends (λ _ _. Unit {0}) (λ _ _. Unit {0}) m
  Ends-any (ok a, w) = record { at = tt }
  Ends-any (err e, w) = record { at = tt }
