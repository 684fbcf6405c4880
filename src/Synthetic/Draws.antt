-- ===== src/Synthetic/Draws.antt =====
-- What the generators' draws give, and that they never raise.
use vaultwatch.Base.{
  ℕ, zero, suc, ◌≤◌, ◌<◌, ◌≡◌, refl, sym, ap, ◌∙◌, String, ◌<>◌, List, [], ◌∷◌, length, contains,
  eq_iff, false, true, false, arith, ◌≢◌,
}
use mathlib.Core.Path.{subst}
use text.Mathlib.TextLemmas.{append_cancel_left}
use vaultwatch.Base.Int.{pos}
use vaultwatch.Base.Exec.{Result, ok, err, Exec, continue}
use vaultwatch.Base.Exec.Ends.{Ends, Ends-continue}
use vaultwatch.Runtime.{Runtime}
use vaultwatch.Synthetic.{Library, collect, choice, identifier, element}

-- What the library's draws promise, and that numbers are printed each in its own way.
pub record DrawsInRange (rt : Runtime) (lib : Library rt) : Type 0 where
  pub randint-low : (low high : ℕ) (s : lib.State) → low ≤ high → low ≤ (lib.randint low high s).0
  pub randint-high : (low high : ℕ) (s : lib.State) → low ≤ high → (lib.randint low high s).0 ≤ high
  pub index-below : (n : ℕ) (s : lib.State) → 0 < n → (lib.index n s).0 < n
  pub show-injective : (n m : ℕ) → rt.show_int (pos n) ≡ rt.show_int (pos m) → n ≡ m

-- `P` of every element
abbrev pub Each : {A : Type 0} → (A → Type 0) → List A → Type 0
Each P [] = Unit
Each P (x ∷ xs) = P x × Each P xs

-- It returns, with `P` of its value.
abbrev pub Gives : {S A : Type 0} → (A → Type 0) → Result A × S → Type 0
Gives P = Ends (λ a _. P a) (λ _ _. ⊥)

pub Each-map :
    {A : Type 0} {P Q : A → Type 0} → ((a : A) → P a → Q a) → (xs : List A) → Each P xs → Each Q xs
Each-map f [] h = tt
Each-map f (x ∷ xs) h = (f x h.0, Each-map f xs h.1)

pub Each-element :
    {A : Type 0} (P : A → Type 0) (xs : List A) (i : ℕ)
    → Each P xs
    → i < length xs
    → (x : A) × (element xs i ≡ ok x) × P x
Each-element P [] i h l = let never : ⊥ = omega (arith, l) in elim never [ ]
Each-element P (x ∷ xs) zero h l = (x, refl, h.0)
Each-element P (x ∷ xs) (suc i) h l = Each-element P xs i h.1 (omega (arith, l))

pub gives : {S A : Type 0} {P : A → Type 0} {a : A} {s : S} → P a → Gives P (ok a, s)
gives h = record { at = h }

module _ {S A B : Type 0} where
  pub after :
      {P : A → Type 0} {Q : B → Type 0} (r : Result A × S) (f : A → Exec S B)
      → Gives P r
      → ((a : A) (s : S) → P a → Gives Q (f a s))
      → Gives Q (continue f r)
  after r f h k = Ends-continue r f h (λ e s x. x) k

pub gives-value :
    {S A : Type 0} {P : A → Type 0} (r : Result A × S) → Gives P r → (a : A) × (r.0 ≡ ok a) × P a
gives-value (ok a, s) h = (a, refl, h.at)
gives-value (err e, s) h = elim h.at [ ]

-- a comprehension over `range(n)`: `n` elements, each like its body's value
pub collect-Each :
    {S A : Type 0} {P : A → Type 0} (n : ℕ) (m : Exec S A) (s : S)
    → ((s : S) → Gives P (m s))
    → Gives (λ xs. (length xs ≡ n) × Each P xs) (collect n m s)
unfolding collect
collect-Each zero m s k = record { at = (refl, tt) }
collect-Each (suc n) m s k = after (m s) _ (k s) λ x s' px.
    after (collect n m s') _ (collect-Each n m s' k)
      λ xs s'' h. record { at = (ap suc h.0, (px, h.1)) }

-- an identifier of the range
abbrev pub IsIdentifier : Runtime → String → ℕ → ℕ → String → Type 0
IsIdentifier rt prefix low high x =
    (n : ℕ) × (x ≡ prefix <> rt.show_int (pos n)) × (low ≤ n) × (n ≤ high)

-- every element of a list is found in it
pub Each-contains : (xs : List String) → Each (λ x. contains xs x ≡ true) xs
Each-contains [] = tt
Each-contains (x ∷ xs) = (
  ground (arith, eq_iff x x),
  Each-map {P = λ y. contains xs y ≡ true} {Q = λ y. contains (x ∷ xs) y ≡ true}
      (λ y h. ground (arith, h)) xs (Each-contains xs),
)

-- what every element differs from is not found
pub contains-Each :
    {P : String → Type 0} (xs : List String) (y : String)
    → ((x : String) → P x → x ≢ y)
    → Each P xs
    → contains xs y ≡ false
contains-Each [] y differ h = refl
contains-Each (x ∷ xs) y differ h =
    let apart = differ x h.0 in
    let rest = contains-Each xs y differ h.1 in ground (arith, apart, rest, eq_iff x y)

module _ (rt : Runtime) (lib : Library rt) (draws : DrawsInRange rt lib) where
  pub choice-Each :
      {A : Type 0} (P : A → Type 0) (xs : List A) (s : lib.State)
      → 0 < length xs
      → Each P xs
      → Gives P (choice rt lib xs s)
  unfolding choice
  choice-Each P [] s l h = omega (arith, l)
  choice-Each P (x ∷ xs) s l h =
      let (i, s') = lib.index (length (x ∷ xs)) s in
      let (y, e, py) = Each-element P (x ∷ xs) i h (draws.index-below _ s l) in
      subst (λ r. Gives P (r, s')) (sym e) (record { at = py })

  pub identifier-IsIdentifier :
      (prefix : String) (low high : ℕ) (s : lib.State)
      → low ≤ high
      → Gives (IsIdentifier rt prefix low high) (identifier rt lib prefix low high s)
  unfolding identifier
  identifier-IsIdentifier prefix low high s l = record {
    at = (_, refl, draws.randint-low low high s l, draws.randint-high low high s l);
  }

  -- identifiers of ranges that do not meet differ
  pub IsIdentifier-ne :
      (prefix : String) (a b c d : ℕ) (x y : String)
      → b < c
      → IsIdentifier rt prefix a b x
      → IsIdentifier rt prefix c d y
      → x ≢ y
  IsIdentifier-ne prefix a b c d x y apart (n, xn, _, high) (m, ym, low, _) e =
      let same = draws.show-injective n m (append_cancel_left prefix _ _ (sym xn ∙ e ∙ ym)) in
      omega (arith, same, high, low, apart)
