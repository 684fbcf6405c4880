-- ===== src/CaseStore/Ordering.antt =====
-- What `ORDER BY key DESC` promises of the table's rows.
use vaultwatch.Base.{
  String, ℕ, ◌<◌, ◌≤◌, ◌≡◌, ap, sym, refl, ◌∙◌, if◌then◌else◌, List, [], ◌∷◌, ◌++◌, arith,
  Bool-cases, inl, inr, ◌==◌,
}
use mathlib.Core.Path.{subst}
use vaultwatch.CaseStore.Postgres.{Case, where_transaction}

module _ (key : Case → ℕ) where
  -- no key of the rows is above `k`
  abbrev pub NoneAbove : ℕ → List Case → Type 0
  NoneAbove k [] = Unit
  NoneAbove k (c ∷ cases) = (key c ≤ k) × NoneAbove k cases

  -- `ys` holds the rows of `xs`, each with a key that no later one is above; rows of one key stand in any
  -- order.
  abbrev pub Orders : List Case → List Case → Type 0
  Orders xs [] = xs ≡ []
  Orders xs (y ∷ ys) =
      (before : List Case) × (after : List Case) × (xs ≡ before ++ (y ∷ after))
      × NoneAbove (key y) (before ++ after)
      × Orders (before ++ after) ys

  -- every key is below `k`
  abbrev pub AllBelow : ℕ → List Case → Type 0
  AllBelow k [] = Unit
  AllBelow k (c ∷ cases) = (key c < k) × AllBelow k cases

  -- The table `xs` has the rows `zs`, inserted from the last one on, each with a key above the ones before.
  abbrev pub Piles : List Case → List Case → Type 0
  Piles xs [] = xs ≡ []
  Piles xs (z ∷ zs) =
      (under : List Case) × (xs ≡ under ++ (z ∷ [])) × AllBelow (key z) under × Piles under zs

  pub AllBelow-snoc :
      (k : ℕ) (xs : List Case) (c : Case) → AllBelow k xs → key c < k → AllBelow k (xs ++ (c ∷ []))
  AllBelow-snoc k [] c h l = (l, tt)
  AllBelow-snoc k (x ∷ xs) c h l = (h.0, AllBelow-snoc k xs c h.1 l)

  NoneAbove-last : (k : ℕ) (xs : List Case) (c : Case) → NoneAbove k (xs ++ (c ∷ [])) → key c ≤ k
  NoneAbove-last k [] c h = h.0
  NoneAbove-last k (x ∷ xs) c h = NoneAbove-last k xs c h.1

  head : Case → List Case → Case
  head d [] = d
  head d (c ∷ cases) = c

  tail : List Case → List Case
  tail [] = []
  tail (c ∷ cases) = cases

  not_empty : (before : List Case) (y : Case) (after : List Case) → ¬ ([] ≡ before ++ (y ∷ after))
  not_empty [] y after e = cc
  not_empty (b ∷ before) y after e = cc

  -- a row that no other is above is the last insertion
  picked :
      (c : Case) (under : List Case) (y : Case) (before after : List Case)
      → under ++ (c ∷ []) ≡ before ++ (y ∷ after)
      → AllBelow (key c) under
      → NoneAbove (key y) (before ++ after)
      → (y ≡ c) × (before ++ after ≡ under)
  unfolding head tail
  picked c [] y [] after e b n = (sym (ap (head c) e), sym (ap tail e))
  picked c [] y (x ∷ before) after e b n = elim (not_empty before y after (ap tail e)) [ ]
  picked c (u ∷ under) y [] after e b n =
      let same : u ≡ y = ap (head c) e in
      let rest : under ++ (c ∷ []) ≡ after = ap tail e in
      let low = NoneAbove-last (key y) under c (subst (λ l. NoneAbove (key y) l) (sym rest) n) in
      let never : ⊥ = omega (arith, low, b.0, ap key same) in elim never [ ]
  picked c (u ∷ under) y (x ∷ before) after e b n =
      let same : u ≡ x = ap (head c) e in
      let later = picked c under y before after (ap tail e) b.1 n.1 in
      (later.0, (λ i. sym same i ∷ later.1 i))

  -- rows in the order of a key that rises with each insertion: the last insertion first, in only one way
  pub Orders-Piles : (xs zs ys : List Case) → Piles xs zs → Orders xs ys → ys ≡ zs
  Orders-Piles xs [] [] p o = refl
  Orders-Piles xs [] (y ∷ ys) p (before, after, e, n, o) =
      elim (not_empty before y after (sym p ∙ e)) [ ]
  Orders-Piles xs (z ∷ zs) [] (under, e, b, p) o = elim (not_empty under z [] (sym o ∙ e)) [ ]
  Orders-Piles xs (z ∷ zs) (y ∷ ys) (under, e, b, p) (before, after, f, n, o) =
      let same = picked z under y before after (sym e ∙ f) b n in
      let later = Orders-Piles under zs ys p (subst (λ l. Orders l ys) same.1 o) in
      λ i. same.0 i ∷ later i

  AllBelow-where :
      (k : ℕ) (id : String) (cases : List Case)
      → AllBelow k cases
      → AllBelow k (where_transaction id cases)
  unfolding where_transaction
  AllBelow-where k id [] h = tt
  AllBelow-where k id (c ∷ cases) h = elim (Bool-cases (c.transaction_id == id)) [
    | inl here ↦ simp here (h.0, AllBelow-where k id cases h.1)
    | inr elsewhere ↦ simp elsewhere (AllBelow-where k id cases h.1)
  ]

  where-snoc :
      (id : String) (xs : List Case) (c : Case)
      → where_transaction id (xs ++ (c ∷ [])) ≡ (
          if c.transaction_id == id
          then where_transaction id xs ++ (c ∷ [])
          else where_transaction id xs)
  unfolding where_transaction
  where-snoc id [] c = refl
  where-snoc id (x ∷ xs) c = elim (Bool-cases (x.transaction_id == id)) [
    | inl here ↦ elim (Bool-cases (c.transaction_id == id)) [
      | inl h ↦ simp (here, where-snoc id xs c, h) refl
      | inr h ↦ simp (here, where-snoc id xs c, h) refl
    ]
    | inr elsewhere ↦ simp (elsewhere, where-snoc id xs c) refl
  ]

  pub Piles-where :
      (id : String) (xs zs : List Case)
      → Piles xs zs
      → Piles (where_transaction id xs) (where_transaction id zs)
  unfolding where_transaction
  Piles-where id xs [] p = rw p refl
  Piles-where id xs (z ∷ zs) (under, e, b, p) = elim (Bool-cases (z.transaction_id == id)) [
    | inl here ↦ simp here (
      where_transaction id under,
      ap (where_transaction id) e ∙ where-snoc id under z ∙ simp here refl,
      AllBelow-where (key z) id under b,
      Piles-where id under zs p,
    )
    | inr elsewhere ↦ simp elsewhere (
        subst (λ l. Piles l (where_transaction id zs))
          (sym (ap (where_transaction id) e ∙ where-snoc id under z ∙ simp elsewhere refl))
          (Piles-where id under zs p))
  ]
