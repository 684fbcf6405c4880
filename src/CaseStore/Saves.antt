-- ===== src/CaseStore/Saves.antt =====
-- Histories of saves in the two stores of agents-python/app/db.py, and the table `cases` after them.
use vaultwatch.Base.{
  ℕ, zero, suc, ◌≤◌, ◌<◌, String, ◌≡◌, refl, sym, ap, ◌∙◌, Option, none, some, List, [], ◌∷◌, ◌++◌,
  arith, take, length, map, Bool-cases, inl, inr, ◌==◌,
}
use vaultwatch.Base.Exec.{ok, Exec, continue, pure, ◌>>=◌, ◌>>◌}
use vaultwatch.CaseStore.{Row, InMemoryCaseStore, new_store, save, recent, get, find_row}
use vaultwatch.CaseStore.History.{saved, store-eq-history, take-take}
use vaultwatch.CaseStore.Postgres.{
  CaseStore, memory_store, Case, Postgres, where_transaction, first, selected,
}
use vaultwatch.CaseStore.Ordering.{AllBelow, Piles, AllBelow-snoc}

-- a row with its result changed
abbrev pub with_result : {R S : Type 0} → (R → S) → Row R → Row S
with_result f row = record {
  transaction_id = row.transaction_id;
  account_id = row.account_id;
  result = f row.result;
}

pub take-map :
    {A B : Type 0} (f : A → B) (n : ℕ) (xs : List A) → take n (map f xs) ≡ map f (take n xs)
take-map f zero xs = refl
take-map f (suc n) [] = refl
take-map f (suc n) (x ∷ xs) = ap (λ ys. f x ∷ ys) (take-map f n xs)

pub take_all : {A : Type 0} (n : ℕ) (xs : List A) → length xs ≤ n → take n xs ≡ xs
take_all zero [] h = refl
take_all zero (x ∷ xs) h = let never : ⊥ = omega (arith, h) in elim never [ ]
take_all (suc n) [] h = refl
take_all (suc n) (x ∷ xs) h = ap (λ ys. x ∷ ys) (take_all n xs (omega (arith, h)))

-- an optional row with its result changed
abbrev pub with_found : {R S : Type 0} → (R → S) → Option (Row R) → Option (Row S)
with_found f none = none
with_found f (some row) = some (with_result f row)

pub find_row-map :
    {R S : Type 0} (f : R → S) (id : String) (rows : List (Row R))
    → find_row id (map (with_result f) rows) ≡ with_found f (find_row id rows)
unfolding find_row
find_row-map f id [] = refl
find_row-map f id (row ∷ rows) = elim (Bool-cases (row.transaction_id == id)) [
  | inl here ↦ simp here refl
  | inr elsewhere ↦ simp elsewhere (find_row-map f id rows)
]

module _ {W R S : Type 0} (store : CaseStore W R S) where
  -- a history of saves, the latest first, in a store
  unfoldable pub save_all : List (Row R) → Exec W Unit
  save_all [] = pure tt
  save_all (row ∷ rows) = save_all rows >> store.save row.transaction_id row.account_id row.result

pub memory-saved :
    {R : Type 0} (capacity : ℕ) (rows : List (Row R))
    → save_all memory_store rows (new_store capacity) ≡ (ok tt, saved capacity rows)
unfolding save_all saved
memory-saved capacity [] = refl
memory-saved capacity (row ∷ rows) =
    ap (continue λ _ s. (ok tt, save row.transaction_id row.account_id row.result s))
      (memory-saved capacity rows)

module _ {R : Type 0} where
  -- the in-memory store with the same history
  abbrev pub in_memory : ℕ → List (Row R) → InMemoryCaseStore R
  in_memory capacity saves = (save_all memory_store saves (new_store capacity)).1

  pub in_memory-recent :
      (capacity limit : ℕ) (saves : List (Row R))
      → length saves ≤ capacity
      → recent limit (in_memory capacity saves) ≡ take limit saves
  in_memory-recent capacity limit saves fits =
      ap (λ s. recent limit s.1) (memory-saved capacity saves)
      ∙ (store-eq-history capacity limit "" saves).0
      ∙ sym (take-take limit capacity saves)
      ∙ ap (take limit) (take_all capacity saves fits)

  pub in_memory-get :
      (capacity : ℕ) (id : String) (saves : List (Row R))
      → length saves ≤ capacity
      → get id (in_memory capacity saves) ≡ find_row id saves
  in_memory-get capacity id saves fits =
      ap (λ s. get id s.1) (memory-saved capacity saves)
      ∙ (store-eq-history capacity 0 id saves).1
      ∙ ap (find_row id) (take_all capacity saves fits)

module _ {R : Type 0} where
  abbrev pub rows_of : List (ℕ × Row R) → List (Row R)
  rows_of [] = []
  rows_of (s ∷ saves) = s.1 ∷ rows_of saves

  pub length-rows : (saves : List (ℕ × Row R)) → length (rows_of saves) ≡ length saves
  length-rows [] = refl
  length-rows (s ∷ saves) = ap suc (length-rows saves)

  abbrev pub AllBefore : ℕ → List (ℕ × Row R) → Type 0
  AllBefore t [] = Unit
  AllBefore t (s ∷ saves) = (s.0 < t) × AllBefore t saves

  -- each save later than the ones before it
  abbrev pub Rises : List (ℕ × Row R) → Type 0
  Rises [] = Unit
  Rises (s ∷ saves) = AllBefore s.0 saves × Rises saves

  -- the saves in the database, each when `now()` gives its time
  unfoldable pub save_timed :
      {S : Type 0} → CaseStore Postgres R S → List (ℕ × Row R) → Exec Postgres Unit
  save_timed store [] = pure tt
  save_timed store (s ∷ saves) = save_timed store saves >>= λ _ db.
      store.save s.1.transaction_id s.1.account_id s.1.result (record db { now = s.0 })

  module _ (text : R → String) where
    -- its rows, the latest first
    abbrev pub cases_of : List (ℕ × Row R) → List Case
    cases_of [] = []
    cases_of (s ∷ saves) =
        record {
          id = suc (length saves);
          transaction_id = s.1.transaction_id;
          account_id = s.1.account_id;
          result = text s.1.result;
          created_at = s.0;
        }
        ∷ cases_of saves

    -- the table after the saves, in the order of its insertions
    abbrev pub table_of : List (ℕ × Row R) → List Case
    table_of [] = []
    table_of (s ∷ saves) =
        table_of saves
        ++ (record {
          id = suc (length saves);
          transaction_id = s.1.transaction_id;
          account_id = s.1.account_id;
          result = text s.1.result;
          created_at = s.0;
        }
            ∷ [])

    AllBelow-times :
        (t : ℕ) (saves : List (ℕ × Row R))
        → AllBefore t saves
        → AllBelow (λ c. c.created_at) t (table_of saves)
    AllBelow-times t [] h = tt
    AllBelow-times t (s ∷ saves) h =
        AllBelow-snoc (λ c. c.created_at) t (table_of saves) _ (AllBelow-times t saves h.1) h.0

    pub Piles-times :
        (saves : List (ℕ × Row R))
        → Rises saves
        → Piles (λ c. c.created_at) (table_of saves) (cases_of saves)
    Piles-times [] h = refl
    Piles-times (s ∷ saves) h =
        (table_of saves, refl, AllBelow-times s.0 saves h.0, Piles-times saves h.1)

    AllBelow-ids :
        (k : ℕ) (saves : List (ℕ × Row R))
        → length saves < k
        → AllBelow (λ c. c.id) k (table_of saves)
    AllBelow-ids k [] h = tt
    AllBelow-ids k (s ∷ saves) h =
        AllBelow-snoc (λ c. c.id) k (table_of saves) _ (AllBelow-ids k saves (omega (arith, h)))
          (omega (arith, h))

    pub Piles-ids : (saves : List (ℕ × Row R)) → Piles (λ c. c.id) (table_of saves) (cases_of saves)
    Piles-ids [] = refl
    Piles-ids (s ∷ saves) = (
      table_of saves,
      refl,
      AllBelow-ids (suc (length saves)) saves (omega arith),
      Piles-ids saves,
    )

    pub selected_cases :
        (saves : List (ℕ × Row R))
        → map selected (cases_of saves) ≡ map (with_result text) (rows_of saves)
    selected_cases [] = refl
    selected_cases (s ∷ saves) = ap (λ rows. with_result text s.1 ∷ rows) (selected_cases saves)

pub first-where :
    (id : String) (cases : List Case)
    → first (map selected (take 1 (where_transaction id cases))) ≡ find_row id (map selected cases)
unfolding where_transaction find_row
first-where id [] = refl
first-where id (c ∷ cases) = elim (Bool-cases (c.transaction_id == id)) [
  | inl here ↦ simp here refl
  | inr elsewhere ↦ simp elsewhere (first-where id cases)
]
