-- ===== src/CaseStore/History.antt =====
-- The store against the whole history of its saves.
use vaultwatch.Base.{ℕ, zero, suc, String, ◌≡◌, refl, List, [], ◌∷◌, arith, take, min}
use vaultwatch.CaseStore.{Row, InMemoryCaseStore, new_store, save, recent, get, find_row}

pub take-take {ℓ} : {A : Type ℓ} (n m : ℕ) (xs : List A) → take n (take m xs) ≡ take (min n m) xs
take-take zero m xs = let e : min 0 m ≡ 0 = omega arith in rw e
take-take (suc n) zero xs = let e : min (suc n) 0 ≡ 0 = omega arith in rw e
take-take (suc n) (suc m) [] = let e : min (suc n) (suc m) ≡ suc (min n m) = omega arith in rw e
take-take (suc n) (suc m) (x ∷ xs) =
    let e : min (suc n) (suc m) ≡ suc (min n m) = omega arith in rw (e, take-take n m xs)

module _ {R : Type 0} where
  -- a history of saves, the latest first, into a new store
  unfoldable pub saved : ℕ → List (Row R) → InMemoryCaseStore R
  unfolding save
  saved capacity [] = new_store capacity
  saved capacity (row ∷ rows) =
      save row.transaction_id row.account_id row.result (saved capacity rows)

  take-cons-take :
      (n : ℕ) (x : Row R) (xs : List (Row R)) → take n (x ∷ take n xs) ≡ take n (x ∷ xs)
  take-cons-take zero x xs = refl
  take-cons-take (suc n) x xs =
      let e : min n (suc n) ≡ n = omega arith in rw (take-take n (suc n) xs, e)

  items-saved :
      (capacity : ℕ) (rows : List (Row R))
      → saved capacity rows ≡ record { capacity = capacity; items = take capacity rows }
  unfolding saved
  items-saved zero [] = refl
  items-saved (suc n) [] = refl
  items-saved capacity (row ∷ rows) =
      rw (items-saved capacity rows, take-cons-take capacity row rows)

  -- Whatever was saved, a new store's `recent` gives the latest saves first, as many as its limit and
  -- its capacity admit, and `get` finds the latest save of an identifier among those that it keeps.
  pub store-eq-history :
      (capacity limit : ℕ) (id : String) (rows : List (Row R))
      → (recent limit (saved capacity rows) ≡ take (min limit capacity) rows)
        × (get id (saved capacity rows) ≡ find_row id (take capacity rows))
  unfolding recent get
  store-eq-history capacity limit id rows =
      rw (items-saved capacity rows) (take-take limit capacity rows, refl)
