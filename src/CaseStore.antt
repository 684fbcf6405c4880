-- ===== src/CaseStore.antt =====
-- `InMemoryCaseStore` of agents-python/app/db.py: a deque of saved cases, the latest first, that
-- drops from its right end past its capacity. `R` is the saved result.
pub mod History
pub mod Postgres
pub mod Ordering
pub mod Saves
pub mod Refinement
use vaultwatch.Base.{ℕ, String, Option, none, some, List, [], ◌∷◌, ◌==◌, take, if◌then◌else◌}

pub record Row (R : Type 0) : Type 0 where
  pub transaction_id : String
  pub account_id : String
  pub result : R

pub record InMemoryCaseStore (R : Type 0) : Type 0 where
  pub capacity : ℕ
  pub items : List (Row R)

-- `InMemoryCaseStore(capacity)`
abbrev pub new_store : {R : Type 0} → ℕ → InMemoryCaseStore R
new_store capacity = record { capacity = capacity; items = [] }

module _ {R : Type 0} where
  unfoldable pub save : String → String → R → InMemoryCaseStore R → InMemoryCaseStore R
  save transaction_id account_id result s = record s {
    items = take s.capacity (
        record { transaction_id = transaction_id; account_id = account_id; result = result }
        ∷ s.items);
  }

  -- the API admits limits from 1 to 200
  unfoldable pub recent : ℕ → InMemoryCaseStore R → List (Row R)
  recent limit s = take limit s.items

  unfoldable pub find_row : String → List (Row R) → Option (Row R)
  find_row id [] = none
  find_row id (row ∷ rows) = if row.transaction_id == id then some row else find_row id rows

  unfoldable pub get : String → InMemoryCaseStore R → Option (Row R)
  unfolding find_row
  get id s = find_row id s.items
