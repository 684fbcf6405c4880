-- ===== src/Tests/Stores.antt =====
-- The PostgreSQL store over a table that is sorted by insertion.
use vaultwatch.Base.{
  ℕ, ◌≤◌, ◌≡◌, refl, sym, ap, true, Option, none, some, List, [], ◌∷◌, ◌++◌, arith, map, leb,
  Bool-cases, inl, inr, ◌==◌, if◌then◌else◌,
}
use mathlib.Core.Path.{subst}
use vaultwatch.Base.Exec.{ok, ◌>>=◌}
use vaultwatch.Models.Values.{Json, Dict, null, empty, entry, str}
use vaultwatch.CaseStore.{Row, recent, get}
use vaultwatch.CaseStore.Postgres.{Case, Postgres, Sql, postgres_store, connect}
use vaultwatch.CaseStore.Ordering.{NoneAbove, Orders}
use vaultwatch.CaseStore.Saves.{with_result, with_found, in_memory, rows_of, Rises, save_timed}
use vaultwatch.CaseStore.Refinement.{Promises, Storable, postgres_refines}
use vaultwatch.Tests.Fixture.{cents, first_key, loaded}

-- rows by insertion, a row before those of its key
abbrev insert : (Case → ℕ) → Case → List Case → List Case
insert key c [] = c ∷ []
insert key c (d ∷ ds) =
    let rest = insert key c ds in if leb (key d) (key c) then c ∷ d ∷ ds else d ∷ rest

abbrev sort : (Case → ℕ) → List Case → List Case
sort key [] = []
sort key (c ∷ cs) = insert key c (sort key cs)

NoneAbove-more :
    (key : Case → ℕ) (j k : ℕ) (before : List Case) (c : Case) (after : List Case)
    → NoneAbove key j (before ++ after)
    → j ≤ k
    → key c ≤ k
    → NoneAbove key k (before ++ (c ∷ after))
NoneAbove-more key j k [] c [] h l m = (m, tt)
NoneAbove-more key j k [] c (a ∷ after) h l m =
    (m, (omega (arith, h.0, l), (NoneAbove-more key j k [] c after h.1 l m).1))
NoneAbove-more key j k (b ∷ before) c after h l m =
    (omega (arith, h.0, l), NoneAbove-more key j k before c after h.1 l m)

insert-Orders :
    (key : Case → ℕ) (c : Case) (xs ys : List Case)
    → Orders key xs ys
    → Orders key (c ∷ xs) (insert key c ys)
insert-Orders key c xs [] e = ([], xs, refl, rw e tt, e)
insert-Orders key c xs (y ∷ ys) (before, after, e, n, o) = elim (Bool-cases (leb (key y) (key c))) [
  | inl low ↦ simp low (
      let small : key y ≤ key c = ground (arith, low) in
      (
        [],
        xs,
        refl,
        subst (λ l. NoneAbove key (key c) l) (sym e)
            (NoneAbove-more key (key y) (key c) before y after n small small),
        (before, after, e, n, o),
      ))
  | inr high ↦ simp high (
      let big : key c ≤ key y = ground (arith, high) in
      (c ∷ before, after, ap (λ l. c ∷ l) e, (big, n), insert-Orders key c (before ++ after) ys o))
]

sort-Orders : (key : Case → ℕ) (cs : List Case) → Orders key cs (sort key cs)
sort-Orders key [] = refl
sort-Orders key (c ∷ cs) = insert-Orders key c cs (sort key cs) (sort-Orders key cs)

abbrev sql : Sql
sql = record {
  acquire = λ db. (ok tt, db);
  order_by_desc = sort;
  takes_text = λ s. true;
  jsonb = λ s. some s;
}

sql-Promises : Promises sql
sql-Promises = record { acquires = λ db. refl; orders = sort-Orders }

abbrev new_database : Postgres
new_database = record { cases = none; last_id = 0; now = 5 }

abbrev value : Option (Json ℕ) → Json ℕ
value none = null
value (some v) = v

abbrev reread : Dict ℕ → Json ℕ
reread d = value (loaded (first_key d))

reread_eq : (d : Dict ℕ) → loaded (first_key d) ≡ some (reread d)
reread_eq d = elim (Bool-cases (first_key d == "history")) [
  | inl h ↦ simp h refl
  | inr n ↦ elim (Bool-cases (first_key d == "account_id")) [
    | inl h ↦ simp (n, h) refl
    | inr m ↦ simp (n, m) refl
  ]
]

abbrev saves : List (ℕ × Row (Dict ℕ))
saves =
    (
      9,
      record {
        transaction_id = "tx_2";
        account_id = "acct_1";
        result = entry "query" (str "x") empty;
      },
    )
    ∷ (
      7,
      record {
        transaction_id = "tx_1";
        account_id = "acct_1";
        result = entry "history" (str "x") empty;
      },
    )
    ∷ []

saves-Rises : Rises saves
saves-Rises = omega arith

saves-Storable : Storable cents sql sql-Promises first_key reread saves
saves-Storable = (
  refl,
  refl,
  refl,
  reread_eq (entry "query" (str "x") empty),
  (refl, refl, refl, reread_eq (entry "history" (str "x") empty), tt),
)

postgres_refines_example :
    let memory = in_memory 500 (rows_of saves) in
    let store = postgres_store cents sql in
    (db : Postgres) × ((connect cents sql >>= λ store. save_timed store saves) new_database
      ≡ (ok tt, db))
    × (store.recent 50 db ≡ (ok (map (with_result reread) (recent 50 memory)), db))
    × (store.get "tx_1" db ≡ (ok (with_found reread (get "tx_1" memory)), db))
postgres_refines_example =
    postgres_refines cents sql sql-Promises first_key reread saves 500 50 "tx_1" new_database refl
      refl saves-Rises saves-Storable (omega arith)
