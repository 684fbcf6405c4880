-- ===== src/CaseStore/Refinement.antt =====
-- The PostgreSQL store against the in-memory store.
use vaultwatch.Base.{
  ℕ, zero, suc, ◌≤◌, String, ◌≡◌, refl, sym, ap, ◌∙◌, true, none, some, List, [], ◌∷◌, take, length,
  map, Bool-cases, inl, inr, ◌==◌,
}
use vaultwatch.Base.Exec.{ok, continue, pure, ◌>>=◌}
use vaultwatch.Runtime.{Runtime}
use vaultwatch.Models.Values.{Json, Dict}
use vaultwatch.CaseStore.{Row, recent, get, find_row}
use vaultwatch.CaseStore.Postgres.{
  Case, Postgres, Sql, where_transaction, first, selected, insert_case, select_recent, select_case,
  create_table, postgres_store, connect, read_row, read_rows, read_found, parsed,
}
use vaultwatch.CaseStore.Ordering.{Orders, Orders-Piles, Piles-where}
use vaultwatch.CaseStore.Saves.{
  with_result, take-map, with_found, find_row-map, in_memory, in_memory-recent, in_memory-get,
  rows_of, length-rows, Rises, save_timed, cases_of, table_of, Piles-times, Piles-ids,
  selected_cases, first-where,
}

-- What PostgreSQL and the pool promise: a connection, and rows in order.
pub record Promises (sql : Sql) : Type 0 where
  pub acquires : (db : Postgres) → sql.acquire db ≡ (ok tt, db)
  pub orders : (key : Case → ℕ) (cases : List Case) → Orders key cases (sql.order_by_desc key cases)

module _ (rt : Runtime) (sql : Sql) (promises : Promises sql) (text : Dict rt.Num → String)
    (reread : Dict rt.Num → Json rt.Num) where
  open rt use {Num}

  -- Each save can be stored: its texts may stand in their columns, its result has a JSONB value, and that
  -- value's text is read back.
  abbrev pub Storable : List (ℕ × Row (Dict Num)) → Type 0
  Storable [] = Unit
  Storable (s ∷ saves) =
      (sql.takes_text s.1.transaction_id ≡ true)
      × (sql.takes_text s.1.account_id ≡ true)
      × (sql.jsonb (rt.dumps s.1.result) ≡ some (text s.1.result))
      × (rt.loads (text s.1.result) ≡ some (reread s.1.result))
      × Storable saves

  -- the database with the saves in its table
  abbrev Keeps : List (ℕ × Row (Dict Num)) → Postgres → Type 0
  Keeps saves db = (db.cases ≡ some (table_of text saves)) × (db.last_id ≡ length saves)

  save-Keeps :
      (s : ℕ × Row (Dict Num)) (saves : List (ℕ × Row (Dict Num))) (db : Postgres)
      → Keeps saves db
      → Storable (s ∷ saves)
      → (db' : Postgres) × ((postgres_store rt sql).save s.1.transaction_id s.1.account_id
            s.1.result
            (record db { now = s.0 })
          ≡ (ok tt, db'))
        × Keeps (s ∷ saves) db'
  unfolding postgres_store insert_case
  save-Keeps s saves db (k, l) (a, b, j, _, _) = (
    record { cases = some (table_of text (s ∷ saves)); last_id = suc (length saves); now = s.0 },
    rw (promises.acquires (record db { now = s.0 }), k, a, b, j, l) refl,
    (refl, refl),
  )

  save_timed-Keeps :
      (saves : List (ℕ × Row (Dict Num))) (db : Postgres)
      → Keeps [] db
      → Storable saves
      → (db' : Postgres) × (save_timed (postgres_store rt sql) saves db ≡ (ok tt, db'))
        × Keeps saves db'
  unfolding save_timed
  save_timed-Keeps [] db k h = (db, refl, k)
  save_timed-Keeps (s ∷ saves) db k h =
      let (db₁, e, k₁) = save_timed-Keeps saves db k h.4 in
      let (db₂, e₂, k₂) = save-Keeps s saves db₁ k₁ h in (db₂, rw e e₂, k₂)

  -- the results can be read back
  abbrev Readable : List (Row (Dict Num)) → Type 0
  Readable [] = Unit
  Readable (row ∷ rows) = (rt.loads (text row.result) ≡ some (reread row.result)) × Readable rows

  Readable-rows : (saves : List (ℕ × Row (Dict Num))) → Storable saves → Readable (rows_of saves)
  Readable-rows [] h = tt
  Readable-rows (s ∷ saves) h = (h.3, Readable-rows saves h.4)

  Readable-take : (n : ℕ) (rows : List (Row (Dict Num))) → Readable rows → Readable (take n rows)
  Readable-take zero rows h = tt
  Readable-take (suc n) [] h = tt
  Readable-take (suc n) (row ∷ rows) h = (h.0, Readable-take n rows h.1)

  read_row-eq :
      (row : Row (Dict Num)) (db : Postgres)
      → rt.loads (text row.result) ≡ some (reread row.result)
      → read_row rt (with_result text row) db ≡ (ok (with_result reread row), db)
  unfolding read_row
  read_row-eq row db h =
      ap (λ o. continue (λ v. pure (with_result (λ _. v) row)) (parsed rt o, db)) h

  read_rows-eq :
      (rows : List (Row (Dict Num))) (db : Postgres)
      → Readable rows
      → read_rows rt (map (with_result text) rows) db ≡ (ok (map (with_result reread) rows), db)
  unfolding read_rows
  read_rows-eq [] db h = refl
  read_rows-eq (row ∷ rows) db h = rw (read_row-eq row db h.0, read_rows-eq rows db h.1) refl

  found-eq :
      (id : String) (rows : List (Row (Dict Num))) (db : Postgres)
      → Readable rows
      → read_found rt (with_found text (find_row id rows)) db
        ≡ (ok (with_found reread (find_row id rows)), db)
  unfolding find_row
  found-eq id [] db h = refl
  found-eq id (row ∷ rows) db h = elim (Bool-cases (row.transaction_id == id)) [
    | inl here ↦ simp here (ap (continue λ r. pure (some r)) (read_row-eq row db h.0))
    | inr elsewhere ↦ simp elsewhere (found-eq id rows db h.1)
  ]

  recent-eq :
      (saves : List (ℕ × Row (Dict Num))) (limit : ℕ) (db : Postgres)
      → Keeps saves db
      → Rises saves
      → Storable saves
      → (postgres_store rt sql).recent limit db
        ≡ (ok (map (with_result reread) (take limit (rows_of saves))), db)
  unfolding postgres_store select_recent
  recent-eq saves limit db (k, l) rises h =
      let cases = cases_of text saves in
      let ordered : sql.order_by_desc (λ c. c.created_at) (table_of text saves) ≡ cases =
        Orders-Piles (λ c. c.created_at) (table_of text saves) cases _
          (Piles-times text saves rises)
          (promises.orders (λ c. c.created_at) (table_of text saves)) in
      let rows : map selected (take limit cases)
          ≡ map (with_result text) (take limit (rows_of saves)) =
        sym (take-map selected limit cases)
        ∙ ap (take limit) (selected_cases text saves)
        ∙ take-map (with_result text) limit (rows_of saves) in
      simp (promises.acquires db, k, ordered, rows)
        (read_rows-eq (take limit (rows_of saves)) db
          (Readable-take limit (rows_of saves) (Readable-rows saves h)))

  get-eq :
      (saves : List (ℕ × Row (Dict Num))) (id : String) (db : Postgres)
      → Keeps saves db
      → Storable saves
      → (postgres_store rt sql).get id db
        ≡ (ok (with_found reread (find_row id (rows_of saves))), db)
  unfolding postgres_store select_case
  get-eq saves id db (k, l) h =
      let cases = where_transaction id (cases_of text saves) in
      let table = where_transaction id (table_of text saves) in
      let ordered : sql.order_by_desc (λ c. c.id) table ≡ cases =
        Orders-Piles (λ c. c.id) table cases _
          (Piles-where (λ c. c.id) id (table_of text saves) (cases_of text saves)
            (Piles-ids text saves))
          (promises.orders (λ c. c.id) table) in
      let found : first (map selected (take 1 cases))
          ≡ with_found text (find_row id (rows_of saves)) =
        first-where id (cases_of text saves)
        ∙ ap (find_row id) (selected_cases text saves)
        ∙ find_row-map text id (rows_of saves) in
      simp (promises.acquires db, k, ordered, found)
        (found-eq id (rows_of saves) db (Readable-rows saves h))

  -- With connections to be had from the pool and with rows that come back in the order asked for, rows of
  -- one key in any order: after connecting to a new database and any saves that it can store, each at
  -- a later `now()` than the one before, and after the same saves into a new in-memory store that
  -- has room for them, both stores give the same answers, whatever the limit and the identifier: the
  -- same rows in the same order, the latest save first, each result as its JSONB value is read back.
  pub postgres_refines :
      (saves : List (ℕ × Row (Dict Num))) (capacity limit : ℕ) (id : String) (db : Postgres)
      → db.cases ≡ none
      → db.last_id ≡ 0
      → Rises saves
      → Storable saves
      → length saves ≤ capacity
      → (db' : Postgres) × ((connect rt sql >>= λ store. save_timed store saves) db ≡ (ok tt, db'))
        × ((postgres_store rt sql).recent limit db' ≡ (
          ok (map (with_result reread) (recent limit (in_memory capacity (rows_of saves)))),
          db',
        ))
        × ((postgres_store rt sql).get id db'
            ≡ (ok (with_found reread (get id (in_memory capacity (rows_of saves)))), db'))
  unfolding connect create_table
  postgres_refines saves capacity limit id db new fresh rises h fits =
      let db₀ : Postgres = record db { cases = some [] } in
      let (db', e, k) = save_timed-Keeps saves db₀ (refl, fresh) h in
      let room : length (rows_of saves) ≤ capacity = rw (length-rows saves) fits in
      (
        db',
        rw (promises.acquires db, new) e,
        recent-eq saves limit db' k rises h
            ∙ ap (λ xs. (ok (map (with_result reread) xs), db'))
                (sym (in_memory-recent capacity limit (rows_of saves) room)),
        get-eq saves id db' k h
            ∙ ap (λ o. (ok (with_found reread o), db'))
                (sym (in_memory-get capacity id (rows_of saves) room)),
      )
