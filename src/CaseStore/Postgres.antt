-- ===== src/CaseStore/Postgres.antt =====
-- The `CaseStore` protocol of agents-python/app/db.py, and `PostgresCaseStore`, its statements
-- over the table `cases`. What PostgreSQL and asyncpg do with them is a parameter.
use vaultwatch.Base.{
  ℕ, suc, String, Bool, ◌&&◌, Option, none, some, List, [], ◌∷◌, ◌++◌, map, take, ◌==◌,
  if◌then◌else◌,
}
use vaultwatch.Base.Exec.{
  Result, ok, err, value_error, other_exception, Exec, pure, raise, lift, modify, gets, ◌>>=◌, ◌>>◌,
}
use vaultwatch.Runtime.{Runtime}
use vaultwatch.Models.Values.{Json, Dict}
use vaultwatch.CaseStore.{Row, InMemoryCaseStore, save, recent, get}

-- The protocol: `R` is saved, and `S` is given back.
pub record CaseStore (W R S : Type 0) : Type 0 where
  pub save : String → String → R → Exec W Unit
  pub recent : ℕ → Exec W (List (Row S))
  pub get : String → Exec W (Option (Row S))

-- The in-memory store, whose world is the store itself.
abbrev pub memory_store : {R : Type 0} → CaseStore (InMemoryCaseStore R) R R
memory_store = record {
  save = λ transaction_id account_id result. modify (save transaction_id account_id result);
  recent = λ limit. gets (recent limit);
  get = λ id. gets (get id);
}

-- a row of the table `cases`; `result` is the text of the JSONB value
pub record Case : Type 0 where
  pub id : ℕ
  pub transaction_id : String
  pub account_id : String
  pub result : String
  pub created_at : ℕ

-- The database: the table in the order of its insertions, if it has been created, the last number of its
-- `BIGSERIAL`, and what `now()` gives.
pub record Postgres : Type 0 where
  pub cases : Option (List Case)
  pub last_id : ℕ
  pub now : ℕ

-- What PostgreSQL and asyncpg provide: a connection of the pool, `ORDER BY key DESC`, whether a text
-- may stand in a TEXT column, and the text of a text's JSONB value, if it has one.
pub record Sql : Type 0 where
  pub acquire : Exec Postgres Unit
  pub order_by_desc : (Case → ℕ) → List Case → List Case
  pub takes_text : String → Bool
  pub jsonb : String → Option String

-- `CREATE TABLE IF NOT EXISTS cases`
unfoldable pub create_table : Exec Postgres Unit
create_table db =
    (ok tt, record db { cases = some (elim db.cases [ none ↦ [] | some cases ↦ cases ]) })

-- a statement about the table
abbrev pub from_cases :
    {A : Type 0} → Option (List Case) → (List Case → Exec Postgres A) → Exec Postgres A
from_cases none statement = raise (other_exception "UndefinedTableError")
from_cases (some cases) statement = statement cases

-- the row that an insertion adds
abbrev pub inserted : String → String → Option String → List Case → Exec Postgres Unit
inserted transaction_id account_id none cases db = (err (other_exception "DataError"), db)
inserted transaction_id account_id (some value) cases db = (
  ok tt,
  record db {
    cases = some (
        cases
        ++ (record {
          id = suc db.last_id;
          transaction_id = transaction_id;
          account_id = account_id;
          result = value;
          created_at = db.now;
        }
            ∷ []));
    last_id = suc db.last_id;
  },
)

-- `WHERE transaction_id=$1`
unfoldable pub where_transaction : String → List Case → List Case
where_transaction id [] = []
where_transaction id (c ∷ cases) =
    let rest = where_transaction id cases in if c.transaction_id == id then c ∷ rest else rest

-- `fetchrow` gives the first row
abbrev pub first : {A : Type 0} → List A → Option A
first [] = none
first (x ∷ xs) = some x

-- `SELECT transaction_id, account_id, result`
abbrev pub selected : Case → Row String
selected c = record {
  transaction_id = c.transaction_id;
  account_id = c.account_id;
  result = c.result;
}

module _ (sql : Sql) where
  -- `INSERT INTO cases (transaction_id, account_id, result) VALUES ($1, $2, $3)`
  unfoldable pub insert_case : String → String → String → Exec Postgres Unit
  insert_case transaction_id account_id text db =
      from_cases db.cases
        (λ cases.
          if sql.takes_text transaction_id && sql.takes_text account_id
          then inserted transaction_id account_id (sql.jsonb text) cases
          else raise (other_exception "DataError"))
        db

  -- `SELECT ... FROM cases ORDER BY created_at DESC LIMIT $1`
  unfoldable pub select_recent : ℕ → Exec Postgres (List (Row String))
  select_recent limit db =
      from_cases db.cases
        (λ cases. pure (map selected (take limit (sql.order_by_desc (λ c. c.created_at) cases)))) db

  -- `SELECT ... FROM cases WHERE transaction_id=$1 ORDER BY id DESC LIMIT 1`
  unfoldable pub select_case : String → Exec Postgres (Option (Row String))
  unfolding where_transaction
  select_case id db =
      from_cases db.cases
        (λ cases. pure (
          first
            (map selected (take 1 (sql.order_by_desc (λ c. c.id) (where_transaction id cases))))))
        db

module _ (rt : Runtime) where
  open rt use {Num}

  -- what `json.loads` gives or raises
  abbrev pub parsed : Option (Json Num) → Result (Json Num)
  parsed none = err (value_error "JSONDecodeError")
  parsed (some v) = ok v

  unfoldable pub read_row : {W : Type 0} → Row String → Exec W (Row (Json Num))
  read_row row = do
    result ← lift (parsed (rt.loads row.result))
    pure (record {
      transaction_id = row.transaction_id;
      account_id = row.account_id;
      result = result;
    })

  unfoldable pub read_rows : {W : Type 0} → List (Row String) → Exec W (List (Row (Json Num)))
  read_rows [] = pure []
  read_rows (row ∷ rows) = do r ← read_row row; rs ← read_rows rows; pure (r ∷ rs)

  abbrev pub read_found : {W : Type 0} → Option (Row String) → Exec W (Option (Row (Json Num)))
  read_found none = pure none
  read_found (some row) = read_row row >>= λ r. pure (some r)

  module _ (sql : Sql) where
    unfoldable pub postgres_store : CaseStore Postgres (Dict Num) (Json Num)
    unfolding insert_case select_recent select_case read_row read_rows
    postgres_store = record {
      save = λ transaction_id account_id result.
          sql.acquire >> insert_case sql transaction_id account_id (rt.dumps result);
      recent = λ limit. sql.acquire >> select_recent sql limit >>= read_rows;
      get = λ id. sql.acquire >> select_case sql id >>= read_found;
    }

    -- `PostgresCaseStore.connect`, on the pool
    unfoldable pub connect : Exec Postgres (CaseStore Postgres (Dict Num) (Json Num))
    unfolding postgres_store create_table
    connect = sql.acquire >> create_table >> pure postgres_store
