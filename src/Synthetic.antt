-- ===== src/Synthetic.antt =====
-- agents-python/app/synthetic.py: the accounts, histories, graphs, features, contexts and
-- transactions that the demo makes up. The random number generator, `round` and `isoformat` are a
-- parameter; the watchlist is in Llm/Tools.antt.
pub mod Draws
pub mod Accounts
pub mod Baseline
pub mod Feed
pub mod Transactions
pub mod Contexts
use vaultwatch.Base.{
  ℕ, zero, suc, ◌-◌, String, ◌<>◌, Bool, Option, none, some, List, [], ◌∷◌, length, get_elem?,
  last?, map, filter, not, truthy, ltb, if◌then◌else◌,
}
use vaultwatch.Base.Int.{ℤ, pos}
use vaultwatch.Base.Exec.{Result, ok, err, other_exception, Exec, pure, raise, lift, ◌>>=◌}
use vaultwatch.Runtime.{Runtime}
use vaultwatch.Models.{Transaction, ScoringContext}
use vaultwatch.Models.Values.{Dict, float, str, empty, entry}
use vaultwatch.Llm.Tools.{HistoryRow}

-- the four entries of `CITIES`
pub data City : Type 0 where
  dublin london new_york sydney : City

abbrev pub cities : List City
cities = dublin ∷ london ∷ new_york ∷ sydney ∷ []

-- `!=` on the coordinates, which differ from city to city
abbrev pub other_city : City → City → Bool
other_city dublin dublin = Bool.false
other_city london london = Bool.false
other_city new_york new_york = Bool.false
other_city sydney sydney = Bool.false
other_city _ _ = Bool.true

-- `[c for c in CITIES if c != home]`
unfoldable pub other_cities : City → List City → List City
other_cities home [] = []
other_cities home (c ∷ cs) =
    let rest = other_cities home cs in if other_city c home then c ∷ rest else rest

-- Python's library as the generators use it. `index n` is the place of the element that `choice`
-- takes of `n`; `int_16 s` is `int(s, 16)`.
pub record Library (rt : Runtime) : Type 1 where
  pub State : Type 0
  pub seeded : ℕ → State
  pub int_16 : String → ℕ
  pub randint : ℕ → ℕ → State → ℕ × State
  pub index : ℕ → State → ℕ × State
  pub uniform : rt.Num → rt.Num → State → rt.Num × State
  pub gauss : rt.Num → rt.Num → State → rt.Num × State
  pub random : State → rt.Num × State
  pub round2 : rt.Num → rt.Num
  pub isoformat : ℕ → String

abbrev pub draw : {S A : Type 0} → (S → A × S) → Exec S A
draw f s = let (a, s') = f s in (ok a, s')

-- what a body gives that starts with its own generator
abbrev pub run_from : {S A : Type 0} → S → Exec S A → Result A
run_from s m = (m s).0

-- a sequence's element at an index, which may be out of range
abbrev pub element : {A : Type 0} → List A → ℕ → Result A
element xs i = elim (get_elem? xs i) [ none ↦ err (other_exception "IndexError") | some x ↦ ok x ]

-- `[m for _ in range(n)]`
unfoldable pub collect : {S A : Type 0} → ℕ → Exec S A → Exec S (List A)
collect zero m = pure []
collect (suc n) m = do x ← m; xs ← collect n m; pure (x ∷ xs)

pub record AccountProfile (N : Type 0) : Type 0 where
  pub account_id : String
  pub home_city : City
  pub typical_amount : N
  pub known_beneficiaries : List String
  pub known_devices : List String

module _ (rt : Runtime) where
  open rt use {Num}

  abbrev num : ℕ → Num
  num n = rt.of_ℤ (pos n)

  -- `-x` for a positive constant
  abbrev negative : Num → Num
  negative x = rt.sub (num 0) x

  unfoldable pub coordinates : City → Num × Num
  coordinates dublin = (rt.decimal 533498 4, negative (rt.decimal 62603 4))
  coordinates london = (rt.decimal 515072 4, negative (rt.decimal 1276 4))
  coordinates new_york = (rt.decimal 407128 4, negative (rt.decimal 740060 4))
  coordinates sydney = (negative (rt.decimal 338688 4), rt.decimal 1512093 4)

  -- `max(1.0, x)`
  unfoldable pub at_least_one : Num → Num
  at_least_one x = if rt.lt (num 1) x then x else num 1

  module _ (lib : Library rt) where
    open lib use {State}

    unfoldable pub rng_for : String → State
    rng_for key = lib.seeded (lib.int_16 (rt.sha256_16 key))

    unfoldable pub choice : {A : Type 0} → List A → Exec State A
    choice [] = raise (other_exception "IndexError")
    choice (x ∷ xs) = do i ← draw (lib.index (length (x ∷ xs))); lift (element (x ∷ xs) i)

    -- an f-string of a prefix and `rng.randint(low, high)`
    unfoldable pub identifier : String → ℕ → ℕ → Exec State String
    identifier prefix low high = do
      n ← draw (lib.randint low high)
      pure (prefix <> rt.show_int (pos n))

    unfoldable pub draw_profile : String → Exec State (AccountProfile Num)
    draw_profile account = do
      home ← choice cities
      typical ← draw (lib.uniform (num 20) (num 200))
      count ← draw (lib.randint 1 4)
      beneficiaries ← collect count (identifier "ben_" 1000 9999)
      device ← identifier "dev_" 1000 9999
      pure (record {
        account_id = account;
        home_city = home;
        typical_amount = lib.round2 typical;
        known_beneficiaries = beneficiaries;
        known_devices = device ∷ [];
      })

    unfoldable pub account_profile : String → Result (AccountProfile Num)
    account_profile account = run_from (rng_for account) (draw_profile account)

    unfoldable pub history_row : String → AccountProfile Num → ℕ → Exec State (HistoryRow Num)
    history_row account profile i = do
      x ← draw (lib.gauss profile.typical_amount (rt.mul profile.typical_amount (rt.decimal 25 2)))
      beneficiary ← choice profile.known_beneficiaries
      device ← lift (element profile.known_devices 0)
      pure (record {
        id = "tx_hist_" <> account <> "_" <> rt.show_int (pos i);
        amount = at_least_one (lib.round2 x);
        beneficiary_id = beneficiary;
        device_id = device;
      })

    -- the rows from the `i`th on
    unfoldable pub history_rows :
        String → AccountProfile Num → ℕ → ℕ → Exec State (List (HistoryRow Num))
    history_rows account profile i zero = pure []
    history_rows account profile i (suc n) = do
      row ← history_row account profile i
      rows ← history_rows account profile (suc i) n
      pure (row ∷ rows)

    unfoldable pub draw_history : String → ℕ → Exec State (List (HistoryRow Num))
    draw_history account n = do
      profile ← lift (account_profile account)
      history_rows account profile 0 n

    unfoldable pub generate_transaction_history : String → ℕ → Result (List (HistoryRow Num))
    generate_transaction_history account n =
        run_from (rng_for (account <> ":history")) (draw_history account n)

    -- the accounts that `generate_entity_graph` links
    unfoldable pub draw_links : Exec State (List String)
    draw_links = do count ← draw (lib.randint 0 3); collect count (identifier "acct_" 10000 99999)

    unfoldable pub linked_accounts : String → Result (List String)
    linked_accounts account = run_from (rng_for (account <> ":graph")) draw_links

    unfoldable pub baseline_row : Exec State (List Num)
    baseline_row = do
      amount ← draw (lib.gauss (num 60) (num 30))
      z ← draw (lib.gauss (num 0) (num 1))
      hour ← draw (lib.randint 0 23)
      count ← choice (0 ∷ 1 ∷ 1 ∷ 2 ∷ 2 ∷ 3 ∷ [])
      a ← draw lib.random
      b ← draw lib.random
      pure (
          at_least_one amount
          ∷ z
          ∷ num hour
          ∷ num count
          ∷ (if rt.lt a (rt.decimal 5 2) then num 1 else num 0)
          ∷ (if rt.lt b (rt.decimal 2 2) then num 1 else num 0)
          ∷ [])

    unfoldable pub generate_baseline_features : ℕ → ℕ → Result (List (List Num))
    generate_baseline_features n seed = run_from (lib.seeded seed) (collect n baseline_row)
