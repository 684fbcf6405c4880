-- ===== src/Synthetic/Feed.antt =====
-- The scoring contexts and the demo transactions of agents-python/app/synthetic.py.
use vaultwatch.Base.{
  ℕ, ◌-◌, String, ◌<>◌, Bool, Option, none, some, List, last?, map, truthy, ltb, if◌then◌else◌,
}
use vaultwatch.Base.Int.{pos}
use vaultwatch.Base.Exec.{Result, ok, err, other_exception, Exec, pure, lift, ◌>>=◌}
use vaultwatch.Runtime.{Runtime}
use vaultwatch.Models.{Transaction, ScoringContext}
use vaultwatch.Models.Values.{Dict, float, str, empty, entry}
use vaultwatch.Synthetic.{
  City, cities, other_cities, Library, draw, element, AccountProfile, coordinates, at_least_one,
  choice, identifier, run_from, account_profile, generate_transaction_history,
}

-- `timedelta(hours=1)`, in microseconds
abbrev pub one_hour : ℕ
one_hour = 3600000000

-- `now - timedelta(hours=1)`, where no time precedes `datetime.min`
abbrev pub hour_before : ℕ → Result ℕ
hour_before now =
    if ltb now one_hour then err (other_exception "OverflowError") else ok (now - one_hour)

module _ (rt : Runtime) (lib : Library rt) where
  open rt use {Num}
  open lib use {State}

  abbrev pub location : City → ℕ → Dict Num
  location city seen =
      let (lat, lon) = coordinates rt city in
      entry "lat" (float lat)
        (entry "lon" (float lon) (entry "timestamp" (str (lib.isoformat seen)) empty))

  -- `amounts[-1]`
  unfoldable pub last_amount : List Num → Result Num
  last_amount xs = elim (last? xs) [ none ↦ err (other_exception "IndexError") | some x ↦ ok x ]

  unfoldable pub assemble_context : String → Option ℕ → ℕ → Exec Unit (ScoringContext Num)
  assemble_context account last_seen now = do
    profile ← lift (account_profile rt lib account)
    history ← lift (generate_transaction_history rt lib account 12)
    let amounts = map (λ r. r.amount) history
    seen ← lift (elim last_seen [ none ↦ hour_before now | some seen ↦ ok seen ])
    latest ← lift (last_amount amounts)
    pure (record {
      recent_amounts = amounts;
      recent_count_last_hour = pos 1;
      recent_sum_last_hour = latest;
      known_beneficiaries = profile.known_beneficiaries;
      known_devices = profile.known_devices;
      last_location = some (location profile.home_city seen);
    })

  -- `build_scoring_context`, which does not use its amount; `now` is the clock
  unfoldable pub build_scoring_context : String → Option ℕ → ℕ → Result (ScoringContext Num)
  build_scoring_context account last_seen now = run_from tt (assemble_context account last_seen now)

  -- the account of a demo transaction: the one that is given, or a new one
  unfoldable pub chosen_account : Option String → Exec State String
  chosen_account none = identifier rt lib "acct_" 10000 99999
  chosen_account (some account) =
      if truthy account then pure account else identifier rt lib "acct_" 10000 99999

  unfoldable pub risky_transaction :
      AccountProfile Num → String → ℕ → String → Exec State (Transaction Num)
  risky_transaction profile account now uuid = do
    far ← choice rt lib (other_cities profile.home_city cities)
    factor ← draw (lib.uniform (rt.of_ℤ (pos 15)) (rt.of_ℤ (pos 40)))
    beneficiary ← identifier rt lib "ben_" 100000 999999
    device ← identifier rt lib "dev_" 100000 999999
    pure (record {
      id = "tx_" <> uuid;
      account_id = account;
      amount = lib.round2 (rt.mul profile.typical_amount factor);
      currency = "EUR";
      timestamp = now;
      lat = some (coordinates rt far).0;
      lon = some (coordinates rt far).1;
      beneficiary_name = some "Victor Krantz Holdings";
      beneficiary_id = some beneficiary;
      device_id = some device;
    })

  unfoldable pub ordinary_transaction :
      AccountProfile Num → String → ℕ → String → Exec State (Transaction Num)
  ordinary_transaction profile account now uuid = do
    x ← draw (lib.gauss profile.typical_amount (rt.mul profile.typical_amount (rt.decimal 2 1)))
    beneficiary ← choice rt lib profile.known_beneficiaries
    device ← lift (element profile.known_devices 0)
    pure (record {
      id = "tx_" <> uuid;
      account_id = account;
      amount = at_least_one rt (lib.round2 x);
      currency = "EUR";
      timestamp = now;
      lat = some (coordinates rt profile.home_city).0;
      lon = some (coordinates rt profile.home_city).1;
      beneficiary_name = some "North Quay Supplies";
      beneficiary_id = some beneficiary;
      device_id = some device;
    })

  -- `generate_demo_transaction`, from the state of an unseeded generator; `now` is the clock and
  -- `uuid` is `uuid4().hex[:12]`
  unfoldable pub generate_demo_transaction :
      Bool → Option String → ℕ → String → Exec State (Transaction Num)
  generate_demo_transaction force_risky account_id now uuid = do
    account ← chosen_account account_id
    profile ← lift (account_profile rt lib account)
    (if force_risky
        then risky_transaction profile account now uuid
        else ordinary_transaction profile account now uuid)
