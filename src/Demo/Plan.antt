-- ===== src/Demo/Plan.antt =====
-- The transaction, the context and the review notes that `create_scenario` of
-- agents-python/app/demo.py makes of a request.
use vaultwatch.Base.{
  ℕ, String, ◌<>◌, Bool, true, not, Option, none, some, List, [], ◌∷◌, length, contains,
  if◌then◌else◌,
}
use vaultwatch.Base.Int.{pos}
use vaultwatch.Base.Exec.{Result, ok, err, Exec, pure, lift, ◌>>=◌}
use vaultwatch.Runtime.{Runtime}
use vaultwatch.Models.{Transaction, ScoringContext}
use vaultwatch.Models.Values.{Dict, Items, nil, cons, bool, int, float, str, arr, obj, empty, entry}
use vaultwatch.Synthetic.{AccountProfile, account_profile, coordinates, element}
use vaultwatch.Synthetic.Feed.{build_scoring_context, location, hour_before}
use vaultwatch.Demo.{DemoRequest}
use vaultwatch.Demo.Create.{
  Outside, city_name, scenario_name, is_risky, is_normal, is_review, is_sanctions, is_takeover,
  place, num, read, demo_account, distance_km, sign_in,
}

module _ (rt : Runtime) {W : Type 0} (out : Outside rt W) (request : DemoRequest rt.Num) where
  open rt use {Num}
  open out use {lib}

  -- the payment's amount, from the request or the scenario
  unfoldable pub amount_of : AccountProfile Num → Num
  amount_of profile = elim request.amount [
    | none ↦ if is_risky request.scenario then num rt out 4200 else profile.typical_amount
    | some x ↦ x
  ]

  unfoldable pub beneficiary_of : AccountProfile Num → Result String
  beneficiary_of profile =
      if is_risky request.scenario then ok "ben_demo_new" else element profile.known_beneficiaries 0

  unfoldable pub device_of : AccountProfile Num → Result String
  device_of profile =
      if is_normal request.scenario then element profile.known_devices 0 else ok "dev_demo_new"

  -- the transaction, once its recipient and its device are found
  abbrev pub addressed :
      AccountProfile Num
      → String
      → ℕ
      → String
      → Result String
      → Result String
      → Result (Transaction Num)
  addressed profile account now uuid (err e) device = err e
  addressed profile account now uuid (ok beneficiary) (err e) = err e
  addressed profile account now uuid (ok beneficiary) (ok device) = ok (record {
    id = "tx_" <> uuid;
    account_id = account;
    amount = amount_of profile;
    currency = "EUR";
    timestamp = now;
    lat = some (coordinates rt (place request)).0;
    lon = some (coordinates rt (place request)).1;
    beneficiary_name =
        some (
          if is_sanctions request.scenario
          then "Victor Krantz Holdings"
          else "North Quay Supplies");
    beneficiary_id = some beneficiary;
    device_id = some device;
  })

  unfoldable pub transaction_of :
      AccountProfile Num → String → ℕ → String → Result (Transaction Num)
  transaction_of profile account now uuid =
      addressed profile account now uuid (beneficiary_of profile) (device_of profile)

  -- the context, with the scenario's burst of payments and its location of an hour ago
  unfoldable pub context_of : Num → Dict Num → ScoringContext Num → ScoringContext Num
  context_of amount seen ctx = record ctx {
    recent_count_last_hour =
        if is_review request.scenario then pos 5 else ctx.recent_count_last_hour;
    recent_sum_last_hour =
        if is_review request.scenario
        then rt.mul amount (num rt out 4)
        else ctx.recent_sum_last_hour;
    last_location = some seen;
  }

  -- `x not in xs` for an optional text
  abbrev is_new : Option String → List String → Bool
  is_new none xs = true
  is_new (some x) xs = not (contains xs x)

  abbrev pub dicts : List (Dict Num) → Items Num
  dicts [] = nil
  dicts (d ∷ ds) = cons (obj d) (dicts ds)

  unfoldable pub notes_of :
      Transaction Num → ScoringContext Num → Dict Num → ℕ → List (Dict Num) → Dict Num
  notes_of tx ctx seen now logins =
      let km = distance_km rt out request.origin (place request) in
      let (lat, lon) = coordinates rt (place request) in
      entry "scenario" (str (scenario_name request.scenario)) (
        entry "source" (str "Synthetic local scenario") (
          entry "origin" (obj (entry "name" (str (city_name request.origin)) seen)) (
            entry "current_location"
              (obj (
                entry "name" (str (city_name (place request))) (
                  entry "lat" (float lat)
                    (entry "lon" (float lon) (entry "timestamp" (str (lib.isoformat now)) empty)))))
              (entry "distance_km" (float (out.round1 km)) (
                entry "elapsed_minutes" (int (pos 60)) (
                  entry "implied_speed_kmh" (float (out.round1 km)) (
                    entry "baseline_average"
                      (float (
                        lib.round2 (
                          rt.div (rt.sum ctx.recent_amounts)
                            (num rt out (length ctx.recent_amounts)))))
                      (entry "new_device" (bool (is_new tx.device_id ctx.known_devices)) (
                        entry "new_beneficiary"
                          (bool (is_new tx.beneficiary_id ctx.known_beneficiaries))
                          (entry "login_evidence" (arr (dicts logins)) (
                            entry "location_note"
                              (str
                                "Locations are explicit synthetic coordinates, not IP geolocation. Payment history uses a one-hour interval; Go logins have their own actual timestamps.")
                              empty)))))))))))

  -- the account of the scenario, with the evidence of its logins
  unfoldable pub account_for : Exec W (String × List (Dict Num))
  account_for = do
    account ← lift (demo_account rt out 0 1000)
    (if is_takeover request.scenario then sign_in rt out request else pure (account, []))

  -- what the scenario makes for an account
  unfoldable pub case_for :
      String → List (Dict Num) → Exec W (Transaction Num × ScoringContext Num × Dict Num)
  case_for account logins = do
    profile ← lift (account_profile rt lib account)
    now ← read rt out out.clock
    uuid ← read rt out out.uuid_hex_12
    tx ← lift (transaction_of profile account now uuid)
    later ← read rt out out.clock
    ctx ← lift (build_scoring_context rt lib account none later)
    seen_at ← lift (hour_before now)
    let seen = location rt lib request.origin seen_at
    let made = context_of tx.amount seen ctx
    pure (tx, made, notes_of tx made seen now logins)

  unfoldable pub create_scenario : Exec W (Transaction Num × ScoringContext Num × Dict Num)
  create_scenario = do found ← account_for; case_for found.0 found.1
