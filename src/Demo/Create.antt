-- ===== src/Demo/Create.antt =====
-- The accounts, logins and distances of `create_scenario` of agents-python/app/demo.py. The Go gateway, the generator of secrets and the
-- mathematics of the great-circle distance are a parameter; a response is what the client reads of it.
use vaultwatch.Base.{
  ℕ, zero, suc, String, ◌<>◌, Bool, true, false, not, ◌&&◌, Option, none, some, List, [], ◌∷◌,
  is_some, if◌then◌else◌,
}
use vaultwatch.Base.Int.{pos}
use vaultwatch.Base.Exec.{
  Exc, value_error, runtime_error, other_exception, Result, ok, err, Exec, pure, raise, lift, ◌>>=◌,
  ◌>>◌,
}
use vaultwatch.Runtime.{Runtime}
use vaultwatch.Models.Values.{Json, Dict, float, str, empty, entry, subscript}
use vaultwatch.SecurityFeed.{Buckets, recent_security_event}
use vaultwatch.Synthetic.{Library, AccountProfile, account_profile, coordinates, other_city}
use vaultwatch.Demo.{Scenario, City, dublin, london, new_york, sydney, DemoRequest}

-- `raise_for_status` raises or not, and `json` gives a value or raises.
pub record Response (N : Type 0) : Type 0 where
  pub raise_for_status : Option Exc
  pub json : Result (Json N)

-- What `create_scenario` uses of the outside. `gateway path body` posts to the gateway, `sleep` waits
-- for 50 milliseconds, and `security` are the orchestrator's recorded login warnings.
pub record Outside (rt : Runtime) (W : Type 0) : Type 1 where
  pub lib : Library rt
  pub clock : W → ℕ × W
  pub uuid_hex : W → String × W
  pub uuid_hex_12 : W → String × W
  pub token_urlsafe : W → String × W
  pub gateway : String → Dict rt.Num → Exec W (Response rt.Num)
  pub sleep : Exec W Unit
  pub security : W → Buckets rt.Num
  pub radians : rt.Num → rt.Num
  pub sin : rt.Num → rt.Num
  pub cos : rt.Num → rt.Num
  pub asin : rt.Num → rt.Num
  pub sqrt : rt.Num → rt.Num
  pub square : rt.Num → rt.Num
  pub round1 : rt.Num → rt.Num

abbrev pub city_name : City → String
city_name dublin = "Dublin"
city_name london = "London"
city_name new_york = "New York"
city_name sydney = "Sydney"

abbrev pub scenario_name : Scenario → String
scenario_name Scenario.normal = "normal"
scenario_name Scenario.review = "review"
scenario_name Scenario.unusual = "unusual"
scenario_name Scenario.sanctions = "sanctions"
scenario_name Scenario.takeover = "takeover"

-- `request.scenario not in {"normal", "review"}`
abbrev pub is_risky : Scenario → Bool
is_risky Scenario.normal = false
is_risky Scenario.review = false
is_risky Scenario.unusual = true
is_risky Scenario.sanctions = true
is_risky Scenario.takeover = true

abbrev pub is_normal : Scenario → Bool
is_normal Scenario.normal = true
is_normal _ = false

abbrev pub is_review : Scenario → Bool
is_review Scenario.review = true
is_review _ = false

abbrev pub is_sanctions : Scenario → Bool
is_sanctions Scenario.sanctions = true
is_sanctions _ = false

abbrev pub is_takeover : Scenario → Bool
is_takeover Scenario.takeover = true
is_takeover _ = false

-- where the payment takes place
abbrev pub place : {N : Type 0} → DemoRequest N → City
place request = if is_risky request.scenario then request.destination else request.origin

module _ (rt : Runtime) {W : Type 0} (out : Outside rt W) where
  open rt use {Num}
  open out use {lib}

  abbrev pub num : ℕ → Num
  num n = rt.of_ℤ (pos n)

  abbrev pub read : {A : Type 0} → (W → A × W) → Exec W A
  read f w = let (a, w') = f w in (ok a, w')

  -- `40 <= profile.typical_amount <= 65`
  abbrev pub is_representative : AccountProfile Num → Bool
  is_representative p = rt.le (num 40) p.typical_amount && rt.le p.typical_amount (num 65)

  -- The first of `n` demo accounts, from the `i`th on, with a representative profile. Inside a coroutine
  -- the `StopIteration` of a `next` that finds none becomes a `RuntimeError`.
  unfoldable pub demo_account : ℕ → ℕ → Result String
  demo_account i zero = err (runtime_error "coroutine raised StopIteration")
  demo_account i (suc n) =
      let account = "acct_demo_" <> rt.show_int (pos i) in
      let later = demo_account (suc i) n in
      elim (account_profile rt lib account) [
        | err e ↦ err e
        | ok p ↦ if is_representative p then ok account else later
      ]

  unfoldable pub distance_km : City → City → Num
  distance_km origin destination =
      let (a, b) = coordinates rt origin in
      let (c, d) = coordinates rt destination in
      let lat1 = out.radians a in
      let lon1 = out.radians b in
      let lat2 = out.radians c in
      let lon2 = out.radians d in
      let x = rt.add (out.square (out.sin (rt.div (rt.sub lat2 lat1) (num 2)))) (
        rt.mul (rt.mul (out.cos lat1) (out.cos lat2))
          (out.square (out.sin (rt.div (rt.sub lon2 lon1) (num 2))))) in
      let root = out.sqrt x in
      rt.mul (num 12742) (out.asin (if rt.lt root (num 1) then root else num 1))

  abbrev checked : Response Num → Exec W Unit
  checked response = elim response.raise_for_status [ none ↦ pure tt | some e ↦ raise e ]

  -- An account's identifier is a text by the gateway's contract. Another value is refused here, where
  -- Python carries it on to its first use as a text.
  abbrev account_of : Json Num → Result String
  account_of (str s) = ok s
  account_of _ = err (other_exception "AttributeError")

  unfoldable pub login : String → String → City → Exec W (Dict Num)
  login email password city = do
    response ← out.gateway "/auth/login" (
        entry "email" (str email) (
          entry "password" (str password) (
            entry "lat" (float (coordinates rt city).0)
              (entry "lon" (float (coordinates rt city).1) empty))))
    checked response
    now ← read out.clock
    pure (
        entry "location" (str (city_name city)) (
          entry "lat" (float (coordinates rt city).0) (
            entry "lon" (float (coordinates rt city).1) (
              entry "timestamp" (str (lib.isoformat now))
                (entry "source" (str "Go authentication service") empty)))))

  -- `orchestrator._recent_security_event(account_id)`, as a condition
  unfoldable pub has_arrived : String → Exec W Bool
  has_arrived account = do
    now ← read out.clock
    (λ w. (ok (is_some (recent_security_event (out.security w) account now)), w))

  -- the loop of at most `n` looks, with its `else` clause
  unfoldable pub await_event : ℕ → String → Exec W Unit
  await_event zero account =
      raise
        (runtime_error "Go logins succeeded but their security event did not arrive through Redis.")
  await_event (suc n) account = has_arrived account >>= λ arrived. elim arrived [
    | true ↦ pure tt
    | false ↦ out.sleep >> await_event n account
  ]

  -- the branch of the takeover: a new account, two logins, and their warning
  unfoldable pub sign_in : DemoRequest Num → Exec W (String × List (Dict Num))
  sign_in request =
      if not (other_city request.origin (place request))
      then raise
          (value_error "Choose different origin and payment locations for the takeover scenario.")
      else (do
        hex ← read out.uuid_hex
        password ← read out.token_urlsafe
        let email = "demo-" <> hex <> "@example.invalid"
        response ←
            out.gateway "/auth/register"
              (entry "email" (str email) (entry "password" (str password) empty))
        checked response
        body ← lift response.json
        id ← lift (subscript body "id")
        account ← lift (account_of id)
        first ← login email password request.origin
        second ← login email password (place request)
        await_event 60 account
        pure (account, first ∷ second ∷ []))
