-- ===== src/Api.antt =====
-- The rest of agents-python/app/main.py: the reading routes, the status, the loop that makes up
-- transactions and the listener to the login warnings. FastAPI, Redis and the HTTP client are parameters.
pub mod Reads
pub mod Listens
use vaultwatch.Base.{
  ℕ, zero, suc, String, ◌<>◌, Bool, true, false, not, Option, none, some, List, [], ◌∷◌, truthy,
  ◌==◌, if◌then◌else◌,
}
use vaultwatch.Base.Int.{pos}
use vaultwatch.Base.Exec.{
  Exc, value_error, runtime_error, http_error, http_exception, other_exception, cancelled, Result,
  ok, err, Exec, pure, raise, lift, gets, modify, try_except, ◌>>=◌, ◌>>◌,
}
use vaultwatch.Runtime.{Runtime}
use vaultwatch.Models.{Transaction, ScoringContext, SecurityEvent}
use vaultwatch.Models.Values.{Json, Dict, obj}
use vaultwatch.CaseRecord.{PipelineResult}
use vaultwatch.Audit.{AuditService}
use vaultwatch.Orchestrator.Wiring.{Services}
use vaultwatch.Orchestrator.{process_transaction}
use vaultwatch.Connections.{Transport, broadcast}
use vaultwatch.SecurityFeed.{Buckets, record_security_event}
use vaultwatch.CaseStore.{Row}
use vaultwatch.CaseStore.Postgres.{CaseStore}
use vaultwatch.Synthetic.{Library}
use vaultwatch.Synthetic.Feed.{generate_demo_transaction}

-- what the manager broadcasts here: a saved case, and a login warning's payload
pub data Push (N : Type 0) : Type 0 where
  case_saved : String → Push N
  security_event : Dict N → Push N

-- a message of the subscription
pub record Message : Type 0 where
  pub type : String
  pub content : String

-- What the routes and the tasks use. `rng` is the state of `random.Random()`; `get url` tells whether
-- the response is a success, and `go_first` which of two requests under way is answered first; `S` is what the case store gives back.
pub record Host (rt : Runtime) (W S : Type 0) : Type 1 where
  pub lib : Library rt
  pub clock : W → ℕ × W
  pub uuid_hex_12 : W → String × W
  pub rng : W → lib.State × W
  pub uniform : ℕ → ℕ → W → rt.Num × W
  pub random : W → rt.Num × W
  pub sleep : rt.Num → Exec W Unit
  pub services : Services rt.Num W
  pub transport : Transport (Push rt.Num) W
  pub store : CaseStore W (PipelineResult rt.Num) S
  pub database_url : Option String
  pub get : String → Exec W Bool
  pub go_first : W → Bool
  pub ping_redis : Exec W Unit
  pub security_feed : W → String
  pub set_security_feed : String → W → W
  pub set_security : Buckets rt.Num → W → W
  pub read_event : Dict rt.Num → Result (SecurityEvent rt.Num)

-- what the report says of the chain
pub data Verification (N : Type 0) : Type 0 where
  checked : Json N → ℕ → Verification N
  unavailable : Verification N

pub record Status : Type 0 where
  pub model_mode : String
  pub python : String
  pub security_feed : String
  pub rust : String
  pub go : String
  pub postgres : String
  pub redis : String
  pub storage : String
  pub checked_at : ℕ

module _ (rt : Runtime) {W S : Type 0} (host : Host rt W S) where
  open rt use {Num}
  open host use {services, store}

  abbrev now : Exec W ℕ
  now w = let (t, w') = host.clock w in (ok t, w')

  unfoldable pub demo_transaction : Bool → Exec W (Transaction Num)
  demo_transaction force_risky w =
      let (s, w₁) = host.rng w in
      let (t, w₂) = host.clock w₁ in
      let (uuid, w₃) = host.uuid_hex_12 w₂ in
      ((generate_demo_transaction rt host.lib force_risky none t uuid s).0, w₃)

  unfoldable pub run_pipeline : Bool → Exec W (PipelineResult Num)
  run_pipeline force_risky = do
    tx ← demo_transaction force_risky
    result ← process_transaction rt services tx none none
    store.save tx.id tx.account_id result
    broadcast host.transport (case_saved tx.id)
    pure result

  -- the `try` block of `_synthetic_transaction_loop`
  unfoldable pub run_and_save : Transaction Num → Exec W Unit
  run_and_save tx = do
    result ← process_transaction rt services tx none none
    store.save tx.id tx.account_id result

  -- one round of it
  unfoldable pub synthetic_round : Exec W Unit
  unfolding run_and_save
  synthetic_round = do
    pause ← (λ w. let (x, w') = host.uniform 4 9 w in (ok x, w'))
    host.sleep pause
    x ← (λ w. let (x, w') = host.random w in (ok x, w'))
    tx ← demo_transaction (rt.lt x (rt.decimal 3 1))
    try_except (run_and_save tx) (λ e. pure tt)

  -- its first `n` rounds
  unfoldable pub synthetic_rounds : ℕ → Exec W Unit
  synthetic_rounds zero = pure tt
  synthetic_rounds (suc n) = synthetic_round >> synthetic_rounds n

  unfoldable pub recent_cases : ℕ → Exec W (List (Row S))
  recent_cases limit = store.recent limit

  abbrev pub required : Option (Row S) → Exec W (Row S)
  required none = raise (http_exception 404 "Case not found")
  required (some row) = pure row

  -- `load_case`, which `case_detail` and `json_report` return
  unfoldable pub load_case : String → Exec W (Row S)
  load_case id = store.get id >>= required

  abbrev pub verify_chain : Option (AuditService Num W) → Exec W (Json Num)
  verify_chain none = raise (other_exception "AttributeError")
  verify_chain (some audit) = audit.verify

  unfoldable pub verify_now : Exec W (Verification Num)
  verify_now = do verification ← verify_chain services.audit; t ← now; pure (checked verification t)

  unfoldable pub audit_status : Exec W (Verification Num)
  audit_status = try_except verify_now (λ e. raise (http_exception 503 "Audit service unavailable"))

  -- `except HTTPException`
  abbrev pub without_http_exception : Exc → Exec W (Verification Num)
  without_http_exception (http_exception _ _) = pure unavailable
  without_http_exception (value_error m) = raise (value_error m)
  without_http_exception (runtime_error m) = raise (runtime_error m)
  without_http_exception (http_error m) = raise (http_error m)
  without_http_exception (other_exception m) = raise (other_exception m)
  without_http_exception cancelled = raise cancelled

  -- `render_report`, which may raise, is given; Reports/Page.antt has it.
  unfoldable pub printable_report :
      {H : Type 0} → (Row S → Verification Num → Result H) → String → Exec W H
  printable_report render id = do
    row ← load_case id
    verification ← try_except audit_status without_http_exception
    lift (render row verification)

  abbrev pub answered : Exc → Exec W String
  answered (http_error _) = pure "unavailable"
  answered (value_error m) = raise (value_error m)
  answered (runtime_error m) = raise (runtime_error m)
  answered (http_exception n m) = raise (http_exception n m)
  answered (other_exception m) = raise (other_exception m)
  answered cancelled = raise cancelled

  -- `check` of `status`
  unfoldable pub check : String → Exec W String
  check url =
      try_except (do success ← host.get url; pure (if success then "online" else "unavailable"))
        answered

  -- `bool(settings.database_url)`
  abbrev pub has_database : Bool
  has_database = elim host.database_url [ none ↦ false | some url ↦ truthy url ]

  unfoldable pub probe_store : Exec W String
  probe_store =
      try_except (store.recent 1 >> pure (if has_database then "online" else "not configured"))
        (λ e. pure "unavailable")

  unfoldable pub probe_redis : Exec W String
  probe_redis = try_except (host.ping_redis >> pure "online") (λ e. pure "unavailable")

  -- `gather` of the two checks of `status`: their answers come in either order, and what the first of
  -- them raises ends the wait for the other.
  unfoldable pub gather_checks : String → String → Bool → Exec W (String × String)
  gather_checks rust_url go_url go_first =
      if go_first
      then (do go ← check go_url; rust ← check rust_url; pure (rust, go))
      else (do rust ← check rust_url; go ← check go_url; pure (rust, go))

  unfoldable pub status : String → String → Exec W Status
  unfolding gather_checks
  status rust_url go_url = do
    feed ← gets host.security_feed
    go_first ← gets host.go_first
    answers ← gather_checks (rust_url <> "/healthz") (go_url <> "/healthz") go_first
    postgres ← probe_store
    redis ← probe_redis
    t ← now
    pure (record {
      model_mode = if services.provider.is_live then "live" else "replay";
      python = "online";
      security_feed = feed;
      rust = answers.0;
      go = answers.1;
      postgres = postgres;
      redis = redis;
      storage = if has_database then "postgres" else "memory";
      checked_at = t;
    })

  -- what the listener does with a message's data; `read_event` is `SecurityEvent(**payload)`
  unfoldable pub take_warning : String → Exec W Unit
  take_warning content = do
    payload ←
        lift
          (elim (rt.loads content) [ none ↦ err (value_error "JSONDecodeError") | some v ↦ ok v ])
    fields ← lift (elim payload [ obj d ↦ ok d | _ ↦ err (other_exception "TypeError") ])
    event ← lift (host.read_event fields)
    t ← now
    modify (λ w. host.set_security (record_security_event event t (services.security w)) w)
    broadcast host.transport (security_event fields)

  -- one message of `pubsub.listen()`
  unfoldable pub on_message : Message → Exec W Unit
  on_message m = do
    (if m.type == "subscribe" then modify (host.set_security_feed "online") else pure tt)
    (if m.type == "message" then try_except (take_warning m.content) (λ e. pure tt) else pure tt)

  unfoldable pub on_messages : List Message → Exec W Unit
  on_messages [] = pure tt
  on_messages (m ∷ ms) = on_message m >> on_messages ms

  -- One connection of `_security_event_listener`, which delivers `messages` and then ends as `ending`
  -- does, and what is done about its end.
  unfoldable pub listen_once : List Message → Exec W Unit → Exec W Unit
  listen_once messages ending = do
    modify (host.set_security_feed "reconnecting")
    try_except (on_messages messages >> ending)
        (λ e. modify (host.set_security_feed "reconnecting"))

  -- a round of the listener, with two seconds of rest
  unfoldable pub listener_round : List Message → Exec W Unit → Exec W Unit
  listener_round messages ending = listen_once messages ending >> host.sleep (rt.of_ℤ (pos 2))
