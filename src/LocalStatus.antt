-- ===== src/LocalStatus.antt =====
-- scripts/local_status.py: the health checks of the local stack and the wait until it is ready. The
-- HTTP requests, the clock, `json.dumps` and the formatting of a value are a parameter; a time is a number of
-- nanoseconds of the monotonic clock.
pub mod Health
pub mod Ready
pub mod Waiting
pub mod Timely
pub mod Expired
use vaultwatch.Base.{
  ℕ, zero, suc, ◌+◌, ◌-◌, String, ◌<>◌, Bool, true, false, not, ◌&&◌, ◌||◌, Option, none, some,
  List, [], ◌∷◌, ◌++◌, contains, min, leb, ltb, ◌==◌, map, if◌then◌else◌, is_some,
}
use vaultwatch.Base.Exec.{
  Exc, value_error, runtime_error, http_error, http_exception, other_exception, cancelled, Result,
  ok, err, Exec, pure, raise, lift, ◌>>=◌, ◌>>◌,
}
use vaultwatch.Models.Values.{Json, Dict, null, bool, str, obj, empty, get}

pub record Stack (N W : Type 0) : Type 0 where
  pub monotonic : W → ℕ × W
  -- `urlopen` with a timeout, with the body read as JSON, and with the response's status
  pub open_json : String → ℕ → Exec W (Json N)
  pub open_status : String → ℕ → Exec W ℕ
  pub sleep : ℕ → Exec W Unit
  pub format : Json N → String
  pub message : Exc → String

abbrev pub second : ℕ
second = 1000000000

abbrev pub expected_services : List String
expected_services = "python" ∷ "rust" ∷ "go" ∷ "postgres" ∷ "redis" ∷ "security_feed" ∷ []

-- `(URLError, TimeoutError, OSError)`
unfoldable pub is_os_error : Exc → Bool
is_os_error (other_exception name) = contains ("URLError" ∷ "TimeoutError" ∷ "OSError" ∷ []) name
is_os_error (value_error _) = false
is_os_error (runtime_error _) = false
is_os_error (http_error _) = false
is_os_error (http_exception _ _) = false
is_os_error cancelled = false

-- these, and `(ValueError, TypeError, AttributeError)`
unfoldable pub is_fetch_error : Exc → Bool
unfolding is_os_error
is_fetch_error (other_exception name) =
    is_os_error (other_exception name) || contains ("TypeError" ∷ "AttributeError" ∷ []) name
is_fetch_error (value_error _) = true
is_fetch_error (runtime_error _) = false
is_fetch_error (http_error _) = false
is_fetch_error (http_exception _ _) = false
is_fetch_error cancelled = false

pub record Report (N : Type 0) : Type 0 where
  pub backend : Option (Json N)
  pub dashboard_http : Option ℕ
  pub audit : Option (Json N)
  pub problems : List String

-- `not problems`
abbrev pub ready : {N : Type 0} → Report N → Bool
ready r = elim r.problems [ [] ↦ true | _ ∷ _ ↦ false ]

unfoldable pub and_then : {A B : Type 0} → Result A → (A → Result B) → Result B
and_then (ok a) f = f a
and_then (err e) f = err e

-- what was read, and what is wrong with it
abbrev pub Seen : Type 0 → Type 0
Seen A = Option A × List String

abbrev pub unless : Bool → String → List String
unless good problem = if good then [] else problem ∷ []

-- `try: m  except errors as e: handler`, for some of the exceptions
abbrev pub caught_if :
    {S A : Type 0} → (Exc → Bool) → (Exc → Exec S A) → Result A × S → Result A × S
caught_if caught handler (ok a, s) = (ok a, s)
caught_if caught handler (err e, s) = if caught e then handler e s else (err e, s)

abbrev pub try_if : {S A : Type 0} → (Exc → Bool) → Exec S A → (Exc → Exec S A) → Exec S A
try_if caught m handler s = caught_if caught handler (m s)

module _ {N : Type 0} where
  -- `x.get(k, default)`, which only a dict has
  abbrev pub get_or : Json N → String → Json N → Result (Json N)
  get_or (obj d) k default = elim (get d k) [ none ↦ ok default | some v ↦ ok v ]
  get_or _ k default = err (other_exception "AttributeError")

  -- `value == text`, `value is True`
  abbrev pub is_text : Json N → String → Bool
  is_text (str s) text = s == text
  is_text _ text = false

  abbrev pub is_true : Json N → Bool
  is_true (bool b) = b
  is_true _ = false

module _ {N W : Type 0} (stack : Stack N W) where
  -- the rest of the time, which the deadline bounds
  unfoldable pub time_left : Option ℕ → Exec W ℕ
  time_left none w = (ok (second + second + second + second + second), w)
  time_left (some deadline) w =
      let (t, w') = stack.monotonic w in
      if leb deadline t
      then (err (other_exception "TimeoutError"), w')
      else (ok (min (second + second + second + second + second) (deadline - t)), w')

  unfoldable pub fetch_json : Option ℕ → String → Exec W (Json N)
  fetch_json deadline url = time_left deadline >>= stack.open_json url

  unfoldable pub fetch_status : Option ℕ → String → Exec W ℕ
  fetch_status deadline url = time_left deadline >>= stack.open_status url

  -- what the services' loop adds
  unfoldable pub service_problems : Json N → List String → Result (List String)
  service_problems services [] = ok []
  service_problems services (name ∷ names) =
      let later = service_problems services names in
      and_then (get_or services name (str "missing")) λ value.
        and_then later
          λ rest. ok (unless (is_text value "online") (name <> ": " <> stack.format value) ++ rest)

  unfoldable pub status_problems : Json N → Result (List String)
  status_problems status = and_then (get_or status "services" (obj empty)) λ services.
      and_then (service_problems services expected_services) λ found.
        and_then (get_or status "storage" null) λ storage.
          and_then (get_or status "model_mode" null) λ mode. ok (
            found
            ++ unless (is_text storage "postgres") "Case storage is not PostgreSQL"
            ++ unless (is_text mode "replay")
                "Expected the local replay profile; model mode is not replay")

  unfoldable pub audit_problems : Json N → Result (List String)
  audit_problems audit = and_then (get_or audit "verify" (obj empty)) λ verify.
      and_then (get_or verify "valid" null)
        λ valid. ok (unless (is_true valid) "Audit chain did not verify")

  -- a document and what is wrong with it; it is kept even if its reading fails
  unfoldable pub inspect_document :
      (Json N → Result (List String)) → String → String → Option ℕ → Exec W (Seen (Json N))
  inspect_document problems url title deadline =
      try_if is_fetch_error
        (fetch_json deadline url >>= λ document.
          try_if is_fetch_error (do found ← lift (problems document); pure (some document, found))
            (λ e. pure (some document, (title <> stack.message e) ∷ [])))
        (λ e. pure (none, (title <> stack.message e) ∷ []))

  unfoldable pub inspect_dashboard : Option ℕ → Exec W (Seen ℕ)
  inspect_dashboard deadline =
      try_if is_os_error
        (do code ← fetch_status deadline "http://127.0.0.1:3000/"; pure (some code, []))
        (λ e. pure (none, ("Dashboard unavailable: " <> stack.message e) ∷ []))

  unfoldable pub inspect_stack : Option ℕ → Exec W (Report N)
  inspect_stack deadline = do
    backend ←
        inspect_document status_problems "http://127.0.0.1:8000/v1/status"
          "Backend status unavailable: " deadline
    dashboard ← inspect_dashboard deadline
    audit ←
        inspect_document audit_problems "http://127.0.0.1:8000/v1/audit"
          "Audit verification unavailable: " deadline
    pure (record {
      backend = backend.0;
      dashboard_http = dashboard.0;
      audit = audit.0;
      problems = backend.1 ++ dashboard.1 ++ audit.1;
    })

  abbrev pub now : Exec W ℕ
  now w = let (t, w') = stack.monotonic w in (ok t, w')

  -- The loop of `wait_until_ready` with a deadline; `none` is a run out of fuel.
  unfoldable pub wait_rounds : ℕ → ℕ → Exec W (Option (Report N))
  wait_rounds zero deadline = pure none
  wait_rounds (suc fuel) deadline = do
    result ← inspect_stack (some deadline)
    t ← now
    elim (ready result || leb deadline t) [
      | true ↦ pure (some result)
      | false ↦ (do u ← now; stack.sleep (min second (deadline - u)); wait_rounds fuel deadline)
    ]

  -- `wait_until_ready`, with fuel for its loop
  unfoldable pub wait_until_ready : ℕ → ℕ → Exec W (Option (Report N))
  wait_until_ready fuel zero = do result ← inspect_stack none; pure (some result)
  wait_until_ready fuel (suc n) = do t ← now; wait_rounds fuel (t + suc n)

  -- the exit status of `main` for a report
  abbrev pub exit_status : Report N → ℕ
  exit_status r = if ready r then 0 else 1
