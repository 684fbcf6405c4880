-- ===== src/Api/Reads.antt =====
-- How the reading routes end.
use vaultwatch.Base.{
  ◌≡◌, ◌⊎◌, inl, inr, refl, Bool, true, false, Option, none, some, String, if◌then◌else◌, ◌<>◌,
}
use vaultwatch.Base.Exec.{
  Exc, value_error, runtime_error, http_error, http_exception, other_exception, cancelled,
  is_exception, Result, ok, err, Exec, continue, caught, pure, raise,
}
use vaultwatch.Base.Exec.Ends.{Ends-self, Ends, Ends-continue}
use vaultwatch.Runtime.{Runtime}
use vaultwatch.Models.Values.{Json}
use vaultwatch.Audit.{AuditService}
use vaultwatch.CaseStore.{Row}
use vaultwatch.Api.{
  Host, Verification, checked, unavailable, Status, load_case, verify_chain, verify_now,
  audit_status, without_http_exception, printable_report, check, answered, gather_checks,
  probe_store, probe_redis, status, has_database,
}

module _ {W A : Type 0} {Q : A → W → Type 0} {E : Exc → W → Type 0} where
  Ends-lift :
      (r : Result A) (w : W)
      → ((a : A) → r ≡ ok a → Q a w)
      → ((e : Exc) → r ≡ err e → E e w)
      → Ends Q E (r, w)
  Ends-lift (ok a) w q x = record { at = q a refl }
  Ends-lift (err e) w q x = record { at = x e refl }

module _ (rt : Runtime) {W S : Type 0} (host : Host rt W S) where
  open rt use {Num}

  -- What is known of the chain, asked at `w` and known at `w'`: the answer of the audit service with the
  -- time, or nothing, where asking it raises, or where there is no audit.
  pub data IsVerification (w : W) : Verification Num → W → Type 0 where
    answers :
        (audit : AuditService Num W)
        → host.services.audit ≡ some audit
        → (answer : Json Num) (asked : W) → audit.verify w ≡ (ok answer, asked)
        → IsVerification w (checked answer (host.clock asked).0) (host.clock asked).1
    fails :
        (audit : AuditService Num W)
        → host.services.audit ≡ some audit
        → (e : Exc) (asked : W) → is_exception e ≡ true
        → audit.verify w ≡ (err e, asked)
        → IsVerification w unavailable asked
    absent : host.services.audit ≡ none → IsVerification w unavailable w

  -- what keeps it from being known: a cancellation of the question
  abbrev pub IsCancelled : Exc → W → W → Type 0
  IsCancelled e w w' =
      (e ≡ cancelled)
      × ((audit : AuditService Num W) × (host.services.audit ≡ some audit)
          × (audit.verify w ≡ (err cancelled, w')))

  -- the answer of an audit, with the time
  abbrev timed : Result (Json Num) × W → Result (Verification Num) × W
  timed = continue λ answer. (λ w. (ok (checked answer (host.clock w).0), (host.clock w).1))

  abbrev settled : Result (Verification Num) × W → Result (Verification Num) × W
  settled r =
      caught (without_http_exception rt host)
        (caught (λ e. raise (http_exception 503 "Audit service unavailable")) r)

  asked :
      (audit : AuditService Num W) (w : W)
      → host.services.audit ≡ some audit
      → (m : Result (Json Num) × W) → audit.verify w ≡ m
      → Ends (λ v w'. IsVerification w v w') (λ e w'. IsCancelled e w w') (settled (timed m))
  asked audit w there (ok answer, w₁) h = record { at = answers audit there answer w₁ h }
  asked audit w there (err cancelled, w₁) h = record { at = (refl, (audit, there, h)) }
  asked audit w there (err (value_error m), w₁) h = record { at = fails audit there _ w₁ refl h }
  asked audit w there (err (runtime_error m), w₁) h = record { at = fails audit there _ w₁ refl h }
  asked audit w there (err (http_error m), w₁) h = record { at = fails audit there _ w₁ refl h }
  asked audit w there (err (http_exception n m), w₁) h = record {
    at = fails audit there _ w₁ refl h;
  }
  asked audit w there (err (other_exception m), w₁) h = record {
    at = fails audit there _ w₁ refl h;
  }

  verified :
      (o : Option (AuditService Num W)) (w : W)
      → host.services.audit ≡ o
      → Ends
          (λ v w'. IsVerification w v w')
          (λ e w'. IsCancelled e w w')
          (settled (timed (verify_chain rt host o w)))
  verified none w there = record { at = absent there }
  verified (some audit) w there = asked audit w there (audit.verify w) refl

  -- A report that is returned is rendered from the stored case of its identifier and from what is known
  -- of the chain: the answer of the audit service, asked after the case was loaded, with the time, or
  -- nothing if asking it raises. What is raised is what loading the case or rendering the report raises,
  -- or a cancellation of the question: no failure of the audit service keeps a report back.
  pub printable_report-Ends :
      {H : Type 0} (render : Row S → Verification Num → Result H) (id : String) (w : W)
      → Ends
          (λ page w'.
            (row : Row S) × (loaded : W) × (v : Verification Num) × (load_case rt host id w
              ≡ (ok row, loaded))
            × IsVerification loaded v w'
            × (render row v ≡ ok page))
          (λ e w'.
            (load_case rt host id w ≡ (err e, w'))
            ⊎ ((row : Row S) × (loaded : W) × (load_case rt host id w ≡ (ok row, loaded))
                × (IsCancelled e loaded w'
                    ⊎ ((v : Verification Num) × IsVerification loaded v w'
                        × (render row v ≡ err e)))))
          (printable_report rt host render id w)
  unfolding printable_report audit_status verify_now
  printable_report-Ends render id w =
      Ends-continue _ _ (Ends-self (load_case rt host id w)) (λ e w' h. inl h)
        λ row w₁ loaded.
          Ends-continue _ _ (verified host.services.audit w₁ refl)
            (λ e w' h. inr (row, w₁, loaded, inl h))
            λ v w₂ known.
              Ends-lift (render row v) w₂ (λ page e. (row, w₁, v, loaded, known, e))
                (λ x e. inr (row, w₁, loaded, inr (v, known, e)))

  -- not the failure of a request
  abbrev pub IsUnforeseen : Exc → Type 0
  IsUnforeseen (http_error _) = ⊥
  IsUnforeseen (value_error _) = Unit
  IsUnforeseen (runtime_error _) = Unit
  IsUnforeseen (http_exception _ _) = Unit
  IsUnforeseen (other_exception _) = Unit
  IsUnforeseen cancelled = Unit

  -- What is said of the service at `url`, from `w` to `w'`: it is online if its answer is a success, and
  -- unavailable if it is another one or if the request fails.
  pub data IsChecked (url : String) (w : W) (x : String) (w' : W) : Type 0 where
    online : host.get url w ≡ (ok true, w') → x ≡ "online" → IsChecked url w x w'
    refused : host.get url w ≡ (ok false, w') → x ≡ "unavailable" → IsChecked url w x w'
    failed :
        (m : String)
        → host.get url w ≡ (err (http_error m), w')
        → x ≡ "unavailable"
        → IsChecked url w x w'

  -- What is said of what `m` looks at: `good` if it returns, and unavailable if it raises.
  pub data IsProbed {A : Type 0} (m : Exec W A) (good : String) (w : W) (x : String) (w' : W)
      : Type 0 where
    found : (a : A) → m w ≡ (ok a, w') → x ≡ good → IsProbed m good w x w'
    lost :
        (e : Exc)
        → is_exception e ≡ true
        → m w ≡ (err e, w')
        → x ≡ "unavailable"
        → IsProbed m good w x w'

  answer :
      (url : String) (w : W) (m : Result Bool × W)
      → host.get url w ≡ m
      → Ends
          (λ x w'. IsChecked url w x w')
          (λ e _. IsUnforeseen e)
          (caught
            (answered rt host)
            (continue (λ success. pure (if success then "online" else "unavailable")) m))
  answer url w (ok true, w') h = record { at = online h refl }
  answer url w (ok false, w') h = record { at = refused h refl }
  answer url w (err (http_error m), w') h = record { at = failed m h refl }
  answer url w (err (value_error m), w') h = record { at = tt }
  answer url w (err (runtime_error m), w') h = record { at = tt }
  answer url w (err (http_exception n m), w') h = record { at = tt }
  answer url w (err (other_exception m), w') h = record { at = tt }
  answer url w (err cancelled, w') h = record { at = tt }

  check-IsChecked :
      (url : String) (w : W)
      → Ends (λ x w'. IsChecked url w x w') (λ e _. IsUnforeseen e) (check rt host url w)
  unfolding check
  check-IsChecked url w = answer url w (host.get url w) refl

  probe :
      {A : Type 0} (m : Exec W A) (good : String) (w : W) (r : Result A × W)
      → m w ≡ r
      → Ends
          (λ x w'. IsProbed m good w x w')
          (λ e _. IsUnforeseen e)
          (caught (λ e. pure "unavailable") (continue (λ _. pure good) r))
  probe m good w (ok a, w') h = record { at = found a h refl }
  probe m good w (err cancelled, w') h = record { at = tt }
  probe m good w (err (value_error x), w') h = record { at = lost _ refl h refl }
  probe m good w (err (runtime_error x), w') h = record { at = lost _ refl h refl }
  probe m good w (err (http_error x), w') h = record { at = lost _ refl h refl }
  probe m good w (err (http_exception n x), w') h = record { at = lost _ refl h refl }
  probe m good w (err (other_exception x), w') h = record { at = lost _ refl h refl }

  -- The two checks from `w` to `w'`, in either order.
  abbrev pub AreChecked : String → String → Bool → W → String × String → W → Type 0
  AreChecked rust_url go_url true w said w' =
      (w₁ : W) × IsChecked go_url w said.1 w₁ × IsChecked rust_url w₁ said.0 w'
  AreChecked rust_url go_url false w said w' =
      (w₁ : W) × IsChecked rust_url w said.0 w₁ × IsChecked go_url w₁ said.1 w'

  -- A status, from `w` to `w'`: what is said of each service is what was found of that service.
  pub record IsStatus (rust_url go_url : String) (w : W) (s : Status) (w' : W) : Type 0 where
    pub mode : s.model_mode ≡ (if host.services.provider.is_live then "live" else "replay")
    pub storage : s.storage ≡ (if has_database rt host then "postgres" else "memory")
    pub python : s.python ≡ "online"
    pub feed : s.security_feed ≡ host.security_feed w
    pub checked_by : W
    pub checks :
        AreChecked
          (rust_url <> "/healthz")
          (go_url <> "/healthz")
          (host.go_first w)
          w
          (s.rust, s.go)
          checked_by
    pub read_by : W
    pub postgres :
        IsProbed
          (host.store.recent 1)
          (if has_database rt host then "online" else "not configured")
          checked_by
          s.postgres
          read_by
    pub pinged_by : W
    pub redis : IsProbed host.ping_redis "online" read_by s.redis pinged_by
    pub checked_at : s.checked_at ≡ (host.clock pinged_by).0
    pub ended : w' ≡ (host.clock pinged_by).1

  both :
      (rust_url go_url : String) (go_first : Bool) (w : W)
      → Ends
          (λ said w'. AreChecked rust_url go_url go_first w said w')
          (λ e _. IsUnforeseen e)
          (gather_checks rt host rust_url go_url go_first w)
  unfolding gather_checks
  both rust_url go_url true w =
      Ends-continue _ _ (check-IsChecked go_url w) (λ e w' h. h)
        λ go w₁ g.
          Ends-continue _ _ (check-IsChecked rust_url w₁) (λ e w' h. h)
            λ rust w₂ r. record { at = (w₁, g, r) }
  both rust_url go_url false w =
      Ends-continue _ _ (check-IsChecked rust_url w) (λ e w' h. h)
        λ rust w₁ r.
          Ends-continue _ _ (check-IsChecked go_url w₁) (λ e w' h. h)
            λ go w₂ g. record { at = (w₁, r, g) }

  -- The status says of each service what was found of it: of the rule engine and the gateway online
  -- exactly if the answer to the request is a success, and unavailable if it is another one or if the
  -- request fails; of the store online, or not configured without a database, if it said, and of
  -- redis online if it said, and unavailable otherwise. One that cannot be reached changes no other
  -- entry, in whichever order the two requests are answered. What is raised is no failed HTTP request.
  pub status-IsStatus :
      (rust_url go_url : String) (w : W)
      → Ends
          (λ s w'. IsStatus rust_url go_url w s w')
          (λ e _. IsUnforeseen e)
          (status rt host rust_url go_url w)
  unfolding status probe_store probe_redis
  status-IsStatus rust_url go_url w =
      Ends-continue _ _ (both (rust_url <> "/healthz") (go_url <> "/healthz") (host.go_first w) w)
        (λ e w' h. h)
        λ said w₁ c.
          Ends-continue _ _
            (probe (host.store.recent 1)
              (if has_database rt host then "online" else "not configured") w₁
              (host.store.recent 1 w₁) refl)
            (λ e w' h. h)
            λ postgres w₂ p.
              Ends-continue _ _ (probe host.ping_redis "online" w₂ (host.ping_redis w₂) refl)
                (λ e w' h. h)
                λ redis w₃ d. record {
                  at = record {
                    mode = refl;
                    storage = refl;
                    python = refl;
                    feed = refl;
                    checked_by = w₁;
                    checks = c;
                    read_by = w₂;
                    postgres = p;
                    pinged_by = w₃;
                    redis = d;
                    checked_at = refl;
                    ended = refl;
                  };
                }
