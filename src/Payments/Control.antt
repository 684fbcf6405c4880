-- ===== src/Payments/Control.antt =====
-- `apply_payment_control`: only an allowed payment whose policy record was verified is simulated,
-- and nothing but a cancellation stops it from deciding.
use vaultwatch.Base.{
  false, is_some, length, length-append, ◌+◌, if◌then◌else◌, ◌∷◌, ℕ, ◌≡◌, ◌++◌, ◌≢◌, ◌⊎◌, refl, ap,
  Bool, true, Option, none, some, [], arith,
}
use vaultwatch.Base.Exec.{cancelled}
use vaultwatch.Base.Exec.Ends.{Ends, Ends-continue, Ends-caught}
use vaultwatch.Runtime.{Runtime}
use vaultwatch.Models.Values.{subscript}
use vaultwatch.CaseRecord.{
  CaseEvent, Audit, allow, hold, verified, failed, unavailable, not_configured, AuditStatus,
  PaymentEvent, Payment, PipelineResult,
}
use vaultwatch.Audit.Waits.{after-call, after-lift}
use vaultwatch.Audit.{AuditService, Run, is_failed}
use vaultwatch.Payments.{
  payment_policy, simulate_execution, persist, audit_payment, withheld, settle,
  apply_payment_control,
}

module _ (rt : Runtime) {W : Type 0} (clock : W → ℕ × W) where
  open rt use {Num}

  -- Only the audit part of the result has changed.
  abbrev OnlyAudit : Run Num W → Run Num W → Type 0
  OnlyAudit s s' = s'.result ≡ record s.result { audit = s'.result.audit }

  pub record IsExtended (audit : Option (AuditService Num W)) (a a' : Audit Num) : Type 0 where
    pub extended :
        is_some audit ≡ true
        → a'.status ≡ verified
        → (a.errors ≡ []) × (a'.errors ≡ []) × (length a'.entries ≡ length a.entries + 1)
    pub absent : is_some audit ≡ false → a' ≡ a

  with_audit :
      (r r' : PipelineResult Num) (a : Audit Num)
      → r' ≡ record r { audit = r'.audit }
      → ◌≡◌ {A = PipelineResult Num} (record r' { audit = a }) (record r { audit = a })
  with_audit r r' a h = ap {B = PipelineResult Num} (λ r. record r { audit = a }) h

  -- `recorded` only with a verified record without errors; a configured audit that ends verified has one
  -- more receipt, and an audit that is not configured is left alone.
  abbrev Recorded : Option (AuditService Num W) → Run Num W → Bool → Run Num W → Type 0
  Recorded audit s recorded s' =
      OnlyAudit s s'
      × (recorded ≡ true → (s'.result.audit.status ≡ verified) × (s'.result.audit.errors ≡ []))
      × IsExtended audit s.result.audit s'.result.audit

  not_verified :
      (status : AuditStatus) → (if is_failed status then status else unavailable) ≢ verified
  not_verified not_configured h = cc
  not_verified verified h = cc
  not_verified failed h = cc
  not_verified unavailable h = cc

  persist-Recorded :
      (audit : AuditService Num W) (event : PaymentEvent) (s : Run Num W)
      → Ends (Recorded (some audit) s) (λ _ s'. OnlyAudit s s') (persist rt clock audit event s)
  unfolding persist
  persist-Recorded audit event s =
      after-call _ _ s (λ e w _. refl)
        λ receipt w _.
          after-call _ _ _ (λ e w _. refl)
            λ verification w₂ _.
              after-lift (subscript verification "valid") _ _ (λ e _. refl)
                λ valid _. record {
                  at = (
                    refl,
                    λ h. ground arith,
                    record {
                      extended = λ _ h.
                          ground (arith, length-append s.result.audit.entries (receipt ∷ []));
                      absent = λ h. cc;
                    },
                  );
                }

  audit_payment-Recorded :
      (audit : Option (AuditService Num W)) (event : PaymentEvent) (s : Run Num W)
      → Ends
          (Recorded audit s)
          (λ e s'. (e ≡ cancelled) × OnlyAudit s s')
          (audit_payment rt clock audit event s)
  unfolding audit_payment
  audit_payment-Recorded none event s = record {
    at = (refl, λ h. cc, record { extended = λ h. cc; absent = λ _. refl });
  }
  audit_payment-Recorded (some audit) event s =
      Ends-caught _ _ (persist-Recorded audit event s)
        (λ e s' h. record {
          at = (
            with_audit s.result s'.result _ h,
            λ h. cc,
            record {
              extended = λ _ h. absurd (not_verified s'.result.audit.status h);
              absent = λ h. cc;
            },
          );
        })
        λ s' h. (refl, h)

  -- What a decided payment is, by the result that it was decided on and the result after it.
  pub record IsDecided (r r' : PipelineResult Num) (p : Payment Num) : Type 0 where
    pub stored : r'.payment ≡ some p
    pub policy : p.policy_action ≡ (payment_policy r).0
    pub kept : (p.action ≡ p.policy_action) ⊎ ((p.policy_action ≡ allow) × (p.action ≡ hold))
    pub executed :
        p.action ≡ allow
        → (p.simulation_receipt ≡ some (simulate_execution rt r.transaction))
          × (r'.audit.status ≡ verified)
          × (r'.audit.errors ≡ [])
    pub withheld : p.action ≢ allow → p.simulation_receipt ≡ none

  -- What the control leaves of the result that it was given.
  pub record IsControlled (audit : Option (AuditService Num W)) (r r' : PipelineResult Num)
      : Type 0 where
    pub payment : Payment Num
    pub event : CaseEvent Num
    pub decided : IsDecided r r' payment
    pub rest :
        r' ≡ record r { events = r.events ++ event ∷ []; audit = r'.audit; payment = some payment }
    pub trail : IsExtended audit r.audit r'.audit

  settle-IsControlled :
      (audit : Option (AuditService Num W)) (r r' : PipelineResult Num) (timestamp : ℕ)
      (e : CaseEvent Num) (recorded : Bool)
      → r' ≡ record r { events = r.events ++ e ∷ []; audit = r'.audit }
      → (recorded ≡ true → (r'.audit.status ≡ verified) × (r'.audit.errors ≡ []))
      → IsExtended audit r.audit r'.audit
      → IsControlled audit r (record r' {
        payment = some (
            settle rt clock
              (payment_policy r).0
              timestamp
              (withheld rt clock recorded (payment_policy r))
              r'.transaction);
      })
  unfolding settle withheld
  settle-IsControlled audit r r' timestamp e recorded same good trail =
      let tx = ap (λ x. x.transaction) same in
      let p : Payment Num =
        settle rt clock (payment_policy r).0 timestamp
          (withheld rt clock recorded (payment_policy r)) r'.transaction in
      record {
        payment = p;
        event = e;
        decided = record {
          stored = refl;
          policy = refl;
          kept = ground arith;
          executed = λ h. ground arith;
          withheld = λ h. ground arith;
        };
        rest = ap {B = PipelineResult Num} (λ x. record x { payment = some p }) same;
        trail = trail;
      }

  -- From any run the control either is cancelled, or stores a payment whose policy decision is that of
  -- the evidence, whose action is that decision or holds an allowed payment, which has a simulation
  -- receipt exactly if it is allowed, and is allowed only with a verified audit without errors. It
  -- appends one event, and where a configured audit ends verified, one receipt.
  pub control_decides :
      (audit : Option (AuditService Num W)) (s : Run Num W)
      → Ends
          (λ _ s'. IsControlled audit s.result s'.result)
          (λ e _. e ≡ cancelled)
          (apply_payment_control rt clock audit s)
  unfolding apply_payment_control
  control_decides audit s =
      Ends-continue _ _ (audit_payment-Recorded audit _ _) (λ e s' h. h.0)
        λ recorded s' h. record {
          at = settle-IsControlled audit s.result s'.result _ _ recorded h.0 h.1 h.2;
        }
