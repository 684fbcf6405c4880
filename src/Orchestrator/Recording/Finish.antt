-- ===== src/Orchestrator/Recording/Finish.antt =====
-- How a run ends: `finish` records the case, verifies the audit and hands the result to the payment
-- control.
use vaultwatch.Base.{
  ◌+◌, ◌≡◌, refl, ap, ◌∙◌, Bool, true, false, Option, none, some, List, [], ◌∷◌, ◌++◌, arith,
  length, is_some, inl,
}
use mathlib.Core.Path.{subst}
use vaultwatch.Base.Exec.{cancelled}
use vaultwatch.Base.Exec.Ends.{Ends, Ends-continue, Ends-caught, Ends-weaken}
use vaultwatch.Runtime.{Runtime}
use vaultwatch.Models.{Transaction}
use vaultwatch.Models.Values.{subscript}
use vaultwatch.CaseRecord.{Audit, CaseEvent, PipelineResult, Payment, verified, unavailable}
use vaultwatch.Audit.{AuditService, Run, add_error}
use vaultwatch.Audit.Waits.{after-call, after-lift}
use vaultwatch.Payments.Control.{IsDecided, IsControlled, control_decides}
use vaultwatch.Orchestrator.Wiring.{Services}
use vaultwatch.Orchestrator.Recording.{verify_with, verify_audit, finish}
use vaultwatch.Orchestrator.Recording.Rules.{IsRecorded, after-record, TrailRaises}

-- What checking the chain leaves: an audit without errors had none before.
record IsChecked {N : Type 0} (configured : Bool) (a a' : Audit N) : Type 0 where
  clean : a'.errors ≡ [] → (a.errors ≡ []) × (a'.entries ≡ a.entries)
  absent : configured ≡ false → a' ≡ a

append-ne-nil {ℓ} : {A : Type ℓ} (xs : List A) (x : A) → ¬ (xs ++ x ∷ [] ≡ [])
append-ne-nil [] x h = cc
append-ne-nil (y ∷ xs) x h = cc

module _ (rt : Runtime) {W : Type 0} (svc : Services rt.Num W) (tx : Transaction rt.Num) where
  open rt use {Num}

  verify-IsChecked :
      (audit : Option (AuditService Num W)) (s : Run Num W)
      → Ends
          (λ _ s'.
            (s'.result ≡ record s.result { audit = s'.result.audit })
            × IsChecked (is_some audit) s.result.audit s'.result.audit)
          (λ e s'. e ≡ cancelled)
          (verify_with rt svc tx audit s)
  unfolding verify_with
  verify-IsChecked none s = record {
    at = (refl, record { clean = λ h. (h, refl); absent = λ h. refl });
  }
  verify-IsChecked (some audit) s =
      Ends-caught {E = λ e s'. s'.result ≡ record s.result { audit = s'.result.audit }} _ _
        (after-call _ _ s (λ e w h. refl)
          λ verification w h.
            after-lift (subscript verification "valid") _ _ (λ e h. refl)
              λ valid h. record {
                at = (refl, record { clean = λ h. (h, refl); absent = λ h. cc });
              })
        (λ e s' h. record {
          at = (
            ap {B = PipelineResult Num}
                (λ r. record r {
                  audit = record (add_error "Audit verification unavailable" s'.result.audit) {
                    status = unavailable;
                  };
                })
                h,
            record {
              clean = λ h. absurd (append-ne-nil s'.result.audit.errors _ h);
              absent = λ h. cc;
            },
          );
        })
        (λ s' h. refl)

  -- What `finish` leaves of the result that the stages reached.
  pub record IsFinished (r r' : PipelineResult Num) : Type 0 where
    pub before : Audit Num
    pub payment : Payment Num
    pub event : CaseEvent Num
    pub decided : IsDecided rt svc.clock (record r { audit = before }) r' payment
    pub rest :
        r' ≡ record r { events = r.events ++ event ∷ []; audit = r'.audit; payment = some payment }
    pub trail :
        is_some svc.audit ≡ true
        → r'.audit.status ≡ verified
        → (r'.audit.errors ≡ [])
          × (length r'.audit.entries ≡ length r.audit.entries + length r.audit.errors + 2)
    pub absent : is_some svc.audit ≡ false → r'.audit ≡ r.audit

  IsFinished-of :
      (r r' : PipelineResult Num) (a b : Audit Num)
      → IsRecorded (is_some svc.audit) 1 r.audit a
      → IsChecked (is_some svc.audit) a b
      → IsControlled rt svc.clock svc.audit (record r { audit = b }) r'
      → IsFinished r r'
  IsFinished-of r r' a b h k c = record {
    before = b;
    payment = c.payment;
    event = c.event;
    decided = c.decided;
    rest = c.rest;
    trail = λ on good.
        let (clean, none_left, more) = c.trail.extended on good in
        let (clean_before, same) = k.clean clean in
        (none_left, omega (arith, more, ap length same, ap length clean_before, h.count on));
    absent = λ off. c.trail.absent off ∙ k.absent off ∙ h.absent off;
  }

  -- `finish` raises nothing but a cancellation.
  pub finish-IsFinished :
      (s : Run Num W)
      → Ends
          (λ _ s'. IsFinished s.result s'.result)
          (λ e s'. TrailRaises rt svc tx e)
          (finish rt svc tx s)
  unfolding finish verify_audit
  finish-IsFinished s =
      after-record rt svc tx _ _ _ s (λ e s' h. h)
        λ a w h.
          Ends-continue _ _ (verify-IsChecked svc.audit _) (λ e s' h. inl h)
            λ _ s₁ k.
              Ends-weaken _ (control_decides rt svc.clock svc.audit s₁)
                (λ _ s₂ c.
                  IsFinished-of s.result s₂.result a s₁.result.audit h k.1
                    (subst (λ x. IsControlled rt svc.clock svc.audit x s₂.result) k.0 c))
                (λ e s' h. inl h)
