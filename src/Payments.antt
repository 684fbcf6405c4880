-- ===== src/Payments.antt =====
-- agents-python/app/payments.py: the payment policy, the simulator, and the control that applies
-- the one and alone may call the other.
pub mod Policy
pub mod Evidence
pub mod Control
use vaultwatch.Base.{
  ℕ, String, ◌<>◌, Bool, true, false, ◌&&◌, ◌||◌, not, Option, none, some, List, [], ◌∷◌, ◌==◌,
  if◌then◌else◌, is_some,
}
use vaultwatch.Base.Int.{ℤ, pos, leb_ℤ}
use vaultwatch.Base.Exec.{Exec, Exc, gets, pure, lift, try_except, ◌>>=◌, ◌>>◌}
use vaultwatch.Runtime.{Runtime, truth}
use vaultwatch.Models.{
  Transaction, RuleEngineVerdict, PreFilterVerdict, TriageVerdict, CaseFile, Alert, severity_value,
}
use vaultwatch.Models.Values.{Json, subscript}
use vaultwatch.CaseRecord.{
  action_value, Audit, AuditStatus, not_configured, verified, failed, unavailable, Action, allow,
  hold, block, PaymentEvent, payment_event, SimulationReceipt, Payment, PipelineResult,
}
use vaultwatch.Audit.{
  AuditService, Run, event_payload, outside, now, update, update_audit, add_entry, add_error,
  add_event, no_errors, is_failed,
}

abbrev pub policy_version : String
policy_version = "local-demo-v2"

abbrev pub is_allow : Action → Bool
is_allow allow = true
is_allow hold = false
is_allow block = false

abbrev pub is_verified : AuditStatus → Bool
is_verified verified = true
is_verified failed = false
is_verified unavailable = false
is_verified not_configured = false

-- `s == text` where `s` may be `None`
abbrev pub says : Option String → String → Bool
says none text = false
says (some s) text = s == text

abbrev pub sanctions_hit : Option CaseFile → Bool
sanctions_hit none = false
sanctions_hit (some c) = c.sanctions_hit

abbrev pub review_recommended : Option CaseFile → Bool
review_recommended none = false
review_recommended (some c) = c.recommend_compliance_review

module _ {N : Type 0} where
  -- `alert.get("severity") or rules.get("risk_band")`
  unfoldable pub severity_of : Option (Alert N) → Option (RuleEngineVerdict N) → Option String
  unfolding severity_value
  severity_of (some a) _ = some (severity_value a.severity)
  severity_of none (some r) = some r.risk_band
  severity_of none none = none

  abbrev pub high_score : Option (RuleEngineVerdict N) → Bool
  high_score none = false
  high_score (some r) = leb_ℤ (pos 25) r.risk_score

  abbrev pub anomaly : Option (PreFilterVerdict N) → Bool
  anomaly none = false
  anomaly (some p) = p.is_anomaly

  abbrev pub escalated : Option (TriageVerdict N) → Bool
  escalated none = false
  escalated (some t) = t.escalate

  unfoldable pub payment_policy : PipelineResult N → Action × List String
  unfolding severity_of
  payment_policy r =
      if sanctions_hit r.case
      then (block, "Synthetic watchlist match found in the investigation." ∷ [])
      else if says (severity_of r.alert r.rules) "critical"
      then (block, "Critical risk: simulated payment execution is blocked." ∷ [])
      else if says (severity_of r.alert r.rules) "high"
      then (hold, "High risk: payment paused for human review; execution is withheld." ∷ [])
      else if not (is_verified r.audit.status)
      then (hold, "Processing evidence could not be verified; do not proceed." ∷ [])
      else if not (is_some r.rules) || not (is_some r.prefilter)
      then (hold, "Required risk checks are missing." ∷ [])
      else if is_some r.alert
          || high_score r.rules
          || anomaly r.prefilter
          || escalated r.triage
          || review_recommended r.case
      then (hold, "A risk signal remains; a human review is required." ∷ [])
      else (allow, "Completed initial checks found no signal requiring a hold or block." ∷ [])

module _ (rt : Runtime) where
  open rt use {Num}

  unfoldable pub simulate_execution : Transaction Num → SimulationReceipt Num
  simulate_execution tx = record {
    id = "sim_" <> rt.sha256_16 tx.id;
    status = "simulated_complete";
    amount = tx.amount;
    currency = tx.currency;
  }

  module _ {W : Type 0} (clock : W → ℕ × W) where
    payment_record : Transaction Num → ℕ → Action × List String → PaymentEvent
    unfolding action_value
    payment_record tx timestamp (action, reasons) = record {
      transaction_id = tx.id;
      account_id = tx.account_id;
      timestamp = timestamp;
      label = "Payment policy: " <> action_value action;
      policy_version = policy_version;
      action = action;
      reasons = reasons;
      scope = "simulation_only";
    }

    -- the body of the `try`; the value is the final `verified`
    persist : AuditService Num W → PaymentEvent → Exec (Run Num W) Bool
    persist audit event = do
      receipt ←
          outside (
            audit.append event.transaction_id "payment.policy"
              (event_payload (payment_event event)))
      update_audit (add_entry receipt)
      verification ← outside audit.verify
      update_audit (λ a. record a { verification = some verification })
      checked ← now clock
      update_audit (λ a. record a { checked_at = some checked })
      valid ← lift (subscript verification "valid")
      clean ← gets (λ s. no_errors s.result.audit)
      let ok_now = truth rt valid && clean
      update_audit (λ a. record a { status = if ok_now then verified else failed })
      pure ok_now

    -- the `except` clause
    unpersisted : Exc → Exec (Run Num W) Bool
    unpersisted e = do
      update_audit (add_error "Payment policy audit could not be verified")
      update_audit (λ a. record a { status = if is_failed a.status then a.status else unavailable })
      pure false

    audit_payment : Option (AuditService Num W) → PaymentEvent → Exec (Run Num W) Bool
    unfolding persist unpersisted
    audit_payment none event = pure false
    audit_payment (some audit) event = try_except (persist audit event) unpersisted

    -- an allowed payment whose record is not verified is held
    withheld : Bool → Action × List String → Action × List String
    withheld recorded (action, reasons) =
        if is_allow action && not recorded
        then (
          hold,
          "Payment policy could not be recorded and verified; execution was withheld." ∷ [],
        )
        else (action, reasons)

    -- the enforcement boundary: only an allowed payment calls the simulator
    settle : Action → ℕ → Action × List String → Transaction Num → Payment Num
    unfolding simulate_execution
    settle policy_action timestamp (action, reasons) tx =
        let execution = if is_allow action then some (simulate_execution tx) else none in
        record {
          action = action;
          policy_action = policy_action;
          policy_version = policy_version;
          reasons = reasons;
          decided_at = timestamp;
          scope = "simulation_only";
          execution_status = if is_some execution then "simulated_complete" else "not_executed";
          simulation_receipt = execution;
        }

    unfoldable pub apply_payment_control : Option (AuditService Num W) → Exec (Run Num W) Unit
    unfolding payment_policy payment_record audit_payment withheld settle
    apply_payment_control audit = do
      policy ← gets (λ s. payment_policy s.result)
      timestamp ← now clock
      tx ← gets (λ s. s.result.transaction)
      let event = payment_record tx timestamp policy
      update (add_event (payment_event event))
      recorded ← audit_payment audit event
      update (λ r. record r {
        payment = some (settle policy.0 timestamp (withheld recorded policy) r.transaction);
      })
