-- ===== src/Orchestrator/Recording.antt =====
-- `record`, `emit` and `finish` of `process_transaction` in agents-python/app/orchestrator.py.
pub mod Rules
pub mod Finish
use vaultwatch.Base.{Option, none, some, String, ◌<>◌, ◌&&◌, none, some, if◌then◌else◌}
use vaultwatch.Base.Exec.{Exec, pure, gets, lift, try_except, ◌>>=◌, ◌>>◌}
use vaultwatch.Runtime.{Runtime, truth}
use vaultwatch.Models.{Transaction, PipelineStage, Detail, no_detail}
use vaultwatch.Models.Values.{subscript}
use vaultwatch.CaseRecord.{CaseEvent, agent_event, verified, failed, unavailable}
use vaultwatch.Audit.{
  AuditService, Payload, event_payload, completed, Run, outside, now, update, update_audit,
  add_entry, add_error, add_event, no_errors,
}
use vaultwatch.Payments.{apply_payment_control}
use vaultwatch.Orchestrator.Wiring.{Services, event_type}

module _ (rt : Runtime) {W : Type 0} (svc : Services rt.Num W) (tx : Transaction rt.Num) where
  open rt use {Num}

  record_to : Option (AuditService Num W) → String → Payload Num → Exec (Run Num W) Unit
  record_to none kind payload = pure tt
  record_to (some audit) kind payload =
      try_except
        (do receipt ← outside (audit.append tx.id kind payload); update_audit (add_entry receipt))
        (λ e. update_audit (add_error ("Could not persist " <> kind)))

  -- `record`
  unfoldable pub record_audit : String → Payload Num → Exec (Run Num W) Unit
  unfolding record_to
  record_audit = record_to svc.audit

  unfoldable pub to_sink : CaseEvent Num → Exec W Unit
  to_sink event = elim svc.sink [ none ↦ pure tt | some sink ↦ sink event ]

  unfoldable pub emit : CaseEvent Num → Exec (Run Num W) Unit
  unfolding record_audit to_sink event_type
  emit event = do
    update (add_event event)
    record_audit (event_type event) (event_payload event)
    outside (to_sink event)

  unfoldable pub emit_stage : PipelineStage → String → Detail Num → Exec (Run Num W) Unit
  emit_stage stage label detail = do
    t ← now svc.clock
    emit (
        agent_event (record {
          transaction_id = tx.id;
          account_id = tx.account_id;
          stage = stage;
          label = label;
          detail = detail;
          timestamp = t;
        }))

  verify_with : Option (AuditService Num W) → Exec (Run Num W) Unit
  unfolding truth
  verify_with none = pure tt
  verify_with (some audit) =
      try_except
        (do
          verification ← outside audit.verify
          update_audit (λ a. record a { verification = some verification })
          checked ← now svc.clock
          update_audit (λ a. record a { checked_at = some checked })
          valid ← lift (subscript verification "valid")
          clean ← gets (λ s. no_errors s.result.audit)
          update_audit
              (λ a. record a { status = if truth rt valid && clean then verified else failed }))
        (λ e. do
          update_audit (add_error "Audit verification unavailable")
          update_audit (λ a. record a { status = unavailable }))

  -- the `if self._audit` of `finish`
  unfoldable pub verify_audit : Exec (Run Num W) Unit
  unfolding verify_with
  verify_audit = verify_with svc.audit

  unfoldable pub finish : Exec (Run Num W) Unit
  finish = do
    r ← gets (λ s. s.result)
    record_audit "case.completed" (completed r.stage_reached r.case r.compliance)
    verify_audit
    apply_payment_control rt svc.clock svc.audit

  unfoldable pub close : String → Exec (Run Num W) Unit
  close label = do
    update (λ r. record r { stage_reached = PipelineStage.closed })
    emit_stage PipelineStage.closed label no_detail
    finish
