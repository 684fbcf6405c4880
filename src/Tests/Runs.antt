-- ===== src/Tests/Runs.antt =====
-- Runs of the pipeline: a quiet payment that is allowed, one that the agents investigate and that is
-- blocked, one without an audit service, and one whose rules engine cannot be reached.
use vaultwatch.Base.{ℕ, ◌≡◌, ◌≢◌, refl, true, Option, none, some, [], length, ◌+◌, inl}
use vaultwatch.Base.Exec.{Result, ok, err, http_error}
use vaultwatch.Models.{PipelineStage}
use vaultwatch.CaseRecord.{
  new_result, Action, allow, hold, block, PipelineResult, AuditStatus, verified, Payment,
}
use vaultwatch.Audit.{outside}
use vaultwatch.Models.Values.{subscript, empty}
use vaultwatch.Payments.{apply_payment_control, sanctions_hit}
use vaultwatch.SecurityFeed.{fresh, bucket_of}
use vaultwatch.Orchestrator.Wiring.{Services}
use vaultwatch.Orchestrator.Recording.{record_audit, emit, emit_stage, finish, close, verify_audit}
use vaultwatch.Orchestrator.{
  process_transaction, pipeline, triage_case, investigate_case, emit_tools, draft_compliance,
  recent, fuse, raise_alert,
}
use vaultwatch.Llm.Agents.{run_triage, run_compliance}
use vaultwatch.Llm.Investigator.{run_investigator}
use vaultwatch.Orchestrator.Outcome.{MayRaise}
use vaultwatch.Orchestrator.Routes.{IsRouted}
use vaultwatch.Orchestrator.Promises.{
  IsAllowed, process-IsRouted, process_audited, process_allows, process_blocks, process_unaudited,
  process-MayRaise,
}
use vaultwatch.Tests.Fixture.{cents, services, good_audit, payment, context, canned, unreachable}

-- what a reader of the result looks at first
abbrev glance :
    Result (PipelineResult ℕ) × ℕ → Option (PipelineStage × AuditStatus × ℕ × ℕ × Option Action)
glance (err _, _) = none
glance (ok r, _) = some (
  r.stage_reached,
  r.audit.status,
  length r.events,
  length r.audit.entries,
  elim r.payment [ none ↦ none | some p ↦ some p.action ],
)

abbrev run : Services ℕ ℕ → Result (PipelineResult ℕ) × ℕ
run svc = process_transaction cents svc payment (some context) none 0

abbrev result_of : Result (PipelineResult ℕ) × ℕ → PipelineResult ℕ
result_of (err _, _) = new_result payment context empty "replay"
result_of (ok r, _) = r

abbrev payment_of : PipelineResult ℕ → Payment ℕ
payment_of r = elim r.payment [
  | some p ↦ p
  | none ↦ record {
    action = hold;
    policy_action = hold;
    policy_version = "";
    reasons = [];
    decided_at = 0;
    scope = "";
    execution_status = "";
    simulation_receipt = none;
  }
]

abbrev quiet : PipelineResult ℕ
quiet = result_of (run (services (some good_audit) 0))

quiet-run : run (services (some good_audit) 0) ≡ (ok quiet, 17)
unfolding process_transaction new_result pipeline record_audit outside emit_stage emit close finish
    verify_audit subscript apply_payment_control
quiet-run = refl

quiet_paid : quiet.payment ≡ some (payment_of quiet)
unfolding process_transaction new_result pipeline record_audit outside emit_stage emit close finish
    verify_audit subscript apply_payment_control
quiet_paid = refl

quiet_glance :
    glance (run (services (some good_audit) 0))
    ≡ some (PipelineStage.closed, verified, 4, 6, some allow)
unfolding process_transaction new_result pipeline record_audit outside emit_stage emit close finish
    verify_audit subscript apply_payment_control
quiet_glance = refl

abbrev loud : PipelineResult ℕ
loud = result_of (run (canned (some good_audit) 60))

loud-run : run (canned (some good_audit) 60) ≡ (ok loud, 30)
unfolding process_transaction new_result pipeline record_audit outside emit_stage emit close finish
    verify_audit subscript apply_payment_control triage_case investigate_case emit_tools
    draft_compliance recent fuse raise_alert run_triage run_compliance run_investigator fresh
    bucket_of
loud-run = refl

loud_paid : loud.payment ≡ some (payment_of loud)
unfolding process_transaction new_result pipeline record_audit outside emit_stage emit close finish
    verify_audit subscript apply_payment_control triage_case investigate_case emit_tools
    draft_compliance recent fuse raise_alert run_triage run_compliance run_investigator fresh
    bucket_of
loud_paid = refl

loud_hit : sanctions_hit loud.case ≡ true
unfolding process_transaction new_result pipeline record_audit outside emit_stage emit close finish
    verify_audit subscript apply_payment_control triage_case investigate_case emit_tools
    draft_compliance recent fuse raise_alert run_triage run_compliance run_investigator fresh
    bucket_of
loud_hit = refl

loud_glance :
    glance (run (canned (some good_audit) 60))
    ≡ some (PipelineStage.fusion, verified, 8, 10, some block)
unfolding process_transaction new_result pipeline record_audit outside emit_stage emit close finish
    verify_audit subscript apply_payment_control triage_case investigate_case emit_tools
    draft_compliance recent fuse raise_alert run_triage run_compliance run_investigator fresh
    bucket_of
loud_glance = refl

abbrev unaudited : PipelineResult ℕ
unaudited = result_of (run (services none 0))

unaudited-run : run (services none 0) ≡ (ok unaudited, 7)
unfolding process_transaction new_result pipeline record_audit outside emit_stage emit close finish
    verify_audit subscript apply_payment_control
unaudited-run = refl

unaudited_paid : unaudited.payment ≡ some (payment_of unaudited)
unfolding process_transaction new_result pipeline record_audit outside emit_stage emit close finish
    verify_audit subscript apply_payment_control
unaudited_paid = refl

unreachable-run : run unreachable ≡ (err (http_error "refused"), 1)
unfolding process_transaction new_result pipeline record_audit outside emit_stage emit close finish
    verify_audit subscript apply_payment_control
unreachable-run = refl

process-IsRouted_example : IsRouted loud
process-IsRouted_example =
    process-IsRouted cents (canned (some good_audit) 60) payment (some context) none 0 loud-run

process_audited_example :
    (loud.audit.errors ≡ []) × (length loud.audit.entries ≡ length loud.events + 2)
unfolding process_transaction new_result pipeline record_audit outside emit_stage emit close finish
    verify_audit subscript apply_payment_control triage_case investigate_case emit_tools
    draft_compliance recent fuse raise_alert run_triage run_compliance run_investigator fresh
    bucket_of
process_audited_example =
    process_audited cents (canned (some good_audit) 60) payment (some context) none 0 loud-run refl
      refl

process_allows_example : IsAllowed cents quiet (payment_of quiet)
unfolding process_transaction new_result pipeline record_audit outside emit_stage emit close finish
    verify_audit subscript apply_payment_control
process_allows_example =
    process_allows cents (services (some good_audit) 0) payment (some context) none 0 quiet-run
      (payment_of quiet) quiet_paid refl

process_blocks_example :
    ((payment_of loud).action ≡ block) × ((payment_of loud).simulation_receipt ≡ none)
process_blocks_example =
    process_blocks cents (canned (some good_audit) 60) payment (some context) none 0 loud-run
      (payment_of loud) loud_paid (inl loud_hit)

process_unaudited_example :
    ((payment_of unaudited).action ≢ allow) × ((payment_of unaudited).simulation_receipt ≡ none)
process_unaudited_example =
    process_unaudited cents (services none 0) payment (some context) none 0 unaudited-run
      (payment_of unaudited) unaudited_paid refl

process-MayRaise_example : MayRaise cents unreachable payment (http_error "refused")
process-MayRaise_example =
    process-MayRaise cents unreachable payment (some context) none 0 unreachable-run
