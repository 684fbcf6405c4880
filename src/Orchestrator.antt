-- ===== src/Orchestrator.antt =====
-- agents-python/app/orchestrator.py, `process_transaction`: rules, prefilter, triage,
-- investigation, compliance and fusion, with its early exits, then the audit and the payment.
pub mod Wiring
pub mod Recording
pub mod Balance
pub mod Routes
pub mod Outcome
pub mod Promises
use vaultwatch.Base.{
  ℕ, String, ◌<>◌, Bool, true, false, not, ◌&&◌, Option, none, some, List, [], ◌∷◌, if◌then◌else◌,
  is_some,
}
use vaultwatch.Base.Int.{ℤ, pos, ltb_ℤ, leb_ℤ}
use vaultwatch.Base.Exec.{Exec, Result, ok, err, pure, gets, lift, try_except, ◌>>=◌, ◌>>◌}
use vaultwatch.Runtime.{Runtime, truth}
use vaultwatch.Models.{
  Transaction, ScoringContext, RuleEngineVerdict, PreFilterVerdict, TriageVerdict, CaseFile,
  ComplianceReport, PipelineStage, stage_value, SecurityEvent, Detail, no_detail, rules_detail,
  prefilter_detail, triage_detail, tool_detail, case_detail, compliance_detail, security_detail,
  Alert, Severity, low, medium, high, critical,
}
use vaultwatch.Models.Values.{Dict, empty, subscript}
use vaultwatch.CaseRecord.{
  CaseEvent, agent_event, alert_event, payment_event, PipelineResult, new_result, verified, failed,
  unavailable,
}
use vaultwatch.Audit.{
  AuditService, Payload, opened, event_payload, completed, Run, outside, now, update, update_audit,
  add_entry, add_error, add_event, no_errors,
}
use vaultwatch.Payments.{apply_payment_control}
use vaultwatch.SecurityFeed.{Buckets, recent_security_event}
use vaultwatch.Llm.{ModelProvider, ToolEvent}
use vaultwatch.Llm.Tools.{Research}
use vaultwatch.Llm.Agents.{Prompts, run_triage, run_compliance}
use vaultwatch.Llm.Investigator.{run_investigator}
use Wiring.{Services, severity_for}
use Recording.{record_audit, emit, emit_stage, finish, close}

abbrev pub rules_escalation_threshold : ℤ
rules_escalation_threshold = pos 25

module _ (rt : Runtime) {W : Type 0} (svc : Services rt.Num W) (tx : Transaction rt.Num) where
  open rt use {Num}

  unfoldable pub emit_tools : String → List (ToolEvent Num) → Exec (Run Num W) Unit
  emit_tools mode [] = pure tt
  emit_tools mode (e ∷ es) = do
    emit_stage rt svc tx PipelineStage.investigation
        ("Investigator (" <> mode <> ") called " <> e.name <> "(" <> rt.show_dict e.input <> ")")
        (tool_detail e.name e.input e.result)
    emit_tools mode es

  drafted : ComplianceReport → Exec (Run Num W) Unit
  drafted report = do
    update (λ r. record r { compliance = some report; stage_reached = PipelineStage.compliance })
    emit_stage rt svc tx PipelineStage.compliance "Compliance narrative drafted"
        (compliance_detail report)

  compliance_call : CaseFile → Exec W ComplianceReport
  compliance_call case = run_compliance rt svc.prompts svc.provider svc.sonnet_model tx case

  unfoldable pub draft_compliance : CaseFile → Exec (Run Num W) Unit
  unfolding drafted compliance_call
  draft_compliance case =
      if case.recommend_compliance_review
      then (do report ← outside (compliance_call case); drafted report)
      else pure tt

  -- `_recent_security_event(tx.account_id)`
  unfoldable pub recent : Exec (Run Num W) (Option (SecurityEvent Num))
  unfolding recent_security_event
  recent = do
    t ← now svc.clock
    gets (λ s. recent_security_event (svc.security s.world) tx.account_id t)

  unfoldable pub fuse : Option (SecurityEvent Num) → Exec (Run Num W) Unit
  fuse none = pure tt
  fuse (some event) = do
    update (λ r. record r { stage_reached = PipelineStage.fusion })
    emit_stage rt svc tx PipelineStage.fusion ("Fused with recent security event: " <> event.type)
        (security_detail event)

  unfoldable pub raise_alert : CaseFile → Option (SecurityEvent Num) → Exec (Run Num W) Unit
  unfolding severity_for
  raise_alert case event = do
    t ← now svc.clock
    let alert =
        let a : Alert Num = record {
          transaction_id = tx.id;
          account_id = tx.account_id;
          severity = severity_for case.risk_score (is_some event);
          title =
              if is_some event
              then "Fused fraud + account-security alert"
              else "Financial risk alert";
          case = case;
          security_event = event;
          fused_with_security_event = is_some event;
          timestamp = t;
        } in
        a
    update (λ r. record r { alert = some alert })
    emit rt svc tx (alert_event alert)

  unfoldable pub investigate_case :
      String → RuleEngineVerdict Num → TriageVerdict Num → Exec (Run Num W) Unit
  investigate_case mode rules triage = do
    ran ← outside (
        run_investigator rt svc.research svc.provider svc.prompts svc.sonnet_model tx triage
          rules.risk_score)
    let case = ran.1
    update (λ r. record r { case = some case; stage_reached = PipelineStage.investigation })
    emit_tools mode ran.0
    emit_stage rt svc tx PipelineStage.investigation
        ("Investigation complete: risk_score=" <> rt.show_int case.risk_score) (case_detail case)
    draft_compliance case
    event ← recent
    fuse event
    raise_alert case event
    finish rt svc tx

  unfoldable pub triage_case :
      String → RuleEngineVerdict Num → PreFilterVerdict Num → Exec (Run Num W) Unit
  triage_case mode rules prefilter = do
    triage ← outside (run_triage rt svc.prompts svc.provider svc.haiku_model tx rules prefilter)
    update (λ r. record r { triage = some triage; stage_reached = PipelineStage.triage })
    emit_stage rt svc tx PipelineStage.triage
        ("Triage ("
          <> mode
          <> "): "
          <> triage.category
          <> " (fraud_likelihood="
          <> rt.fixed2 triage.fraud_likelihood
          <> ")")
        (triage_detail triage)
    if not triage.escalate
        then close rt svc tx "Closed at triage - not escalated to investigation"
        else investigate_case mode rules triage

  unfoldable pub pipeline : ScoringContext Num → Dict Num → String → Exec (Run Num W) Unit
  pipeline ctx review mode = do
    record_audit rt svc tx "case.opened" (opened tx ctx review mode)
    rules ← outside (svc.score tx ctx)
    update (λ r. record r { rules = some rules })
    emit_stage rt svc tx PipelineStage.rules
        ("Rules engine: " <> rt.show_int rules.risk_score <> "/100 (" <> rules.risk_band <> ")")
        (rules_detail rules)
    prefilter ← outside (svc.prefilter tx ctx)
    update (λ r. record r { prefilter = some prefilter })
    emit_stage rt svc tx PipelineStage.prefilter
        ("ML pre-filter: anomaly_score=" <> rt.fixed2 prefilter.anomaly_score)
        (prefilter_detail prefilter)
    if ltb_ℤ rules.risk_score rules_escalation_threshold && not prefilter.is_anomaly
        then close rt svc tx "Closed at stage 0 - no anomaly signal, no LLM call made"
        else triage_case mode rules prefilter

  -- `context or ScoringContext(**build_scoring_context(…))`
  context_of : Option (ScoringContext Num) → Exec W (ScoringContext Num)
  context_of none = svc.build_scoring_context tx.account_id tx.amount
  context_of (some c) = pure c

  -- `review or {}`
  abbrev notes_of : Option (Dict Num) → Dict Num
  notes_of none = empty
  notes_of (some d) = d

  -- the caller sees the result only if nothing was raised
  returned : Result Unit × Run Num W → Result (PipelineResult Num) × W
  returned (ok _, s) = (ok s.result, s.world)
  returned (err e, s) = (err e, s.world)

  unfoldable pub process_transaction :
      Option (ScoringContext Num) → Option (Dict Num) → Exec W (PipelineResult Num)
  unfolding new_result returned context_of
  process_transaction context review = do
    ctx ← context_of context
    let mode = if svc.provider.is_live then "live" else "replay"
    λ w. returned (
        pipeline ctx (notes_of review) mode
          (record { result = new_result tx ctx (notes_of review) mode; world = w }))
