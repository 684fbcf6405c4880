-- ===== src/CaseRecord/Dump.antt =====
-- `PipelineResult.as_dict` of agents-python/app/orchestrator.py: the JSON of a run, with the models of
-- agents-python/app/models.py as pydantic's `model_dump(mode="json")` writes them, field by field.
-- How a time is written, by pydantic and by `datetime.isoformat`, is a parameter.
use vaultwatch.Base.{ℕ, String, Option, none, some, map}
use vaultwatch.Models.{
  Transaction, ScoringContext, RuleEngineVerdict, PreFilterVerdict, TriageVerdict, CaseFile,
  ComplianceReport, stage_value, SecurityEvent, Detail, no_detail, rules_detail, prefilter_detail,
  triage_detail, tool_detail, case_detail, compliance_detail, security_detail, AgentEvent, Alert,
  severity_value,
}
use vaultwatch.Models.Values.{
  Json, Dict, null, bool, int, float, str, arr, obj, empty, entry, items_of,
}
use vaultwatch.Runtime.{strs}
use vaultwatch.CaseRecord.{
  AuditStatus, not_configured, verified, failed, unavailable, Audit, action_value, PaymentEvent,
  CaseEvent, agent_event, alert_event, payment_event, SimulationReceipt, Payment, PipelineResult,
}

-- the texts of `audit["status"]`
unfoldable pub status_value : AuditStatus → String
status_value not_configured = "not_configured"
status_value verified = "verified"
status_value failed = "failed"
status_value unavailable = "unavailable"

module _ {N : Type 0} where
  -- `x.model_dump(mode="json") if x else None`, where a model is truthy
  abbrev pub or_null : {A : Type 0} → (A → Json N) → Option A → Json N
  or_null f none = null
  or_null f (some a) = f a

  -- the same for an optional field
  abbrev text_or_null : Option String → Json N
  text_or_null = or_null str

  unfoldable pub rules_dict : RuleEngineVerdict N → Dict N
  rules_dict v = entry "transaction_id" (str v.transaction_id) (
      entry "risk_score" (int v.risk_score) (
        entry "risk_band" (str v.risk_band)
          (entry "triggered_rules" (arr (items_of (map obj v.triggered_rules))) empty)))

  unfoldable pub prefilter_dict : PreFilterVerdict N → Dict N
  prefilter_dict v =
      entry "anomaly_score" (float v.anomaly_score) (entry "is_anomaly" (bool v.is_anomaly) empty)

  unfoldable pub triage_dict : TriageVerdict N → Dict N
  triage_dict v = entry "fraud_likelihood" (float v.fraud_likelihood) (
      entry "category" (str v.category)
        (entry "escalate" (bool v.escalate) (entry "reasoning" (str v.reasoning) empty)))

  unfoldable pub case_dict : CaseFile → Dict N
  case_dict c = entry "summary" (str c.summary) (
      entry "risk_score" (int c.risk_score) (
        entry "evidence" (arr (strs c.evidence)) (
          entry "linked_accounts" (arr (strs c.linked_accounts)) (
            entry "sanctions_hit" (bool c.sanctions_hit)
              (entry "recommend_compliance_review" (bool c.recommend_compliance_review) empty)))))

  unfoldable pub compliance_dict : ComplianceReport → Dict N
  compliance_dict r = entry "narrative" (str r.narrative) (
      entry "obligations_referenced" (arr (strs r.obligations_referenced))
        (entry "disclaimer" (str r.disclaimer) empty))

  unfoldable pub security_event_dict : SecurityEvent N → Dict N
  security_event_dict e = entry "type" (str e.type) (
      entry "account_id" (text_or_null e.account_id) (
        entry "severity" (str e.severity)
          (entry "detail" (obj e.detail) (entry "timestamp" (text_or_null e.timestamp) empty))))

  unfoldable pub context_dict : ScoringContext N → Dict N
  context_dict c = entry "recent_amounts" (arr (items_of (map float c.recent_amounts))) (
      entry "recent_count_last_hour" (int c.recent_count_last_hour) (
        entry "recent_sum_last_hour" (float c.recent_sum_last_hour) (
          entry "known_beneficiaries" (arr (strs c.known_beneficiaries)) (
            entry "known_devices" (arr (strs c.known_devices))
              (entry "last_location" (or_null obj c.last_location) empty)))))

  -- an `AgentEvent`'s `detail`
  unfoldable pub detail_dict : Detail N → Dict N
  unfolding rules_dict prefilter_dict triage_dict case_dict compliance_dict security_event_dict
  detail_dict no_detail = empty
  detail_dict (rules_detail v) = rules_dict v
  detail_dict (prefilter_detail v) = prefilter_dict v
  detail_dict (triage_detail v) = triage_dict v
  detail_dict (tool_detail name input result) =
      entry "tool" (str name) (entry "input" (obj input) (entry "result" (obj result) empty))
  detail_dict (case_detail c) = case_dict c
  detail_dict (compliance_detail r) = compliance_dict r
  detail_dict (security_detail e) = security_event_dict e

  -- an `Alert`'s `detail`
  unfoldable pub alert_detail : CaseFile → Option (SecurityEvent N) → Dict N
  unfolding case_dict security_event_dict
  alert_detail c event =
      entry "case" (obj (case_dict c))
        (entry "security_event" (or_null (λ e. obj (security_event_dict e)) event) empty)

  unfoldable pub simulation_receipt_dict : SimulationReceipt N → Dict N
  simulation_receipt_dict r = entry "id" (str r.id) (
      entry "status" (str r.status)
        (entry "amount" (float r.amount) (entry "currency" (str r.currency) empty)))

module _ {N : Type 0} (iso_json iso : ℕ → String) where
  unfoldable pub transaction_dict : Transaction N → Dict N
  transaction_dict t = entry "id" (str t.id) (
      entry "account_id" (str t.account_id) (
        entry "amount" (float t.amount) (
          entry "currency" (str t.currency) (
            entry "timestamp" (str (iso_json t.timestamp)) (
              entry "lat" (or_null float t.lat) (
                entry "lon" (or_null float t.lon) (
                  entry "beneficiary_name" (or_null str t.beneficiary_name) (
                    entry "beneficiary_id" (or_null str t.beneficiary_id)
                      (entry "device_id" (or_null str t.device_id) empty)))))))))

  unfoldable pub agent_event_dict : AgentEvent N → Dict N
  agent_event_dict e = entry "type" (str "agent_event") (
      entry "transaction_id" (str e.transaction_id) (
        entry "account_id" (str e.account_id) (
          entry "stage" (str (stage_value e.stage)) (
            entry "label" (str e.label) (
              entry "detail" (obj (detail_dict e.detail))
                (entry "timestamp" (str (iso_json e.timestamp)) empty))))))

  unfoldable pub alert_dict : Alert N → Dict N
  alert_dict a = entry "type" (str "alert") (
      entry "transaction_id" (str a.transaction_id) (
        entry "account_id" (str a.account_id) (
          entry "severity" (str (severity_value a.severity)) (
            entry "title" (str a.title) (
              entry "detail" (obj (alert_detail a.case a.security_event)) (
                entry "fused_with_security_event" (bool a.fused_with_security_event)
                  (entry "timestamp" (str (iso_json a.timestamp)) empty)))))))

  -- the `event` of `apply_payment_control`
  unfoldable pub payment_event_dict : PaymentEvent → Dict N
  payment_event_dict e = entry "type" (str "agent_event") (
      entry "stage" (str "payment") (
        entry "transaction_id" (str e.transaction_id) (
          entry "account_id" (str e.account_id) (
            entry "timestamp" (str (iso e.timestamp)) (
              entry "label" (str e.label) (
                entry "detail"
                  (obj (
                    entry "policy_version" (str e.policy_version) (
                      entry "action" (str (action_value e.action)) (
                        entry "reasons" (arr (strs e.reasons))
                          (entry "scope" (str e.scope) empty)))))
                  empty))))))

  unfoldable pub event_dict : CaseEvent N → Dict N
  unfolding agent_event_dict alert_dict payment_event_dict
  event_dict (agent_event e) = agent_event_dict e
  event_dict (alert_event a) = alert_dict a
  event_dict (payment_event e) = payment_event_dict e

  -- `verification` and `checked_at` are keys from their first assignment on
  unfoldable pub audit_dict : Audit N → Dict N
  audit_dict a = entry "status" (str (status_value a.status)) (
      entry "entries" (arr (items_of a.entries)) (
        entry "errors" (arr (strs a.errors)) (elim a.verification [
          | none ↦ checked_key a.checked_at
          | some v ↦ entry "verification" v (checked_key a.checked_at)
        ])))
    where
      checked_key : Option ℕ → Dict N
      checked_key none = empty
      checked_key (some t) = entry "checked_at" (str (iso t)) empty

  -- `result.payment`
  unfoldable pub payment_dict : Payment N → Dict N
  unfolding simulation_receipt_dict
  payment_dict p = entry "action" (str (action_value p.action)) (
      entry "policy_action" (str (action_value p.policy_action)) (
        entry "policy_version" (str p.policy_version) (
          entry "reasons" (arr (strs p.reasons)) (
            entry "decided_at" (str (iso p.decided_at)) (
              entry "scope" (str p.scope) (
                entry "execution_status" (str p.execution_status) (
                  entry "simulation_receipt"
                    (or_null (λ r. obj (simulation_receipt_dict r)) p.simulation_receipt)
                    empty)))))))

  unfoldable pub as_dict : PipelineResult N → Dict N
  as_dict r = entry "transaction" (obj (transaction_dict r.transaction)) (
      entry "context" (obj (context_dict r.context)) (
        entry "review" (obj r.review) (
          entry "events" (arr (items_of (map (λ e. obj (event_dict e)) r.events))) (
            entry "model_mode" (str r.model_mode) (
              entry "audit" (obj (audit_dict r.audit)) (
                entry "stage_reached" (str (stage_value r.stage_reached)) (
                  entry "rules" (or_null (λ v. obj (rules_dict v)) r.rules) (
                    entry "prefilter" (or_null (λ v. obj (prefilter_dict v)) r.prefilter) (
                      entry "triage" (or_null (λ v. obj (triage_dict v)) r.triage) (
                        entry "case" (or_null (λ v. obj (case_dict v)) r.case) (
                          entry "compliance" (or_null (λ v. obj (compliance_dict v)) r.compliance) (
                            entry "alert" (or_null (λ v. obj (alert_dict v)) r.alert) (
                              entry "payment" (or_null (λ v. obj (payment_dict v)) r.payment)
                                empty)))))))))))))
