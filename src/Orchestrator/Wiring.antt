-- ===== src/Orchestrator/Wiring.antt =====
-- What an `Orchestrator` of agents-python/app/orchestrator.py is built from.
use vaultwatch.Base.{ℕ, String, ◌<>◌, Bool, ◌&&◌, Option, if◌then◌else◌}
use vaultwatch.Base.Int.{ℤ, pos, leb_ℤ}
use vaultwatch.Base.Exec.{Exec}
use vaultwatch.Models.{
  Transaction, ScoringContext, RuleEngineVerdict, PreFilterVerdict, stage_value, Severity, low,
  medium, high, critical,
}
use vaultwatch.CaseRecord.{CaseEvent, agent_event, alert_event, payment_event}
use vaultwatch.Audit.{AuditService}
use vaultwatch.SecurityFeed.{Buckets}
use vaultwatch.Llm.{ModelProvider}
use vaultwatch.Llm.Tools.{Research}
use vaultwatch.Llm.Agents.{Prompts}

-- What an `Orchestrator` is built from. A call into the outside may fail, and while it waits other
-- tasks may change the world, the recorded login warnings (`security`) among it.
pub record Services (N W : Type 0) : Type 0 where
  pub clock : W → ℕ × W
  pub audit : Option (AuditService N W)
  pub score : Transaction N → ScoringContext N → Exec W (RuleEngineVerdict N)
  pub prefilter : Transaction N → ScoringContext N → Exec W (PreFilterVerdict N)
  pub provider : ModelProvider N W
  pub sink : Option (CaseEvent N → Exec W Unit)
  pub security : W → Buckets N
  pub build_scoring_context : String → N → Exec W (ScoringContext N)
  pub prompts : Prompts N
  pub research : Research N
  pub haiku_model : String
  pub sonnet_model : String

unfoldable pub severity_for : ℤ → Bool → Severity
severity_for risk_score has_security_event =
    if has_security_event && leb_ℤ (pos 50) risk_score
    then critical
    else if leb_ℤ (pos 70) risk_score
    then high
    else if leb_ℤ (pos 40) risk_score
    then medium
    else low

-- `pipeline.{stage}`, or `pipeline.alert`
unfoldable pub event_type : {N : Type 0} → CaseEvent N → String
unfolding stage_value
event_type (agent_event e) = "pipeline." <> stage_value e.stage
event_type (alert_event _) = "pipeline.alert"
event_type (payment_event _) = "pipeline.alert"
