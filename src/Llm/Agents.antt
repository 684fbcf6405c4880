-- ===== src/Llm/Agents.antt =====
-- The agents that make one request, agents-python/app/llm/triage_agent.py and
-- compliance_agent.py, and what all agents share. The texts of the prompts are parameters here; Llm/Prompts.antt has them.
use vaultwatch.Base.{String, ◌||◌, none, some, [], ◌∷◌, if◌then◌else◌}
use vaultwatch.Base.Int.{pos, leb_ℤ}
use vaultwatch.Base.Exec.{Exec, Result, err, runtime_error, lift, ◌>>=◌}
use vaultwatch.Runtime.{Runtime}
use vaultwatch.Models.{
  Transaction, RuleEngineVerdict, PreFilterVerdict, TriageVerdict, CaseFile, ComplianceReport,
}
use vaultwatch.Llm.{
  ModelResponse, user_text, triage_replay, compliance_replay, ModelProvider, find_call,
}
use vaultwatch.Llm.Verdicts.{triage_verdict, compliance_report}

-- The system prompts and the first user message of each agent.
pub record Prompts (N : Type 0) : Type 0 where
  pub triage_system : String
  pub investigator_system : String
  pub compliance_system : String
  pub triage_user : Transaction N → RuleEngineVerdict N → PreFilterVerdict N → String
  pub investigator_user : Transaction N → TriageVerdict N → String
  pub compliance_user : Transaction N → CaseFile → String

module _ (rt : Runtime) {W : Type 0} (prompts : Prompts rt.Num)
    (provider : ModelProvider rt.Num W) where
  open rt use {Num}

  triage_scenario : RuleEngineVerdict Num → PreFilterVerdict Num → String
  triage_scenario rules prefilter =
      if leb_ℤ (pos 50) rules.risk_score || prefilter.is_anomaly then "high" else "low"

  triage_answer : ModelResponse Num → Result (TriageVerdict Num)
  unfolding triage_verdict find_call
  triage_answer response = elim (find_call "emit_triage_verdict" response.tool_calls) [
    | none ↦ err (runtime_error "TriageAgent: model did not emit a triage verdict")
    | some call ↦ triage_verdict rt call.input
  ]

  unfoldable pub run_triage :
      String
      → Transaction Num
      → RuleEngineVerdict Num
      → PreFilterVerdict Num
      → Exec W (TriageVerdict Num)
  unfolding triage_scenario triage_answer
  run_triage model tx rules prefilter = do
    response ← provider.complete (record {
      model = model;
      system = prompts.triage_system;
      messages = user_text (prompts.triage_user tx rules prefilter) ∷ [];
      tools = "emit_triage_verdict" ∷ [];
      tool_choice = some "emit_triage_verdict";
      replay_scenario = triage_scenario rules prefilter;
      replay = triage_replay rules prefilter;
    })
    lift (triage_answer response)

  compliance_answer : ModelResponse Num → Result ComplianceReport
  unfolding compliance_report find_call
  compliance_answer response = elim (find_call "emit_compliance_report" response.tool_calls) [
    | none ↦ err (runtime_error "ComplianceAgent: model did not emit a compliance report")
    | some call ↦ compliance_report rt call.input
  ]

  unfoldable pub run_compliance : String → Transaction Num → CaseFile → Exec W ComplianceReport
  unfolding compliance_answer
  run_compliance model tx case = do
    response ← provider.complete (record {
      model = model;
      system = prompts.compliance_system;
      messages = user_text (prompts.compliance_user tx case) ∷ [];
      tools = "emit_compliance_report" ∷ [];
      tool_choice = some "emit_compliance_report";
      replay_scenario = "high";
      replay = compliance_replay tx.account_id case.summary case.evidence;
    })
    lift (compliance_answer response)
