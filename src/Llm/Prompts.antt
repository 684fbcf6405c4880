-- ===== src/Llm/Prompts.antt =====
-- The texts that the agents of agents-python/app/llm send: their system prompts, and the first user
-- message of each.
use vaultwatch.Base.{String, ◌<>◌, Bool, Option, none, some, map, if◌then◌else◌}
use vaultwatch.Runtime.{Runtime}
use vaultwatch.Models.{Transaction, RuleEngineVerdict, PreFilterVerdict, TriageVerdict, CaseFile}
use vaultwatch.Models.Values.{Json, Dict, null, arr, get, items_of}
use vaultwatch.Llm.Transcripts.{join}
use vaultwatch.Llm.Agents.{Prompts}

abbrev triage_system_prompt : String
triage_system_prompt =
    "You are VaultWatch's Triage Agent, a fast first-pass fraud reviewer for a fintech's transaction stream. You are given a transaction plus two cheap upstream signals: a deterministic rules-engine verdict and a statistical anomaly pre-filter score. Decide whether the case needs a slower, tool-using investigation by a senior agent. Bias toward NOT escalating unless the evidence genuinely warrants it - escalation is expensive and should be reserved for cases that look like real fraud, not routine spending variation. Respond by calling emit_triage_verdict exactly once."

abbrev investigator_system_prompt : String
investigator_system_prompt =
    "You are VaultWatch's Investigator Agent, a senior fraud analyst. A transaction has been escalated to you by the triage agent. Use the available tools to gather evidence - transaction history, the account's entity graph, and sanctions screening - before forming a judgement. Do not guess at facts you can look up. Once you have enough evidence, call emit_case_file exactly once with your findings. Investigate efficiently; you have a limited number of tool calls."

abbrev compliance_system_prompt : String
compliance_system_prompt =
    "You are VaultWatch's Compliance Agent. You are given a confirmed high-risk case file and must draft a SAR-style narrative summarizing the suspicious activity in plain, factual language suitable for a compliance officer's review queue, referencing relevant regulatory obligations in general terms. This is a SYNTHETIC DEMONSTRATION only - never claim to be a real filing or legal advice. Call emit_compliance_report exactly once."

-- how an f-string writes an optional text, and a Boolean
abbrev shown_text : Option String → String
shown_text none = "None"
shown_text (some s) = s

abbrev shown_bool : Bool → String
shown_bool b = if b then "True" else "False"

-- `r.get("rule")`
abbrev rule_of : {N : Type 0} → Dict N → Json N
rule_of d = elim (get d "rule") [ none ↦ null | some v ↦ v ]

module _ (rt : Runtime) where
  open rt use {Num}

  unfoldable pub triage_content :
      Transaction Num → RuleEngineVerdict Num → PreFilterVerdict Num → String
  unfolding get
  triage_content tx rules prefilter =
      "Transaction "
      <> tx.id
      <> " on account "
      <> tx.account_id
      <> ": amount="
      <> rt.show_num tx.amount
      <> " "
      <> tx.currency
      <> ", beneficiary="
      <> shown_text tx.beneficiary_id
      <> ", device="
      <> shown_text tx.device_id
      <> ".\nRules engine: risk_score="
      <> rt.show_int rules.risk_score
      <> " band="
      <> rules.risk_band
      <> " triggered="
      <> rt.show_json (arr (items_of (map rule_of rules.triggered_rules)))
      <> ".\nPre-filter: anomaly_score="
      <> rt.fixed2 prefilter.anomaly_score
      <> " is_anomaly="
      <> shown_bool prefilter.is_anomaly
      <> "."

  unfoldable pub investigator_content : Transaction Num → TriageVerdict Num → String
  investigator_content tx triage =
      "Investigate transaction "
      <> tx.id
      <> " on account "
      <> tx.account_id
      <> " (amount="
      <> rt.show_num tx.amount
      <> " "
      <> tx.currency
      <> ", beneficiary="
      <> shown_text tx.beneficiary_id
      <> ", name="
      <> shown_text tx.beneficiary_name
      <> "). Triage flagged it as '"
      <> triage.category
      <> "' with fraud_likelihood="
      <> rt.fixed2 triage.fraud_likelihood
      <> ": "
      <> triage.reasoning

  unfoldable pub compliance_content : Transaction Num → CaseFile → String
  compliance_content tx case_file =
      "Case file for transaction "
      <> tx.id
      <> " (account "
      <> tx.account_id
      <> "): "
      <> case_file.summary
      <> "\nRisk score: "
      <> rt.show_int case_file.risk_score
      <> "\nEvidence: "
      <> join "; " case_file.evidence

  -- the prompts that the service uses
  abbrev pub agent_prompts : Prompts Num
  agent_prompts = record {
    triage_system = triage_system_prompt;
    investigator_system = investigator_system_prompt;
    compliance_system = compliance_system_prompt;
    triage_user = triage_content;
    investigator_user = investigator_content;
    compliance_user = compliance_content;
  }
