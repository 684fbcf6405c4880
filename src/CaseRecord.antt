-- ===== src/CaseRecord.antt =====
-- What a pipeline run keeps: `PipelineResult` of agents-python/app/orchestrator.py, with its event
-- list, its `audit` dict and its `payment` dict (agents-python/app/payments.py).
pub mod Dump
use vaultwatch.Base.{ℕ, String, Option, none, List, []}
use vaultwatch.Models.{
  Transaction, ScoringContext, RuleEngineVerdict, PreFilterVerdict, TriageVerdict, CaseFile,
  ComplianceReport, PipelineStage, AgentEvent, Alert,
}
use vaultwatch.Models.Values.{Json, Dict}

-- `audit["status"]`
pub data AuditStatus : Type 0 where
  not_configured verified failed unavailable : AuditStatus

-- Receipts and the verification are the JSON that the audit service answers with.
pub record Audit (N : Type 0) : Type 0 where
  pub status : AuditStatus
  pub entries : List (Json N)
  pub errors : List String
  pub verification : Option (Json N)
  pub checked_at : Option ℕ

-- the payment decision's texts
pub data Action : Type 0 where
  allow hold block : Action

-- the text of an action in the records
unfoldable pub action_value : Action → String
action_value allow = "allow"
action_value hold = "hold"
action_value block = "block"

-- the event that `apply_payment_control` appends
pub record PaymentEvent : Type 0 where
  pub transaction_id : String
  pub account_id : String
  pub timestamp : ℕ
  pub label : String
  pub policy_version : String
  pub action : Action
  pub reasons : List String
  pub scope : String

pub data CaseEvent (N : Type 0) : Type 0 where
  agent_event : AgentEvent N → CaseEvent N
  alert_event : Alert N → CaseEvent N
  payment_event : PaymentEvent → CaseEvent N

pub record SimulationReceipt (N : Type 0) : Type 0 where
  pub id : String
  pub status : String
  pub amount : N
  pub currency : String

pub record Payment (N : Type 0) : Type 0 where
  pub action : Action
  pub policy_action : Action
  pub policy_version : String
  pub reasons : List String
  pub decided_at : ℕ
  pub scope : String
  pub execution_status : String
  pub simulation_receipt : Option (SimulationReceipt N)

pub record PipelineResult (N : Type 0) : Type 0 where
  pub transaction : Transaction N
  pub context : ScoringContext N
  pub review : Dict N
  pub events : List (CaseEvent N)
  pub model_mode : String
  pub audit : Audit N
  pub stage_reached : PipelineStage
  pub rules : Option (RuleEngineVerdict N)
  pub prefilter : Option (PreFilterVerdict N)
  pub triage : Option (TriageVerdict N)
  pub case : Option CaseFile
  pub compliance : Option ComplianceReport
  pub alert : Option (Alert N)
  pub payment : Option (Payment N)

abbrev pub no_audit : {N : Type 0} → Audit N
no_audit = record {
  status = not_configured;
  entries = [];
  errors = [];
  verification = none;
  checked_at = none;
}

-- `PipelineResult()`, with the four fields that `process_transaction` sets at once
unfoldable pub new_result :
    {N : Type 0} → Transaction N → ScoringContext N → Dict N → String → PipelineResult N
new_result tx ctx review mode = record {
  transaction = tx;
  context = ctx;
  review = review;
  events = [];
  model_mode = mode;
  audit = no_audit;
  stage_reached = PipelineStage.closed;
  rules = none;
  prefilter = none;
  triage = none;
  case = none;
  compliance = none;
  alert = none;
  payment = none;
}
