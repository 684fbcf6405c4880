-- ===== src/Models.antt =====
-- agents-python/app/models.py: the records that the pipeline passes on. `N` is Python's `float`.
-- A `datetime` is its count of microseconds. What a `dict` of the source holds is a record, where
-- its keys are fixed, and a value of Models/Values.antt, where they are not.
pub mod Values
use vaultwatch.Base.{ℕ, String, Bool, Option, List}
use vaultwatch.Base.Int.{ℤ}
use Values.{Json, Dict}

pub record Transaction (N : Type 0) : Type 0 where
  pub id : String
  pub account_id : String
  pub amount : N
  pub currency : String
  pub timestamp : ℕ
  pub lat : Option N
  pub lon : Option N
  pub beneficiary_name : Option String
  pub beneficiary_id : Option String
  pub device_id : Option String

pub record ScoringContext (N : Type 0) : Type 0 where
  pub recent_amounts : List N
  pub recent_count_last_hour : ℤ
  pub recent_sum_last_hour : N
  pub known_beneficiaries : List String
  pub known_devices : List String
  pub last_location : Option (Dict N)

pub record RuleEngineVerdict (N : Type 0) : Type 0 where
  pub transaction_id : String
  pub risk_score : ℤ
  pub risk_band : String
  pub triggered_rules : List (Dict N)

pub record PreFilterVerdict (N : Type 0) : Type 0 where
  pub anomaly_score : N
  pub is_anomaly : Bool

pub record TriageVerdict (N : Type 0) : Type 0 where
  pub fraud_likelihood : N
  pub category : String
  pub escalate : Bool
  pub reasoning : String

pub record CaseFile : Type 0 where
  pub summary : String
  pub risk_score : ℤ
  pub evidence : List String
  pub linked_accounts : List String
  pub sanctions_hit : Bool
  pub recommend_compliance_review : Bool

pub record ComplianceReport : Type 0 where
  pub narrative : String
  pub obligations_referenced : List String
  pub disclaimer : String

pub data PipelineStage : Type 0 where
  rules prefilter triage investigation compliance fusion closed : PipelineStage

-- `PipelineStage.value`
unfoldable pub stage_value : PipelineStage → String
stage_value PipelineStage.rules = "rules"
stage_value PipelineStage.prefilter = "prefilter"
stage_value PipelineStage.triage = "triage"
stage_value PipelineStage.investigation = "investigation"
stage_value PipelineStage.compliance = "compliance"
stage_value PipelineStage.fusion = "fusion"
stage_value PipelineStage.closed = "closed"

pub record SecurityEvent (N : Type 0) : Type 0 where
  pub type : String
  pub account_id : Option String
  pub severity : String
  pub detail : Dict N
  pub timestamp : Option String

-- the `detail` that each stage gives its event
pub data Detail (N : Type 0) : Type 0 where
  no_detail : Detail N
  rules_detail : RuleEngineVerdict N → Detail N
  prefilter_detail : PreFilterVerdict N → Detail N
  triage_detail : TriageVerdict N → Detail N
  tool_detail : String → Dict N → Dict N → Detail N
  case_detail : CaseFile → Detail N
  compliance_detail : ComplianceReport → Detail N
  security_detail : SecurityEvent N → Detail N

pub record AgentEvent (N : Type 0) : Type 0 where
  pub transaction_id : String
  pub account_id : String
  pub stage : PipelineStage
  pub label : String
  pub detail : Detail N
  pub timestamp : ℕ

pub data Severity : Type 0 where
  low medium high critical : Severity

pub record Alert (N : Type 0) : Type 0 where
  pub transaction_id : String
  pub account_id : String
  pub severity : Severity
  pub title : String
  pub case : CaseFile
  pub security_event : Option (SecurityEvent N)
  pub fused_with_security_event : Bool
  pub timestamp : ℕ

-- the texts that `severity` takes
unfoldable pub severity_value : Severity → String
severity_value low = "low"
severity_value medium = "medium"
severity_value high = "high"
severity_value critical = "critical"
