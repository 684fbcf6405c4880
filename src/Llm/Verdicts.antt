-- ===== src/Llm/Verdicts.antt =====
-- The verdicts that pydantic builds from a tool call's input or an answer (agents-python/app/models.py): a
-- missing or refused field, or a number out of its range, raises a `ValidationError`.
pub mod Fields
use vaultwatch.Base.{String, Bool, false, ◌&&◌, Option, none, some, List, [], ◌∷◌, if◌then◌else◌}
use vaultwatch.Base.Int.{pos, leb_ℤ}
use vaultwatch.Base.Exec.{Result, ok, err, value_error, other_exception}
use vaultwatch.Base.Exec.Results.{◌>>=◌}
use vaultwatch.Runtime.{Runtime}
use vaultwatch.Models.{RuleEngineVerdict, TriageVerdict, CaseFile, ComplianceReport}
use vaultwatch.Models.Values.{Json, Dict, Items, obj, arr, nil, cons, get}

abbrev pub or_invalid : {A : Type 0} → Option A → Result A
or_invalid none = err (value_error "ValidationError")
or_invalid (some a) = ok a

module _ {N A : Type 0} (convert : Json N → Option A) where
  -- a field with no default
  unfoldable pub required : Dict N → String → Result A
  unfolding get
  required d k = elim (get d k) [
    | none ↦ err (value_error "ValidationError")
    | some v ↦ or_invalid (convert v)
  ]

  -- a field with a default
  unfoldable pub defaulted : A → Dict N → String → Result A
  unfolding get
  defaulted a d k = elim (get d k) [ none ↦ ok a | some v ↦ or_invalid (convert v) ]

abbrev pub disclaimer : String
disclaimer =
    "Synthetic demonstration output only. Not legal or regulatory advice, and not a real Suspicious Activity Report."

module _ {N : Type 0} where
  -- pydantic's `list[dict[str, Any]]`
  unfoldable pub dicts_of : Items N → Option (List (Dict N))
  dicts_of nil = some []
  dicts_of (cons (obj d) xs) = elim (dicts_of xs) [ none ↦ none | some ds ↦ some (d ∷ ds) ]
  dicts_of (cons _ xs) = none

  unfoldable pub to_dicts : Json N → Option (List (Dict N))
  unfolding dicts_of
  to_dicts (arr xs) = dicts_of xs
  to_dicts _ = none

module _ (rt : Runtime) where
  open rt use {Num, to_str, to_int, to_float, to_bool, to_strs}

  abbrev pub in_unit : Num → Bool
  in_unit x = rt.le (rt.of_ℤ (pos 0)) x && rt.le x (rt.of_ℤ (pos 1))

  unfoldable pub triage_verdict : Dict Num → Result (TriageVerdict Num)
  unfolding required
  triage_verdict d = do
    likelihood ← required to_float d "fraud_likelihood"
    category ← required to_str d "category"
    escalate ← required to_bool d "escalate"
    reasoning ← required to_str d "reasoning"
    if in_unit likelihood
        then ok (record {
          fraud_likelihood = likelihood;
          category = category;
          escalate = escalate;
          reasoning = reasoning;
        })
        else err (value_error "ValidationError")

  unfoldable pub case_file : Dict Num → Result CaseFile
  unfolding required defaulted
  case_file d = do
    summary ← required to_str d "summary"
    score ← required to_int d "risk_score"
    evidence ← defaulted to_strs [] d "evidence"
    linked ← defaulted to_strs [] d "linked_accounts"
    hit ← defaulted to_bool false d "sanctions_hit"
    review ← required to_bool d "recommend_compliance_review"
    if leb_ℤ (pos 0) score && leb_ℤ score (pos 100)
        then ok (record {
          summary = summary;
          risk_score = score;
          evidence = evidence;
          linked_accounts = linked;
          sanctions_hit = hit;
          recommend_compliance_review = review;
        })
        else err (value_error "ValidationError")

  unfoldable pub compliance_report : Dict Num → Result ComplianceReport
  unfolding required defaulted
  compliance_report d = do
    narrative ← required to_str d "narrative"
    obligations ← defaulted to_strs [] d "obligations_referenced"
    note ← defaulted to_str disclaimer d "disclaimer"
    ok (record { narrative = narrative; obligations_referenced = obligations; disclaimer = note })

  -- `RuleEngineVerdict(**answer)`
  unfoldable pub rule_engine_verdict : Json Num → Result (RuleEngineVerdict Num)
  unfolding required defaulted to_dicts
  rule_engine_verdict (obj d) = do
    transaction_id ← required to_str d "transaction_id"
    risk_score ← required to_int d "risk_score"
    risk_band ← required to_str d "risk_band"
    triggered_rules ← defaulted to_dicts [] d "triggered_rules"
    ok (record {
      transaction_id = transaction_id;
      risk_score = risk_score;
      risk_band = risk_band;
      triggered_rules = triggered_rules;
    })
  rule_engine_verdict _ = err (other_exception "TypeError")
