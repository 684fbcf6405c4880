-- ===== src/Payments/Evidence.antt =====
-- `payment_policy` of agents-python/app/payments.py as it stands in the code, on the dict of
-- `PipelineResult.as_dict`, and that it decides there as `payment_policy` of Payments.antt does.
use vaultwatch.Base.{
  ℕ, String, ◌≡◌, refl, Bool, true, false, not, ◌||◌, Option, none, some, List, [], truthy, arith,
  ◌∷◌, if◌then◌else◌, ◌==◌,
}
use vaultwatch.Base.Int.{pos, leb_ℤ}
use vaultwatch.Base.Exec.{Result, ok, err, other_exception}
use vaultwatch.Base.Exec.Results.{◌>>=◌}
use vaultwatch.Runtime.{or_else, Runtime, truth}
use vaultwatch.Models.{
  RuleEngineVerdict, PreFilterVerdict, TriageVerdict, CaseFile, Alert, Severity, low, medium, high,
  critical, severity_value,
}
use vaultwatch.Models.Values.{Json, null, bool, int, float, str, obj, empty, get, item, subscript}
use vaultwatch.Llm.Transcripts.{get_from}
use vaultwatch.CaseRecord.{
  PipelineResult, AuditStatus, verified, failed, unavailable, not_configured, Action, allow, hold,
  block,
}
use vaultwatch.CaseRecord.Dump.{
  as_dict, rules_dict, prefilter_dict, triage_dict, case_dict, alert_dict, audit_dict, status_value,
}
use vaultwatch.Payments.{payment_policy, is_verified}

module _ (rt : Runtime) where
  open rt use {Num}

  -- `result.get(k) or {}`
  unfoldable pub part : Json Num → String → Result (Json Num)
  part result k = do v ← get_from result k null; ok (or_else rt v (obj empty))

  -- `bool(d.get(k))`
  unfoldable pub flag : Json Num → String → Result Bool
  unfolding truth
  flag d k = do v ← get_from d k null; ok (truth rt v)

  -- `v == text`
  unfoldable pub is_text : Json Num → String → Bool
  is_text (str s) text = s == text
  is_text _ text = false

  -- `alert.get("severity") or rules.get("risk_band")`
  unfoldable pub severity_in : Json Num → Json Num → Result (Json Num)
  unfolding truth
  severity_in alert rules = do
    severity ← get_from alert "severity" null
    if truth rt severity then ok severity else get_from rules "risk_band" null

  -- `v >= 25`
  unfoldable pub at_least_25 : Json Num → Result Bool
  at_least_25 (int z) = ok (leb_ℤ (pos 25) z)
  at_least_25 (float x) = ok (rt.le (rt.of_ℤ (pos 25)) x)
  at_least_25 (bool b) = ok false
  at_least_25 _ = err (other_exception "TypeError")

  -- the five signals, the later ones read only without the earlier ones
  unfoldable pub signal_in : Json Num → Json Num → Json Num → Json Num → Result Bool
  unfolding truth
  signal_in result alert rules case_file = if truth rt alert then ok true else (do
    score ← get_from rules "risk_score" (int (pos 0))
    is_high ← at_least_25 score
    if is_high then ok true else (do
      prefilter ← subscript result "prefilter"
      is_anomaly ← flag prefilter "is_anomaly"
      if is_anomaly then ok true else (do
        triage ← part result "triage"
        escalate ← flag triage "escalate"
        if escalate then ok true else flag case_file "recommend_compliance_review")))

  unfoldable pub policy_on_dict : Json Num → Result (Action × List String)
  unfolding truth
  policy_on_dict result = do
    rules ← part result "rules"
    case_file ← part result "case"
    alert ← part result "alert"
    hit ← flag case_file "sanctions_hit"
    if hit then ok (block, "Synthetic watchlist match found in the investigation." ∷ []) else (do
      severity ← severity_in alert rules
      if is_text severity "critical"
          then ok (block, "Critical risk: simulated payment execution is blocked." ∷ [])
          else if is_text severity "high"
          then ok (hold, "High risk: payment paused for human review; execution is withheld." ∷ [])
          else (do
            audit ← get_from result "audit" (obj empty)
            status ← get_from audit "status" null
            if not (is_text status "verified")
                then ok (hold, "Processing evidence could not be verified; do not proceed." ∷ [])
                else (do
                  prefilter ← get_from result "prefilter" null
                  if not (truth rt rules) || not (truth rt prefilter)
                      then ok (hold, "Required risk checks are missing." ∷ [])
                      else (do
                        signal ← signal_in result alert rules case_file
                        if signal
                            then ok
                                (hold, "A risk signal remains; a human review is required." ∷ [])
                            else ok (
                              allow,
                              "Completed initial checks found no signal requiring a hold or block."
                                  ∷ [],
                            )))))

  module _ (iso_json iso : ℕ → String) where
    abbrev dict_of : PipelineResult Num → Json Num
    dict_of r = obj (as_dict iso_json iso r)

    is_verified_lem : (s : AuditStatus) → (status_value s == "verified") ≡ is_verified s
    unfolding status_value
    is_verified_lem verified = refl
    is_verified_lem failed = refl
    is_verified_lem unavailable = refl
    is_verified_lem not_configured = refl

    truthy_severity : (s : Severity) → truthy (severity_value s) ≡ true
    unfolding severity_value
    truthy_severity low = refl
    truthy_severity medium = refl
    truthy_severity high = refl
    truthy_severity critical = refl

    agrees :
        (r : PipelineResult Num) (rules : Option (RuleEngineVerdict Num))
        (prefilter : Option (PreFilterVerdict Num)) (triage : Option (TriageVerdict Num))
        (c : Option CaseFile) (alert : Option (Alert Num))
        → let q = record r {
          rules = rules;
          prefilter = prefilter;
          triage = triage;
          case = c;
          alert = alert;
        } in
          policy_on_dict (dict_of q) ≡ ok (payment_policy q)
    unfolding policy_on_dict part flag is_text severity_in at_least_25 signal_in get_from get item
        subscript as_dict or_else truth rules_dict prefilter_dict triage_dict case_dict alert_dict
        audit_dict status_value severity_value payment_policy
    agrees r rules prefilter triage c none = ground (arith, is_verified_lem r.audit.status)
    agrees r rules prefilter triage c (some a) =
        ground (arith, is_verified_lem r.audit.status, truthy_severity a.severity)

    -- On the JSON of a run the policy decides as on the run itself, and raises nothing.
    pub policy_on_dict-as_dict :
        (r : PipelineResult Num) → policy_on_dict (dict_of r) ≡ ok (payment_policy r)
    policy_on_dict-as_dict r = agrees r r.rules r.prefilter r.triage r.case r.alert
