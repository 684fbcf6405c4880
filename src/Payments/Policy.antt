-- ===== src/Payments/Policy.antt =====
-- Which evidence `payment_policy` allows, blocks or holds.
use vaultwatch.Base.{
  String, ◌≡◌, ◌≢◌, ◌↔◌, ◌⊎◌, refl, true, false, Option, none, some, arith, eq_iff,
}
use vaultwatch.Base.Int.{pos, ◌<ℤ◌}
use vaultwatch.Models.{
  RuleEngineVerdict, PreFilterVerdict, TriageVerdict, CaseFile, Alert, Severity, low, medium, high,
  critical, severity_value,
}
use vaultwatch.CaseRecord.{PipelineResult, verified, allow, hold, block}
use vaultwatch.Payments.{payment_policy, severity_of, says, sanctions_hit}

abbrev pub IsClearCase : Option CaseFile → Type 0
IsClearCase none = Unit
IsClearCase (some c) = (c.sanctions_hit ≡ false) × (c.recommend_compliance_review ≡ false)

says_iff : (o : Option String) (t : String) → (says o t ≡ true) ↔ (o ≡ some t)
says_iff none t = ground arith
says_iff (some s) t = ground (arith, eq_iff s t)

not_critical : (s : Severity) → s ≢ critical → says (some (severity_value s)) "critical" ≡ false
unfolding severity_value
not_critical low h = refl
not_critical medium h = refl
not_critical high h = refl
not_critical critical h = absurd (h refl)

module _ {N : Type 0} where
  abbrev pub IsClearRules : Option (RuleEngineVerdict N) → Type 0
  IsClearRules none = ⊥
  IsClearRules (some r) =
      (r.risk_score <ℤ pos 25) × (r.risk_band ≢ "critical") × (r.risk_band ≢ "high")

  abbrev pub IsClearPrefilter : Option (PreFilterVerdict N) → Type 0
  IsClearPrefilter none = ⊥
  IsClearPrefilter (some p) = p.is_anomaly ≡ false

  abbrev pub IsClearTriage : Option (TriageVerdict N) → Type 0
  IsClearTriage none = Unit
  IsClearTriage (some t) = t.escalate ≡ false

  -- Evidence with no signal against the payment, and with its record verified.
  pub record IsClear (r : PipelineResult N) : Type 0 where
    pub audited : r.audit.status ≡ verified
    pub no_alert : r.alert ≡ none
    pub rules : IsClearRules r.rules
    pub prefilter : IsClearPrefilter r.prefilter
    pub triage : IsClearTriage r.triage
    pub case : IsClearCase r.case

  -- Evidence that must stop the payment.
  abbrev pub IsBlocking : PipelineResult N → Type 0
  IsBlocking r = (sanctions_hit r.case ≡ true) ⊎ (severity_of r.alert r.rules ≡ some "critical")

  -- The policy blocks exactly the evidence that must stop the payment, allows exactly the clear
  -- evidence, and so holds the rest.
  pub policy_decides :
      (r : PipelineResult N)
      → (((payment_policy r).0 ≡ block) ↔ IsBlocking r)
        × (((payment_policy r).0 ≡ allow) ↔ IsClear r)
  unfolding payment_policy
  policy_decides r =
      let s = says_iff (severity_of r.alert r.rules) in
      (
        ground (arith, s "critical"),
        (λ h. ground (arith, s "critical", s "high"), λ h. ground (arith, s "critical", s "high")),
      )

  -- An alert's severity takes the place of the rules' band: with no sanctions hit, an alert that
  -- is not critical leaves the payment held, whatever the band and the audit say.
  policy_masks_band :
      (r : PipelineResult N) (a : Alert N)
      → r.alert ≡ some a
      → a.severity ≢ critical
      → sanctions_hit r.case ≡ false
      → (payment_policy r).0 ≡ hold
  unfolding payment_policy
  policy_masks_band r a e below clean = ground (arith, not_critical a.severity below)
