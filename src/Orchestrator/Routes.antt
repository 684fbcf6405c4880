-- ===== src/Orchestrator/Routes.antt =====
-- The routes through the stages, and what a finished run promises.
use vaultwatch.Base.{
  ◌+◌, ◌≡◌, Bool, true, false, not, ◌&&◌, Option, none, some, length, is_some, if◌then◌else◌, [],
}
use vaultwatch.Base.Int.{ltb_ℤ}
use vaultwatch.Runtime.{Runtime}
use vaultwatch.Models.{
  RuleEngineVerdict, PreFilterVerdict, TriageVerdict, CaseFile, ComplianceReport, PipelineStage,
  Alert,
}
use vaultwatch.CaseRecord.{PipelineResult, Payment, verified, no_audit}
use vaultwatch.Payments.Control.{IsDecided}
use vaultwatch.Orchestrator.Wiring.{Services, severity_for}
use vaultwatch.Orchestrator.{rules_escalation_threshold}

-- the stage that an investigated case reaches
abbrev pub last_stage : CaseFile → Bool → PipelineStage
last_stage c fused =
    if fused
    then PipelineStage.fusion
    else if c.recommend_compliance_review
    then PipelineStage.compliance
    else PipelineStage.investigation

module _ {N : Type 0} where
  -- Neither the rules nor the prefilter gives a reason to go on.
  abbrev pub is_quiet : RuleEngineVerdict N → PreFilterVerdict N → Bool
  is_quiet v p = ltb_ℤ v.risk_score rules_escalation_threshold && not p.is_anomaly

  -- The verdicts that a run leaves: closed on quiet rules and prefilter, closed by triage, or
  -- investigated, with a compliance draft exactly if the case asks for one and an alert on the case.
  abbrev pub Routed :
      Option (RuleEngineVerdict N)
      → Option (PreFilterVerdict N)
      → Option (TriageVerdict N)
      → Option CaseFile
      → Option ComplianceReport
      → Option (Alert N)
      → PipelineStage
      → Type 0
  Routed (some v) (some p) none none none none stage =
      (is_quiet v p ≡ true) × (stage ≡ PipelineStage.closed)
  Routed (some v) (some p) (some t) none none none stage =
      (is_quiet v p ≡ false) × (t.escalate ≡ false) × (stage ≡ PipelineStage.closed)
  Routed (some v) (some p) (some t) (some c) draft (some a) stage =
      (is_quiet v p ≡ false)
      × (t.escalate ≡ true)
      × (is_some draft ≡ c.recommend_compliance_review)
      × (a.case ≡ c)
      × (a.fused_with_security_event ≡ is_some a.security_event)
      × (a.severity ≡ severity_for c.risk_score a.fused_with_security_event)
      × (stage ≡ last_stage c a.fused_with_security_event)
  Routed _ _ _ _ _ _ _ = ⊥

  abbrev pub IsRouted : PipelineResult N → Type 0
  IsRouted r = Routed r.rules r.prefilter r.triage r.case r.compliance r.alert r.stage_reached

module _ (rt : Runtime) {W : Type 0} (svc : Services rt.Num W) where
  open rt use {Num}

  -- What a returned result is: routed, decided on its own evidence, and with a complete trail
  -- wherever a configured audit ends verified.
  pub record IsComplete (r : PipelineResult Num) : Type 0 where
    pub routed : IsRouted r
    pub evidence : PipelineResult Num
    pub payment : Payment Num
    pub same : r ≡ record evidence { events = r.events; audit = r.audit; payment = some payment }
    pub decided : IsDecided rt svc.clock evidence r payment
    pub trail :
        is_some svc.audit ≡ true
        → r.audit.status ≡ verified
        → (r.audit.errors ≡ []) × (length r.audit.entries ≡ length r.events + 2)
    pub absent : is_some svc.audit ≡ false → r.audit ≡ no_audit
