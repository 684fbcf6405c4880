-- ===== src/Orchestrator/Promises.antt =====
-- What a caller of `process_transaction` can rely on.
use vaultwatch.Base.{
  ◌+◌, ◌≡◌, ◌≢◌, ◌⊎◌, refl, sym, ap, ◌∙◌, true, inl, inr, Option, none, some, [], arith, length,
  is_some,
}
use mathlib.Core.Path.{subst}
use mathlib.Core.Option.{some-injective}
use vaultwatch.Base.Exec.{Exc, ok, err}
use vaultwatch.Base.Exec.Ends.{Ends-ok, Ends-err}
use vaultwatch.Runtime.{Runtime}
use vaultwatch.Models.{
  Transaction, ScoringContext, RuleEngineVerdict, PreFilterVerdict, CaseFile, ComplianceReport,
  TriageVerdict, PipelineStage, Alert, critical, severity_value,
}
use vaultwatch.Models.Values.{Dict}
use vaultwatch.CaseRecord.{PipelineResult, Payment, allow, block, verified, not_configured}
use vaultwatch.Payments.{simulate_execution, payment_policy, sanctions_hit, severity_of}
use vaultwatch.Payments.Control.{IsDecided}
use vaultwatch.Payments.Policy.{IsClearRules, IsClearPrefilter, IsBlocking, policy_decides}
use vaultwatch.Orchestrator.Wiring.{Services}
use vaultwatch.Orchestrator.Routes.{Routed, IsRouted, IsComplete}
use vaultwatch.Orchestrator.Outcome.{MayRaise}
use vaultwatch.Orchestrator.Outcome.Complete.{process-IsComplete}
use vaultwatch.Orchestrator.{process_transaction}

severity-critical :
    {N : Type 0} (a : Alert N) (v : Option (RuleEngineVerdict N))
    → a.severity ≡ critical
    → severity_of (some a) v ≡ some "critical"
unfolding severity_of
severity-critical a v h = ap (λ s. some (severity_value s)) h

-- Clear evidence leaves only the first route.
clear_route :
    {N : Type 0} (v : Option (RuleEngineVerdict N)) (p : Option (PreFilterVerdict N))
    (t : Option (TriageVerdict N)) (c : Option CaseFile) (d : Option ComplianceReport)
    (a : Option (Alert N)) (stage : PipelineStage)
    → Routed v p t c d a stage
    → IsClearRules v
    → IsClearPrefilter p
    → a ≡ none
    → (t ≡ none) × (c ≡ none) × (stage ≡ PipelineStage.closed)
clear_route (some v) (some p) none none none none stage h cv cp e = (refl, refl, h.1)
clear_route (some v) (some p) (some t) none none none stage h cv cp e = ground arith
clear_route (some v) (some p) (some t) (some c) d (some a) stage h cv cp e = cc
clear_route _ _ _ _ _ _ stage h cv cp e = elim h [ ]

not_configured-ne-verified : not_configured ≢ verified
not_configured-ne-verified h = cc

-- What the result of an allowed payment is like.
pub record IsAllowed (rt : Runtime) (r : PipelineResult rt.Num) (p : Payment rt.Num) : Type 0 where
  pub rules : IsClearRules r.rules
  pub prefilter : IsClearPrefilter r.prefilter
  pub no_model : r.triage ≡ none
  pub no_case : r.case ≡ none
  pub no_alert : r.alert ≡ none
  pub closed : r.stage_reached ≡ PipelineStage.closed
  pub audited : (r.audit.status ≡ verified) × (r.audit.errors ≡ [])
  pub receipt : p.simulation_receipt ≡ some (simulate_execution rt r.transaction)

module _ (rt : Runtime) {W : Type 0} (svc : Services rt.Num W) (tx : Transaction rt.Num)
    (context : Option (ScoringContext rt.Num)) (review : Option (Dict rt.Num)) (w : W)
    {r : PipelineResult rt.Num} {w' : W}
    (returned : process_transaction rt svc tx context review w ≡ (ok r, w')) where
  open rt use {Num}

  complete : IsComplete rt svc r
  complete = Ends-ok _ (process-IsComplete rt svc tx context review w) returned

  -- A returned result is routed by its own verdicts: it is closed without triage exactly on quiet
  -- rules and prefilter, closed by triage exactly without escalation, and otherwise has a case, an
  -- alert of the severity that goes with the case's score and a fused warning, and a compliance draft
  -- exactly if the case asks for one; its stage is the last that it reached.
  pub process-IsRouted : IsRouted r
  process-IsRouted = complete.routed

  -- If the audit is configured and that of a returned result is verified, nothing went unrecorded:
  -- there are no errors, and two receipts more than events.
  pub process_audited :
      is_some svc.audit ≡ true
      → r.audit.status ≡ verified
      → (r.audit.errors ≡ []) × (length r.audit.entries ≡ length r.events + 2)
  process_audited = complete.trail

  -- A returned result has a payment.
  pub process_pays : (p : Payment Num) × (r.payment ≡ some p)
  process_pays = (complete.payment, complete.decided.stored)

  module _ (p : Payment Num) (stored : r.payment ≡ some p) where
    evidence : PipelineResult Num
    evidence = complete.evidence

    decided : IsDecided rt svc.clock complete.evidence r p
    decided =
        subst (λ q. IsDecided rt svc.clock complete.evidence r q)
          (some-injective _ _ (sym complete.decided.stored ∙ stored)) complete.decided

    policy_allowed : p.action ≡ allow → (payment_policy complete.evidence).0 ≡ allow
    policy_allowed h = ground (arith, decided.policy, decided.kept)

    -- If a returned result allows its payment, then the rules give less than 25 points in a band below "high", the prefilter sees
    -- no anomaly, no agent ran, no alert was raised, the run closed at once, the audit is verified
    -- without errors, and the receipt is that of the run's own transaction.
    pub process_allows : p.action ≡ allow → IsAllowed rt r p
    process_allows allowed =
        let clear = (policy_decides complete.evidence).1.0 (policy_allowed allowed) in
        let same = complete.same in
        let rules = subst IsClearRules (sym (ap (λ x. x.rules) same)) clear.rules in
        let prefilter = subst IsClearPrefilter (sym (ap (λ x. x.prefilter) same)) clear.prefilter in
        let no_alert = ap (λ x. x.alert) same ∙ clear.no_alert in
        let (no_model, no_case, closed) =
          clear_route r.rules r.prefilter r.triage r.case r.compliance r.alert r.stage_reached
            complete.routed rules prefilter no_alert in
        let (receipt, audited) = executed_of (decided.executed allowed) in
        record {
          rules = rules;
          prefilter = prefilter;
          no_model = no_model;
          no_case = no_case;
          no_alert = no_alert;
          closed = closed;
          audited = audited;
          receipt = receipt ∙ ap (λ x. some (simulate_execution rt x.transaction)) (sym same);
        }
      where
        executed_of : {A B C : Type 0} → A × B × C → A × (B × C)
        executed_of (a, b, c) = (a, (b, c))

    -- A sanctions hit in the case of a returned result, or an alert of critical severity, blocks its
    -- payment: there is no simulation receipt.
    pub process_blocks :
        (sanctions_hit r.case ≡ true)
          ⊎ ((a : Alert Num) × (r.alert ≡ some a) × (a.severity ≡ critical))
        → (p.action ≡ block) × (p.simulation_receipt ≡ none)
    process_blocks reason =
        let blocked = (policy_decides complete.evidence).0.1 (blocking reason) in
        let action : p.action ≡ block = ground (arith, decided.policy, decided.kept, blocked) in
        (action, decided.withheld (λ h. cc (action, h)))
      where
        blocking :
            (sanctions_hit r.case ≡ true)
              ⊎ ((a : Alert Num) × (r.alert ≡ some a) × (a.severity ≡ critical))
            → IsBlocking complete.evidence
        blocking (inl hit) = inl (ap (λ x. sanctions_hit x.case) (sym complete.same) ∙ hit)
        blocking (inr (a, raised, severe)) = inr (
            ap (λ x. severity_of x.alert x.rules) (sym complete.same)
            ∙ ap (λ x. severity_of x r.rules) raised
            ∙ severity-critical a r.rules severe)

    -- Without a configured audit the payment of a returned result is not allowed, and not simulated.
    pub process_unaudited : svc.audit ≡ none → (p.action ≢ allow) × (p.simulation_receipt ≡ none)
    process_unaudited off =
        let never : p.action ≢ allow = λ h.
          not_configured-ne-verified (
            ap (λ a. a.status) (sym (complete.absent (ap is_some off))) ∙ (decided.executed h).1) in
        (never, decided.withheld never)

-- A run raises only what its parts raise: a cancellation, what the event sink, the scoring context,
-- the rules or the prefilter raises, or an agent's failure. No failure of the audit service is passed on.
pub process-MayRaise :
    (rt : Runtime) {W : Type 0} (svc : Services rt.Num W) (tx : Transaction rt.Num)
    (context : Option (ScoringContext rt.Num)) (review : Option (Dict rt.Num)) (w : W) {e : Exc}
    {w' : W}
    → process_transaction rt svc tx context review w ≡ (err e, w')
    → MayRaise rt svc tx e
process-MayRaise rt svc tx context review w raised =
    Ends-err _ (process-IsComplete rt svc tx context review w) raised
