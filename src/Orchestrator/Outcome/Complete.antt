-- ===== src/Orchestrator/Outcome/Complete.antt =====
-- Every result that `process_transaction` returns is complete.
use vaultwatch.Base.{
  ◌≡◌, String, refl, sym, ap, true, false, Option, none, some, [], is_some, inl, inr, Bool-cases,
}
use vaultwatch.Base.Exec.{Result, ok, err}
use vaultwatch.Base.Exec.Ends.{Ends, Ends-continue}
use vaultwatch.Runtime.{Runtime}
use vaultwatch.Models.{
  Transaction, ScoringContext, RuleEngineVerdict, PreFilterVerdict, TriageVerdict,
}
use vaultwatch.Models.Values.{Dict}
use vaultwatch.CaseRecord.{Audit, new_result, no_audit}
use vaultwatch.Audit.{Run}
use vaultwatch.Audit.Waits.{after-call}
use vaultwatch.Orchestrator.Wiring.{Services}
use vaultwatch.Orchestrator.Recording.Rules.{IsRecorded, after-record}
use vaultwatch.Orchestrator.Balance.{IsBalanced, after-event, after-stage, after-tools}
use vaultwatch.Orchestrator.Routes.{IsComplete, is_quiet}
use vaultwatch.Orchestrator.{
  raise_alert, investigate_case, triage_case, pipeline, process_transaction, returned, context_of,
}
use vaultwatch.Orchestrator.Outcome.{
  trail, building, scoring, filtering, triaging, investigating, MayRaise, Completes,
  finish-IsComplete, close-IsComplete, after-draft, after-fuse, after-recent, stage_eq,
}

module _ (rt : Runtime) {W : Type 0} (svc : Services rt.Num W) (tx : Transaction rt.Num) where
  open rt use {Num}

  investigate-IsComplete :
      (mode : String) (v : RuleEngineVerdict Num) (p : PreFilterVerdict Num) (t : TriageVerdict Num)
      (s : Run Num W)
      → s.result.rules ≡ some v
      → s.result.prefilter ≡ some p
      → s.result.triage ≡ some t
      → is_some s.result.compliance ≡ false
      → is_quiet v p ≡ false
      → t.escalate ≡ true
      → IsBalanced rt svc tx s.result.events s.result.audit
      → Completes rt svc tx (investigate_case rt svc tx mode v t s)
  unfolding investigate_case raise_alert
  investigate-IsComplete mode v p t s ev ep et no_draft loud up b =
      after-call _ _ s (λ e w h. investigating t v.risk_score s.world w h)
        λ ran w _.
          after-tools rt svc tx _ _ _ _ b (λ e s' h. trail h)
            λ es₁ a₁ w₁ b₁.
              after-stage rt svc tx _ _ _ _ _ b₁ (λ e s' h. trail h)
                λ es₂ a₂ w₂ b₂.
                  after-draft rt svc tx ran.1 _ _ no_draft b₂ λ draft stage es₃ a₃ w₃ b₃ asked at.
                    after-recent rt svc tx _ _ λ event w₃'.
                      after-fuse rt svc tx event _ _ b₃ λ stage' es₄ a₄ w₄ b₄ at'.
                        after-event rt svc tx _ _ _ b₄ (λ e s' h. trail h)
                          λ es₅ a₅ w₅ b₅.
                            finish-IsComplete rt svc tx _
                              (simp (ev, ep, et)
                                (
                                  loud,
                                  up,
                                  asked,
                                  refl,
                                  refl,
                                  refl,
                                  stage_eq rt svc tx ran.1 event at at',
                                ))
                              b₅

  triage-IsComplete :
      (mode : String) (v : RuleEngineVerdict Num) (p : PreFilterVerdict Num) (s : Run Num W)
      → s.result.rules ≡ some v
      → s.result.prefilter ≡ some p
      → s.result.case ≡ none
      → s.result.compliance ≡ none
      → s.result.alert ≡ none
      → is_quiet v p ≡ false
      → IsBalanced rt svc tx s.result.events s.result.audit
      → Completes rt svc tx (triage_case rt svc tx mode v p s)
  unfolding triage_case
  triage-IsComplete mode v p s ev ep ec ed ea loud b =
      after-call _ _ s (λ e w h. triaging v p s.world w h)
        λ t w _.
          after-stage rt svc tx _ _ _ _ _ b (λ e s' h. trail h)
            λ es a w₁ b₁. elim (Bool-cases t.escalate) [
              | inl up ↦
                  simp up
                    (investigate-IsComplete mode v p t _ ev ep refl (ap is_some ed) loud up b₁)
              | inr down ↦
                  simp down (
                    close-IsComplete rt svc tx _ _ (simp (ev, ep, ec, ed, ea) (loud, down, refl))
                      b₁)
            ]

  pipeline-IsComplete :
      (ctx : ScoringContext Num) (notes : Dict Num) (mode : String) (w : W)
      → Completes rt svc tx (
          pipeline rt svc tx ctx notes mode
            (record { result = new_result tx ctx notes mode; world = w }))
  unfolding pipeline new_result
  pipeline-IsComplete ctx notes mode w =
      after-record rt svc tx _ _ _ _ (λ e s' h. trail h)
        λ a w₁ recorded.
          let b₀ = opening recorded in
          after-call _ _ _ (λ e w h. scoring ctx w₁ w h)
            λ v w₂ _.
              after-stage rt svc tx _ _ _ _ _ b₀ (λ e s' h. trail h)
                λ es₁ a₁ w₃ b₁.
                  after-call _ _ _ (λ e w h. filtering ctx w₃ w h)
                    λ p w₄ _.
                      after-stage rt svc tx _ _ _ _ _ b₁ (λ e s' h. trail h)
                        λ es₂ a₂ w₅ b₂. elim (Bool-cases (is_quiet v p)) [
                          | inl quiet ↦ simp quiet (close-IsComplete rt svc tx _ _ (quiet, refl) b₂)
                          | inr loud ↦
                              simp loud
                                (triage-IsComplete mode v p _ refl refl refl refl refl loud b₂)
                        ]
    where
      opening :
          {a : Audit Num} → IsRecorded (is_some svc.audit) 1 no_audit a → IsBalanced rt svc tx [] a
      opening h = record { count = h.count; absent = h.absent }

  returned-IsComplete :
      (m : Result Unit × Run Num W)
      → Completes rt svc tx m
      → Ends (λ r _. IsComplete rt svc r) (λ e _. MayRaise rt svc tx e) (returned rt svc tx m)
  unfolding returned
  returned-IsComplete (ok _, s) h = record { at = h.at }
  returned-IsComplete (err e, s) h = record { at = h.at }

  built :
      (w : W) (m : Result (ScoringContext Num) × W)
      → m ≡ svc.build_scoring_context tx.account_id tx.amount w
      → Ends (λ _ _. Unit) (λ e _. MayRaise rt svc tx e) m
  built w (ok ctx, w') h = record { at = tt }
  built w (err e, w') h = record { at = building w w' (sym h) }

  context-Ends :
      (context : Option (ScoringContext Num)) (w : W)
      → Ends (λ _ _. Unit) (λ e _. MayRaise rt svc tx e) (context_of rt svc tx context w)
  unfolding context_of
  context-Ends none w = built w _ refl
  context-Ends (some c) w = record { at = tt }

  -- A run of `process_transaction` either returns a complete result, or raises what it may raise: a
  -- failing audit service is no reason to raise.
  pub process-IsComplete :
      (context : Option (ScoringContext Num)) (review : Option (Dict Num)) (w : W)
      → Ends
          (λ r _. IsComplete rt svc r)
          (λ e _. MayRaise rt svc tx e)
          (process_transaction rt svc tx context review w)
  unfolding process_transaction
  process-IsComplete context review w =
      Ends-continue _ _ (context-Ends context w) (λ e w' h. h)
        λ ctx w' _. returned-IsComplete _ (pipeline-IsComplete ctx _ _ w')
