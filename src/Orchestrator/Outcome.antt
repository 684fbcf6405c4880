-- ===== src/Orchestrator/Outcome.antt =====
-- How the stages of a run end: what each may raise, and what it leaves. The whole run is in
-- Outcome/Complete.antt.
pub mod Complete
use vaultwatch.Base.{
  ◌≡◌, String, refl, sym, ap, ◌∙◌, true, false, Option, none, some, List, [], ◌∷◌, arith, length,
  length-append, is_some, if◌then◌else◌, inl, inr, Bool-cases,
}
use mathlib.Core.Path.{subst}
use vaultwatch.Base.Exec.{Exc, Result, ok, err, Exec, continue}
use vaultwatch.Base.Exec.Ends.{Ends, Ends-continue, Ends-assoc, Ends-weaken}
use vaultwatch.Runtime.{Runtime}
use vaultwatch.Models.{
  Transaction, ScoringContext, RuleEngineVerdict, PreFilterVerdict, TriageVerdict, CaseFile,
  ComplianceReport, SecurityEvent, PipelineStage,
}
use vaultwatch.Models.Values.{Dict}
use vaultwatch.CaseRecord.{PipelineResult, CaseEvent, Audit, new_result, no_audit}
use vaultwatch.Audit.{Run, outside}
use vaultwatch.Audit.Waits.{after-call}
use vaultwatch.Base.Int.{ℤ}
use vaultwatch.Llm.Agents.{run_triage, run_compliance}
use vaultwatch.Llm.Investigator.{run_investigator}
use vaultwatch.Orchestrator.Wiring.{Services}
use vaultwatch.Orchestrator.Recording.{finish, close}
use vaultwatch.Orchestrator.Recording.Rules.{TrailRaises, IsRecorded, after-record}
use vaultwatch.Orchestrator.Recording.Finish.{IsFinished, finish-IsFinished}
use vaultwatch.Orchestrator.Balance.{IsBalanced, after-event, after-stage, after-tools}
use vaultwatch.Orchestrator.Routes.{last_stage, IsRouted, IsComplete, is_quiet}
use vaultwatch.Orchestrator.{
  drafted, compliance_call, recent, draft_compliance, fuse, raise_alert, investigate_case,
  triage_case, pipeline, process_transaction, returned, context_of,
}

module _ (rt : Runtime) {W : Type 0} (svc : Services rt.Num W) (tx : Transaction rt.Num) where
  open rt use {Num}

  -- What a run may raise: the exceptions that writing its trail raises, and those that the rules, the
  -- prefilter and the agents raise.
  pub data MayRaise (e : Exc) : Type 0 where
    trail : TrailRaises rt svc tx e → MayRaise e
    building :
        (w w' : W) → svc.build_scoring_context tx.account_id tx.amount w ≡ (err e, w') → MayRaise e
    scoring : (ctx : ScoringContext Num) (w w' : W) → svc.score tx ctx w ≡ (err e, w') → MayRaise e
    filtering :
        (ctx : ScoringContext Num) (w w' : W) → svc.prefilter tx ctx w ≡ (err e, w') → MayRaise e
    triaging :
        (v : RuleEngineVerdict Num) (p : PreFilterVerdict Num) (w w' : W)
        → run_triage rt svc.prompts svc.provider svc.haiku_model tx v p w ≡ (err e, w')
        → MayRaise e
    investigating :
        (t : TriageVerdict Num) (z : ℤ) (w w' : W)
        → run_investigator rt svc.research svc.provider svc.prompts svc.sonnet_model tx t z w
          ≡ (err e, w')
        → MayRaise e
    drafting :
        (c : CaseFile) (w w' : W)
        → run_compliance rt svc.prompts svc.provider svc.sonnet_model tx c w ≡ (err e, w')
        → MayRaise e

  abbrev pub Completes : Result Unit × Run Num W → Type 0
  Completes = Ends (λ _ s'. IsComplete rt svc s'.result) (λ e s'. MayRaise e)

  IsComplete-of :
      (r r' : PipelineResult Num)
      → IsRouted r
      → IsBalanced rt svc tx r.events r.audit
      → IsFinished rt svc tx r r'
      → IsComplete rt svc r'
  IsComplete-of r r' routed b f =
      let events = ap (λ x. x.events) f.rest in
      record {
        routed = subst IsRouted (sym f.rest) routed;
        evidence = record r { audit = f.before };
        payment = f.payment;
        same =
            f.rest
            ∙ ap {B = PipelineResult Num}
                (λ es. record r { events = es; audit = r'.audit; payment = some f.payment })
                (sym events);
        decided = f.decided;
        trail = λ on good.
            let (clean, count) = f.trail on good in
            (
              clean,
              omega (
                arith,
                count,
                b.count on,
                ap length events,
                length-append r.events (f.event ∷ []),
              ),
            );
        absent = λ off. f.absent off ∙ b.absent off;
      }

  pub finish-IsComplete :
      (s : Run Num W)
      → IsRouted s.result
      → IsBalanced rt svc tx s.result.events s.result.audit
      → Completes (finish rt svc tx s)
  finish-IsComplete s routed b =
      Ends-weaken _ (finish-IsFinished rt svc tx s)
        (λ _ s' f. IsComplete-of s.result s'.result routed b f) (λ e s' h. trail h)

  pub close-IsComplete :
      (label : String) (s : Run Num W)
      → IsRouted (record s.result { stage_reached = PipelineStage.closed })
      → IsBalanced rt svc tx s.result.events s.result.audit
      → Completes (close rt svc tx label s)
  unfolding close
  close-IsComplete label s routed b =
      after-stage rt svc tx _ _ _ _ _ b (λ e s' h. trail h)
        λ es a w b'. finish-IsComplete _ routed b'

  module _ {Q : Unit {0} → Run Num W → Type 0} where
    pub after-draft :
        (c : CaseFile) (f : Unit {0} → Exec (Run Num W) Unit) (s : Run Num W)
        → is_some s.result.compliance ≡ false
        → IsBalanced rt svc tx s.result.events s.result.audit
        → ((draft : Option ComplianceReport) (stage : PipelineStage) (es : List (CaseEvent Num))
              (a : Audit Num) (w : W)
            → IsBalanced rt svc tx es a
            → is_some draft ≡ c.recommend_compliance_review
            → stage ≡ (
                if c.recommend_compliance_review
                then PipelineStage.compliance
                else s.result.stage_reached)
            → Ends Q
                (λ e s'. MayRaise e)
                (f tt (record {
                  result = record s.result {
                    events = es;
                    audit = a;
                    compliance = draft;
                    stage_reached = stage;
                  };
                  world = w;
                })))
        → Ends Q (λ e s'. MayRaise e) (continue f (draft_compliance rt svc tx c s))
    unfolding draft_compliance compliance_call
    after-draft c f s no_draft b k = elim (Bool-cases c.recommend_compliance_review) [
      | inl asked ↦ simp asked (
          Ends-assoc (outside (compliance_call rt svc tx c) s) (drafted rt svc tx) f (
            after-call (compliance_call rt svc tx c) (λ r s'. continue f (drafted rt svc tx r s')) s
              (λ e w h. drafting c s.world w h)
              λ report w h.
                after-stage rt svc tx _ _ _ f _ b (λ e s' h. trail h)
                  λ es a w' b'.
                    k (some report) PipelineStage.compliance es a w' b' (sym asked) (simp asked)))
      | inr plain ↦ simp plain (
          k s.result.compliance s.result.stage_reached s.result.events s.result.audit s.world b
            (no_draft ∙ sym plain) (simp plain))
    ]

    pub after-fuse :
        (event : Option (SecurityEvent Num)) (f : Unit {0} → Exec (Run Num W) Unit) (s : Run Num W)
        → IsBalanced rt svc tx s.result.events s.result.audit
        → ((stage : PipelineStage) (es : List (CaseEvent Num)) (a : Audit Num) (w : W)
            → IsBalanced rt svc tx es a
            → stage ≡ (if is_some event then PipelineStage.fusion else s.result.stage_reached)
            → Ends Q
                (λ e s'. MayRaise e)
                (f tt (record {
                  result = record s.result { events = es; audit = a; stage_reached = stage };
                  world = w;
                })))
        → Ends Q (λ e s'. MayRaise e) (continue f (fuse rt svc tx event s))
    unfolding fuse
    after-fuse none f s b k = k s.result.stage_reached s.result.events s.result.audit s.world b refl
    after-fuse (some event) f s b k =
        after-stage rt svc tx _ _ _ f _ b (λ e s' h. trail h) λ es a w b'. k _ es a w b' refl

  pub stage_eq :
      (c : CaseFile) (event : Option (SecurityEvent Num)) {stage stage' : PipelineStage}
      → stage ≡ (
          if c.recommend_compliance_review
          then PipelineStage.compliance
          else PipelineStage.investigation)
      → stage' ≡ (if is_some event then PipelineStage.fusion else stage)
      → stage' ≡ last_stage c (is_some event)
  stage_eq c event at at' = ground arith

  pub after-recent :
      {Q : Unit {0} → Run Num W → Type 0} (f : Option (SecurityEvent Num) → Exec (Run Num W) Unit)
      (s : Run Num W)
      → ((event : Option (SecurityEvent Num)) (w : W)
          → Ends Q (λ e s'. MayRaise e) (f event (record s { world = w })))
      → Ends Q (λ e s'. MayRaise e) (continue f (recent rt svc tx s))
  unfolding recent
  after-recent f s k = k _ _
