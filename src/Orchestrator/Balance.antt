-- ===== src/Orchestrator/Balance.antt =====
-- The count that a run keeps: a configured audit has one receipt or error for each event, and one
-- for the opening.
use vaultwatch.Base.{
  ◌+◌, String, ◌≡◌, ◌∙◌, true, false, List, [], ◌∷◌, ◌++◌, arith, length, length-append, is_some,
}
use vaultwatch.Base.Exec.{Exc, Exec, continue}
use vaultwatch.Base.Exec.Ends.{Ends, Ends-assoc}
use vaultwatch.Runtime.{Runtime}
use vaultwatch.Models.{Transaction, PipelineStage, Detail}
use vaultwatch.CaseRecord.{Audit, CaseEvent, no_audit}
use vaultwatch.Audit.{Run}
use vaultwatch.Llm.{ToolEvent}
use vaultwatch.Orchestrator.Wiring.{Services}
use vaultwatch.Orchestrator.Recording.{emit, emit_stage}
use vaultwatch.Orchestrator.Recording.Rules.{IsRecorded, TrailRaises, after-emit, after-emit_stage}
use vaultwatch.Orchestrator.{emit_tools}

module _ (rt : Runtime) {W : Type 0} (svc : Services rt.Num W) (tx : Transaction rt.Num) where
  open rt use {Num}

  pub record IsBalanced (events : List (CaseEvent Num)) (a : Audit Num) : Type 0 where
    pub count : is_some svc.audit ≡ true → length a.entries + length a.errors ≡ length events + 1
    pub absent : is_some svc.audit ≡ false → a ≡ no_audit

  IsBalanced-append :
      (es : List (CaseEvent Num)) (e : CaseEvent Num) (a b : Audit Num)
      → IsBalanced es a
      → IsRecorded (is_some svc.audit) 1 a b
      → IsBalanced (es ++ e ∷ []) b
  IsBalanced-append es e a b h k = record {
    count = λ on. omega (arith, h.count on, k.count on, length-append es (e ∷ []));
    absent = λ off. k.absent off ∙ h.absent off;
  }

  -- What a step that only writes the trail must be followed by.
  abbrev pub Continues :
      {B : Type 0}
      → (B → Run Num W → Type 0)
      → (Exc → Run Num W → Type 0)
      → (Unit {0} → Exec (Run Num W) B)
      → Run Num W
      → Type 0
  Continues Q E f s =
      (es : List (CaseEvent Num)) (a : Audit Num) (w : W)
      → IsBalanced es a
      → Ends Q E (f tt (record { result = record s.result { events = es; audit = a }; world = w }))

  module _ {B : Type 0} {Q : B → Run Num W → Type 0} {E : Exc → Run Num W → Type 0} where
    pub after-event :
        (event : CaseEvent Num) (f : Unit {0} → Exec (Run Num W) B) (s : Run Num W)
        → IsBalanced s.result.events s.result.audit
        → ((e : Exc) (s' : Run Num W) → TrailRaises rt svc tx e → E e s')
        → Continues Q E f s
        → Ends Q E (continue f (emit rt svc tx event s))
    after-event event f s b c k =
        after-emit rt svc tx event f s c
          λ a w h. k _ a w (IsBalanced-append s.result.events event s.result.audit a b h)

    pub after-stage :
        (stage : PipelineStage) (label : String) (detail : Detail Num)
        (f : Unit {0} → Exec (Run Num W) B) (s : Run Num W)
        → IsBalanced s.result.events s.result.audit
        → ((e : Exc) (s' : Run Num W) → TrailRaises rt svc tx e → E e s')
        → Continues Q E f s
        → Ends Q E (continue f (emit_stage rt svc tx stage label detail s))
    after-stage stage label detail f s b c k =
        after-emit_stage rt svc tx stage label detail f s c
          λ e a w at h. k _ a w (IsBalanced-append s.result.events _ s.result.audit a b h)

    pub after-tools :
        (mode : String) (calls : List (ToolEvent Num)) (f : Unit {0} → Exec (Run Num W) B)
        (s : Run Num W)
        → IsBalanced s.result.events s.result.audit
        → ((e : Exc) (s' : Run Num W) → TrailRaises rt svc tx e → E e s')
        → Continues Q E f s
        → Ends Q E (continue f (emit_tools rt svc tx mode calls s))
    unfolding emit_tools
    after-tools mode [] f s b c k = k s.result.events s.result.audit s.world b
    after-tools mode (e ∷ es) f s b c k =
        Ends-assoc _ (λ _. emit_tools rt svc tx mode es) f
          (after-stage _ _ _ _ s b c λ es' a w b'.
            after-tools mode es f
              (record { result = record s.result { events = es'; audit = a }; world = w }) b' c k)
