-- ===== src/Orchestrator/Recording/Rules.antt =====
-- Rules for the steps of a run that only write its trail: each leaves every finding alone, appends
-- its events, and adds for each record one receipt or one error to a configured audit.
use vaultwatch.Base.{
  ℕ, ◌+◌, ◌<>◌, String, ◌≡◌, refl, sym, ap, ◌∙◌, Bool, true, false, Option, none, some, [], ◌∷◌,
  ◌++◌, arith, length, length-append, is_some, inl, inr, ◌⊎◌,
}
use mathlib.Core.Path.{subst}
use vaultwatch.Base.Exec.{Exc, cancelled, err, Exec, continue}
use vaultwatch.Base.Exec.Ends.{Ends, Ends-continue, Ends-caught, Ends-assoc}
use vaultwatch.Runtime.{Runtime}
use vaultwatch.Models.{Transaction, PipelineStage, Detail, AgentEvent}
use vaultwatch.CaseRecord.{Audit, CaseEvent, agent_event, PipelineResult}
use vaultwatch.Orchestrator.Wiring.{event_type}
use vaultwatch.Audit.{add_event, event_payload, AuditService, Payload, Run, outside, add_error}
use vaultwatch.Audit.Waits.{after-call}
use vaultwatch.Orchestrator.Wiring.{Services}
use vaultwatch.Orchestrator.Recording.{record_to, record_audit, emit, emit_stage, to_sink}

-- `n` more records were tried.
pub record IsRecorded {N : Type 0} (configured : Bool) (n : ℕ) (a a' : Audit N) : Type 0 where
  pub status : a'.status ≡ a.status
  pub count :
      configured ≡ true
      → length a'.entries + length a'.errors ≡ length a.entries + length a.errors + n
  pub absent : configured ≡ false → a' ≡ a

module _ {N : Type 0} {configured : Bool} where
  pub IsRecorded-zero : (a : Audit N) → IsRecorded configured 0 a a
  IsRecorded-zero a = record { status = refl; count = λ h. omega arith; absent = λ h. refl }

  pub IsRecorded-trans :
      {m n : ℕ} {a b c : Audit N}
      → IsRecorded configured m a b
      → IsRecorded configured n b c
      → IsRecorded configured (m + n) a c
  IsRecorded-trans {m} {n} {a} {b} {c} h k = record {
    status = k.status ∙ h.status;
    count = λ y. omega (arith, h.count y, k.count y);
    absent = λ y. k.absent y ∙ h.absent y;
  }

module _ (rt : Runtime) {W : Type 0} (svc : Services rt.Num W) (tx : Transaction rt.Num) where
  open rt use {Num}

  tried :
      (audit : Option (AuditService Num W)) (kind : String) (payload : Payload Num) (s : Run Num W)
      → Ends
          (λ _ s'.
            (s'.result ≡ record s.result { audit = s'.result.audit })
            × IsRecorded (is_some audit) 1 s.result.audit s'.result.audit)
          (λ e s'. e ≡ cancelled)
          (record_to rt svc tx audit kind payload s)
  unfolding record_to
  tried none kind payload s = record {
    at = (refl, record { status = refl; count = λ h. cc; absent = λ h. refl });
  }
  tried (some audit) kind payload s =
      Ends-caught {E = λ e s'. s'.result ≡ s.result} _ _
        (after-call _ _ s (λ e w h. refl)
          λ receipt w h. record {
            at = (
              refl,
              record {
                status = refl;
                count = λ _. omega (arith, length-append s.result.audit.entries (receipt ∷ []));
                absent = λ h. cc;
              },
            );
          })
        (λ e s' h. record {
          at = (
            ap {B = PipelineResult Num}
                (λ r. record r { audit = add_error ("Could not persist " <> kind) s'.result.audit })
                h,
            record {
              status = ap (λ r. r.audit.status) h;
              count = λ _. omega (
                arith,
                length-append s'.result.audit.errors (("Could not persist " <> kind) ∷ []),
                ap (λ r. length r.audit.entries) h,
                ap (λ r. length r.audit.errors) h,
              );
              absent = λ h. cc;
            },
          );
        })
        (λ s' h. refl)

  -- Writing the trail raises only what cancels it, and what the event sink raises.
  abbrev pub TrailRaises : Exc → Type 0
  TrailRaises e =
      (e ≡ cancelled)
      ⊎ ((event : CaseEvent Num) × (w w' : W) × (to_sink rt svc tx event w ≡ (err e, w')))

  module _ {B : Type 0} {Q : B → Run Num W → Type 0} {E : Exc → Run Num W → Type 0} where
    pub after-record :
        (kind : String) (payload : Payload Num) (f : Unit → Exec (Run Num W) B) (s : Run Num W)
        → ((e : Exc) (s' : Run Num W) → TrailRaises e → E e s')
        → ((a : Audit Num) (w : W)
            → IsRecorded (is_some svc.audit) 1 s.result.audit a
            → Ends Q E (f tt (record { result = record s.result { audit = a }; world = w })))
        → Ends Q E (continue f (record_audit rt svc tx kind payload s))
    unfolding record_audit
    after-record kind payload f s c k =
        Ends-continue _ _ (tried svc.audit kind payload s) (λ e s' h. c e s' (inl h))
          λ _ s' h.
            subst
              (λ (r : PipelineResult Num).
                Ends Q E (f tt (record { result = r; world = s'.world })))
              (sym h.0) (k s'.result.audit s'.world h.1)

    pub after-emit :
        (event : CaseEvent Num) (f : Unit → Exec (Run Num W) B) (s : Run Num W)
        → ((e : Exc) (s' : Run Num W) → TrailRaises e → E e s')
        → ((a : Audit Num) (w : W)
            → IsRecorded (is_some svc.audit) 1 s.result.audit a
            → Ends Q E (
                f tt (record {
                  result = record s.result { events = s.result.events ++ event ∷ []; audit = a };
                  world = w;
                })))
        → Ends Q E (continue f (emit rt svc tx event s))
    unfolding emit
    after-emit event f s c k =
        let added : Run Num W = record { result = add_event event s.result; world = s.world } in
        Ends-assoc (record_audit rt svc tx (event_type event) (event_payload event) added)
          (λ _. outside (to_sink rt svc tx event)) f
          (after-record (event_type event) (event_payload event)
            (λ _ s'. continue f (outside (to_sink rt svc tx event) s')) added c
            λ a w h.
              after-call (to_sink rt svc tx event) f
                (record { result = record added.result { audit = a }; world = w })
                (λ e w' raised. c e _ (inr (event, w, w', raised))) λ _ w' sent. k a w' h)

    pub after-emit_stage :
        (stage : PipelineStage) (label : String) (about : Detail Num)
        (f : Unit → Exec (Run Num W) B) (s : Run Num W)
        → ((e : Exc) (s' : Run Num W) → TrailRaises e → E e s')
        → ((e : AgentEvent Num) (a : Audit Num) (w : W)
            → e.stage ≡ stage
            → IsRecorded (is_some svc.audit) 1 s.result.audit a
            → Ends Q E (
                f tt (record {
                  result = record s.result {
                    events = s.result.events ++ agent_event e ∷ [];
                    audit = a;
                  };
                  world = w;
                })))
        → Ends Q E (continue f (emit_stage rt svc tx stage label about s))
    unfolding emit_stage
    after-emit_stage stage label about f s c k = after-emit _ f _ c λ a w h. k _ a w refl h
