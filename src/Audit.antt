-- ===== src/Audit.antt =====
-- The audit client of agents-python/app/audit.py, whose two requests the Rust service answers, and
-- the state that a pipeline run writes to: its result beside the rest of the world.
pub mod Waits
use vaultwatch.Base.{ℕ, String, Bool, Option, [], ◌∷◌, ◌++◌, true, false}
use vaultwatch.Base.Exec.{Exec, ok}
use vaultwatch.Models.{Transaction, ScoringContext, PipelineStage, CaseFile, ComplianceReport}
use vaultwatch.Models.Values.{Json, Dict}
use vaultwatch.CaseRecord.{
  Audit, AuditStatus, CaseEvent, PipelineResult, verified, failed, unavailable, not_configured,
}

-- the payloads that are appended
pub data Payload (N : Type 0) : Type 0 where
  opened : Transaction N → ScoringContext N → Dict N → String → Payload N
  event_payload : CaseEvent N → Payload N
  completed : PipelineStage → Option CaseFile → Option ComplianceReport → Payload N

-- `AuditClient`: the request may fail, and the answer is the service's JSON. `W` is the state of
-- all that stands outside a run: services, clock, and the tasks that go on while it waits.
pub record AuditService (N W : Type 0) : Type 0 where
  pub append : String → String → Payload N → Exec W (Json N)
  pub verify : Exec W (Json N)

pub record Run (N W : Type 0) : Type 0 where
  pub result : PipelineResult N
  pub world : W

module _ {N W : Type 0} where
  -- a call that waits for the outside
  unfoldable pub outside : {A : Type 0} → Exec W A → Exec (Run N W) A
  outside m s = let (r, w) = m s.world in (r, record s { world = w })

  -- `datetime.now(timezone.utc)`
  abbrev pub now : (W → ℕ × W) → Exec (Run N W) ℕ
  now clock s = let (t, w) = clock s.world in (ok t, record s { world = w })

  abbrev pub update : (PipelineResult N → PipelineResult N) → Exec (Run N W) Unit
  update f s = (ok tt, record s { result = f s.result })

  abbrev pub update_audit : (Audit N → Audit N) → Exec (Run N W) Unit
  update_audit f = update (λ r. record r { audit = f r.audit })

-- `audit["entries"].append(receipt)`
abbrev pub add_entry : {N : Type 0} → Json N → Audit N → Audit N
add_entry receipt a = record a { entries = a.entries ++ receipt ∷ [] }

-- `audit["errors"].append(message)`
abbrev pub add_error : {N : Type 0} → String → Audit N → Audit N
add_error message a = record a { errors = a.errors ++ message ∷ [] }

-- `result.events.append(event)`
abbrev pub add_event : {N : Type 0} → CaseEvent N → PipelineResult N → PipelineResult N
add_event e r = record r { events = r.events ++ e ∷ [] }

-- `not audit["errors"]`
abbrev pub no_errors : {N : Type 0} → Audit N → Bool
no_errors a = elim a.errors [ [] ↦ true | _ ∷ _ ↦ false ]

-- `status != "failed"`
abbrev pub is_failed : AuditStatus → Bool
is_failed failed = true
is_failed verified = false
is_failed unavailable = false
is_failed not_configured = false
