-- ===== src/SecurityFeed.antt =====
-- The orchestrator's memory of login warnings (agents-python/app/orchestrator.py,
-- `_recent_security_events`): a bucket of dated events for each account, pruned to ten minutes.
-- `t > now - window` is written `now < t + window`, the same on Python's signed times.
pub mod Window
use vaultwatch.Base.{
  ℕ, ◌+◌, ◌*◌, String, Bool, true, false, Option, none, some, List, [], ◌∷◌, ◌++◌, ◌==◌, ltb, last?,
  truthy, if◌then◌else◌,
}
use vaultwatch.Models.{SecurityEvent}

-- `timedelta(minutes=10)`, in microseconds
abbrev pub security_event_window : ℕ
security_event_window = 600000000

abbrev pub Bucket : Type 0 → Type 0
Bucket N = List (ℕ × SecurityEvent N)

-- `defaultdict(list)`
abbrev pub Buckets : Type 0 → Type 0
Buckets N = List (String × Bucket N)

module _ {N : Type 0} where
  unfoldable pub bucket_of : Buckets N → String → Bucket N
  bucket_of [] k = []
  bucket_of ((j, b) ∷ d) k = if j == k then b else bucket_of d k

  unfoldable pub set_bucket : String → Bucket N → Buckets N → Buckets N
  set_bucket k b [] = (k, b) ∷ []
  set_bucket k b ((j, c) ∷ d) = if j == k then (j, b) ∷ d else (j, c) ∷ set_bucket k b d

  -- `[(t, e) for t, e in bucket if t > cutoff]`
  unfoldable pub fresh : ℕ → Bucket N → Bucket N
  fresh now [] = []
  fresh now ((t, e) ∷ b) =
      let rest = fresh now b in if ltb now (t + security_event_window) then (t, e) ∷ rest else rest

  abbrev pub events_of : Bucket N → List (SecurityEvent N)
  events_of [] = []
  events_of ((t, e) ∷ b) = e ∷ events_of b

  record_for : String → SecurityEvent N → ℕ → Buckets N → Buckets N
  unfolding fresh
  record_for account event now d =
      set_bucket account (fresh now (bucket_of d account ++ (now, event) ∷ [])) d

  unfoldable pub record_security_event : SecurityEvent N → ℕ → Buckets N → Buckets N
  unfolding record_for
  record_security_event event now d = elim event.account_id [
    | none ↦ d
    | some account ↦ if truthy account then record_for account event now d else d
  ]

  unfoldable pub recent_security_event : Buckets N → String → ℕ → Option (SecurityEvent N)
  recent_security_event d account now = last? (events_of (fresh now (bucket_of d account)))
