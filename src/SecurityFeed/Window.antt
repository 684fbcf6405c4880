-- ===== src/SecurityFeed/Window.antt =====
-- What is found in the window, against the whole history of recorded events.
use vaultwatch.Base.{
  ℕ, ◌+◌, ◌≤◌, String, ◌≡◌, refl, Bool, false, Option, none, some, List, [], ◌∷◌, ◌++◌, ◌==◌, ltb,
  last?, truthy, if◌then◌else◌, arith, eq_iff, last?-append, Option-cases, ◌&&◌, ap, ◌∙◌, inl, inr,
}
use mathlib.Core.List.{append-nil}
use vaultwatch.Models.{SecurityEvent}
use vaultwatch.SecurityFeed.{
  Bucket, Buckets, bucket_of, set_bucket, fresh, events_of, record_security_event,
  recent_security_event, security_event_window,
}

-- The events that were recorded with the times of their recording, the latest first.
abbrev pub History : Type 0 → Type 0
History N = List (ℕ × SecurityEvent N)

module _ {N : Type 0} where
  bucket_of-set_bucket :
      (k j : String) (b : Bucket N) (d : Buckets N)
      → bucket_of (set_bucket k b d) j ≡ (if k == j then b else bucket_of d j)
  unfolding bucket_of set_bucket
  bucket_of-set_bucket k j b [] = refl
  bucket_of-set_bucket k j b ((i, c) ∷ d) =
      ground (arith, eq_iff k j, eq_iff i k, eq_iff i j, bucket_of-set_bucket k j b d)

  fresh-append : (now : ℕ) (b c : Bucket N) → fresh now (b ++ c) ≡ fresh now b ++ fresh now c
  unfolding fresh
  fresh-append now [] c = refl
  fresh-append now ((t, e) ∷ b) c = ground (arith, fresh-append now b c)

  -- pruning at an earlier time loses nothing that a later time would keep
  fresh-fresh : (n m : ℕ) (b : Bucket N) → n ≤ m → fresh m (fresh n b) ≡ fresh m b
  unfolding fresh
  fresh-fresh n m [] h = refl
  fresh-fresh n m ((t, e) ∷ b) h = ground (arith, fresh-fresh n m b h)

  abbrev pub mine : String → SecurityEvent N → Bool
  mine account e = elim e.account_id [ none ↦ false | some a ↦ truthy a && a == account ]

  -- the feed after a history
  unfoldable pub replay : History N → Buckets N
  unfolding record_security_event
  replay [] = []
  replay ((t, e) ∷ h) = record_security_event e t (replay h)

  -- The promise: the latest event of the account that is at most ten minutes old.
  abbrev pub latest : String → ℕ → History N → Option (SecurityEvent N)
  latest account now [] = none
  latest account now ((t, e) ∷ h) =
      if mine account e && ltb now (t + security_event_window) then some e else latest account now h

  -- No event was recorded after `now`, nor after one that is listed as later.
  abbrev pub IsOrdered : ℕ → History N → Type 0
  IsOrdered now [] = Unit
  IsOrdered now ((t, e) ∷ h) = (t ≤ now) × IsOrdered t h

  IsOrdered-later : (n m : ℕ) (h : History N) → n ≤ m → IsOrdered n h → IsOrdered m h
  IsOrdered-later n m [] le o = tt
  IsOrdered-later n m ((t, e) ∷ h) le o = (omega (arith, o.0), o.1)

  entries : String → History N → Bucket N
  entries account [] = []
  entries account ((t, e) ∷ h) =
      if mine account e then entries account h ++ (t, e) ∷ [] else entries account h

  bucket-record :
      (e : SecurityEvent N) (t : ℕ) (d : Buckets N) (account : String)
      → bucket_of (record_security_event e t d) account ≡ (
          if mine account e
          then fresh t (bucket_of d account ++ (t, e) ∷ [])
          else bucket_of d account)
  unfolding record_security_event
  bucket-record e t d account = elim (Option-cases e.account_id) [
    | inl nobody ↦ ground arith
    | inr (a, is) ↦ ground (
      arith,
      eq_iff a account,
      bucket_of-set_bucket a account (fresh t (bucket_of d a ++ (t, e) ∷ [])) d,
    )
  ]

  fresh-replay :
      (now : ℕ) (account : String) (h : History N)
      → IsOrdered now h
      → fresh now (bucket_of (replay h) account) ≡ fresh now (entries account h)
  unfolding replay entries bucket_of
  fresh-replay now account [] o = refl
  fresh-replay now account ((t, e) ∷ h) o =
      let older = fresh-replay now account h (IsOrdered-later t now h o.0 o.1) in
      ground (
        arith,
        older,
        bucket-record e t (replay h) account,
        fresh-fresh t now (bucket_of (replay h) account ++ (t, e) ∷ []) o.0,
        fresh-append now (bucket_of (replay h) account) ((t, e) ∷ []),
        fresh-append now (entries account h) ((t, e) ∷ []),
      )

  events_of-append : (b c : Bucket N) → events_of (b ++ c) ≡ events_of b ++ events_of c
  events_of-append [] c = refl
  events_of-append (x ∷ b) c = ground (arith, events_of-append b c)

  last?-entries :
      (now : ℕ) (account : String) (h : History N)
      → last? (events_of (fresh now (entries account h))) ≡ latest account now h
  unfolding fresh entries
  last?-entries now account [] = refl
  last?-entries now account ((t, e) ∷ h) = ground (
    arith,
    last?-entries now account h,
    fresh-append now (entries account h) ((t, e) ∷ []),
    events_of-append (fresh now (entries account h)) (fresh now ((t, e) ∷ [])),
    append-nil (events_of (fresh now (entries account h))),
    last?-append (events_of (fresh now (entries account h))) e,
  )

  -- After any history of warnings, recorded at times that do not go back, and at any later time, the
  -- feed gives for an account the latest warning of that account that is less than ten minutes old,
  -- and none if there is none: its own pruning loses nothing.
  pub recent-eq-latest :
      (now : ℕ) (account : String) (h : History N)
      → IsOrdered now h
      → recent_security_event (replay h) account now ≡ latest account now h
  unfolding recent_security_event
  recent-eq-latest now account h o =
      ap (λ b. last? (events_of b)) (fresh-replay now account h o) ∙ last?-entries now account h
