-- ===== src/Api/Listens.antt =====
-- How the background tasks end.
use vaultwatch.Base.{
  ℕ, zero, suc, ◌≡◌, ◌≢◌, ◌⊎◌, inl, inr, refl, sym, ap, ◌∙◌, String, Bool, none, List, [], ◌∷◌,
  if◌then◌else◌, true, false, ◌==◌, eq_iff, arith,
}
use vaultwatch.Base.Exec.{
  Exc, value_error, runtime_error, http_error, http_exception, other_exception, cancelled,
  is_exception, Result, ok, err, Exec, pure, modify, caught, try_except, ◌>>◌,
}
use vaultwatch.Base.Exec.Ends.{Ends-any, Ends-self, Ends, Ends-continue, Ends-caught, Ends-weaken}
use vaultwatch.Runtime.{Runtime}
use vaultwatch.Models.{Transaction}
use vaultwatch.Prefilter.Scores.{Compares}
use vaultwatch.Synthetic.Draws.{DrawsInRange, gives-value}
use vaultwatch.Synthetic.Transactions.{generate_demo_transaction-IsDemo}
use vaultwatch.Api.{
  Host, Message, take_warning, on_message, on_messages, listen_once, demo_transaction, run_and_save,
  synthetic_round, synthetic_rounds,
}

module _ {W : Type 0} where
  -- A block under `except Exception: pass` is over at `w'`, in success or with an exception let go.
  pub data Passed (r : Result Unit × W) (w' : W) : Type 0 where
    succeeded : r ≡ (ok tt, w') → Passed r w'
    let_go : (e : Exc) → is_exception e ≡ true → r ≡ (err e, w') → Passed r w'

  passed :
      (r : Result Unit × W)
      → Ends
          (λ _ w'. Passed r w')
          (λ e w'. (e ≡ cancelled) × (r ≡ (err cancelled, w')))
          (caught (λ e. pure tt) r)
  passed (ok u, w) = record { at = succeeded refl }
  passed (err cancelled, w) = record { at = (refl, refl) }
  passed (err (value_error m), w) = record { at = let_go _ refl refl }
  passed (err (runtime_error m), w) = record { at = let_go _ refl refl }
  passed (err (http_error m), w) = record { at = let_go _ refl refl }
  passed (err (http_exception n m), w) = record { at = let_go _ refl refl }
  passed (err (other_exception m), w) = record { at = let_go _ refl refl }

module _ (rt : Runtime) {W S : Type 0} (host : Host rt W S) where
  open rt use {Num}

  -- How one message is handled, from `w` to `w'`: a subscription puts the feed online, a message is
  -- taken as a warning or let go, and any other one changes nothing.
  pub data Handled (m : Message) (w w' : W) : Type 0 where
    subscribed : m.type ≡ "subscribe" → w' ≡ host.set_security_feed "online" w → Handled m w w'
    warned : m.type ≡ "message" → Passed (take_warning rt host m.content w) w' → Handled m w w'
    ignored : m.type ≢ "subscribe" → m.type ≢ "message" → w' ≡ w → Handled m w w'

  -- each of the messages in turn
  abbrev pub AllHandled : List Message → W → W → Type 0
  AllHandled [] w w' = w' ≡ w
  AllHandled (m ∷ ms) w w' = (w₁ : W) × Handled m w w₁ × AllHandled ms w₁ w'

  -- a cancellation while a message is taken, after each one before it was handled
  abbrev pub Interrupted : List Message → W → W → Type 0
  Interrupted [] w w' = ⊥
  Interrupted (m ∷ ms) w w' =
      ((m.type ≡ "message") × (take_warning rt host m.content w ≡ (err cancelled, w')))
      ⊎ ((w₁ : W) × Handled m w w₁ × Interrupted ms w₁ w')

  abbrev Cut : Message → Exc → W → W → Type 0
  Cut m e w w' =
      (e ≡ cancelled)
      × (m.type ≡ "message")
      × (take_warning rt host m.content w ≡ (err cancelled, w'))

  -- one message, by the tests of its type
  abbrev handle : Message → Bool → Bool → Exec W Unit
  handle m opens warns =
      (if opens then modify (host.set_security_feed "online") else pure tt)
      >> (if warns then try_except (take_warning rt host m.content) (λ e. pure tt) else pure tt)

  handle-Ends :
      (m : Message) (opens warns : Bool)
      → (m.type == "subscribe") ≡ opens
      → (m.type == "message") ≡ warns
      → (w : W) → Ends (λ _ w'. Handled m w w') (λ e w'. Cut m e w w') (handle m opens warns w)
  handle-Ends m true true o h w =
      let is : m.type ≡ "subscribe" = (eq_iff m.type "subscribe").0 o in
      let both : ("subscribe" == "message") ≡ true = ap (λ s. s == "message") (sym is) ∙ h in
      let never : ⊥ = cc in elim never [ ]
  handle-Ends m true false o h w = record { at = subscribed ((eq_iff m.type "subscribe").0 o) refl }
  handle-Ends m false true o h w =
      let is : m.type ≡ "message" = (eq_iff m.type "message").0 h in
      Ends-weaken _ (passed (take_warning rt host m.content w)) (λ _ w' p. warned is p)
        (λ e w' c. (c.0, is, c.1))
  handle-Ends m false false o h w = record {
    at =
        ignored (ground (arith, eq_iff m.type "subscribe", o))
          (ground (arith, eq_iff m.type "message", h)) refl;
  }

  on_message-Ends :
      (m : Message) (w : W)
      → Ends (λ _ w'. Handled m w w') (λ e w'. Cut m e w w') (on_message rt host m w)
  unfolding on_message
  on_message-Ends m w = handle-Ends m _ _ refl refl w

  -- Whatever messages arrive, well formed or not, each is handled in turn: a subscription puts the feed
  -- online, a message is taken as a warning or, if that raises, let go, and any other one changes
  -- nothing. Only a cancellation while one is taken keeps the next ones from being handled.
  pub on_messages-Ends :
      (ms : List Message) (w : W)
      → Ends
          (λ _ w'. AllHandled ms w w')
          (λ e w'. (e ≡ cancelled) × Interrupted ms w w')
          (on_messages rt host ms w)
  unfolding on_messages
  on_messages-Ends [] w = record { at = refl }
  on_messages-Ends (m ∷ ms) w =
      Ends-continue (on_message rt host m w) (λ _. on_messages rt host ms) (on_message-Ends m w)
        (λ e w' h. (h.0, inl (h.1, h.2)))
        λ _ w₁ handled.
          Ends-weaken _ (on_messages-Ends ms w₁) (λ _ w' rest. (w₁, handled, rest))
            (λ e w' h. (h.0, inr (w₁, handled, h.1)))

  -- Where the feed's state reads back what was written, a connection that breaks leaves the feed
  -- "reconnecting", whatever its messages were, and only a cancellation ends the listener.
  pub listen_once-reconnects :
      ((feed : String) (w : W) → host.security_feed (host.set_security_feed feed w) ≡ feed)
      → (messages : List Message) (ending : Exec W Unit)
      → ((w : W) → (e : Exc) × (w' : W) × (ending w ≡ (err e, w')))
      → (w : W)
      → Ends
          (λ _ w'. host.security_feed w' ≡ "reconnecting")
          (λ e _. e ≡ cancelled)
          (listen_once rt host messages ending w)
  unfolding listen_once
  listen_once-reconnects reads messages ending breaks w =
      Ends-caught _ (λ e. modify (host.set_security_feed "reconnecting"))
        (Ends-continue (on_messages rt host messages (host.set_security_feed "reconnecting" w))
          (λ _. ending) (Ends-any _) (λ e w' h. h) λ _ w' _. broken w')
        (λ e w' _. record { at = reads "reconnecting" w' }) (λ w' _. refl)
    where
      broken :
          (w : W)
          → Ends (λ _ w'. host.security_feed w' ≡ "reconnecting") (λ _ _. Unit {0}) (ending w)
      broken w = let (e, w', h) = breaks w in rw h (record { at = tt })

  abbrev pub pause : W → Num × W
  pause w = host.uniform 4 9 w

  -- A round from `w` to `w'`: a pause, a transaction that is risky at three draws of ten, and a run of it
  -- that is saved, or that raises and is let go.
  pub record Round (w w' : W) : Type 0 where
    pub rested : W
    pub slept : host.sleep (pause w).0 (pause w).1 ≡ (ok tt, rested)
    pub tx : Transaction Num
    pub begun : W
    pub made :
        demo_transaction rt host
          (rt.lt (host.random rested).0 (rt.decimal 3 1))
          (host.random rested).1
        ≡ (ok tx, begun)
    pub run : Passed (run_and_save rt host tx begun) w'

  -- What ends the loop within a round: what its pause raises, or a cancellation of its run.
  pub data RoundRaises (e : Exc) (w w' : W) : Type 0 where
    pausing : host.sleep (pause w).0 (pause w).1 ≡ (err e, w') → RoundRaises e w w'
    cancelling :
        e ≡ cancelled
        → (tx : Transaction Num) (begun : W) → run_and_save rt host tx begun ≡ (err cancelled, w')
        → RoundRaises e w w'

  -- `n` rounds
  abbrev pub AllRounds : ℕ → W → W → Type 0
  AllRounds zero w w' = w' ≡ w
  AllRounds (suc n) w w' = (w₁ : W) × Round w w₁ × AllRounds n w₁ w'

  -- fewer than `n` rounds, and the end of the loop in the next one
  abbrev pub RoundsRaise : ℕ → Exc → W → W → Type 0
  RoundsRaise zero e w w' = ⊥
  RoundsRaise (suc n) e w w' = RoundRaises e w w' ⊎ ((w₁ : W) × Round w w₁ × RoundsRaise n e w₁ w')

  module _ (c : Compares rt) (draws : DrawsInRange rt host.lib) where
    demo_transaction-ok :
        (risky : Bool) (w : W)
        → (tx : Transaction Num) × (w' : W) × (demo_transaction rt host risky w ≡ (ok tx, w'))
    unfolding demo_transaction
    demo_transaction-ok risky w =
        let (s, w₁) = host.rng w in
        let (t, w₂) = host.clock w₁ in
        let (uuid, w₃) = host.uuid_hex_12 w₂ in
        let (tx, e, _) =
          gives-value _
            (generate_demo_transaction-IsDemo rt host.lib c draws t uuid risky none s) in
        (tx, w₃, ap (λ r. (r, w₃)) e)

    synthetic_round-Ends :
        (w : W) → Ends (λ _ w'. Round w w') (λ e w'. RoundRaises e w w') (synthetic_round rt host w)
    unfolding synthetic_round
    synthetic_round-Ends w =
        Ends-continue (host.sleep (pause w).0 (pause w).1) _ (Ends-self _) (λ e w' h. pausing h)
          λ _ w₂ slept.
            let (x, w₃) = host.random w₂ in
            let (tx, w₄, made) = demo_transaction-ok (rt.lt x (rt.decimal 3 1)) w₃ in
            rw made (
              Ends-weaken _ (passed (run_and_save rt host tx w₄))
                (λ _ w' p. record {
                  rested = w₂;
                  slept = slept;
                  tx = tx;
                  begun = w₄;
                  made = made;
                  run = p;
                })
                (λ e w' h. cancelling h.0 tx w₄ h.1))

    -- With draws in their ranges, the loop that makes up transactions never stops over one of them: its first
    -- `n` rounds are `n` pauses, each with a transaction made up and then run and saved, whatever a run or
    -- a save raises, unless the loop ends before over what a pause raises or over a cancellation of a run.
    pub synthetic_rounds-Ends :
        (n : ℕ) (w : W)
        → Ends
            (λ _ w'. AllRounds n w w')
            (λ e w'. RoundsRaise n e w w')
            (synthetic_rounds rt host n w)
    unfolding synthetic_rounds
    synthetic_rounds-Ends zero w = record { at = refl }
    synthetic_rounds-Ends (suc n) w =
        Ends-continue (synthetic_round rt host w) (λ _. synthetic_rounds rt host n)
          (synthetic_round-Ends w) (λ e w' h. inl h)
          λ _ w₁ done.
            Ends-weaken _ (synthetic_rounds-Ends n w₁) (λ _ w' rest. (w₁, done, rest))
              (λ e w' h. inr (w₁, done, h))
