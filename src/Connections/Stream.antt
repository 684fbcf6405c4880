-- ===== src/Connections/Stream.antt =====
-- The WebSocket route `stream` of agents-python/app/main.py: a socket that goes bad leaves the set.
use vaultwatch.Base.{
  ℕ, zero, suc, ◌≡◌, refl, ap, ◌∙◌, Bool, true, false, ◌⊎◌, inl, inr, List, [], ◌∷◌, arith,
  if◌then◌else◌,
}
use vaultwatch.Base.Exec.{cancelled, err, Exec, pure, try_except, ◌>>=◌, ◌>>◌}
use vaultwatch.Base.Exec.Ends.{Ends, Ends-continue, Ends-caught, Ends-any, Ends-self}
use vaultwatch.Connections.{Transport, member, discard, connect, disconnect}

-- `await asyncio.wait_for(ws.receive_text(), 20)`: whether a text came before the timeout. `ping` is
-- the payload that is sent then.
pub record Waiting (P W : Type 0) : Type 0 where
  pub receive : ℕ → Exec W Bool
  pub ping : P

module _ {P W : Type 0} (t : Transport P W) (waiting : Waiting P W) (ws : ℕ) where
  unfoldable pub stream_round : Exec W Unit
  stream_round = do came ← waiting.receive ws; if came then pure tt else t.send_json ws waiting.ping

  -- the first `n` rounds of `while True`
  unfoldable pub stream_rounds : ℕ → Exec W Unit
  stream_rounds zero = pure tt
  stream_rounds (suc n) = stream_round >> stream_rounds n

  -- The route up to `n` rounds: `true` if it goes on after them, `false` if it has returned.
  unfoldable pub stream : ℕ → Exec W Bool
  stream n = do
    connect t ws
    try_except (stream_rounds n >> pure true) (λ e. disconnect t ws >> pure false)

  member-discard : (xs : List ℕ) → member ws (discard ws xs) ≡ false
  unfolding discard
  member-discard [] = refl
  member-discard (x ∷ xs) = ground (arith, member-discard xs)

  connect-Ends :
      (w : W) → Ends (λ _ _. Unit {0}) (λ e w'. t.accept ws w ≡ (err e, w')) (connect t ws w)
  unfolding connect
  connect-Ends w =
      Ends-continue (t.accept ws w) _ (Ends-self (t.accept ws w)) (λ e s h. h)
        λ a s h. record { at = tt }

  module _ (reads : (xs : List ℕ) (w : W) → t.connections (t.set_connections xs w) ≡ xs) where
    -- Where the set reads back what was set, the route goes on, or it has returned and its socket is
    -- out of the set, or it was cancelled, or the socket was not accepted.
    stream-Ends :
        (n : ℕ) (w : W)
        → Ends
            (λ b w'. (b ≡ true) ⊎ (member ws (t.connections w') ≡ false))
            (λ e w'. (e ≡ cancelled) ⊎ (t.accept ws w ≡ (err e, w')))
            (stream n w)
    unfolding stream disconnect
    stream-Ends n w =
        Ends-continue (connect t ws w) _ (connect-Ends w) (λ e s h. inr h)
          λ a s _.
            Ends-caught ((stream_rounds n >> pure true) s) (λ e. disconnect t ws >> pure false)
              (Ends-continue {E = λ _ _. Unit {0}} (stream_rounds n s) _
                (Ends-any (stream_rounds n s)) (λ e z h. h) λ b z h. record { at = inl refl })
              (λ e z h. record {
                at = inr (ap (member ws) (reads _ z) ∙ member-discard (t.connections z));
              })
              (λ z h. inl refl)
