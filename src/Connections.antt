-- ===== src/Connections.antt =====
-- `ConnectionManager` of agents-python/app/main.py. Its set of sockets belongs to the world, which
-- other tasks change while a send waits. A socket is its identity, a number. An iteration goes
-- through the sockets that the set had at its start; each `next` raises a `RuntimeError` if the set's
-- size has changed since. (A change that keeps the size may also make Python skip or repeat sockets.)
pub mod Broadcast
pub mod Stream
use vaultwatch.Base.{
  ℕ, String, Bool, true, false, not, List, [], ◌∷◌, ◌++◌, eqb, length, if◌then◌else◌, ◌||◌,
}
use vaultwatch.Base.Exec.{
  Exec, ok, err, runtime_error, pure, gets, modify, raise, try_except, ◌>>=◌, ◌>>◌,
}

-- The transport, and where the world keeps the manager's set. `P` is the payload.
pub record Transport (P W : Type 0) : Type 0 where
  pub connections : W → List ℕ
  pub set_connections : List ℕ → W → W
  pub accept : ℕ → Exec W Unit
  pub send_json : ℕ → P → Exec W Unit

-- `set.add`, `set.discard`
abbrev pub member : ℕ → List ℕ → Bool
member ws [] = false
member ws (x ∷ xs) = eqb x ws || member ws xs

unfoldable pub add : ℕ → List ℕ → List ℕ
add ws xs = if member ws xs then xs else xs ++ ws ∷ []

unfoldable pub discard : ℕ → List ℕ → List ℕ
discard ws [] = []
discard ws (x ∷ xs) = let rest = discard ws xs in if eqb x ws then rest else x ∷ rest

module _ {P W : Type 0} (t : Transport P W) where
  unfoldable pub connect : ℕ → Exec W Unit
  unfolding add
  connect ws = do t.accept ws; modify (λ w. t.set_connections (add ws (t.connections w)) w)

  unfoldable pub disconnect : ℕ → Exec W Unit
  unfolding discard
  disconnect ws = modify (λ w. t.set_connections (discard ws (t.connections w)) w)

  -- the check that `next` makes of a set's iterator
  unfoldable pub checked : ℕ → Exec W Unit
  checked size w =
      if eqb (length (t.connections w)) size
      then (ok tt, w)
      else (err (runtime_error "Set changed size during iteration"), w)

  -- one send, with the sockets that failed before it
  unfoldable pub send_to : P → ℕ → List ℕ → Exec W (List ℕ)
  send_to payload ws dead =
      try_except (do t.send_json ws payload; pure dead) (λ e. pure (dead ++ ws ∷ []))

  unfoldable pub send_all : P → ℕ → List ℕ → List ℕ → Exec W (List ℕ)
  unfolding checked send_to
  send_all payload size [] dead = do checked size; pure dead
  send_all payload size (ws ∷ rest) dead = do
    checked size
    dead' ← send_to payload ws dead
    send_all payload size rest dead'

  unfoldable pub disconnect_all : List ℕ → Exec W Unit
  unfolding disconnect
  disconnect_all [] = pure tt
  disconnect_all (ws ∷ rest) = do disconnect ws; disconnect_all rest

  unfoldable pub broadcast : P → Exec W Unit
  unfolding send_all disconnect_all
  broadcast payload = do
    sockets ← gets t.connections
    dead ← send_all payload (length sockets) sockets []
    disconnect_all dead
