-- ===== src/LocalStatus/Timely.antt =====
-- That the wait for a ready stack ends about its deadline.
use vaultwatch.Base.{String, ℕ, ◌+◌, ◌-◌, ◌≤◌, true, false, ◌||◌, Option, some, leb, min}
use vaultwatch.Base.Exec.{Result, Exec, pure, ◌>>=◌, ◌>>◌}
use vaultwatch.Base.Exec.Ends.{Ends}
use vaultwatch.LocalStatus.{Stack, Report, ready, second, wait_rounds, now}
use vaultwatch.LocalStatus.Waiting.{Advances}

module _ {N W : Type 0} (stack : Stack N W) where
  -- What the platform promises: a look at the clock takes at most `slack`, and a request and a sleep take
  -- at most that more than the time they were given.
  pub record IsPunctual (time : W → ℕ) (slack : ℕ) : Type 0 where
    pub looked : (w : W) → time (stack.monotonic w).1 ≤ time w + slack
    pub opened_json :
        (url : String) (timeout : ℕ) (w : W)
        → time (stack.open_json url timeout w).1 ≤ time w + timeout + slack
    pub opened_status :
        (url : String) (timeout : ℕ) (w : W)
        → time (stack.open_status url timeout w).1 ≤ time w + timeout + slack
    pub slept : (d : ℕ) (w : W) → time (stack.sleep d w).1 ≤ time w + d + slack

  module _ (time : W → ℕ) (clock : Advances stack time) (slack : ℕ)
      (punctual : IsPunctual time slack) (deadline : ℕ) where
    -- at most `k` slacks after the deadline
    Within : {A : Type 0} → ℕ → Result A × W → Type 0
    Within k m = time m.1 ≤ deadline + k

    abbrev judge : ℕ → Report N → Exec W (Option (Report N))
    judge fuel result = now stack >>= λ t. elim (ready result || leb deadline t) [
      | true ↦ pure (some result)
      | false ↦ (do
        u ← now stack
        stack.sleep (min second (deadline - u))
        wait_rounds stack fuel deadline)
    ]
