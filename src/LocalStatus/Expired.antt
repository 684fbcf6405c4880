-- ===== src/LocalStatus/Expired.antt =====
-- What an inspection says after its deadline.
use vaultwatch.Base.{ℕ, ◌≤◌, ◌≡◌, refl, String, ◌<>◌, true, none, some, List, [], ◌∷◌, leb, arith}
use vaultwatch.Base.Exec.{Exc, Result, ok, err, other_exception}
use vaultwatch.Models.Values.{Json}
use vaultwatch.LocalStatus.{
  Stack, is_os_error, is_fetch_error, time_left, fetch_json, fetch_status, inspect_document,
  inspect_dashboard, status_problems, audit_problems, inspect_stack,
}
use vaultwatch.LocalStatus.Waiting.{Advances}

abbrev timeout : Exc
timeout = other_exception "TimeoutError"

module _ {N W : Type 0} (stack : Stack N W) (time : W → ℕ) (clock : Advances stack time)
    (deadline : ℕ) where
  -- after a look at the clock
  abbrev pub look : W → W
  look w = (stack.monotonic w).1

  time_left-expired :
      (w : W)
      → deadline ≤ time w
      → (time_left stack (some deadline) w ≡ (err timeout, look w)) × (deadline ≤ time (look w))
  unfolding time_left
  time_left-expired w late =
      let past : leb deadline (stack.monotonic w).0 ≡ true =
        ground (arith, clock.told w, clock.forward w, late) in
      (rw past refl, omega (arith, clock.forward w, late))

  document-expired :
      (problems : Json N → Result (List String)) (url title : String) (w : W)
      → deadline ≤ time w
      → (inspect_document stack problems url title (some deadline) w
          ≡ (ok (none, (title <> stack.message timeout) ∷ []), look w))
        × (deadline ≤ time (look w))
  unfolding inspect_document fetch_json is_fetch_error is_os_error
  document-expired problems url title w late =
      let (e, later) = time_left-expired w late in (rw e refl, later)

  dashboard-expired :
      (w : W)
      → deadline ≤ time w
      → (inspect_dashboard stack (some deadline) w
          ≡ (ok (none, ("Dashboard unavailable: " <> stack.message timeout) ∷ []), look w))
        × (deadline ≤ time (look w))
  unfolding inspect_dashboard fetch_status is_os_error
  dashboard-expired w late = let (e, later) = time_left-expired w late in (rw e refl, later)

  -- From its deadline on, on a clock that advances, an inspection asks nothing: it only looks at
  -- the clock, three times, its report holds no answer of any service, and its three problems are the
  -- passing of the deadline, whatever the state of the stack.
  pub inspect_stack_expired :
      (w : W)
      → deadline ≤ time w
      → inspect_stack stack (some deadline) w ≡ (
        ok (record {
          backend = none;
          dashboard_http = none;
          audit = none;
          problems =
              ("Backend status unavailable: " <> stack.message timeout)
              ∷ ("Dashboard unavailable: " <> stack.message timeout)
              ∷ ("Audit verification unavailable: " <> stack.message timeout)
              ∷ [];
        }),
        look (look (look w)),
      )
  unfolding inspect_stack
  inspect_stack_expired w late =
      let (e₁, late₁) =
        document-expired (status_problems stack) "http://127.0.0.1:8000/v1/status"
          "Backend status unavailable: " w late in
      let (e₂, late₂) = dashboard-expired (look w) late₁ in
      let (e₃, _) =
        document-expired (audit_problems stack) "http://127.0.0.1:8000/v1/audit"
          "Audit verification unavailable: " (look (look w)) late₂ in
      rw (e₁, e₂, e₃) refl
