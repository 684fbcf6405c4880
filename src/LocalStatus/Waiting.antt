-- ===== src/LocalStatus/Waiting.antt =====
-- What the wait for a ready stack gives, on a clock that advances.
use vaultwatch.Base.{
  String, ℕ, zero, suc, ◌+◌, ◌-◌, ◌≤◌, ◌<◌, ◌≡◌, ◌⊎◌, inl, inr, refl, Bool, true, false, ◌||◌,
  Option, none, some, List, leb, min, arith, Bool-cases,
}
use vaultwatch.Base.Exec.{Exc, Result, ok, err, Exec, continue, pure, ◌>>=◌, ◌>>◌}
use vaultwatch.Base.Exec.Ends.{Ends, Ends-continue, Ends-weaken}
use vaultwatch.Models.Values.{Json}
use vaultwatch.LocalStatus.{
  inspect_document, inspect_dashboard, fetch_json, fetch_status, time_left, caught_if,
  is_fetch_error, is_os_error, Stack, Report, ready, second, inspect_stack, wait_rounds,
  wait_until_ready, now,
}

module _ {N W : Type 0} (stack : Stack N W) where
  -- What the clock promises: it gives its time, it does not run backwards, neither while a request is
  -- answered nor between two looks at it, and a sleep that returns took as long as it was asked to.
  pub record Advances (time : W → ℕ) : Type 0 where
    pub told : (w : W) → (stack.monotonic w).0 ≡ time (stack.monotonic w).1
    pub forward : (w : W) → time w ≤ time (stack.monotonic w).1
    pub opened_json :
        (url : String) (timeout : ℕ) (w : W) → time w ≤ time (stack.open_json url timeout w).1
    pub opened_status :
        (url : String) (timeout : ℕ) (w : W) → time w ≤ time (stack.open_status url timeout w).1
    pub slept : (d : ℕ) (w w' : W) → stack.sleep d w ≡ (ok tt, w') → time w + d ≤ time w'

  -- What the wait gives: a report that is ready, or one of the deadline's time or later.
  pub record IsAnswer (time : W → ℕ) (deadline : ℕ) (o : Option (Report N)) (w' : W) : Type 0 where
    pub report : Report N
    pub given : o ≡ some report
    pub timely : (ready report ≡ true) ⊎ (deadline ≤ time w')

  module _ (time : W → ℕ) (clock : Advances time) where
    -- it ends no earlier than at `t`
    Later : {A : Type 0} → ℕ → Result A × W → Type 0
    Later t m = t ≤ time m.1

    Later-continue :
        {A B : Type 0} (t : ℕ) (m : Result A × W) (f : A → Exec W B)
        → Later t m
        → ((a : A) (w : W) → Later (time w) (f a w))
        → Later t (continue f m)
    unfolding Later
    Later-continue t (ok a, w) f h k = omega (arith, h, k a w)
    Later-continue t (err e, w) f h k = h

    Later-caught :
        {A : Type 0} (t : ℕ) (errors : Exc → Bool) (handler : Exc → Exec W A) (m : Result A × W)
        → Later t m
        → ((e : Exc) (w : W) → Later (time w) (handler e w))
        → Later t (caught_if errors handler m)
    unfolding Later
    Later-caught t errors handler (ok a, w) h k = h
    Later-caught t errors handler (err e, w) h k = elim (Bool-cases (errors e)) [
      | inl named ↦ simp named (omega (arith, h, k e w))
      | inr other ↦ simp other h
    ]

    time_left-Later : (deadline : Option ℕ) (w : W) → Later (time w) (time_left stack deadline w)
    unfolding Later time_left
    time_left-Later none w = omega arith
    time_left-Later (some deadline) w = elim (Bool-cases (leb deadline (stack.monotonic w).0)) [
      | inl past ↦ simp past (clock.forward w)
      | inr early ↦ simp early (clock.forward w)
    ]

    document-Later :
        (problems : Json N → Result (List String)) (url title : String) (deadline : Option ℕ)
        (w : W)
        → Later (time w) (inspect_document stack problems url title deadline w)
    unfolding inspect_document fetch_json Later
    document-Later problems url title deadline w =
        Later-caught (time w) is_fetch_error _ _
          (Later-continue (time w) (fetch_json stack deadline url w) _
            (Later-continue (time w) (time_left stack deadline w) _ (time_left-Later deadline w)
              λ t w'. clock.opened_json url t w')
            λ document w'.
              Later-caught (time w') is_fetch_error _ _
                (Later-continue (time w') (problems document, w') _ (omega arith)
                  λ found w''. omega arith)
                λ e w''. omega arith)
          λ e w'. omega arith

    dashboard-Later :
        (deadline : Option ℕ) (w : W) → Later (time w) (inspect_dashboard stack deadline w)
    unfolding inspect_dashboard fetch_status Later
    dashboard-Later deadline w =
        Later-caught (time w) is_os_error _ _
          (Later-continue (time w) (fetch_status stack deadline "http://127.0.0.1:3000/" w) _
            (Later-continue (time w) (time_left stack deadline w) _ (time_left-Later deadline w)
              λ t w'. clock.opened_status "http://127.0.0.1:3000/" t w')
            λ code w'. omega arith)
          λ e w'. omega arith

    Later-here : {A : Type 0} (r : Result A) (w : W) → Later (time w) (r, w)
    unfolding Later
    Later-here r w = omega arith

    inspect-Later : (deadline : Option ℕ) (w : W) → Later (time w) (inspect_stack stack deadline w)
    unfolding inspect_stack
    inspect-Later deadline w = Later-continue (time w) _ _ (document-Later _ _ _ deadline w) λ b w₁.
        Later-continue (time w₁) _ _ (dashboard-Later deadline w₁) λ d w₂.
          Later-continue (time w₂) _ _ (document-Later _ _ _ deadline w₂) λ a w₃. Later-here _ w₃

    inspected : (deadline : Option ℕ) (w : W) → time w ≤ time (inspect_stack stack deadline w).1
    unfolding Later
    inspected deadline w = inspect-Later deadline w

    Ends-self : {A : Type 0} (m : Result A × W) → Ends (λ a w. m ≡ (ok a, w)) (λ _ _. Unit {0}) m
    Ends-self (ok a, w) = record { at = refl }
    Ends-self (err e, w) = record { at = tt }

    Ends-at :
        {A : Type 0} (m : Result A × W) (P : W → Type 0)
        → P m.1
        → Ends (λ _ w. P w) (λ _ _. Unit {0}) m
    Ends-at (ok a, w) P h = record { at = h }
    Ends-at (err e, w) P h = record { at = tt }

    -- what a round does with its report, by the test of its loop
    abbrev act : ℕ → ℕ → Report N → Bool → Exec W (Option (Report N))
    act fuel deadline result over = elim over [
      | true ↦ pure (some result)
      | false ↦ (do
        u ← now stack
        stack.sleep (min second (deadline - u))
        wait_rounds stack fuel deadline)
    ]

    abbrev judge : ℕ → ℕ → Report N → Exec W (Option (Report N))
    judge fuel deadline result =
        now stack >>= λ t. act fuel deadline result (ready result || leb deadline t)

    -- a pause before the deadline leaves fuel for the rest
    again :
        (fuel deadline : ℕ) (w w₂ : W)
        → time w₂ < deadline
        → time w ≤ time w₂
        → (deadline - time w) + 2 ≤ suc fuel
        → ((w : W)
            → (deadline - time w) + 2 ≤ fuel
            → Ends
                (λ o w'. IsAnswer time deadline o w')
                (λ _ _. Unit {0})
                (wait_rounds stack fuel deadline w))
        → Ends
            (λ o w'. IsAnswer time deadline o w')
            (λ _ _. Unit {0})
            ((do
              u ← now stack
              stack.sleep (min second (deadline - u))
              wait_rounds stack fuel deadline)
              w₂)
    again fuel deadline w w₂ early later enough rest =
        let (u, w₃) = stack.monotonic w₂ in
        let shown = clock.told w₂ in
        let later' = clock.forward w₂ in
        Ends-continue (stack.sleep (min second (deadline - u)) w₃)
          (λ _. wait_rounds stack fuel deadline) (Ends-self _) (λ e w' h. tt)
          λ _ w₄ paused.
            let moved = clock.slept (min second (deadline - u)) w₃ w₄ paused in
            rest w₄ (omega (arith, moved, shown, later, later', early, enough))

    acted :
        (fuel deadline : ℕ) (w : W) (result : Report N) (w₂ : W) (t : ℕ) (over : Bool)
        → (ready result || leb deadline t) ≡ over
        → t ≡ time w₂
        → time w ≤ time w₂
        → (deadline - time w) + 2 ≤ suc fuel
        → ((w : W)
            → (deadline - time w) + 2 ≤ fuel
            → Ends
                (λ o w'. IsAnswer time deadline o w')
                (λ _ _. Unit {0})
                (wait_rounds stack fuel deadline w))
        → Ends
            (λ o w'. IsAnswer time deadline o w')
            (λ _ _. Unit {0})
            (act fuel deadline result over w₂)
    acted fuel deadline w result w₂ t true over shown later enough rest = record {
      at = record {
        report = result;
        given = refl;
        timely = elim (Bool-cases (ready result)) [
          | inl good ↦ inl good
          | inr bad ↦ inr (ground (arith, bad, over, shown))
        ];
      };
    }
    acted fuel deadline w result w₂ t false going shown later enough rest =
        again fuel deadline w w₂ (ground (arith, going, shown)) later enough rest

    wait_rounds-IsAnswer :
        (fuel deadline : ℕ) (w : W)
        → (deadline - time w) + 2 ≤ fuel
        → Ends
            (λ o w'. IsAnswer time deadline o w')
            (λ _ _. Unit {0})
            (wait_rounds stack fuel deadline w)
    unfolding wait_rounds
    wait_rounds-IsAnswer zero deadline w enough =
        let never : ⊥ = omega (arith, enough) in elim never [ ]
    wait_rounds-IsAnswer (suc fuel) deadline w enough =
        Ends-continue (inspect_stack stack (some deadline) w) (judge fuel deadline)
          (Ends-at _ (λ w'. time w ≤ time w') (inspected (some deadline) w)) (λ e w' h. tt)
          λ result w₁ later.
            acted fuel deadline w result (stack.monotonic w₁).1 _ _ refl (clock.told w₁)
              (omega (arith, later, clock.forward w₁)) enough (wait_rounds-IsAnswer fuel deadline)

    -- On a clock that advances, the wait is over within a round for every nanosecond of its time and two
    -- more: with that fuel it never runs out, and if it returns, it gives a report that is ready, or one
    -- of the end of its time.
    pub wait_until_ready-IsAnswer :
        (fuel seconds : ℕ) (w : W)
        → seconds + 3 ≤ fuel
        → Ends
            (λ o w'.
              (report : Report N) × (o ≡ some report)
              × ((ready report ≡ true) ⊎ ((time w + seconds ≤ time w') ⊎ (seconds ≡ 0))))
            (λ _ _. Unit {0})
            (wait_until_ready stack fuel seconds w)
    unfolding wait_until_ready
    wait_until_ready-IsAnswer fuel zero w enough =
        Ends-continue _ _ (Ends-self (inspect_stack stack none w)) (λ e w' h. tt)
          λ r w' _. record { at = (r, refl, inr (inr refl)) }
    wait_until_ready-IsAnswer fuel (suc n) w enough =
        let (t, w₁) = stack.monotonic w in
        let shown = clock.told w in
        let later = clock.forward w in
        Ends-weaken _ (wait_rounds-IsAnswer fuel (t + suc n) w₁ (omega (arith, enough, shown)))
          (λ o w' a. (
            a.report,
            a.given,
            elim a.timely [
              | inl good ↦ inl good
              | inr past ↦ inr (inl (omega (arith, past, shown, later)))
            ],
          ))
          (λ e w' h. tt)
