-- ===== src/Demo/Waits.antt =====
-- How `create_scenario` ends: its wait for the login warning, and its errors.
use mathlib.Core.Path.{subst}
use vaultwatch.Base.{
  ℕ, zero, suc, ◌<◌, ◌≡◌, refl, sym, String, Bool, true, false, Bool-cases, inl, inr, arith,
}
use vaultwatch.Base.Exec.{
  Exc, value_error, runtime_error, Result, ok, err, Exec, continue, pure, ◌>>◌,
}
use vaultwatch.Base.Exec.Ends.{Ends, Ends-continue, Ends-weaken}
use vaultwatch.Runtime.{Runtime}
use vaultwatch.Demo.{DemoRequest}
use vaultwatch.Synthetic.{other_city}
use vaultwatch.Demo.Create.{
  Outside, is_takeover, place, demo_account, has_arrived, await_event, sign_in,
}
use vaultwatch.Demo.Plan.{account_for, create_scenario}
use vaultwatch.Demo.Scenarios.{Grounds, IsPlanned, case_for-IsPlanned}

module _ (rt : Runtime) {W : Type 0} (out : Outside rt W) where
  open rt use {Num}

  -- `n` looks that found no warning, each with its pause
  pub data Looked (account : String) : ℕ → W → W → Type 0 where
    start : (w : W) → Looked account 0 w w
    look :
        (n : ℕ) (w w₁ w₂ w₃ : W)
        → has_arrived rt out account w ≡ (ok false, w₁)
        → out.sleep w₁ ≡ (ok tt, w₂)
        → Looked account n w₂ w₃
        → Looked account (suc n) w w₃

  -- The warning was there at a look, before which less than `n` found none.
  pub record Found (account : String) (n : ℕ) (w w' : W) : Type 0 where
    pub looks : ℕ
    pub before : W
    pub looked : Looked account looks w before
    pub fewer : looks < n
    pub there : has_arrived rt out account before ≡ (ok true, w')

  -- All of `n` looks found none, or a pause after less than `n` of them was cut off.
  pub data Missed (account : String) (n : ℕ) (w : W) (e : Exc) (w' : W) : Type 0 where
    expired :
        Looked account n w w'
        → e
          ≡ runtime_error
              "Go logins succeeded but their security event did not arrive through Redis."
        → Missed account n w e w'
    interrupted :
        (looks : ℕ) (before at : W)
        → looks < n
        → Looked account looks w before
        → has_arrived rt out account before ≡ (ok false, at)
        → out.sleep at ≡ (err e, w')
        → Missed account n w e w'

  later :
      {account : String} {n : ℕ} {w w₁ w₂ : W}
      → has_arrived rt out account w ≡ (ok false, w₁)
      → out.sleep w₁ ≡ (ok tt, w₂)
      → (m : Result Unit × W)
      → Ends (λ _ w'. Found account n w₂ w') (λ e w'. Missed account n w₂ e w') m
      → Ends (λ _ w'. Found account (suc n) w w') (λ e w'. Missed account (suc n) w e w') m
  later {account} {n} {w} {w₁} {w₂} absent slept m h =
      Ends-weaken m h
        (λ _ w' f. record {
          looks = suc f.looks;
          before = f.before;
          looked = look f.looks w w₁ w₂ f.before absent slept f.looked;
          fewer = omega (arith, f.fewer);
          there = f.there;
        })
        missed
    where
      missed : (e : Exc) (w' : W) → Missed account n w₂ e w' → Missed account (suc n) w e w'
      missed e w' (expired l same) = expired (look n w w₁ w₂ w' absent slept l) same
      missed e w' (interrupted looks before at few l none_there cut) =
          interrupted (suc looks) before at (omega (arith, few))
            (look looks w w₁ w₂ before absent slept l) none_there cut

  -- one look and its pause, with what follows it
  paused :
      {account : String} {n : ℕ} {w w₁ : W}
      → has_arrived rt out account w ≡ (ok false, w₁)
      → ((w₂ : W)
          → Ends
              (λ _ w'. Found account n w₂ w')
              (λ e w'. Missed account n w₂ e w')
              (await_event rt out n account w₂))
      → (m : Result Unit × W) → out.sleep w₁ ≡ m
      → Ends
          (λ _ w'. Found account (suc n) w w')
          (λ e w'. Missed account (suc n) w e w')
          (continue (λ _. await_event rt out n account) m)
  paused absent rest (ok tt, w₂) slept = later absent slept _ (rest w₂)
  paused {account} {n} {w} {w₁} absent rest (err e, w₂) cut = record {
    at = interrupted 0 w w₁ (omega arith) (start w) absent cut;
  }

  -- a look never fails
  has_arrived-ok :
      (account : String) (w : W)
      → (b : Bool) × (w' : W) × (has_arrived rt out account w ≡ (ok b, w'))
  unfolding has_arrived
  has_arrived-ok account w = (_, _, refl)

  abbrev next : ℕ → String → Bool → Exec W Unit
  next n account arrived = elim arrived [
    | true ↦ pure tt
    | false ↦ out.sleep >> await_event rt out n account
  ]

  after_look :
      {account : String} {n : ℕ} {w : W} (b : Bool) (w₁ : W)
      → ((w₂ : W)
          → Ends
              (λ _ w'. Found account n w₂ w')
              (λ e w'. Missed account n w₂ e w')
              (await_event rt out n account w₂))
      → has_arrived rt out account w ≡ (ok b, w₁)
      → Ends
          (λ _ w'. Found account (suc n) w w')
          (λ e w'. Missed account (suc n) w e w')
          (continue (next n account) (ok b, w₁))
  after_look {w = w} true w₁ rest there = record {
    at = record { looks = 0; before = w; looked = start w; fewer = omega arith; there = there };
  }
  after_look false w₁ rest absent = paused absent rest (out.sleep w₁) refl

  -- The wait takes at most its number of looks. It returns right after the first look that finds a
  -- login warning of the account; where none does, it raises that the warning did not arrive, and what
  -- a pause raises it passes on.
  pub await_event-Looked :
      (n : ℕ) (account : String) (w : W)
      → Ends
          (λ _ w'. Found account n w w')
          (λ e w'. Missed account n w e w')
          (await_event rt out n account w)
  unfolding await_event
  await_event-Looked zero account w = record { at = expired (start w) refl }
  await_event-Looked (suc n) account w =
      let (b, w₁, e) = has_arrived-ok account w in
      subst
        (λ m.
          Ends (λ _ w'. Found account (suc n) w w') (λ e w'. Missed account (suc n) w e w')
            (continue (next n account) m))
        (sym e) (after_look b w₁ (await_event-Looked n account) e)

module _ (rt : Runtime) {W : Type 0} (out : Outside rt W) (request : DemoRequest rt.Num) where
  open rt use {Num}

  -- A takeover whose payment takes place at its origin is refused before anything is sent or waited for.
  sign_in-refused :
      (w : W)
      → other_city request.origin (place request) ≡ false
      → sign_in rt out request w ≡ (
        err (
            value_error "Choose different origin and payment locations for the takeover scenario."),
        w,
      )
  unfolding sign_in
  sign_in-refused w here = rw here refl

  Ends-either : {A E : Type 0} → E → (m : Result A × W) → Ends (λ _ _. Unit {0}) (λ _ _. E) m
  Ends-either e (ok a, w') = record { at = tt }
  Ends-either e (err x, w') = record { at = e }

  account_for-any :
      (account : String) (w : W)
      → demo_account rt out 0 1000 ≡ ok account
      → Ends
          (λ _ _. Unit {0})
          (λ _ _. is_takeover request.scenario ≡ true)
          (account_for rt out request w)
  unfolding account_for
  account_for-any account w found = elim (Bool-cases (is_takeover request.scenario)) [
    | inl taken ↦ simp (found, taken) (Ends-either refl (sign_in rt out request w))
    | inr plain ↦ simp (found, plain) (record { at = tt })
  ]

  module _ (account : String) (found : demo_account rt out 0 1000 ≡ ok account) (w : W) where
    -- Where one of the thousand demo accounts is representative, a takeover whose payment takes place
    -- at its origin is refused, and leaves the world as it is: nothing is sent.
    create_scenario_refused :
        is_takeover request.scenario ≡ true
        → other_city request.origin (place request) ≡ false
        → create_scenario rt out request w ≡ (
          err (
              value_error
                "Choose different origin and payment locations for the takeover scenario."),
          w,
        )
    unfolding create_scenario account_for
    create_scenario_refused taken here = rw (found, taken, sign_in-refused w here) refl

    -- Where one of the thousand demo accounts is representative, only a takeover can raise. What is
    -- returned is planned for its account as the scenario's name says.
    pub create_scenario-IsPlanned :
        Grounds rt out
        → Ends
            (λ made _. IsPlanned rt out request made.0.account_id made.0 made.1 made.2)
            (λ _ _. is_takeover request.scenario ≡ true)
            (create_scenario rt out request w)
    unfolding create_scenario
    create_scenario-IsPlanned g =
        Ends-continue _ _ (account_for-any account w found) (λ e w' h. h)
          λ made w' _.
            Ends-weaken _ (case_for-IsPlanned rt out request g made.0 made.1 w')
              (λ c w'' h. subst (λ a. IsPlanned rt out request a c.0 c.1 c.2) (sym h.owner) h)
              (λ e w'' h. elim h [ ])
