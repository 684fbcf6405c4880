-- ===== src/Demo/Batch.antt =====
-- How the demo endpoints end.
use vaultwatch.Base.{
  ℕ, suc, String, some, false, ◌+◌, ◌≤◌, ◌≡◌, ◌⊎◌, refl, inl, inr, true, false, List, [], ◌∷◌, ◌++◌,
  ◌<>◌, length, length-append, arith, Bool-cases,
}
use mathlib.Core.Path.{subst}
use vaultwatch.Base.Exec.{
  Exc, value_error, runtime_error, http_error, http_exception, other_exception, cancelled, Result,
  ok, err, raise, try_except,
}
use vaultwatch.Base.Exec.Ends.{Ends-any, Ends-self, Ends, Ends-continue, Ends-caught, Ends-weaken}
use vaultwatch.Runtime.{Runtime}
use vaultwatch.Models.{Transaction, ScoringContext}
use vaultwatch.Models.Values.{Dict}
use vaultwatch.CaseRecord.{PipelineResult}
use vaultwatch.Orchestrator.{process_transaction}
use vaultwatch.Connections.{broadcast}
use vaultwatch.Demo.{
  DemoRequest, Endpoints, BatchReport, Failure, Notice, case_saved, batch_progress, translated,
  run_scenario, demo_run, batch_item, batch_items, demo_batch, balanced_batch, fixed_requests,
}

-- the detail of the answer to a run that could not finish
abbrev pub unfinished : String
unfinished =
    "Scenario could not finish. Check the service indicators and retry; no case was reported as complete."

-- How an exception of a run is answered: a `ValueError` by 422 with its message, a failed request and a
-- `RuntimeError` by 503, and any other exception as it is.
pub data IsAnswered : Exc → Exc → Type 0 where
  unprocessable : (m : String) → IsAnswered (value_error m) (http_exception 422 m)
  unreachable : (m : String) → IsAnswered (http_error m) (http_exception 503 unfinished)
  not_run : (m : String) → IsAnswered (runtime_error m) (http_exception 503 unfinished)
  already :
      (status : ℕ) (m : String) → IsAnswered (http_exception status m) (http_exception status m)
  unforeseen : (m : String) → IsAnswered (other_exception m) (other_exception m)
  cut_off : IsAnswered cancelled cancelled

translated-IsAnswered : (e : Exc) → IsAnswered e (translated e)
unfolding translated
translated-IsAnswered (value_error m) = unprocessable m
translated-IsAnswered (runtime_error m) = not_run m
translated-IsAnswered (http_error m) = unreachable m
translated-IsAnswered (http_exception n m) = already n m
translated-IsAnswered (other_exception m) = unforeseen m
translated-IsAnswered cancelled = cut_off

-- the indices of failures rise, from `low` on, and stay below `high`
abbrev pub Rising : ℕ → List Failure → ℕ → Type 0
Rising low [] high = low ≤ high
Rising low (f ∷ fs) high = (low ≤ f.index) × Rising (suc f.index) fs high

Rising-later :
    (low : ℕ) (fs : List Failure) (high : ℕ) → Rising low fs high → Rising low fs (suc high)
Rising-later low [] high h = omega (arith, h)
Rising-later low (f ∷ fs) high h = (h.0, Rising-later (suc f.index) fs high h.1)

Rising-append :
    (low : ℕ) (fs : List Failure) (f : Failure)
    → Rising low fs f.index
    → Rising low (fs ++ f ∷ []) (suc f.index)
Rising-append low [] f h = (h, omega arith)
Rising-append low (g ∷ fs) f h = (h.0, Rising-append (suc g.index) fs f h.1)

module _ {W A : Type 0} {P : A → W → Type 0} where
  with_exception :
      (m : Result A × W) → Ends P (λ _ _. Unit {0}) m → Ends P (λ e w'. m ≡ (err e, w')) m
  with_exception (ok a, w) h = record { at = h.at }
  with_exception (err e, w) h = record { at = refl }

module _ (rt : Runtime) {W : Type 0} (api : Endpoints rt W) where
  open rt use {Num}

  -- A run of a scenario from `w` to `w'` gave `result`: its transaction was made, run and saved, and
  -- the browsers were told.
  pub record IsRun (request : DemoRequest Num) (w : W) (result : PipelineResult Num) (w' : W)
      : Type 0 where
    pub made : Transaction Num × ScoringContext Num × Dict Num
    pub made_by : W
    pub creates : api.create_scenario request w ≡ (ok made, made_by)
    pub run_by : W
    pub runs :
        process_transaction rt api.services made.0 (some made.1) (some made.2) made_by
        ≡ (ok result, run_by)
    pub saved_by : W
    pub saves : api.save made.0.id made.0.account_id result run_by ≡ (ok tt, saved_by)
    pub tells : broadcast api.transport (case_saved made.0.id) saved_by ≡ (ok tt, w')

  run_scenario-IsRun :
      (request : DemoRequest Num) (w : W)
      → Ends
          (λ result w'. IsRun request w result w')
          (λ _ _. Unit {0})
          (run_scenario rt api request w)
  unfolding run_scenario
  run_scenario-IsRun request w =
      Ends-continue _ _ (Ends-self (api.create_scenario request w)) (λ e w' h. tt)
        λ made w₁ creates.
          Ends-continue _ _
            (Ends-self (process_transaction rt api.services made.0 (some made.1) (some made.2) w₁))
            (λ e w' h. tt)
            λ result w₂ runs.
              Ends-continue _ _ (Ends-self (api.save made.0.id made.0.account_id result w₂))
                (λ e w' h. tt)
                λ _ w₃ saves.
                  Ends-continue _ _ (Ends-self (broadcast api.transport (case_saved made.0.id) w₃))
                    (λ e w' h. tt)
                    λ _ w₄ tells. record {
                      at = record {
                        made = made;
                        made_by = w₁;
                        creates = creates;
                        run_by = w₂;
                        runs = runs;
                        saved_by = w₃;
                        saves = saves;
                        tells = tells;
                      };
                    }

  with_controls :
      (request : DemoRequest Num) (w : W)
      → Ends
          (λ result w'. IsRun request w result w')
          (λ e w'.
            (raised : Exc) × IsAnswered raised e
            × (run_scenario rt api request w ≡ (err raised, w')))
          (try_except (run_scenario rt api request) (λ e. raise (translated e)) w)
  with_controls request w =
      Ends-caught _ (λ e. raise (translated e)) (with_exception _ (run_scenario-IsRun request w))
        (λ e w' h. record { at = (e, translated-IsAnswered e, h) })
        (λ w' h. (cancelled, cut_off, h))

  -- With the demo controls off, a demo run is refused with 404 and changes nothing. With them on, it returns
  -- the result of a scenario whose transaction was made, run, saved and broadcast, and what a run
  -- raises is answered by a status: a `ValueError` by 422 with its message, an `httpx.HTTPError` or
  -- a `RuntimeError` by 503, and any other exception as it is.
  pub demo_run-IsReported :
      (request : DemoRequest Num) (w : W)
      → Ends
          (λ result w'. (api.demo_controls ≡ true) × IsRun request w result w')
          (λ e w'.
            ((api.demo_controls ≡ false)
              × (w' ≡ w)
              × (e ≡ http_exception 404 "Local demo controls are disabled"))
            ⊎ ((api.demo_controls ≡ true)
                × ((raised : Exc) × IsAnswered raised e
                    × (run_scenario rt api request w ≡ (err raised, w')))))
          (demo_run rt api request w)
  unfolding demo_run
  demo_run-IsReported request w = elim (Bool-cases api.demo_controls) [
    | inl on ↦ simp on (
        Ends-weaken _ (with_controls request w) (λ result w' h. (refl, h))
          (λ e w' h. inr (refl, h)))
    | inr off ↦ simp off (record { at = inl (refl, refl, refl) })
  ]

  -- What a batch may raise once it has begun: a cancellation, or what a broadcast raises.
  abbrev pub BatchRaises : Exc → Type 0
  BatchRaises e =
      (e ≡ cancelled) ⊎ ((n : Notice) × (w w' : W) × (broadcast api.transport n w ≡ (err e, w')))

  -- `n` items were reported, and each failure by its number.
  pub record IsReport (n : ℕ) (r : BatchReport Num) : Type 0 where
    pub count : length r.results + length r.failures ≡ n
    pub numbers : Rising 1 r.failures (suc n)

  item-IsReport :
      (n : ℕ) (request : DemoRequest Num) (r : BatchReport Num) (w : W)
      → IsReport n r
      → Ends
          (λ r' _. IsReport (suc n) r')
          (λ e _. e ≡ cancelled)
          (batch_item rt api (suc n) request r w)
  unfolding batch_item
  item-IsReport n request r w h =
      Ends-caught {E = λ _ _. Unit {0}} _ _
        (Ends-continue _ _ (Ends-any (demo_run rt api request w)) (λ e w' _. tt)
          λ result w' _. record {
            at = record {
              count = omega (arith, h.count, length-append r.results (result ∷ []));
              numbers = Rising-later 1 r.failures (suc n) h.numbers;
            };
          })
        (λ e w' _. record {
          at = record {
            count = omega (
              arith,
              h.count,
              length-append r.failures (record { index = suc n; scenario = request.scenario } ∷ []),
            );
            numbers =
                Rising-append 1 r.failures (record { index = suc n; scenario = request.scenario })
                  h.numbers;
          };
        })
        (λ w' h. refl)

  items-IsReport :
      (n : ℕ) (rest : List (DemoRequest Num)) (r : BatchReport Num) (w : W)
      → IsReport n r
      → Ends
          (λ r' _. IsReport (n + length rest) r')
          (λ e _. BatchRaises e)
          (batch_items rt api (suc n) rest r w)
  unfolding batch_items
  items-IsReport n [] r w h = record { at = subst (λ k. IsReport k r) (omega arith) h }
  items-IsReport n (request ∷ rest) r w h =
      Ends-continue _ _ (item-IsReport n request r w h) (λ e w' c. inl c)
        λ r' w₁ h'.
          Ends-continue _ _
            (Ends-self (broadcast api.transport (batch_progress r.batch_id (suc n)) w₁))
            (λ e w₂ raised. inr (batch_progress r.batch_id (suc n), w₁, w₂, raised))
            λ u w₂ _.
              Ends-weaken _ (items-IsReport (suc n) rest r' w₂ h')
                (λ r'' w₃ k. subst (λ m. IsReport m r'') (omega arith) k) (λ e w₃ k. k)

  -- With demo controls, without a live provider, and with a shuffle that keeps the number of items, a
  -- batch either reports on all ten items, each as a result or as a failure under its own number from
  -- 1 to 10 in rising order, or raises a cancellation or what a broadcast of its notices raises.
  pub demo_batch-IsReport :
      api.demo_controls ≡ true
      → api.services.provider.is_live ≡ false
      → ((requests : List (DemoRequest Num)) (w : W)
          → length (api.shuffle requests w).0 ≡ length requests)
      → (w : W) → Ends (λ r _. IsReport 10 r) (λ e _. BatchRaises e) (demo_batch rt api w)
  unfolding demo_batch balanced_batch fixed_requests
  demo_batch-IsReport on replay kept w =
      let w₁ = (api.uuid w).1 in
      let mixed = api.shuffle (fixed_requests rt api) w₁ in
      let ten : length mixed.0 ≡ 10 = kept (fixed_requests rt api) w₁ in
      simp (on, replay)
        (Ends-weaken _
          (items-IsReport 0 mixed.0
            (record { batch_id = "batch_" <> (api.uuid w).0; results = []; failures = [] }) mixed.1
            (record { count = refl; numbers = omega arith }))
          (λ r w' k. subst (λ m. IsReport m r) (omega (arith, ten)) k) (λ e w' k. k))
