-- ===== src/Demo.antt =====
-- The demo endpoints of agents-python/app/main.py, `demo_run` and `demo_batch`, and `balanced_batch`
-- of agents-python/app/demo.py. `create_scenario`, which makes the transaction of a request, is a
-- parameter here and stands in Demo/Plan.antt; the store's `save` and the random shuffle are
-- parameters.
pub mod Batch
pub mod Create
pub mod Plan
pub mod Scenarios
pub mod Waits
use vaultwatch.Base.{
  ℕ, suc, String, ◌<>◌, Bool, not, Option, none, some, List, [], ◌∷◌, ◌++◌, if◌then◌else◌,
}
use vaultwatch.Base.Int.{ℤ, pos}
use vaultwatch.Base.Exec.{
  Exc, value_error, runtime_error, http_error, http_exception, other_exception, cancelled, Result,
  Exec, ok, pure, raise, lift, gets, try_except, ◌>>=◌, ◌>>◌,
}
use vaultwatch.Runtime.{Runtime}
use vaultwatch.Models.{Transaction, ScoringContext}
use vaultwatch.Models.Values.{Dict}
use vaultwatch.CaseRecord.{PipelineResult}
use vaultwatch.Orchestrator.Wiring.{Services}
use vaultwatch.Orchestrator.{process_transaction}
use vaultwatch.Connections.{Transport, broadcast}
pub use vaultwatch.Synthetic.{City, dublin, london, new_york, sydney}

pub data Scenario : Type 0 where
  normal review unusual sanctions takeover : Scenario

pub record DemoRequest (N : Type 0) : Type 0 where
  pub scenario : Scenario
  pub amount : Option N
  pub origin : City
  pub destination : City

-- what the manager broadcasts for the demo
pub data Notice : Type 0 where
  case_saved : String → Notice
  batch_progress : String → ℕ → Notice

-- an entry of `failures`, but for its constant message
pub record Failure : Type 0 where
  pub index : ℕ
  pub scenario : Scenario

-- the response of `demo_batch`, but for its constant entries
pub record BatchReport (N : Type 0) : Type 0 where
  pub batch_id : String
  pub results : List (PipelineResult N)
  pub failures : List Failure

-- What the endpoints use. `uuid` gives `uuid4().hex[:12]`.
pub record Endpoints (rt : Runtime) (W : Type 0) : Type 0 where
  pub demo_controls : Bool
  pub services : Services rt.Num W
  pub transport : Transport Notice W
  pub create_scenario :
      DemoRequest rt.Num → Exec W (Transaction rt.Num × ScoringContext rt.Num × Dict rt.Num)
  pub save : String → String → PipelineResult rt.Num → Exec W Unit
  pub shuffle : List (DemoRequest rt.Num) → W → List (DemoRequest rt.Num) × W
  pub uuid : W → String × W

-- the `except` clauses of `demo_run`
unfoldable pub translated : Exc → Exc
translated (value_error m) = http_exception 422 m
translated (http_error _) =
    http_exception 503
      "Scenario could not finish. Check the service indicators and retry; no case was reported as complete."
translated (runtime_error _) =
    http_exception 503
      "Scenario could not finish. Check the service indicators and retry; no case was reported as complete."
translated (http_exception status m) = http_exception status m
translated (other_exception m) = other_exception m
translated cancelled = cancelled

module _ (rt : Runtime) {W : Type 0} (api : Endpoints rt W) where
  open rt use {Num}

  planned : Scenario → ℕ → City → City → DemoRequest Num
  planned scenario amount origin destination = record {
    scenario = scenario;
    amount = some (rt.of_ℤ (pos amount));
    origin = origin;
    destination = destination;
  }

  unfoldable pub fixed_requests : List (DemoRequest Num)
  unfolding planned
  fixed_requests =
      planned Scenario.normal 45 dublin dublin
      ∷ planned Scenario.normal 50 london london
      ∷ planned Scenario.normal 55 new_york new_york
      ∷ planned Scenario.normal 60 sydney sydney
      ∷ planned Scenario.normal 65 dublin dublin
      ∷ planned Scenario.review 60 dublin dublin
      ∷ planned Scenario.review 65 london london
      ∷ planned Scenario.unusual 4200 dublin sydney
      ∷ planned Scenario.sanctions 4200 dublin london
      ∷ planned Scenario.takeover 4200 dublin sydney
      ∷ []

  unfoldable pub balanced_batch : Exec W (List (DemoRequest Num))
  unfolding fixed_requests
  balanced_batch w = let (requests, w') = api.shuffle fixed_requests w in (ok requests, w')

  -- the `try` block of `demo_run`
  unfoldable pub run_scenario : DemoRequest Num → Exec W (PipelineResult Num)
  run_scenario request = do
    made ← api.create_scenario request
    let (tx, ctx, notes) = made
    result ← process_transaction rt api.services tx (some ctx) (some notes)
    api.save tx.id tx.account_id result
    broadcast api.transport (case_saved tx.id)
    pure result

  unfoldable pub demo_run : DemoRequest Num → Exec W (PipelineResult Num)
  unfolding run_scenario translated
  demo_run request =
      if not api.demo_controls
      then raise (http_exception 404 "Local demo controls are disabled")
      else try_except (run_scenario request) (λ e. raise (translated e))

  -- one item of the batch, with the results and failures before it
  unfoldable pub batch_item : ℕ → DemoRequest Num → BatchReport Num → Exec W (BatchReport Num)
  unfolding demo_run
  batch_item index request report =
      try_except
        (do
          result ← demo_run request
          pure (record report { results = report.results ++ result ∷ [] }))
        (λ e. pure (record report {
          failures = report.failures ++ record { index = index; scenario = request.scenario } ∷ [];
        }))

  unfoldable pub batch_items :
      ℕ → List (DemoRequest Num) → BatchReport Num → Exec W (BatchReport Num)
  unfolding batch_item
  batch_items index [] report = pure report
  batch_items index (request ∷ rest) report = do
    next ← batch_item index request report
    broadcast api.transport (batch_progress report.batch_id index)
    batch_items (suc index) rest next

  unfoldable pub demo_batch : Exec W (BatchReport Num)
  unfolding balanced_batch batch_items
  demo_batch =
      if not api.demo_controls
      then raise (http_exception 404 "Local demo controls are disabled")
      else if api.services.provider.is_live
      then raise (http_exception 409 "Balanced batches require replay mode")
      else (do
        batch_id ← (λ w. let (id, w') = api.uuid w in (ok ("batch_" <> id), w'))
        requests ← balanced_batch
        batch_items 1 requests (record { batch_id = batch_id; results = []; failures = [] }))
