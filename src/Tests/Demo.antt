-- ===== src/Tests/Demo.antt =====
-- A batch in the concrete environment, and a demo run whose rules engine cannot be reached.
use vaultwatch.Base.{ℕ, ◌≡◌, ◌⊎◌, refl, Bool, true, false, none, some, []}
use vaultwatch.Base.Exec.{Exc, http_exception, ok, err}
use vaultwatch.Base.Exec.Ends.{Ends}
use vaultwatch.Models.Values.{empty}
use vaultwatch.Connections.{Transport}
use vaultwatch.Demo.{
  Notice, Endpoints, DemoRequest, Scenario, dublin, run_scenario, demo_run, demo_batch,
}
use vaultwatch.Demo.Batch.{
  IsRun, IsAnswered, IsReport, BatchRaises, demo_run-IsReported, demo_batch-IsReport,
}
use vaultwatch.Tests.Fixture.{cents, services, good_audit, unreachable, payment, context, tally}
use vaultwatch.Orchestrator.Wiring.{Services}

-- nobody is connected
abbrev transport : Transport Notice ℕ
transport = record {
  connections = λ w. [];
  set_connections = λ xs w. w;
  accept = λ ws w. (ok tt, w);
  send_json = λ ws p w. (ok tt, w);
}

abbrev endpoints : Services ℕ ℕ → Endpoints cents ℕ
endpoints svc = record {
  demo_controls = true;
  services = svc;
  transport = transport;
  create_scenario = λ request w. (ok (payment, context, empty), w);
  save = λ id account result w. (ok tt, w);
  shuffle = λ requests w. (requests, w);
  uuid = λ w. (tally w, w);
}

demo_batch-IsReport_example :
    Ends
      (λ r _. IsReport cents (endpoints (services (some good_audit) 0)) 10 r)
      (λ e _. BatchRaises cents (endpoints (services (some good_audit) 0)) e)
      (demo_batch cents (endpoints (services (some good_audit) 0)) 0)
demo_batch-IsReport_example =
    demo_batch-IsReport cents (endpoints (services (some good_audit) 0)) refl refl
      (λ requests w. refl) 0

abbrev asked : DemoRequest ℕ
asked = record { scenario = Scenario.normal; amount = none; origin = dublin; destination = dublin }

demo_run-IsReported_example :
    Ends
      (λ result w'.
        (◌≡◌ {A = Bool} true true) × IsRun cents (endpoints unreachable) asked 0 result w')
      (λ e w'.
        ((◌≡◌ {A = Bool} true false)
          × (w' ≡ 0)
          × (e ≡ http_exception 404 "Local demo controls are disabled"))
        ⊎ ((◌≡◌ {A = Bool} true true)
            × ((raised : Exc) × IsAnswered raised e
                × (run_scenario cents (endpoints unreachable) asked 0 ≡ (err raised, w')))))
      (demo_run cents (endpoints unreachable) asked 0)
demo_run-IsReported_example = demo_run-IsReported cents (endpoints unreachable) asked 0
