-- ===== src/Tests/Api.antt =====
-- The routes, the background tasks and the health checks on a host whose redis is down.
use vaultwatch.Base.{
  ap, ℕ, suc, ◌+◌, ◌≡◌, ◌⊎◌, refl, String, true, false, none, some, List, [], ◌∷◌, arith,
}
use vaultwatch.Base.Exec.{Result, ok, err, cancelled, runtime_error, other_exception}
use vaultwatch.Base.Exec.Ends.{Ends}
use vaultwatch.CaseRecord.{PipelineResult}
use vaultwatch.CaseStore.{Row}
use vaultwatch.CaseStore.Postgres.{CaseStore}
use vaultwatch.Api.{
  Host, Message, Verification, load_case, printable_report, status, on_messages, listen_once,
  synthetic_rounds,
}
use vaultwatch.Api.Reads.{
  IsVerification, IsCancelled, IsStatus, IsUnforeseen, printable_report-Ends, status-IsStatus,
}
use vaultwatch.Api.Listens.{
  AllHandled, Interrupted, on_messages-Ends, listen_once-reconnects, AllRounds, RoundsRaise,
  synthetic_rounds-Ends,
}
use vaultwatch.LocalStatus.{Stack, ready, is_os_error, inspect_stack}
use vaultwatch.LocalStatus.Ready.{IsHealthy, inspect_stack-IsHealthy}
use vaultwatch.LocalStatus.Expired.{inspect_stack_expired}
use vaultwatch.LocalStatus.Waiting.{Advances}
use vaultwatch.Tests.Fixture.{cents, services, lost_audit, warning}
use vaultwatch.Tests.Synthetic.{lowest, lowest-DrawsInRange, cents-Compares}

-- a store that has one case
abbrev store : CaseStore ℕ (PipelineResult ℕ) String
store = record {
  save = λ transaction_id account_id result w. (ok tt, suc w);
  recent = λ limit w. (ok [], w);
  get = λ id w.
      (ok (some (record { transaction_id = id; account_id = "acct_1"; result = "case" })), w);
}

abbrev host : Host cents ℕ String
host = record {
  lib = lowest;
  clock = λ w. (w, suc w);
  uuid_hex_12 = λ w. ("abc", w);
  rng = λ w. (0, w);
  uniform = λ low high w. (400, w);
  random = λ w. (10, w);
  sleep = λ x w. (ok tt, w);
  services = services (some lost_audit) 0;
  transport = record {
    connections = λ w. [];
    set_connections = λ xs w. w;
    accept = λ ws w. (ok tt, w);
    send_json = λ ws p w. (ok tt, w);
  };
  store = store;
  database_url = none;
  get = λ url w. (ok true, w);
  go_first = λ w. false;
  ping_redis = λ w. (err (runtime_error "refused"), w);
  security_feed = λ w. "reconnecting";
  set_security_feed = λ feed w. w;
  set_security = λ d w. w;
  read_event = λ d. ok warning;
}

abbrev page : Row String → Verification ℕ → Result String
page row v = ok row.result

printable_report-Ends_example :
    Ends
      (λ p w'.
        (row : Row String) × (loaded : ℕ) × (v : Verification ℕ) × (load_case cents host "tx_1" 0
          ≡ (ok row, loaded))
        × IsVerification cents host loaded v w'
        × (page row v ≡ ok p))
      (λ e w'.
        (load_case cents host "tx_1" 0 ≡ (err e, w'))
        ⊎ ((row : Row String) × (loaded : ℕ) × (load_case cents host "tx_1" 0 ≡ (ok row, loaded))
            × (IsCancelled cents host e loaded w'
                ⊎ ((v : Verification ℕ) × IsVerification cents host loaded v w'
                    × (page row v ≡ err e)))))
      (printable_report cents host page "tx_1" 0)
printable_report-Ends_example = printable_report-Ends cents host page "tx_1" 0

status-IsStatus_example :
    Ends
      (λ s w'. IsStatus cents host "http://rust" "http://go" 0 s w')
      (λ e _. IsUnforeseen cents host e)
      (status cents host "http://rust" "http://go" 0)
status-IsStatus_example = status-IsStatus cents host "http://rust" "http://go" 0

abbrev messages : List Message
messages =
    record { type = "subscribe"; content = "1" }
    ∷ record { type = "message"; content = "history" }
    ∷ []

on_messages-Ends_example :
    Ends
      (λ _ w'. AllHandled cents host messages 0 w')
      (λ e w'. (e ≡ cancelled) × Interrupted cents host messages 0 w')
      (on_messages cents host messages 0)
on_messages-Ends_example = on_messages-Ends cents host messages 0

abbrev text_host : Host cents (ℕ × String) String
text_host = record {
  lib = lowest;
  clock = λ w. (w.0, w);
  uuid_hex_12 = λ w. ("abc", w);
  rng = λ w. (0, w);
  uniform = λ low high w. (400, w);
  random = λ w. (10, w);
  sleep = λ x w. (ok tt, w);
  services = record {
    clock = λ w. (w.0, w);
    audit = none;
    score = λ tx ctx w. (err (runtime_error "refused"), w);
    prefilter = λ tx ctx w. (err (runtime_error "refused"), w);
    provider = record { is_live = false; complete = λ r w. (err (runtime_error "refused"), w) };
    sink = none;
    security = λ w. [];
    build_scoring_context = λ account amount w. (err (runtime_error "refused"), w);
    prompts = (services (some lost_audit) 0).prompts;
    research = (services (some lost_audit) 0).research;
    haiku_model = "haiku";
    sonnet_model = "sonnet";
  };
  transport = record {
    connections = λ w. [];
    set_connections = λ xs w. w;
    accept = λ ws w. (ok tt, w);
    send_json = λ ws p w. (ok tt, w);
  };
  store = record {
    save = λ transaction_id account_id result w. (ok tt, w);
    recent = λ limit w. (ok [], w);
    get = λ id w. (ok none, w);
  };
  database_url = none;
  get = λ url w. (ok true, w);
  go_first = λ w. false;
  ping_redis = λ w. (ok tt, w);
  security_feed = λ w. w.1;
  set_security_feed = λ feed w. (w.0, feed);
  set_security = λ d w. w;
  read_event = λ d. ok warning;
}

listen_once-reconnects_example :
    Ends
      (λ _ w. w.1 ≡ "reconnecting")
      (λ e _. e ≡ cancelled)
      (listen_once cents text_host messages (λ w. (err (runtime_error "closed"), w)) (0, ""))
listen_once-reconnects_example =
    listen_once-reconnects cents text_host (λ feed w. refl) messages
      (λ w. (err (runtime_error "closed"), w)) (λ w. (runtime_error "closed", w, refl)) (0, "")

synthetic_rounds-Ends_example :
    Ends
      (λ _ w'. AllRounds cents host 5 0 w')
      (λ e w'. RoundsRaise cents host 5 e 0 w')
      (synthetic_rounds cents host 5 0)
synthetic_rounds-Ends_example =
    synthetic_rounds-Ends cents host cents-Compares lowest-DrawsInRange 5 0

-- a stack that does not answer; the world is the time
abbrev silent : Stack ℕ ℕ
silent = record {
  monotonic = λ w. (w, w);
  open_json = λ url timeout w. (err (other_exception "URLError"), w);
  open_status = λ url timeout w. (ok 200, w);
  sleep = λ d w. (ok tt, w + d);
  format = λ v. "";
  message = λ e. "refused";
}

inspect_stack-IsHealthy_example :
    Ends
      (λ r _. (ready r ≡ false) ⊎ IsHealthy silent r)
      (λ e _. is_os_error e ≡ false)
      (inspect_stack silent (some 5) 0)
inspect_stack-IsHealthy_example = inspect_stack-IsHealthy silent (some 5) 0

silent-Advances : Advances silent (λ w. w)
silent-Advances = record {
  told = λ w. refl;
  forward = λ w. omega arith;
  opened_json = λ url timeout w. omega arith;
  opened_status = λ url timeout w. omega arith;
  slept = λ d w w' e. omega (arith, ap (λ m. m.1) e);
}

inspect_stack_expired_example : inspect_stack silent (some 5) 5 ≡ (
  ok (record {
    backend = none;
    dashboard_http = none;
    audit = none;
    problems =
        "Backend status unavailable: refused" ∷ "Dashboard unavailable: refused"
        ∷ "Audit verification unavailable: refused" ∷ [];
  }),
  5,
)
inspect_stack_expired_example =
    inspect_stack_expired silent (λ w. w) silent-Advances 5 5 (omega arith)
