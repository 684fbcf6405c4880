-- ===== src/Tests/Fixture.antt =====
-- Floats as hundredths, a clock that counts calls, an audit service that answers, and the replay
-- provider.
use vaultwatch.Base.{
  ℕ, zero, suc, ◌+◌, ◌-◌, ◌*◌, String, ◌<>◌, true, false, Option, none, some, List, [], ◌∷◌, leb,
  ltb, eqb, length, if◌then◌else◌, ◌==◌,
}
use Prim.Native.Nat.{◌/◌, ◌^◌}
use vaultwatch.Base.Int.{ℤ, pos, negsuc}
use vaultwatch.Base.Exec.{ok, err, http_error}
use vaultwatch.Runtime.{Runtime}
use vaultwatch.Models.{Transaction, ScoringContext, RuleEngineVerdict, SecurityEvent}
use vaultwatch.Models.Values.{
  Json, Dict, Items, bool, int, float, str, arr, obj, nil, cons, empty, entry,
}
use vaultwatch.Prefilter.{Statistics}
use vaultwatch.Audit.{AuditService}
use vaultwatch.Llm.Agents.{Prompts}
use vaultwatch.Llm.{Request, ModelResponse}
use vaultwatch.Llm.Tools.{Research}
use vaultwatch.Llm.Replay.{replay_provider}
use vaultwatch.Orchestrator.Wiring.{Services}

-- a number, as so many strokes
abbrev pub tally : ℕ → String
tally zero = ""
tally (suc n) = "x" <> tally n

abbrev total : List ℕ → ℕ
total [] = 0
total (x ∷ xs) = x + total xs

abbrev pub texts : Items ℕ → Option (List String)
texts nil = some []
texts (cons (str s) xs) = elim (texts xs) [ none ↦ none | some r ↦ some (s ∷ r) ]
texts (cons _ xs) = none

-- the first key, by which `loads` finds the tool's result again
abbrev pub first_key : Dict ℕ → String
first_key empty = ""
first_key (entry k _ _) = k

abbrev pub rows : Items ℕ
rows =
    cons
      (obj (
        entry "id" (str "tx_hist_0") (
          entry "amount" (float 5000)
            (entry "beneficiary_id" (str "ben_1") (entry "device_id" (str "dev_1") empty)))))
      nil

abbrev pub loaded : String → Option (Json ℕ)
loaded s =
    if s == "history"
    then some (obj (entry "history" (arr rows) empty))
    else if s == "account_id"
    then some (
        obj (
          entry "account_id" (str "acct_1") (
            entry "linked_accounts" (arr (cons (str "acct_2") nil))
              (entry "shared_device_count" (int (pos 1)) empty))))
    else some (
        obj (
          entry "query" (str "victor krantz holdings") (
            entry "hit" (bool true)
              (entry "list" (str "vaultwatch-synthetic-watchlist-v1") empty))))

abbrev pub hundredfold : ℤ → ℕ
hundredfold (pos n) = n * 100
hundredfold (negsuc _) = 0

abbrev pub cents : Runtime
cents = record {
  Num = ℕ;
  le = leb;
  lt = ltb;
  is_zero = λ x. eqb x 0;
  add = λ a b. a + b;
  sub = λ a b. a - b;
  mul = λ a b. a * b / 100;
  div = λ a b. a * 100 / b;
  sum = total;
  of_ℤ = hundredfold;
  decimal = λ m k. m * 100 / 10 ^ k;
  fixed2 = λ _. "0.00";
  show_num = λ _. "0";
  show_int = λ z. elim z [ pos n ↦ tally n | negsuc n ↦ "-" <> tally (suc n) ];
  show_dict = λ _. "{}";
  show_json = λ _. "{}";
  show_list = λ _. "[]";
  sha256_16 = λ s. s;
  strip_lower = λ s. s;
  dumps = first_key;
  loads = loaded;
  to_str = λ v. elim v [ str s ↦ some s | _ ↦ none ];
  to_int = λ v. elim v [ int z ↦ some z | _ ↦ none ];
  to_float = λ v. elim v [ float x ↦ some x | int z ↦ some (hundredfold z) | _ ↦ none ];
  to_bool = λ v. elim v [ bool b ↦ some b | _ ↦ none ];
  to_strs = λ v. elim v [ arr xs ↦ texts xs | _ ↦ none ];
}

abbrev pub clock : ℕ → ℕ × ℕ
clock w = (w, suc w)

-- Each record is answered by its event type, and the chain is valid.
abbrev pub good_audit : AuditService ℕ ℕ
good_audit = record {
  append = λ id kind payload w. (ok (str kind), suc w);
  verify = λ w. (ok (obj (entry "valid" (bool true) empty)), suc w);
}

-- Every request fails.
abbrev pub lost_audit : AuditService ℕ ℕ
lost_audit = record {
  append = λ id kind payload w. (err (http_error "refused"), w);
  verify = λ w. (err (http_error "refused"), w);
}

abbrev pub payment : Transaction ℕ
payment = record {
  id = "tx_1";
  account_id = "acct_1";
  amount = 20000;
  currency = "EUR";
  timestamp = 0;
  lat = none;
  lon = none;
  beneficiary_name = some "victor krantz holdings";
  beneficiary_id = some "ben_2";
  device_id = some "dev_1";
}

abbrev pub context : ScoringContext ℕ
context = record {
  recent_amounts = 5000 ∷ [];
  recent_count_last_hour = pos 1;
  recent_sum_last_hour = 5000;
  known_beneficiaries = "ben_1" ∷ [];
  known_devices = "dev_1" ∷ [];
  last_location = none;
}

abbrev pub scored : ℕ → RuleEngineVerdict ℕ
scored score = record {
  transaction_id = "tx_1";
  risk_score = pos score;
  risk_band = "low";
  triggered_rules = [];
}

abbrev pub prompts : Prompts ℕ
prompts = record {
  triage_system = "triage";
  investigator_system = "investigate";
  compliance_system = "draft";
  triage_user = λ _ _ _. "transaction";
  investigator_user = λ _ _. "transaction";
  compliance_user = λ _ _. "case";
}

abbrev pub research : Research ℕ
research = record {
  history = λ _.
      record { id = "tx_hist_0"; amount = 5000; beneficiary_id = "ben_1"; device_id = "dev_1" }
      ∷ [];
  linked_accounts = λ _. "acct_2" ∷ [];
}

abbrev pub warning : SecurityEvent ℕ
warning = record {
  type = "impossible_travel";
  account_id = some "acct_1";
  severity = "high";
  detail = empty;
  timestamp = none;
}

-- Services in which the rules give `score`, and a login warning of the account is at hand.
abbrev pub services : Option (AuditService ℕ ℕ) → ℕ → Services ℕ ℕ
services audit score = record {
  clock = clock;
  audit = audit;
  score = λ tx ctx w. (ok (scored score), w);
  prefilter = λ tx ctx w. (ok (record { anomaly_score = 10; is_anomaly = false }), w);
  provider = replay_provider cents (λ w. (tally w, suc w));
  sink = some (λ e w. (ok tt, suc w));
  security = λ w. ("acct_1", (0, warning) ∷ []) ∷ [];
  build_scoring_context = λ account amount w. (ok context, w);
  prompts = prompts;
  research = research;
  haiku_model = "haiku";
  sonnet_model = "sonnet";
}

abbrev said : Dict ℕ
said = entry "fraud_likelihood" (float 90) (
    entry "category" (str "sanctions") (
      entry "escalate" (bool true) (
        entry "reasoning" (str "watchlist") (
          entry "summary" (str "on the watchlist") (
            entry "risk_score" (int (pos 80)) (
              entry "sanctions_hit" (bool true) (
                entry "recommend_compliance_review" (bool true)
                  (entry "narrative" (str "draft") empty))))))))

-- A provider that answers each request with the one call that ends it: a case file of 80 points with
-- a sanctions hit.
abbrev pub answered : Request ℕ → ModelResponse ℕ
answered request = record {
  text = "";
  tool_calls =
      record { id = "1"; name = "emit_triage_verdict"; input = said }
      ∷ record { id = "2"; name = "emit_case_file"; input = said }
      ∷ record { id = "3"; name = "emit_compliance_report"; input = said }
      ∷ [];
  stop_reason = "tool_use";
}

-- The services with that provider.
abbrev pub canned : Option (AuditService ℕ ℕ) → ℕ → Services ℕ ℕ
canned audit score = record (services audit score) {
  provider = record { is_live = false; complete = λ request w. (ok (answered request), w) };
}

-- The services without the rules engine.
abbrev pub unreachable : Services ℕ ℕ
unreachable = record (services (some good_audit) 0) {
  score = λ tx ctx w. (err (http_error "refused"), w);
}

-- a forest that finds every transaction anomalous
abbrev pub statistics : Statistics ℕ
statistics = record {
  mean = λ _. 5000;
  std = λ _. 0;
  hour = λ _. 12;
  Model = ℕ;
  fit_model = λ rows m. length rows;
  decision_function = λ m features. ok 20;
  predict = λ m features. ok (negsuc 0);
}
