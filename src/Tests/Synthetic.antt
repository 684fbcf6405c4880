-- ===== src/Tests/Synthetic.antt =====
-- The generators and the scenarios with draws that take the lowest of their range.
use vaultwatch.Base.{
  ℕ, zero, suc, ◌+◌, ◌≡◌, ◌≢◌, refl, sym, ap, ◌∙◌, ◌<>◌, true, none, some, List, [], ◌∷◌, length,
  arith, ◌==◌, false≢true,
}
use Prim.Native.String.{count}
use mathlib.Core.Path.{subst}
use text.Mathlib.TextLemmas.{length-append}
use vaultwatch.Base.Exec.{ok}
use vaultwatch.Base.Exec.Ends.{Ends}
use vaultwatch.Models.{Transaction, ScoringContext}
use vaultwatch.Models.Values.{obj, str, empty, entry}
use vaultwatch.Prefilter.Scores.{Compares}
use vaultwatch.Llm.Tools.{HistoryRow}
use vaultwatch.Synthetic.{
  AccountProfile, account_profile, draw_profile, choice, collect, identifier, coordinates, london,
  Library, generate_transaction_history, generate_baseline_features,
}
use vaultwatch.Synthetic.Draws.{DrawsInRange, Each}
use vaultwatch.Synthetic.Accounts.{IsHistory, generate_transaction_history-IsHistory}
use vaultwatch.Synthetic.Baseline.{IsBaseline, generate_baseline_features-IsBaseline}
use vaultwatch.Synthetic.Feed.{generate_demo_transaction, build_scoring_context}
use vaultwatch.Synthetic.Transactions.{IsDemo, generate_demo_transaction-IsDemo}
use vaultwatch.Synthetic.Contexts.{
  IsContext, build_scoring_context-IsContext, demo-Novelty, Novelty,
}
use vaultwatch.Demo.{Scenario, DemoRequest, dublin, sydney}
use vaultwatch.Demo.Create.{Outside, demo_account, await_event, is_takeover}
use vaultwatch.Demo.Plan.{create_scenario}
use vaultwatch.Demo.Scenarios.{Grounds, IsPlanned}
use vaultwatch.Demo.Waits.{Found, Missed, await_event-Looked, create_scenario-IsPlanned}
use vaultwatch.Tests.Fixture.{cents, tally, statistics}

count-tally : (n : ℕ) → count (tally n) ≡ n
count-tally zero = refl
count-tally (suc n) = omega (arith, length-append "x" (tally n), count-tally n)

tally-injective : (n m : ℕ) → tally n ≡ tally m → n ≡ m
tally-injective n m e = sym (count-tally n) ∙ ap count e ∙ count-tally m

tally-ne-demo_new : (n : ℕ) → tally n ≢ "demo_new"
tally-ne-demo_new n e =
    let eight : n ≡ 8 = sym (count-tally n) ∙ ap count e in
    let same : tally 8 ≡ "demo_new" = subst (λ k. tally k ≡ "demo_new") eight e in
    false≢true (ap (λ s. s == "demo_new") same)

abbrev pub lowest : Library cents
lowest = record {
  State = ℕ;
  seeded = λ n. n;
  int_16 = count;
  randint = λ low high s. (low, suc s);
  index = λ n s. (0, suc s);
  uniform = λ low high s. (5000, suc s);
  gauss = λ mean deviation s. (mean, suc s);
  random = λ s. (50, suc s);
  round2 = λ x. x;
  isoformat = λ t. "now";
}

pub lowest-DrawsInRange : DrawsInRange cents lowest
lowest-DrawsInRange = record {
  randint-low = λ low high s l. omega arith;
  randint-high = λ low high s l. l;
  index-below = λ n s l. l;
  show-injective = tally-injective;
}

pub cents-Compares : Compares cents
cents-Compares = record {
  lt-le = λ x y h. ground (arith, h);
  zero-le = refl;
  one-le = refl;
  zero-one = refl;
}

generate_transaction_history-IsHistory_example :
    (rs : List (HistoryRow ℕ)) × (generate_transaction_history cents lowest "acct_1" 20 ≡ ok rs)
    × IsHistory cents lowest "acct_1" 20 rs
generate_transaction_history-IsHistory_example =
    generate_transaction_history-IsHistory cents lowest lowest-DrawsInRange cents-Compares "acct_1"
      20

generate_baseline_features-IsBaseline_example :
    (rows : List (List ℕ)) × (generate_baseline_features cents lowest 400 42 ≡ ok rows)
    × ((length rows ≡ 400) × Each (IsBaseline cents lowest) rows)
generate_baseline_features-IsBaseline_example =
    generate_baseline_features-IsBaseline cents lowest lowest-DrawsInRange cents-Compares 400 42

generate_demo_transaction-IsDemo_example :
    Ends
      (λ tx _. IsDemo cents lowest true tx)
      (λ _ _. ⊥)
      (generate_demo_transaction cents lowest true none 7 "abc" 0)
generate_demo_transaction-IsDemo_example =
    generate_demo_transaction-IsDemo cents lowest cents-Compares lowest-DrawsInRange 7 "abc" true
      none 0

build_scoring_context-IsContext_example :
    (ctx : ScoringContext ℕ) × (build_scoring_context cents lowest "acct_1" none 3600000001
      ≡ ok ctx)
    × IsContext cents lowest "acct_1" 1 ctx
build_scoring_context-IsContext_example =
    build_scoring_context-IsContext cents lowest cents-Compares lowest-DrawsInRange "acct_1" none
      3600000001 (omega arith)

abbrev risky_payment : Transaction ℕ
risky_payment = record {
  id = "tx_abc";
  account_id = "acct_1";
  amount = 250000;
  currency = "EUR";
  timestamp = 7;
  lat = some 5150;
  lon = some 0;
  beneficiary_name = some "Victor Krantz Holdings";
  beneficiary_id = some "ben_7";
  device_id = some "dev_7";
}

abbrev known_profile : AccountProfile ℕ
known_profile = record {
  account_id = "acct_1";
  home_city = dublin;
  typical_amount = 5000;
  known_beneficiaries = ("ben_" <> tally 1000) ∷ [];
  known_devices = ("dev_" <> tally 1000) ∷ [];
}

known_account : account_profile cents lowest "acct_1" ≡ ok known_profile
unfolding account_profile draw_profile choice collect identifier
known_account = refl

risky_payment-IsDemo : IsDemo cents lowest true risky_payment
unfolding coordinates
risky_payment-IsDemo = record {
  profile = known_profile;
  own = known_account;
  kind = record {
    account = refl;
    place = london;
    lat = refl;
    lon = refl;
    far = refl;
    beneficiary = "ben_7";
    to = refl;
    written = refl;
    unknown = refl;
    device = "dev_7";
    from = refl;
    labelled = refl;
    new_device = refl;
    named = refl;
  };
}

context_of_account :
    (ctx : ScoringContext ℕ) × (build_scoring_context cents lowest "acct_1" none 3600000001
      ≡ ok ctx)
    × IsContext cents lowest "acct_1" 1 ctx
context_of_account =
    build_scoring_context-IsContext cents lowest cents-Compares lowest-DrawsInRange "acct_1" none
      3600000001 (omega arith)

demo-Novelty_example : Novelty cents lowest statistics 100 risky_payment context_of_account.0
demo-Novelty_example =
    demo-Novelty cents lowest statistics true risky_payment 1 context_of_account.0
      risky_payment-IsDemo context_of_account.2

-- a gateway that registers "acct_7" and never warns; the world counts the requests
abbrev outside : Outside cents ℕ
outside = record {
  lib = lowest;
  clock = λ w. (3600000000 + w, w);
  uuid_hex = λ w. ("abc", w);
  uuid_hex_12 = λ w. ("abc", w);
  token_urlsafe = λ w. ("secret", w);
  gateway = λ path body w. (
    ok (record { raise_for_status = none; json = ok (obj (entry "id" (str "acct_7") empty)) }),
    suc w,
  );
  sleep = λ w. (ok tt, suc w);
  security = λ w. [];
  radians = λ x. x;
  sin = λ x. x;
  cos = λ x. x;
  asin = λ x. x;
  sqrt = λ x. x;
  square = λ x. x;
  round1 = λ x. x;
}

outside-Grounds : Grounds cents outside
outside-Grounds = record {
  compares = cents-Compares;
  draws = lowest-DrawsInRange;
  late = λ w. omega arith;
  digits = tally-ne-demo_new;
}

abbrev moved : DemoRequest ℕ
moved = record {
  scenario = Scenario.sanctions;
  amount = none;
  origin = dublin;
  destination = sydney;
}

abbrev stayed : DemoRequest ℕ
stayed = record {
  scenario = Scenario.takeover;
  amount = none;
  origin = dublin;
  destination = dublin;
}

first_account : demo_account cents outside 0 1000 ≡ ok "acct_demo_"
unfolding demo_account account_profile draw_profile choice collect identifier
first_account = refl

create_scenario-IsPlanned_example :
    Ends
      (λ made _. IsPlanned cents outside moved made.0.account_id made.0 made.1 made.2)
      (λ _ _. is_takeover Scenario.sanctions ≡ true)
      (create_scenario cents outside moved 0)
create_scenario-IsPlanned_example =
    create_scenario-IsPlanned cents outside moved "acct_demo_" first_account 0 outside-Grounds

await_event-Looked_example :
    Ends
      (λ _ w. Found cents outside "acct_7" 60 0 w)
      (λ e w. Missed cents outside "acct_7" 60 0 e w)
      (await_event cents outside 60 "acct_7" 0)
await_event-Looked_example = await_event-Looked cents outside 60 "acct_7" 0
