-- ===== src/Tests/Services.antt =====
-- The agents' verdicts, the prefilter, the configuration and the connections on concrete values.
use vaultwatch.Base.{
  ℕ, suc, ◌≡◌, refl, ap, String, Bool, true, Option, none, some, List, [], ◌∷◌, ◌++◌, ltb,
  if◌then◌else◌, ◌==◌, arith, inl, inr, Bool-cases,
}
use vaultwatch.Base.Int.{ℤ, pos}
use vaultwatch.Base.Exec.{Result, ok, err, runtime_error, http_error, cancelled}
use vaultwatch.Base.Exec.Ends.{Ends}
use vaultwatch.Runtime.{Validates, strs}
use vaultwatch.Llm.Verdicts.Fields.{InRange}
use vaultwatch.Llm.Transcripts.{Findings}
use vaultwatch.Llm.Transcripts.Scores.{scripted}
use vaultwatch.Llm.Investigator.{run_investigator}
use vaultwatch.Llm.Investigator.Bounds.{run_investigator-InRange}
use vaultwatch.Llm.Live.{Client}
use vaultwatch.Llm.Replay.{replay_provider}
use vaultwatch.Llm.Replay.Investigation.{ReadsBack, replay_investigation, researched}
use vaultwatch.Llm.Tools.{history_result, generate_entity_graph, check_sanctions_list}
use vaultwatch.Llm.Transcripts.Evidence.{found}
use vaultwatch.Prefilter.{AnomalyPreFilter, score}
use vaultwatch.Prefilter.Scores.{Compares, IsScored, score_lem}
use vaultwatch.Config.{Settings, load_settings, live_provider, get_provider}
use vaultwatch.Config.Modes.{IsChosen, provider_mode}
use vaultwatch.Connections.{Transport, broadcast}
use vaultwatch.Connections.Broadcast.{Undisturbed, broadcast_interrupted, broadcast-living}
use vaultwatch.Tests.Fixture.{
  cents, canned, payment, context, prompts, research, good_audit, texts, tally, statistics,
}

texts-strs : (l : List String) → texts (strs l) ≡ some l
texts-strs [] = refl
texts-strs (x ∷ l) = ap (λ o. elim o [ none ↦ none | some r ↦ some (x ∷ r) ]) (texts-strs l)

pub cents-Validates : Validates cents
cents-Validates = record {
  to_str-str = λ s. refl;
  to_int-int = λ z. refl;
  to_float-float = λ x. refl;
  to_bool-bool = λ b. refl;
  to_strs-strs = texts-strs;
}

-- a watchlist hit with two linked accounts
abbrev matched : Findings ℕ
matched = record {
  amounts = 5000 ∷ 6000 ∷ [];
  linked = "acct_2" ∷ "acct_3" ∷ [];
  hit = true;
  query = "Victor Krantz Holdings";
}

run_investigator-InRange_example :
    Ends
      (λ ran _. InRange ran.1)
      (λ _ _. Unit)
      (run_investigator cents research
        (canned (some good_audit) 60).provider
        prompts
        "sonnet"
        payment
        (record {
          fraud_likelihood = 90;
          category = "sanctions";
          escalate = true;
          reasoning = "watchlist";
        })
        (pos 60)
        0)
run_investigator-InRange_example =
    run_investigator-InRange cents research (canned (some good_audit) 60).provider prompts "sonnet"
      payment
      (record {
        fraud_likelihood = 90;
        category = "sanctions";
        escalate = true;
        reasoning = "watchlist";
      })
      (pos 60) 0

cents-Compares : Compares cents
cents-Compares = record {
  lt-le = λ x y h. ground (arith, h);
  zero-le = refl;
  one-le = refl;
  zero-one = refl;
}

abbrev trained : AnomalyPreFilter cents statistics
trained = record { model = 400; fitted = true }

score_lem_example :
    IsScored cents statistics trained payment context
      (score cents statistics trained payment context)
score_lem_example = score_lem cents statistics cents-Compares trained payment context

-- an environment with a key and nothing else
abbrev environment : String → Option String
environment k = if k == "ANTHROPIC_API_KEY" then some "key" else none

abbrev port_of : String → Option ℤ
port_of s = some (pos 8000)

abbrev loaded_settings : Settings
loaded_settings = record {
  mode = "auto";
  anthropic_api_key = some "key";
  engine_rust_url = "http://localhost:8081";
  redis_url = "redis://localhost:6379/0";
  database_url = none;
  port = pos 8000;
  haiku_model = "claude-haiku-4-5-20251001";
  sonnet_model = "claude-sonnet-5";
}

environment_loads : load_settings environment port_of ≡ ok loaded_settings
unfolding load_settings
environment_loads = refl

abbrev client : Option String → Result (Client ℕ ℕ)
client key = ok (record { create = λ r w. (err (http_error "refused"), w) })

abbrev uuid : ℕ → String × ℕ
uuid w = (tally w, w)

provider_mode_example :
    IsChosen cents client uuid
      (environment "MODE")
      (environment "ANTHROPIC_API_KEY")
      (get_provider (live_provider client) (replay_provider cents uuid) loaded_settings)
provider_mode_example =
    provider_mode cents client uuid environment port_of loaded_settings environment_loads

-- sockets below 10 answer; the world is the set of sockets
abbrev answers : ℕ → Bool
answers ws = ltb ws 10

abbrev quiet_transport : Transport String (List ℕ)
quiet_transport = record {
  connections = λ w. w;
  set_connections = λ xs w. xs;
  accept = λ ws w. (ok tt, w);
  send_json = λ ws p w. ((if answers ws then ok tt else err (runtime_error "closed")), w);
}

quiet_transport-Undisturbed : Undisturbed quiet_transport answers
quiet_transport-Undisturbed = record {
  reads = λ xs w. refl;
  sends = λ ws p w. elim (Bool-cases (answers ws)) [
    | inl up ↦ simp up (record { at = (refl, refl) })
    | inr down ↦ simp down (record { at = (refl, inl refl) })
  ];
}

broadcast-living_example :
    Ends
      (λ _ w. w ≡ 1 ∷ 3 ∷ [])
      (λ e _. e ≡ cancelled)
      (broadcast quiet_transport "alert" (1 ∷ 12 ∷ 3 ∷ []))
broadcast-living_example =
    broadcast-living quiet_transport answers quiet_transport-Undisturbed "alert" (1 ∷ 12 ∷ 3 ∷ [])

-- a browser connects while the first send waits
abbrev busy_transport : Transport String (List ℕ)
busy_transport = record quiet_transport { send_json = λ ws p w. (ok tt, w ++ 7 ∷ []) }

broadcast_interrupted_example :
    broadcast busy_transport "alert" (1 ∷ 2 ∷ [])
    ≡ (err (runtime_error "Set changed size during iteration"), 1 ∷ 2 ∷ 7 ∷ [])
broadcast_interrupted_example =
    broadcast_interrupted busy_transport "alert" (1 ∷ 2 ∷ []) (1 ∷ 2 ∷ 7 ∷ []) 1 (2 ∷ []) (ok tt)
      refl refl (λ h. cc h) (λ h. cc h)

cents-ReadsBack : ReadsBack cents research "acct_1" "victor krantz holdings"
unfolding history_result generate_entity_graph check_sanctions_list
cents-ReadsBack = record { history = refl; graph = refl; screen = refl }

abbrev counted : ℕ → String × ℕ
counted w = (tally w, suc w)

replay_investigation_example :
    run_investigator cents research
      (replay_provider cents counted)
      prompts
      "sonnet"
      payment
      (record {
        fraud_likelihood = 90;
        category = "sanctions";
        escalate = true;
        reasoning = "watchlist";
      })
      (pos 60)
      0
    ≡ (
      ok (
        researched cents counted research prompts "sonnet" payment
            (record {
              fraud_likelihood = 90;
              category = "sanctions";
              escalate = true;
              reasoning = "watchlist";
            })
            (pos 60),
        scripted cents "acct_1" 20000 "EUR"
            (pos 60)
            (found cents research "acct_1" "victor krantz holdings"),
      ),
      4,
    )
replay_investigation_example =
    replay_investigation cents counted research prompts "sonnet" payment
      (record {
        fraud_likelihood = 90;
        category = "sanctions";
        escalate = true;
        reasoning = "watchlist";
      })
      (pos 60) cents-ReadsBack cents-Validates refl 0
