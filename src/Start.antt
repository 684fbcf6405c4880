-- ===== src/Start.antt =====
-- The start of the service, `lifespan` of agents-python/app/main.py up to its `yield`: what an
-- orchestrator is built from. What the service is given by its platform is a parameter.
use vaultwatch.Base.{ℕ, String, Bool, false, Option, none, some, List, ◌==◌, if◌then◌else◌}
use vaultwatch.Base.Exec.{Result, Exec, pure, lift, ◌>>=◌}
use vaultwatch.Runtime.{Runtime}
use vaultwatch.Models.Values.{Dict}
use vaultwatch.CaseRecord.{CaseEvent}
use vaultwatch.CaseRecord.Dump.{event_dict}
use vaultwatch.CaseStore.Postgres.{CaseStore}
use vaultwatch.Clients.{Http, audit_client, score}
use vaultwatch.Config.{Settings, is_set, default, live_provider, get_provider}
use vaultwatch.Connections.{Transport, broadcast}
use vaultwatch.Llm.{ModelProvider}
use vaultwatch.Llm.Live.{Client}
use vaultwatch.Llm.Prompts.{agent_prompts}
use vaultwatch.Llm.Tools.{Research}
use vaultwatch.Models.{ScoringContext}
use vaultwatch.Orchestrator.Wiring.{Services}
use vaultwatch.Prefilter.{Statistics, AnomalyPreFilter, fit}
use vaultwatch.Prefilter as Prefilter
use vaultwatch.SecurityFeed.{Buckets}

-- `connect` is `PostgresCaseStore.connect`, `memory` an `InMemoryCaseStore()`, `baseline` what
-- `generate_baseline_features()` gives, and `untrained` the forest of a new prefilter. An event is sent
-- to the browsers as its JSON.
pub record Platform (rt : Runtime) (st : Statistics rt.Num) (W R S : Type 0) : Type 1 where
  pub clock : W → ℕ × W
  pub iso_json : ℕ → String
  pub iso : ℕ → String
  pub getenv : String → Option String
  pub lower : String → String
  pub engine : Http rt.Num W
  pub client : Option String → Result (Client rt.Num W)
  pub replay : ModelProvider rt.Num W
  pub baseline : List (List rt.Num)
  pub untrained : st.Model
  pub connect : String → Exec W (CaseStore W R S)
  pub memory : CaseStore W R S
  pub transport : Transport (Dict rt.Num) W
  pub security : W → Buckets rt.Num
  pub build_scoring_context : String → rt.Num → Exec W (ScoringContext rt.Num)
  pub research : Research rt.Num

-- what `lifespan` leaves in `state`, and whether it starts the loop that makes up transactions
pub record Started (N W R S : Type 0) : Type 0 where
  pub services : Services N W
  pub store : CaseStore W R S
  pub makes_up : Bool

module _ (rt : Runtime) (st : Statistics rt.Num) {W R S : Type 0}
    (platform : Platform rt st W R S) where
  open rt use {Num}
  open platform use {iso_json, iso, getenv}

  -- `AnomalyPreFilter()`, `prefilter.fit()`
  unfoldable pub fitted_prefilter : AnomalyPreFilter rt st
  unfolding fit
  fitted_prefilter =
      fit rt st platform.baseline none (record { model = platform.untrained; fitted = false })

  -- `broadcast_event`
  unfoldable pub broadcast_event : CaseEvent Num → Exec W Unit
  broadcast_event event = broadcast platform.transport (event_dict iso_json iso event)

  unfoldable pub orchestrator : ModelProvider Num W → Settings → Services Num W
  orchestrator provider settings = record {
    clock = platform.clock;
    audit = some (audit_client iso_json iso platform.engine);
    score = score rt iso_json iso platform.engine settings.engine_rust_url;
    prefilter = λ tx ctx. lift (Prefilter.score rt st fitted_prefilter tx ctx);
    provider = provider;
    sink = some broadcast_event;
    security = platform.security;
    build_scoring_context = platform.build_scoring_context;
    prompts = agent_prompts rt;
    research = platform.research;
    haiku_model = settings.haiku_model;
    sonnet_model = settings.sonnet_model;
  }

  unfoldable pub open_store : Option String → Exec W (CaseStore W R S)
  open_store none = pure platform.memory
  open_store (some url) = if is_set (some url) then platform.connect url else pure platform.memory

  unfoldable pub lifespan : Settings → Exec W (Started Num W R S)
  unfolding orchestrator
  lifespan settings = do
    provider ← lift (get_provider (live_provider platform.client) platform.replay settings)
    store ← open_store settings.database_url
    pure (record {
      services = orchestrator provider settings;
      store = store;
      makes_up = platform.lower (default (getenv "AUTO_GENERATE") "true") == "true";
    })
