-- ===== src/Config/Modes.antt =====
-- Which mode the service runs in.
use vaultwatch.Base.{
  String, ◌≡◌, ◌≢◌, ◌↔◌, ◌⊎◌, refl, sym, ap, Bool, true, false, Option, none, some, ◌==◌,
  if◌then◌else◌, arith, eq_iff,
}
use vaultwatch.Base.Int.{ℤ, pos}
use vaultwatch.Llm.{ModelProvider}
use vaultwatch.Base.Exec.Results.{◌>>=◌}
use vaultwatch.Base.Exec.{Exc, Result, ok, err, value_error}
use vaultwatch.Runtime.{Runtime}
use vaultwatch.Llm.Live.{Client, anthropic_provider}
use vaultwatch.Llm.Replay.{replay_provider}
use vaultwatch.Config.{
  Settings, default, or_none, is_set, load_settings, use_live_models, live_provider, get_provider,
}

-- A mode and a key that ask for the live models: the mode "live", or a key that is not empty and no
-- mode "replay".
abbrev pub HasKey : Option String → Type 0
HasKey none = ⊥
HasKey (some k) = k ≢ ""

abbrev pub AsksLive : Option String → Option String → Type 0
AsksLive mode key = (mode ≡ some "live") ⊎ ((mode ≢ some "replay") × HasKey key)

-- `use_live_models` of a mode and a key
abbrev lives : String → Option String → Bool
lives mode key = if mode == "live" then true else if mode == "replay" then false else is_set key

asks_live :
    (mode key : Option String)
    → (lives (default mode "auto") (or_none key) ≡ true) ↔ AsksLive mode key
asks_live none none = ground arith
asks_live none (some k) = ground (arith, eq_iff k "")
asks_live (some m) none = ground (arith, eq_iff m "live", eq_iff m "replay")
asks_live (some m) (some k) = ground (arith, eq_iff m "live", eq_iff m "replay", eq_iff k "")

ok-injective : {A : Type 0} {a b : A} → ok a ≡ ok b → a ≡ b
ok-injective {A} {a} {b} h = ap (λ r. elim r [ ok x ↦ x | err _ ↦ a ]) h

abbrev settings_at : Settings → Option ℤ → Result Settings
settings_at s₀ o = elim o [
  | none ↦ err (value_error "invalid literal for int()")
  | some port ↦ ok (record s₀ { port = port })
]

loaded_at :
    (s₀ s : Settings) (o : Option ℤ)
    → settings_at s₀ o ≡ ok s
    → (s.mode ≡ s₀.mode) × (s.anthropic_api_key ≡ s₀.anthropic_api_key)
loaded_at s₀ s none h = cc
loaded_at s₀ s (some port) h =
    let same = ok-injective h in
    (ap (λ x. x.mode) (sym same), ap (λ x. x.anthropic_api_key) (sym same))

-- the settings of an environment, but for the port
abbrev settings_of : (String → Option String) → Settings
settings_of getenv = record {
  mode = default (getenv "MODE") "auto";
  anthropic_api_key = or_none (getenv "ANTHROPIC_API_KEY");
  engine_rust_url = default (getenv "ENGINE_RUST_URL") "http://localhost:8081";
  redis_url = default (getenv "REDIS_URL") "redis://localhost:6379/0";
  database_url = or_none (getenv "DATABASE_URL");
  port = pos 0;
  haiku_model = default (getenv "HAIKU_MODEL") "claude-haiku-4-5-20251001";
  sonnet_model = default (getenv "SONNET_MODEL") "claude-sonnet-5";
}

module _ (rt : Runtime) {W : Type 0} (client : Option String → Result (Client rt.Num W))
    (uuid : W → String × W) where
  open rt use {Num}

  -- How a provider is chosen: by a client of the key where live models are asked for, and the replay
  -- otherwise.
  pub data IsChosen (mode key : Option String) (r : Result (ModelProvider Num W)) : Type 0 where
    live :
        AsksLive mode key
        → (c : Client Num W) → client (or_none key) ≡ ok c
        → r ≡ ok (anthropic_provider c)
        → IsChosen mode key r
    raised :
        AsksLive mode key
        → (e : Exc) → client (or_none key) ≡ err e
        → r ≡ err e
        → IsChosen mode key r
    replayed : ¬ AsksLive mode key → r ≡ ok (replay_provider rt uuid) → IsChosen mode key r

  connected :
      (mode key : Option String)
      → AsksLive mode key
      → (m : Result (Client Num W)) → client (or_none key) ≡ m
      → IsChosen mode key (m >>= λ c. ok (anthropic_provider c))
  connected mode key asks (ok c) h = live asks c h refl
  connected mode key asks (err e) h = raised asks e h refl

  chosen :
      (mode key : Option String) (b : Bool)
      → lives (default mode "auto") (or_none key) ≡ b
      → IsChosen mode key
          (if b then live_provider client (or_none key) else ok (replay_provider rt uuid))
  unfolding live_provider
  chosen mode key true h = connected mode key ((asks_live mode key).0 h) (client (or_none key)) refl
  chosen mode key false h =
      replayed (λ asks. let never : ⊥ = cc (h, (asks_live mode key).1 asks) in never) refl

  -- The service that starts with the settings of an environment has a live provider if the environment
  -- asks for live models, that is if its mode is "live", or if there is a key that is not empty and
  -- the mode is not "replay"; it has the replay provider otherwise. The live provider is of the client
  -- that the SDK makes of the key, or of no key where it is unset or empty, and a start raises what that
  -- client raises: with the mode "live" and no key, the service itself raises nothing.
  pub provider_mode :
      (getenv : String → Option String) (to_int : String → Option ℤ) (s : Settings)
      → load_settings getenv to_int ≡ ok s
      → IsChosen
          (getenv "MODE")
          (getenv "ANTHROPIC_API_KEY")
          (get_provider (live_provider client) (replay_provider rt uuid) s)
  unfolding load_settings get_provider use_live_models
  provider_mode getenv to_int s loaded =
      let same =
        loaded_at (settings_of getenv) s (to_int (default (getenv "PORT") "8000")) loaded in
      rw (same.0, same.1) (chosen (getenv "MODE") (getenv "ANTHROPIC_API_KEY") _ refl)
