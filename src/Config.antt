-- ===== src/Config.antt =====
-- agents-python/app/config.py, and `get_provider` of agents-python/app/llm/provider.py: which model
-- provider the environment asks for.
pub mod Modes
use vaultwatch.Base.{ℕ, String, Bool, true, false, Option, none, some, ◌==◌, truthy, if◌then◌else◌}
use vaultwatch.Base.Exec.{Result, ok, err, value_error}
use vaultwatch.Base.Int.{ℤ}
use vaultwatch.Base.Exec.Results.{◌>>=◌}
use vaultwatch.Llm.{ModelProvider}
use vaultwatch.Llm.Live.{Client, anthropic_provider}

pub record Settings : Type 0 where
  pub mode : String
  pub anthropic_api_key : Option String
  pub engine_rust_url : String
  pub redis_url : String
  pub database_url : Option String
  pub port : ℤ
  pub haiku_model : String
  pub sonnet_model : String

-- `bool(x)` of an optional text
abbrev pub is_set : Option String → Bool
is_set none = false
is_set (some s) = truthy s

unfoldable pub use_live_models : Settings → Bool
use_live_models s =
    if s.mode == "live"
    then true
    else if s.mode == "replay"
    then false
    else is_set s.anthropic_api_key

-- `os.getenv(k, d)`
abbrev pub default : Option String → String → String
default none d = d
default (some s) _ = s

-- `os.getenv(k) or None`
abbrev pub or_none : Option String → Option String
or_none none = none
or_none (some s) = if truthy s then some s else none

-- `getenv` is the environment, and `to_int` is `int` of a text, a `ValueError` if it is no number.
module _ (getenv : String → Option String) (to_int : String → Option ℤ) where
  unfoldable pub load_settings : Result Settings
  load_settings = elim (to_int (default (getenv "PORT") "8000")) [
    | none ↦ err (value_error "invalid literal for int()")
    | some port ↦ ok (record {
      mode = default (getenv "MODE") "auto";
      anthropic_api_key = or_none (getenv "ANTHROPIC_API_KEY");
      engine_rust_url = default (getenv "ENGINE_RUST_URL") "http://localhost:8081";
      redis_url = default (getenv "REDIS_URL") "redis://localhost:6379/0";
      database_url = or_none (getenv "DATABASE_URL");
      port = port;
      haiku_model = default (getenv "HAIKU_MODEL") "claude-haiku-4-5-20251001";
      sonnet_model = default (getenv "SONNET_MODEL") "claude-sonnet-5";
    })
  ]

-- `AnthropicProvider(key)`. The client that the SDK makes of the key, or of none, is given, and what
-- making it raises is raised.
unfoldable pub live_provider :
    {N W : Type 0}
    → (Option String → Result (Client N W))
    → Option String
    → Result (ModelProvider N W)
live_provider client key = client key >>= λ c. ok (anthropic_provider c)

-- `AnthropicProvider(key)`, which may raise, and `ReplayProvider()` are given.
unfoldable pub get_provider :
    {N W : Type 0}
    → (Option String → Result (ModelProvider N W))
    → ModelProvider N W
    → Settings
    → Result (ModelProvider N W)
unfolding use_live_models
get_provider live replay settings =
    if use_live_models settings then live settings.anthropic_api_key else ok replay
