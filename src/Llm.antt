-- ===== src/Llm.antt =====
-- agents-python/app/llm: the requests that the agents make of a `ModelProvider`, its answers, and
-- the names of the tools. The replay provider and the agents are in the child modules.
pub mod Verdicts
pub mod Tools
pub mod Schemas
pub mod Transcripts
pub mod Replay
pub mod Live
pub mod Agents
pub mod Prompts
pub mod Investigator
use vaultwatch.Base.{ℕ, String, Bool, Option, none, some, List, [], ◌∷◌, ◌==◌, if◌then◌else◌}
use vaultwatch.Base.Int.{ℤ}
use vaultwatch.Base.Exec.{Exec}
use vaultwatch.Models.{RuleEngineVerdict, PreFilterVerdict}
use vaultwatch.Models.Values.{Dict}

pub record ToolCall (N : Type 0) : Type 0 where
  pub id : String
  pub name : String
  pub input : Dict N

pub record ModelResponse (N : Type 0) : Type 0 where
  pub text : String
  pub tool_calls : List (ToolCall N)
  pub stop_reason : String

-- a `tool_result` block
pub record ToolResult : Type 0 where
  pub tool_use_id : String
  pub content : String

-- `{"role": …, "content": …}`: a text, the assistant's `tool_use` blocks, or their results
pub data Message (N : Type 0) : Type 0 where
  user_text : String → Message N
  assistant_tools : List (ToolCall N) → Message N
  tool_results : List ToolResult → Message N

-- `replay_family` with its `replay_vars`
pub data ReplayScript (N : Type 0) : Type 0 where
  no_replay : ReplayScript N
  triage_replay : RuleEngineVerdict N → PreFilterVerdict N → ReplayScript N
  investigation_replay : String → String → N → String → ℤ → ReplayScript N
  compliance_replay : String → String → List String → ReplayScript N

-- the keyword arguments of `complete`; a tool is named by its schema's name
pub record Request (N : Type 0) : Type 0 where
  pub model : String
  pub system : String
  pub messages : List (Message N)
  pub tools : List String
  pub tool_choice : Option String
  pub replay_scenario : String
  pub replay : ReplayScript N

pub record ModelProvider (N W : Type 0) : Type 0 where
  pub is_live : Bool
  pub complete : Request N → Exec W (ModelResponse N)

-- what the investigator's observer is told of one call
pub record ToolEvent (N : Type 0) : Type 0 where
  pub name : String
  pub input : Dict N
  pub result : Dict N

-- the first call of the named tool
unfoldable pub find_call : {N : Type 0} → String → List (ToolCall N) → Option (ToolCall N)
find_call name [] = none
find_call name (c ∷ cs) = if c.name == name then some c else find_call name cs
