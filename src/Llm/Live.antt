-- ===== src/Llm/Live.antt =====
-- `AnthropicProvider` of agents-python/app/llm/provider.py over Anthropic's SDK, a parameter.
use vaultwatch.Base.{ℕ, String, ◌<>◌, true, Option, none, some, List, [], ◌∷◌}
use vaultwatch.Base.Exec.{Exec, pure, ◌>>=◌}
use vaultwatch.Llm.{ToolCall, Message, ModelProvider}

-- a block of a response's content
pub data Block (N : Type 0) : Type 0 where
  text_block : String → Block N
  tool_use_block : ToolCall N → Block N
  other_block : Block N

-- the arguments of `messages.create`
pub record Creation (N : Type 0) : Type 0 where
  pub model : String
  pub max_tokens : ℕ
  pub system : String
  pub messages : List (Message N)
  pub tools : Option (List String)
  pub tool_choice : Option String

-- `create` answers with the content and the stop reason.
pub record Client (N W : Type 0) : Type 0 where
  pub create : Creation N → Exec W (List (Block N) × String)

-- `if tools: kwargs["tools"] = tools`
if_any : List String → Option (List String)
if_any [] = none
if_any (t ∷ ts) = some (t ∷ ts)

module _ {N : Type 0} where
  unfoldable pub text_of : List (Block N) → String
  text_of [] = ""
  text_of (text_block t ∷ bs) = t <> text_of bs
  text_of (tool_use_block _ ∷ bs) = text_of bs
  text_of (other_block ∷ bs) = text_of bs

  unfoldable pub calls_of : List (Block N) → List (ToolCall N)
  calls_of [] = []
  calls_of (text_block _ ∷ bs) = calls_of bs
  calls_of (tool_use_block c ∷ bs) = c ∷ calls_of bs
  calls_of (other_block ∷ bs) = calls_of bs

  unfoldable pub anthropic_provider : {W : Type 0} → Client N W → ModelProvider N W
  unfolding if_any text_of calls_of
  anthropic_provider client = record {
    is_live = true;
    complete = λ r. do
      response ← client.create (record {
        model = r.model;
        max_tokens = 1536;
        system = r.system;
        messages = r.messages;
        tools = if_any r.tools;
        tool_choice = r.tool_choice;
      })
      pure (record {
        text = text_of response.0;
        tool_calls = calls_of response.0;
        stop_reason = response.1;
      });
  }
