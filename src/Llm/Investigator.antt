-- ===== src/Llm/Investigator.antt =====
-- agents-python/app/llm/investigator_agent.py: the bounded loop of requests and tool calls. The
-- events that the observer is told of are returned beside the case file.
pub mod Bounds
pub mod Turns
use vaultwatch.Base.{
  ℕ, zero, suc, String, Option, none, some, List, [], ◌∷◌, ◌++◌, truthy, if◌then◌else◌,
}
use vaultwatch.Base.Int.{ℤ}
use vaultwatch.Base.Exec.{Exec, Result, ok, err, runtime_error, pure, raise, lift, ◌>>=◌}
use vaultwatch.Runtime.{Runtime}
use vaultwatch.Models.{Transaction, TriageVerdict, CaseFile}
use vaultwatch.Models.Values.{Dict}
use vaultwatch.Llm.{
  ToolCall, ModelResponse, ToolResult, Message, user_text, assistant_tools, tool_results, Request,
  investigation_replay, ModelProvider, ToolEvent, find_call,
}
use vaultwatch.Llm.Agents.{Prompts}
use vaultwatch.Llm.Verdicts.{case_file}
use vaultwatch.Llm.Tools.{Research, execute_research_tool}

-- `MAX_TURNS`
abbrev pub max_turns : ℕ
max_turns = 6

-- `name or "Unspecified demo beneficiary"`
abbrev pub named : Option String → String
named none = "Unspecified demo beneficiary"
named (some s) = if truthy s then s else "Unspecified demo beneficiary"

-- what a response leads to: a case file, the end of the loop, or tool calls to make
pub data Reaction (N : Type 0) : Type 0 where
  emits : Dict N → Reaction N
  stops : Reaction N
  calls : List (ToolCall N) → Reaction N

unfoldable pub react : {N : Type 0} → ModelResponse N → Reaction N
unfolding find_call
react response = elim (find_call "emit_case_file" response.tool_calls) [
  | some call ↦ emits call.input
  | none ↦ elim response.tool_calls [ [] ↦ stops | c ∷ cs ↦ calls (c ∷ cs) ]
]

module _ (rt : Runtime) where
  open rt use {Num}

  abbrev Ran : Type 0
  Ran = List (ToolEvent Num) × List ToolResult

  and_ran : ToolEvent Num → ToolResult → Result Ran → Result Ran
  and_ran event result (ok (events, results)) = ok (event ∷ events, result ∷ results)
  and_ran event result (err e) = err e

  -- the calls of one turn: what the observer is told, and the results for the conversation
  unfoldable pub run_tools :
      Research Num → List (ToolCall Num) → Result (List (ToolEvent Num) × List ToolResult)
  unfolding execute_research_tool and_ran
  run_tools research [] = ok ([], [])
  run_tools research (c ∷ cs) =
      let rest = run_tools research cs in
      elim (execute_research_tool rt research c.name c.input) [
        | err e ↦ err e
        | ok result ↦
            and_ran (record { name = c.name; input = c.input; result = result })
              (record { tool_use_id = c.id; content = rt.dumps result }) rest
      ]

  module _ {W : Type 0} (research : Research Num) (provider : ModelProvider Num W) where
    abbrev exhausted : Exec W (List (ToolEvent Num) × CaseFile)
    exhausted =
        raise (runtime_error "InvestigatorAgent: exceeded max turns without emitting a case file")

    -- `request` is the call's arguments but for the messages
    unfoldable pub investigate :
        (List (Message Num) → Request Num)
        → ℕ
        → List (Message Num)
        → List (ToolEvent Num)
        → Exec W (List (ToolEvent Num) × CaseFile)
    unfolding react run_tools case_file
    investigate request zero messages told = exhausted
    investigate request (suc turns) messages told = do
      response ← provider.complete (request messages)
      elim (react response) [
        | emits input ↦ (do case ← lift (case_file rt input); pure (told, case))
        | stops ↦ exhausted
        | calls cs ↦ (do
          ran ← lift (run_tools research cs)
          investigate request turns (messages ++ assistant_tools cs ∷ tool_results ran.1 ∷ [])
              (told ++ ran.0))
      ]

    unfoldable pub investigation_request :
        Prompts Num
        → String
        → Transaction Num
        → TriageVerdict Num
        → ℤ
        → List (Message Num)
        → Request Num
    investigation_request prompts model tx triage rules_score messages = record {
      model = model;
      system = prompts.investigator_system;
      messages = messages;
      tools =
          "get_transaction_history" ∷ "get_entity_graph" ∷ "check_sanctions_list" ∷ "emit_case_file"
          ∷ [];
      tool_choice = none;
      replay_scenario = if rt.le (rt.decimal 5 1) triage.fraud_likelihood then "high" else "low";
      replay =
          investigation_replay tx.account_id (named tx.beneficiary_name) tx.amount tx.currency
            rules_score;
    }

    unfoldable pub run_investigator :
        Prompts Num
        → String
        → Transaction Num
        → TriageVerdict Num
        → ℤ
        → Exec W (List (ToolEvent Num) × CaseFile)
    unfolding investigate investigation_request
    run_investigator prompts model tx triage rules_score =
        investigate (investigation_request prompts model tx triage rules_score) max_turns
          (user_text (prompts.investigator_user tx triage) ∷ []) []
