-- ===== src/Llm/Investigator/Turns.antt =====
-- The turns of the investigator's loop: one that calls a tool, and the one that ends it.
use vaultwatch.Base.{ℕ, suc, ◌≡◌, ap, ◌∙◌, String, List, [], ◌∷◌, ◌++◌}
use vaultwatch.Base.Exec.{ok, err, continue, pure}
use vaultwatch.Runtime.{Runtime}
use vaultwatch.Models.{CaseFile}
use vaultwatch.Models.Values.{Dict}
use vaultwatch.Llm.{
  ToolCall, ModelResponse, Message, assistant_tools, tool_results, Request, ModelProvider,
  ToolEvent, find_call,
}
use vaultwatch.Llm.Tools.{Research, execute_research_tool}
use vaultwatch.Llm.Verdicts.{case_file}
use vaultwatch.Llm.Investigator.{calls, react, and_ran, run_tools, investigate}
use vaultwatch.Llm.Investigator.Bounds.{reacted}

-- a response of one call
abbrev pub answer : {N : Type 0} → String → String → Dict N → ModelResponse N
answer id name input = record {
  text = "";
  tool_calls = record { id = id; name = name; input = input } ∷ [];
  stop_reason = "tool_use";
}

-- what a tool's turn adds to the conversation
abbrev pub exchange :
    (rt : Runtime) → String → String → Dict rt.Num → Dict rt.Num → List (Message rt.Num)
exchange rt id name input result =
    assistant_tools (record { id = id; name = name; input = input } ∷ [])
    ∷ tool_results (record { tool_use_id = id; content = rt.dumps result } ∷ [])
    ∷ []

module _ (rt : Runtime) {W : Type 0} (research : Research rt.Num)
    (provider : ModelProvider rt.Num W) (request : List (Message rt.Num) → Request rt.Num) where
  open rt use {Num}

  run_one :
      (c : ToolCall Num) (result : Dict Num)
      → execute_research_tool rt research c.name c.input ≡ ok result
      → run_tools rt research (c ∷ [])
        ≡ ok (
          record { name = c.name; input = c.input; result = result } ∷ [],
          record { tool_use_id = c.id; content = rt.dumps result } ∷ [],
        )
  unfolding run_tools and_ran
  run_one c result e =
      ap
        (λ r. elim r [
          | err e ↦ err e
          | ok result ↦
              and_ran rt (record { name = c.name; input = c.input; result = result })
                (record { tool_use_id = c.id; content = rt.dumps result }) (ok ([], []))
        ])
        e

  pub tool_turn :
      (id name : String) (input result : Dict Num) (n : ℕ) (messages : List (Message Num))
      (told : List (ToolEvent Num)) (w w' : W)
      → react (answer id name input) ≡ calls (record { id = id; name = name; input = input } ∷ [])
      → execute_research_tool rt research name input ≡ ok result
      → provider.complete (request messages) w ≡ (ok (answer id name input), w')
      → investigate rt research provider request (suc n) messages told w
        ≡ investigate rt research provider request n
            (messages ++ exchange rt id name input result)
            (told ++ record { name = name; input = input; result = result } ∷ [])
            w'
  unfolding investigate
  tool_turn id name input result n messages told w w' calling ran answered =
      ap
        (continue
          (λ response. reacted rt research provider request n messages told (react response)))
        answered
      ∙ ap (λ r. reacted rt research provider request n messages told r w') calling
      ∙ ap
          (λ r.
            continue
              (λ ran.
                investigate rt research provider request n
                  (messages
                    ++ assistant_tools (record { id = id; name = name; input = input } ∷ [])
                      ∷ tool_results ran.1
                      ∷ [])
                  (told ++ ran.0))
              (r, w'))
          (run_one (record { id = id; name = name; input = input }) result ran)

  pub case_turn :
      (id : String) (input : Dict Num) (case : CaseFile) (n : ℕ) (messages : List (Message Num))
      (told : List (ToolEvent Num)) (w w' : W)
      → case_file rt input ≡ ok case
      → provider.complete (request messages) w ≡ (ok (answer id "emit_case_file" input), w')
      → investigate rt research provider request (suc n) messages told w ≡ (ok (told, case), w')
  unfolding investigate react find_call
  case_turn id input case n messages told w w' valid answered =
      ap
        (continue
          (λ response. reacted rt research provider request n messages told (react response)))
        answered
      ∙ ap (λ r. continue (λ case. pure (told, case)) (r, w')) valid
