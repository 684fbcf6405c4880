-- ===== src/Llm/Replay.antt =====
-- `ReplayProvider` of agents-python/app/llm/provider.py: it reads back from the conversation which
-- tool gave which result, and answers with the scripted step of the turn.
pub mod Investigation
use vaultwatch.Base.{
  ℕ, suc, ◌-◌, String, ◌<>◌, false, Option, none, some, List, [], ◌∷◌, ◌==◌, min, length, truthy,
  get_elem?, if◌then◌else◌,
}
use vaultwatch.Base.Exec.{Exec, Result, ok, err, value_error, other_exception}
use vaultwatch.Base.Exec.Results.{◌>>=◌}
use vaultwatch.Runtime.{Runtime}
use vaultwatch.Models.Values.{Json, Dict, empty, put}
use vaultwatch.Llm.{
  ToolCall, ModelResponse, ToolResult, Message, user_text, assistant_tools, tool_results, Request,
  no_replay, triage_replay, investigation_replay, compliance_replay, ModelProvider,
}
use vaultwatch.Llm.Transcripts.{
  Step, tool, plain, investigation_steps, triage_step, compliance_step,
}

module _ {N : Type 0} where
  -- `sum(1 for m in messages if m.get("role") == "assistant")`
  unfoldable pub turns : List (Message N) → ℕ
  turns [] = 0
  turns (assistant_tools _ ∷ ms) = suc (turns ms)
  turns (user_text _ ∷ ms) = turns ms
  turns (tool_results _ ∷ ms) = turns ms

  -- `names[block["id"]] = block["name"]`; the latest entry of an id stands first
  unfoldable pub add_names : List (ToolCall N) → List (String × String) → List (String × String)
  add_names [] names = names
  add_names (c ∷ cs) names = add_names cs ((c.id, c.name) ∷ names)

unfoldable pub name_of : String → List (String × String) → Option String
name_of id [] = none
name_of id ((j, name) ∷ names) = if j == id then some name else name_of id names

module _ (rt : Runtime) where
  open rt use {Num}

  decoded : String → Result (Json Num)
  decoded content = elim (rt.loads content) [
    | none ↦ err (value_error "JSONDecodeError")
    | some v ↦ ok v
  ]

  -- `if name: evidence[name] = json.loads(block["content"])`
  note_result : List (String × String) → ToolResult → Dict Num → Result (Dict Num)
  unfolding name_of decoded put
  note_result names block evidence = elim (name_of block.tool_use_id names) [
    | none ↦ ok evidence
    | some name ↦
        if truthy name
        then (do v ← decoded block.content; ok (put name v evidence))
        else ok evidence
  ]

  note_results : List (String × String) → List ToolResult → Dict Num → Result (Dict Num)
  unfolding note_result
  note_results names [] evidence = ok evidence
  note_results names (block ∷ blocks) evidence =
      note_result names block evidence >>= note_results names blocks

  unfoldable pub gather : List (Message Num) → List (String × String) → Dict Num → Result (Dict Num)
  unfolding note_results add_names
  gather [] names evidence = ok evidence
  gather (user_text _ ∷ ms) names evidence = gather ms names evidence
  gather (assistant_tools calls ∷ ms) names evidence = gather ms (add_names calls names) evidence
  gather (tool_results blocks ∷ ms) names evidence =
      note_results names blocks evidence >>= gather ms names

  -- `steps[min(turn, len(steps) - 1)]`
  unfoldable pub step_at : ℕ → List (Step Num) → Result (Step Num)
  step_at turn steps = elim (get_elem? steps (min turn (length steps - 1))) [
    | none ↦ err (other_exception "IndexError")
    | some step ↦ ok step
  ]

  unfoldable pub replay_step : Request Num → Result (Step Num)
  unfolding gather step_at turns investigation_steps triage_step compliance_step
  replay_step r = elim r.replay [
    | triage_replay rules prefilter ↦ triage_step rt r.replay_scenario rules prefilter
    | investigation_replay account beneficiary amount currency rules_score ↦ (do
      evidence ← gather r.messages [] empty
      steps ←
          investigation_steps rt r.replay_scenario account beneficiary evidence amount currency
            rules_score
      step_at (turns r.messages) steps)
    | compliance_replay account summary evidence ↦ ok (compliance_step rt summary evidence)
    | no_replay ↦ ok (plain "[replay mode: no script configured for this agent]")
  ]

  -- `uuid` gives `uuid4().hex[:8]`
  module _ {W : Type 0} (uuid : W → String × W) where
    unfoldable pub step_to_response : Result (Step Num) → Exec W (ModelResponse Num)
    step_to_response (ok (tool name input)) w =
        let (id, w') = uuid w in
        (
          ok (record {
            text = "";
            tool_calls = record { id = "replay_" <> id; name = name; input = input } ∷ [];
            stop_reason = "tool_use";
          }),
          w',
        )
    step_to_response (ok (plain t)) w =
        (ok (record { text = t; tool_calls = []; stop_reason = "end_turn" }), w)
    step_to_response (err e) w = (err e, w)

    abbrev pub replay_provider : ModelProvider Num W
    replay_provider = record { is_live = false; complete = λ r. step_to_response (replay_step r) }
