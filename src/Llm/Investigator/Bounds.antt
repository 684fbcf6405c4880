-- ===== src/Llm/Investigator/Bounds.antt =====
-- What the investigator returns, whatever the model answers.
use vaultwatch.Base.{ℕ, zero, suc, ◌≡◌, refl, List, [], ◌∷◌, String, ◌++◌}
use vaultwatch.Base.Int.{ℤ}
use vaultwatch.Base.Exec.{Result, ok, err, Exec, runtime_error, continue, lift, pure, raise, ◌>>=◌}
use vaultwatch.Base.Exec.Ends.{Ends}
use vaultwatch.Runtime.{Runtime}
use vaultwatch.Models.{Transaction, TriageVerdict, CaseFile}
use vaultwatch.Llm.{
  ModelProvider, Request, Message, user_text, assistant_tools, tool_results, ToolEvent,
}
use vaultwatch.Llm.Agents.{Prompts}
use vaultwatch.Llm.Tools.{Research}
use vaultwatch.Llm.Verdicts.{case_file}
use vaultwatch.Base.Exec.Results.{Yields-ok}
use vaultwatch.Llm.Verdicts.Fields.{InRange, case_file-InRange}
use vaultwatch.Llm.Investigator.{
  Reaction, react, emits, stops, calls, investigate, run_tools, run_investigator,
  investigation_request, max_turns,
}

module _ (rt : Runtime) {W : Type 0} where
  open rt use {Num}

  -- A validated case, if the run returns.
  abbrev Found : Result (List (ToolEvent Num) × CaseFile) × W → Type 0
  Found = Ends (λ ran _. InRange ran.1) (λ _ _. Unit)

  module _ {A B : Type 0} {Q : B → W → Type 0} where
    after_any :
        (m : Result A × W) (f : A → Exec W B)
        → ((a : A) (w : W) → m.0 ≡ ok a → Ends Q (λ _ _. Unit) (f a w))
        → Ends Q (λ _ _. Unit) (continue f m)
    after_any (ok a, w) f k = k a w refl
    after_any (err e, w) f k = record { at = tt }

  module _ (research : Research Num) (provider : ModelProvider Num W)
      (request : List (Message Num) → Request Num) where
    -- what the loop does after a response
    abbrev pub reacted :
        ℕ
        → List (Message Num)
        → List (ToolEvent Num)
        → Reaction Num
        → Exec W (List (ToolEvent Num) × CaseFile)
    reacted turns messages told r = elim r [
      | emits input ↦ (do case ← lift (case_file rt input); pure (told, case))
      | stops ↦
          raise (runtime_error "InvestigatorAgent: exceeded max turns without emitting a case file")
      | calls cs ↦ (do
        ran ← lift (run_tools rt research cs)
        investigate rt research provider request turns
            (messages ++ assistant_tools cs ∷ tool_results ran.1 ∷ []) (told ++ ran.0))
    ]

    reacted-Found :
        (turns : ℕ) (messages : List (Message Num)) (told : List (ToolEvent Num)) (r : Reaction Num)
        (w : W)
        → ((messages : List (Message Num)) (told : List (ToolEvent Num)) (w : W)
            → Found (investigate rt research provider request turns messages told w))
        → Found (reacted turns messages told r w)
    reacted-Found turns messages told (emits input) w next =
        after_any (case_file rt input, w) _
          λ c w' e. record { at = Yields-ok (case_file-InRange rt input) e }
    reacted-Found turns messages told stops w next = record { at = tt }
    reacted-Found turns messages told (calls cs) w next =
        after_any (run_tools rt research cs, w) _ λ ran w' _. next _ _ w'

    investigate-Found :
        (turns : ℕ) (messages : List (Message Num)) (told : List (ToolEvent Num)) (w : W)
        → Found (investigate rt research provider request turns messages told w)
    unfolding investigate
    investigate-Found zero messages told w = record { at = tt }
    investigate-Found (suc turns) messages told w =
        after_any (provider.complete (request messages) w)
          (λ response. reacted turns messages told (react response))
          λ response w' _.
            reacted-Found turns messages told (react response) w' (investigate-Found turns)

  module _ (research : Research Num) (provider : ModelProvider Num W) where
    -- Whatever the model answers, a case that the investigator returns has from 0 to 100 points.
    pub run_investigator-InRange :
        (prompts : Prompts Num) (model : String) (tx : Transaction Num) (triage : TriageVerdict Num)
        (rules_score : ℤ) (w : W)
        → Ends
            (λ ran _. InRange ran.1)
            (λ _ _. Unit)
            (run_investigator rt research provider prompts model tx triage rules_score w)
    unfolding run_investigator
    run_investigator-InRange prompts model tx triage rules_score w =
        investigate-Found research provider
          (investigation_request rt research provider prompts model tx triage rules_score) max_turns
          (user_text (prompts.investigator_user tx triage) ∷ []) [] w
