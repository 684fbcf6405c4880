-- ===== src/Llm/Replay/Investigation.antt =====
-- The investigation in replay mode, from its first request to its case file.
use vaultwatch.Base.{
  ◌≡◌, refl, ap, ◌∙◌, String, ◌<>◌, true, none, some, List, [], ◌∷◌, ◌++◌, if◌then◌else◌, truthy,
  arith, eq_iff,
}
use vaultwatch.Base.Int.{ℤ}
use vaultwatch.Base.Exec.{ok, err, value_error}
use vaultwatch.Base.Exec.Results.{◌>>=◌}
use vaultwatch.Runtime.{Runtime, Validates}
use vaultwatch.Models.{Transaction, TriageVerdict}
use vaultwatch.Models.Values.{Json, Dict, obj, str, empty, entry, put}
use vaultwatch.Llm.{
  ToolCall, Message, Request, ToolEvent, find_call, user_text, assistant_tools, tool_results,
}
use vaultwatch.Llm.Transcripts.{Step, tool, Findings, findings, case_input, investigation_steps}
use vaultwatch.Llm.Transcripts.Evidence.{
  evidence₁, evidence₂, evidence₃, findings₀, findings₁, findings₂, findings₃, high_steps, found,
}
use vaultwatch.Llm.Transcripts.Scores.{scripted, scripted-valid}
use vaultwatch.Llm.Tools.{
  Research, execute_research_tool, history_result, generate_entity_graph, check_sanctions_list,
}
use vaultwatch.Llm.Replay.{
  turns, add_names, name_of, decoded, note_result, note_results, gather, step_at, replay_step,
  replay_provider, step_to_response,
}
use vaultwatch.Llm.Agents.{Prompts}
use vaultwatch.Llm.Investigator.{investigation_request, named, run_investigator, react}
use vaultwatch.Llm.Investigator.Turns.{answer, exchange, tool_turn, case_turn}

-- JSON reads back the results of the three research tools for an account and a name.
pub record ReadsBack (rt : Runtime) (research : Research rt.Num) (account name : String)
    : Type 0 where
  pub history :
      rt.loads (rt.dumps (history_result rt research account))
      ≡ some (obj (history_result rt research account))
  pub graph :
      rt.loads (rt.dumps (generate_entity_graph rt research account))
      ≡ some (obj (generate_entity_graph rt research account))
  pub screen :
      rt.loads (rt.dumps (check_sanctions_list rt name)) ≡ some (obj (check_sanctions_list rt name))

module _ (rt : Runtime) where
  open rt use {Num}

  name_of-head :
      (id name : String) (names : List (String × String))
      → name_of id ((id, name) ∷ names) ≡ some name
  unfolding name_of
  name_of-head id name names = ground (arith, eq_iff id id)

  decoded-eq :
      (content : String) (v : Json Num) → rt.loads content ≡ some v → decoded rt content ≡ ok v
  unfolding decoded
  decoded-eq content v e =
      ap (λ o. elim o [ none ↦ err (value_error "JSONDecodeError") | some v ↦ ok v ]) e

  -- a result is noted under the name of its call
  note_result-eq :
      (id name content : String) (v : Json Num) (names : List (String × String))
      (evidence : Dict Num)
      → truthy name ≡ true
      → rt.loads content ≡ some v
      → note_result rt
          ((id, name) ∷ names)
          (record { tool_use_id = id; content = content })
          evidence
        ≡ ok (put name v evidence)
  unfolding note_result
  note_result-eq id name content v names evidence named e =
      ap
        (λ o. elim o [
          | none ↦ ok evidence
          | some n ↦
              if truthy n then decoded rt content >>= (λ v. ok (put n v evidence)) else ok evidence
        ])
        (name_of-head id name names)
      ∙ ap (λ b. if b then decoded rt content >>= (λ v. ok (put name v evidence)) else ok evidence)
          named
      ∙ ap (λ r. r >>= λ v. ok (put name v evidence)) (decoded-eq content v e)

  gather-call :
      (c : ToolCall Num) (content : String) (v : Json Num) (rest : List (Message Num))
      (names : List (String × String)) (evidence : Dict Num)
      → truthy c.name ≡ true
      → rt.loads content ≡ some v
      → gather rt
          (assistant_tools (c ∷ [])
            ∷ tool_results (record { tool_use_id = c.id; content = content } ∷ [])
            ∷ rest)
          names
          evidence
        ≡ gather rt rest ((c.id, c.name) ∷ names) (put c.name v evidence)
  unfolding gather add_names note_results
  gather-call c content v rest names evidence named e =
      ap (λ r. (r >>= λ d. ok d) >>= gather rt rest ((c.id, c.name) ∷ names))
        (note_result-eq c.id c.name content v names evidence named e)

module _ (rt : Runtime) {W : Type 0} (uuid : W → String × W) (research : Research rt.Num)
    (prompts : Prompts rt.Num) (model : String) (tx : Transaction rt.Num)
    (triage : TriageVerdict rt.Num) (rules_score : ℤ) where
  open rt use {Num}

  abbrev request : List (Message Num) → Request Num
  request =
      investigation_request rt research (replay_provider rt uuid) prompts model tx triage
        rules_score

  abbrev name : String
  name = named tx.beneficiary_name

  -- the scripted answer to a conversation whose evidence is `evidence`
  replayed :
      (messages : List (Message Num)) (evidence : Dict Num) (f : Findings Num) (step : Step Num)
      → rt.le (rt.decimal 5 1) triage.fraud_likelihood ≡ true
      → gather rt messages [] empty ≡ ok evidence
      → findings rt evidence name ≡ ok f
      → step_at rt (turns messages) (
          tool "get_transaction_history" (entry "account_id" (str tx.account_id) empty)
          ∷ tool "get_entity_graph" (entry "account_id" (str tx.account_id) empty)
          ∷ tool "check_sanctions_list" (entry "name" (str name) empty)
          ∷ tool "emit_case_file" (case_input rt tx.account_id tx.amount tx.currency rules_score f)
          ∷ [])
        ≡ ok step
      → replay_step rt (request messages) ≡ ok step
  unfolding replay_step investigation_request
  replayed messages evidence f step high gathered seen at =
      ap
        (λ r. r >>= λ evidence.
          investigation_steps rt
            (if rt.le (rt.decimal 5 1) triage.fraud_likelihood then "high" else "low") tx.account_id
            name evidence tx.amount tx.currency rules_score
          >>= step_at rt (turns messages))
        gathered
      ∙ ap
          (λ b.
            investigation_steps rt (if b then "high" else "low") tx.account_id name evidence
              tx.amount tx.currency rules_score
            >>= step_at rt (turns messages))
          high
      ∙ ap (λ r. r >>= step_at rt (turns messages))
          (high_steps rt research tx.account_id name tx.amount tx.currency rules_score evidence f
            seen)
      ∙ at

  abbrev by_account : Dict Num
  by_account = entry "account_id" (str tx.account_id) empty

  abbrev by_name : Dict Num
  by_name = entry "name" (str name) empty

  abbrev id_at : W → String
  id_at w = "replay_" <> (uuid w).0

  abbrev next : W → W
  next w = (uuid w).1

  -- the conversation before each request, by the identifiers of the calls
  abbrev messages₀ : List (Message Num)
  messages₀ = user_text (prompts.investigator_user tx triage) ∷ []

  abbrev messages₁ : String → List (Message Num)
  messages₁ i =
      messages₀
      ++ exchange rt i "get_transaction_history" by_account
          (history_result rt research tx.account_id)

  abbrev messages₂ : String → String → List (Message Num)
  messages₂ i j =
      messages₁ i
      ++ exchange rt j "get_entity_graph" by_account
          (generate_entity_graph rt research tx.account_id)

  abbrev messages₃ : String → String → String → List (Message Num)
  messages₃ i j k =
      messages₂ i j ++ exchange rt k "check_sanctions_list" by_name (check_sanctions_list rt name)

  -- What the observer is told: the three research tools, each with its own result.
  abbrev pub researched : List (ToolEvent Num)
  researched =
      record {
        name = "get_transaction_history";
        input = by_account;
        result = history_result rt research tx.account_id;
      }
      ∷ record {
        name = "get_entity_graph";
        input = by_account;
        result = generate_entity_graph rt research tx.account_id;
      }
      ∷ record {
        name = "check_sanctions_list";
        input = by_name;
        result = check_sanctions_list rt name;
      }
      ∷ []

  -- the state after four requests
  abbrev pub after_requests : W → W
  after_requests w = next (next (next (next w)))

  said :
      (messages : List (Message Num)) (w : W) (called : String) (input : Dict Num)
      → replay_step rt (request messages) ≡ ok (tool called input)
      → (replay_provider rt uuid).complete (request messages) w
        ≡ (ok (answer (id_at w) called input), next w)
  unfolding step_to_response
  said messages w called input e = ap (λ r. step_to_response rt uuid r w) e

  module _ (reads : ReadsBack rt research tx.account_id name) where
    gathered₁ :
        (i : String) (rest : List (Message Num))
        → gather rt (messages₁ i ++ rest) [] empty
          ≡ gather rt rest
              ((i, "get_transaction_history") ∷ [])
              (evidence₁ rt research tx.account_id name)
    unfolding gather put
    gathered₁ i rest =
        gather-call rt (record { id = i; name = "get_transaction_history"; input = by_account })
          (rt.dumps (history_result rt research tx.account_id))
          (obj (history_result rt research tx.account_id)) rest [] empty refl reads.history

    gathered₂ :
        (i j : String) (rest : List (Message Num))
        → gather rt (messages₂ i j ++ rest) [] empty
          ≡ gather rt rest
              ((j, "get_entity_graph") ∷ (i, "get_transaction_history") ∷ [])
              (evidence₂ rt research tx.account_id name)
    unfolding put
    gathered₂ i j rest =
        gathered₁ i (
          exchange rt j "get_entity_graph" by_account
            (generate_entity_graph rt research tx.account_id)
          ++ rest)
        ∙ gather-call rt (record { id = j; name = "get_entity_graph"; input = by_account })
            (rt.dumps (generate_entity_graph rt research tx.account_id))
            (obj (generate_entity_graph rt research tx.account_id)) rest _ _ refl reads.graph

    gathered₃ :
        (i j k : String)
        → gather rt (messages₃ i j k) [] empty ≡ ok (evidence₃ rt research tx.account_id name)
    unfolding gather put
    gathered₃ i j k =
        gathered₂ i j (exchange rt k "check_sanctions_list" by_name (check_sanctions_list rt name))
        ∙ gather-call rt (record { id = k; name = "check_sanctions_list"; input = by_name })
            (rt.dumps (check_sanctions_list rt name)) (obj (check_sanctions_list rt name)) []
            ((j, "get_entity_graph") ∷ (i, "get_transaction_history") ∷ [])
            (evidence₂ rt research tx.account_id name) refl reads.screen

    -- Where JSON reads back the results of the research tools, where pydantic takes a value of a field's
    -- own type as it is, and where triage gave a likelihood of at least one half, an investigation in
    -- replay mode ends with its fourth request, whatever identifiers the calls get: it calls the three
    -- research tools once each for the transaction's own account and beneficiary, and returns the case
    -- that the script makes of what they found.
    pub replay_investigation :
        Validates rt
        → rt.le (rt.decimal 5 1) triage.fraud_likelihood ≡ true
        → (w : W)
        → run_investigator rt research
            (replay_provider rt uuid)
            prompts
            model
            tx
            triage
            rules_score
            w
          ≡ (
            ok (
              researched,
              scripted rt tx.account_id tx.amount tx.currency rules_score
                  (found rt research tx.account_id name),
            ),
            after_requests w,
          )
    unfolding run_investigator turns step_at react find_call execute_research_tool gather
    replay_investigation valid high w =
        let i = id_at w in
        let j = id_at (next w) in
        let k = id_at (next (next w)) in
        let l = id_at (next (next (next w))) in
        tool_turn rt research (replay_provider rt uuid) request i "get_transaction_history"
          by_account (history_result rt research tx.account_id) 5 messages₀ [] w (next w) refl refl
          (said messages₀ w _ _ (
            replayed messages₀ empty _ _ high refl (findings₀ rt research tx.account_id name) refl))
        ∙ tool_turn rt research (replay_provider rt uuid) request j "get_entity_graph" by_account
            (generate_entity_graph rt research tx.account_id) 4 (messages₁ i) _ (next w)
            (next (next w)) refl refl
            (said (messages₁ i) (next w) _ _ (
              replayed (messages₁ i) _ _ _ high (gathered₁ i [])
                (findings₁ rt research tx.account_id name) refl))
        ∙ tool_turn rt research (replay_provider rt uuid) request k "check_sanctions_list" by_name
            (check_sanctions_list rt name) 3 (messages₂ i j) _ (next (next w))
            (next (next (next w))) refl refl
            (said (messages₂ i j) (next (next w)) _ _ (
              replayed (messages₂ i j) _ _ _ high (gathered₂ i j [])
                (findings₂ rt research tx.account_id name) refl))
        ∙ case_turn rt research (replay_provider rt uuid) request l _ _ 2 (messages₃ i j k) _
            (next (next (next w))) (after_requests w)
            (scripted-valid rt tx.account_id tx.amount tx.currency rules_score
              (found rt research tx.account_id name) valid)
            (said (messages₃ i j k) (next (next (next w))) _ _ (
              replayed (messages₃ i j k) _ _ _ high (gathered₃ i j k)
                (findings₃ rt research tx.account_id name) refl))
