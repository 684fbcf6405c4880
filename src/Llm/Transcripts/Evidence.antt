-- ===== src/Llm/Transcripts/Evidence.antt =====
-- What the script of the investigation reads from the results of the research tools.
use vaultwatch.Base.{◌≡◌, refl, ap, ◌∙◌, String, Bool, false, List, [], ◌∷◌, map}
use vaultwatch.Base.Int.{ℤ}
use vaultwatch.Base.Exec.{Result, ok}
use vaultwatch.Base.Exec.Results.{◌>>=◌}
use vaultwatch.Runtime.{Runtime, strs, truth}
use vaultwatch.Models.Values.{Dict, obj, str, empty, entry, get, subscript, list_of}
use vaultwatch.Llm.Tools.{
  HistoryRow, Research, rows_json, on_watchlist, check_sanctions_list, history_result,
  generate_entity_graph,
}
use vaultwatch.Llm.Transcripts.{
  Findings, tool, findings, get_from, as_list, to_texts, to_amounts, shown, case_input,
  investigation_steps,
}

module _ (rt : Runtime) where
  open rt use {Num}

  to_texts-strs : (l : List String) → to_texts rt (list_of (strs l)) ≡ ok l
  unfolding to_texts
  to_texts-strs [] = refl
  to_texts-strs (x ∷ l) = ap (λ r. r >>= λ xs. ok (x ∷ xs)) (to_texts-strs l)

  to_amounts-rows :
      (rows : List (HistoryRow Num))
      → to_amounts rt (list_of (rows_json rows)) ≡ ok (map (λ r. r.amount) rows)
  unfolding to_amounts subscript
  to_amounts-rows [] = refl
  to_amounts-rows (r ∷ rows) = ap (λ o. o >>= λ xs. ok (r.amount ∷ xs)) (to_amounts-rows rows)

  module _ (research : Research Num) (account name : String) where
    -- the evidence after each of the three tools
    abbrev pub evidence₁ : Dict Num
    evidence₁ = entry "get_transaction_history" (obj (history_result rt research account)) empty

    abbrev pub evidence₂ : Dict Num
    evidence₂ =
        entry "get_transaction_history" (obj (history_result rt research account))
          (entry "get_entity_graph" (obj (generate_entity_graph rt research account)) empty)

    abbrev pub evidence₃ : Dict Num
    evidence₃ = entry "get_transaction_history" (obj (history_result rt research account)) (
        entry "get_entity_graph" (obj (generate_entity_graph rt research account))
          (entry "check_sanctions_list" (obj (check_sanctions_list rt name)) empty))

    abbrev amounts : List Num
    amounts = map (λ r. r.amount) (research.history account)

    -- what all three say
    abbrev pub found : Findings Num
    found = record {
      amounts = amounts;
      linked = research.linked_accounts account;
      hit = on_watchlist rt name;
      query = name;
    }

    pub findings₀ :
        findings rt empty name
        ≡ ok (record { amounts = []; linked = []; hit = false; query = name })
    unfolding findings get_from as_list to_texts to_amounts shown truth get
    findings₀ = refl

    pub findings₁ :
        findings rt evidence₁ name
        ≡ ok (record { amounts = amounts; linked = []; hit = false; query = name })
    unfolding findings get_from as_list to_texts shown truth get history_result
    findings₁ =
        ap (λ r. r >>= λ xs. ok (record { amounts = xs; linked = []; hit = false; query = name }))
          (to_amounts-rows (research.history account))

    -- what the script makes of linked accounts and of amounts
    listed : Bool → Result (List String) → Result (Findings Num)
    listed hit r = r >>= λ ls.
        to_amounts rt (list_of (rows_json (research.history account))) >>= λ xs.
        ok (record { amounts = xs; linked = ls; hit = hit; query = name })

    listed-strs :
        (hit : Bool)
        → listed hit (to_texts rt (list_of (strs (research.linked_accounts account))))
          ≡ ok (record {
            amounts = amounts;
            linked = research.linked_accounts account;
            hit = hit;
            query = name;
          })
    unfolding listed
    listed-strs hit =
        ap (listed hit) (to_texts-strs (research.linked_accounts account))
        ∙ ap
            (λ r. r >>= λ xs. ok (record {
              amounts = xs;
              linked = research.linked_accounts account;
              hit = hit;
              query = name;
            }))
            (to_amounts-rows (research.history account))

    pub findings₂ :
        findings rt evidence₂ name
        ≡ ok (record {
          amounts = amounts;
          linked = research.linked_accounts account;
          hit = false;
          query = name;
        })
    unfolding findings get_from as_list shown truth get history_result generate_entity_graph listed
    findings₂ = listed-strs false

    pub findings₃ : findings rt evidence₃ name ≡ ok found
    unfolding findings get_from as_list shown truth get history_result generate_entity_graph
        check_sanctions_list listed
    findings₃ = listed-strs (on_watchlist rt name)

    -- the scripted conversation: three tools, then the case
    pub high_steps :
        (amount : Num) (currency : String) (rules_score : ℤ) (evidence : Dict Num)
        (f : Findings Num)
        → findings rt evidence name ≡ ok f
        → investigation_steps rt "high" account name evidence amount currency rules_score
          ≡ ok (
              tool "get_transaction_history" (entry "account_id" (str account) empty)
              ∷ tool "get_entity_graph" (entry "account_id" (str account) empty)
              ∷ tool "check_sanctions_list" (entry "name" (str name) empty)
              ∷ tool "emit_case_file" (case_input rt account amount currency rules_score f)
              ∷ [])
    unfolding investigation_steps
    high_steps amount currency rules_score evidence f e =
        ap
          (λ r. r >>= λ f. ok (
            tool "get_transaction_history" (entry "account_id" (str account) empty)
            ∷ tool "get_entity_graph" (entry "account_id" (str account) empty)
            ∷ tool "check_sanctions_list" (entry "name" (str name) empty)
            ∷ tool "emit_case_file" (case_input rt account amount currency rules_score f)
            ∷ []))
          e
