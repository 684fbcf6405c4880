-- ===== src/Clients/Answers.antt =====
-- What the rules engine's client makes of an answer.
use vaultwatch.Base.{ℕ, String, ◌<>◌, ◌≡◌, refl, ap, ◌∙◌, some, none, List, [], ◌∷◌, map}
use vaultwatch.Base.Exec.{ok, continue, lift, ◌>>=◌}
use vaultwatch.Runtime.{Runtime, Validates}
use vaultwatch.Models.{Transaction, ScoringContext, RuleEngineVerdict}
use vaultwatch.Models.Values.{Dict, obj, str, int, arr, empty, entry, get, items_of}
use vaultwatch.CaseRecord.Dump.{rules_dict, transaction_dict, context_dict}
use vaultwatch.Llm.Verdicts.{rule_engine_verdict, required, defaulted, dicts_of, to_dicts}
use vaultwatch.Llm.Verdicts.Fields.{required-eq, defaulted-eq, from_field}
use vaultwatch.Clients.{Http, rstrip_slash, score, read_verdict, verdict_in}

dicts_of-map : {N : Type 0} (ds : List (Dict N)) → dicts_of (items_of (map obj ds)) ≡ some ds
unfolding dicts_of
dicts_of-map [] = refl
dicts_of-map (d ∷ ds) = ap (λ o. elim o [ none ↦ none | some r ↦ some (d ∷ r) ]) (dicts_of-map ds)

module _ (rt : Runtime) (v : Validates rt) where
  open rt use {Num}

  -- Where pydantic takes a value of a field's own type as it is, the JSON of a verdict is read back as
  -- that verdict.
  pub rule_engine_verdict-rules_dict :
      (a : RuleEngineVerdict Num) → rule_engine_verdict rt (obj (rules_dict a)) ≡ ok a
  unfolding rule_engine_verdict rules_dict to_dicts get
  rule_engine_verdict-rules_dict a =
      from_field (required rt.to_str (rules_dict a) "transaction_id") _ (
        required-eq rt.to_str (rules_dict a) "transaction_id" {x = str a.transaction_id} refl
          (v.to_str-str a.transaction_id))
      ∙ from_field (required rt.to_int (rules_dict a) "risk_score") _ (
          required-eq rt.to_int (rules_dict a) "risk_score" {x = int a.risk_score} refl
            (v.to_int-int a.risk_score))
      ∙ from_field (required rt.to_str (rules_dict a) "risk_band") _ (
          required-eq rt.to_str (rules_dict a) "risk_band" {x = str a.risk_band} refl
            (v.to_str-str a.risk_band))
      ∙ from_field (defaulted to_dicts [] (rules_dict a) "triggered_rules") _ (
          defaulted-eq to_dicts [] (rules_dict a) "triggered_rules"
            {x = arr (items_of (map obj a.triggered_rules))} refl (dicts_of-map a.triggered_rules))

  -- Where pydantic takes a value of a field's own type as it is, and the rules engine answers the
  -- request with a success whose JSON is that of a verdict, `score` returns that verdict.
  pub score-rules_dict :
      {W : Type 0} (iso_json iso : ℕ → String) (http : Http Num W) (base_url : String)
      (tx : Transaction Num) (ctx : ScoringContext Num) (a : RuleEngineVerdict Num)
      (response : http.Response) (w w' : W)
      → http.post
          (rstrip_slash base_url <> "/v1/score")
          (entry "transaction"
            (obj (transaction_dict iso_json iso tx))
            (entry "context" (obj (context_dict ctx)) empty))
          w
        ≡ (ok response, w')
      → http.raise_for_status response ≡ ok tt
      → http.json response ≡ ok (obj (rules_dict a))
      → score rt iso_json iso http base_url tx ctx w ≡ (ok a, w')
  unfolding score read_verdict verdict_in
  score-rules_dict iso_json iso http base_url tx ctx a response w w' sent success answered =
      let read = read_verdict rt iso_json iso http base_url in
      let verdict = verdict_in rt iso_json iso http base_url in
      ap (continue read) sent
      ∙ ap (λ r. continue (λ _. lift (http.json response) >>= verdict) (r, w')) success
      ∙ ap (λ r. continue verdict (r, w')) answered
      ∙ ap (λ r. (r, w')) (rule_engine_verdict-rules_dict a)
