-- ===== src/Llm/Transcripts.antt =====
-- agents-python/app/llm/transcripts.py: the scripted steps of the replay provider. A history that is
-- no list, or a link that is no text, is taken to raise at its first use.
pub mod Scores
pub mod Evidence
use vaultwatch.Base.{
  ℕ, ◌*◌, String, ◌<>◌, Bool, true, false, ◌&&◌, ◌||◌, Option, none, some, List, [], ◌∷◌, ◌==◌,
  length, if◌then◌else◌, ◌+◌, min, leb, truthy, is_some,
}
use text.Mathlib.Text.{find?}
use vaultwatch.Base.Int.{ℤ, pos, leb_ℤ}
use vaultwatch.Base.Exec.{Result, ok, err, other_exception}
use vaultwatch.Base.Exec.Results.{◌>>=◌}
use vaultwatch.Runtime.{Runtime, truth, strs}
use vaultwatch.Models.{RuleEngineVerdict, PreFilterVerdict}
use vaultwatch.Models.Values.{
  Json, Dict, bool, int, float, str, arr, obj, nil, empty, entry, get, item, subscript, list_of,
}

-- a step is a tool call, or a text alone
pub data Step (N : Type 0) : Type 0 where
  tool : String → Dict N → Step N
  plain : String → Step N

abbrev pub join : String → List String → String
join sep [] = ""
join sep (x ∷ []) = x
join sep (x ∷ y ∷ r) = x <> sep <> join sep (y ∷ r)

module _ {N : Type 0} where
  -- `x.get(k, d)`: an `AttributeError` unless `x` is a dict
  unfoldable pub get_from : Json N → String → Json N → Result (Json N)
  unfolding get
  get_from (obj d) k default = elim (get d k) [ none ↦ ok default | some v ↦ ok v ]
  get_from _ k default = err (other_exception "AttributeError")

  unfoldable pub as_list : Json N → Result (List (Json N))
  as_list (arr xs) = ok (list_of xs)
  as_list _ = err (other_exception "TypeError")

  -- `evidence.get(name, {})`
  abbrev or_empty : Option (Json N) → Json N
  or_empty none = obj empty
  or_empty (some v) = v

-- What the returned evidence says: the amounts of the history, the links, and the watchlist answer.
pub record Findings (N : Type 0) : Type 0 where
  pub amounts : List N
  pub linked : List String
  pub hit : Bool
  pub query : String

module _ (rt : Runtime) where
  open rt use {Num}

  to_texts : List (Json Num) → Result (List String)
  to_texts [] = ok []
  to_texts (str s ∷ xs) = to_texts xs >>= λ r. ok (s ∷ r)
  to_texts (_ ∷ xs) = err (other_exception "TypeError")

  to_amounts : List (Json Num) → Result (List Num)
  unfolding subscript
  to_amounts [] = ok []
  to_amounts (row ∷ rows) = do
    v ← subscript row "amount"
    x ← elim v [ float x ↦ ok x | int z ↦ ok (rt.of_ℤ z) | _ ↦ err (other_exception "TypeError") ]
    rest ← to_amounts rows
    ok (x ∷ rest)

  -- `f"{value}"`
  shown : Json Num → String
  shown (str s) = s
  shown v = rt.show_json v

  unfoldable pub findings : Dict Num → String → Result (Findings Num)
  unfolding get_from as_list to_texts to_amounts shown truth get
  findings evidence beneficiary = do
    history ← get_from (or_empty (get evidence "get_transaction_history")) "history" (arr nil)
    rows ← as_list history
    links ← get_from (or_empty (get evidence "get_entity_graph")) "linked_accounts" (arr nil)
    link_list ← as_list links
    linked ← to_texts link_list
    answer ← get_from (or_empty (get evidence "check_sanctions_list")) "hit" (bool false)
    query ← get_from (or_empty (get evidence "check_sanctions_list")) "query" (str beneficiary)
    amounts ← to_amounts rows
    ok (record { amounts = amounts; linked = linked; hit = truth rt answer; query = shown query })

  unfoldable pub mean : List Num → Num
  mean [] = rt.of_ℤ (pos 0)
  mean (x ∷ xs) = rt.div (rt.sum (x ∷ xs)) (rt.of_ℤ (pos (length (x ∷ xs))))

  unfoldable pub base_score : Num → ℤ → Num → ℕ
  base_score amount rules_score average =
      if leb_ℤ (pos 50) rules_score
        || (rt.lt (rt.of_ℤ (pos 0)) average && rt.le (rt.mul average (rt.of_ℤ (pos 3))) amount)
      then 70
      else 40

  -- `min(95, (85 if hit else base) + len(linked) * 3)`
  unfoldable pub case_score : Bool → ℕ → List String → ℕ
  case_score hit base linked = min 95 ((if hit then 85 else base) + length linked * 3)

  abbrev pub facts : Num → String → Findings Num → List String
  unfolding mean
  facts amount currency f =
      ("Payment "
        <> rt.fixed2 amount
        <> " "
        <> currency
        <> "; "
        <> rt.show_int (pos (length f.amounts))
        <> " synthetic historical payments average "
        <> rt.fixed2 (mean f.amounts)
        <> ".")
      ∷ ("Synthetic entity graph returned "
          <> rt.show_int (pos (length f.linked))
          <> " linked accounts.")
      ∷ ("Synthetic watchlist "
          <> (if f.hit then "MATCH" else "no match")
          <> " for "
          <> f.query
          <> ".")
      ∷ []

  unfoldable pub case_input : String → Num → String → ℤ → Findings Num → Dict Num
  unfolding facts mean base_score case_score
  case_input account amount currency rules_score f =
      let fs = facts amount currency f in
      let score = case_score f.hit (base_score amount rules_score (mean f.amounts)) f.linked in
      entry "summary" (str ("Account " <> account <> " was escalated by triage. " <> join " " fs)) (
        entry "risk_score" (int (pos score)) (
          entry "evidence" (arr (strs fs)) (
            entry "linked_accounts" (arr (strs f.linked)) (
              entry "sanctions_hit" (bool f.hit)
                (entry "recommend_compliance_review" (bool (leb 70 score || f.hit)) empty)))))

  abbrev pub low_input : Dict Num
  low_input =
      entry "summary"
        (str "Triage did not identify a high-risk pattern; no research tools were requested.")
        (entry "risk_score" (int (pos 12)) (
          entry "evidence" (arr nil) (
            entry "linked_accounts" (arr nil) (
              entry "sanctions_hit" (bool false)
                (entry "recommend_compliance_review" (bool false) empty)))))

  unfoldable pub investigation_steps :
      String → String → String → Dict Num → Num → String → ℤ → Result (List (Step Num))
  unfolding findings case_input
  investigation_steps scenario account beneficiary evidence amount currency rules_score = do
    f ← findings evidence beneficiary
    if scenario == "high"
        then ok (
            tool "get_transaction_history" (entry "account_id" (str account) empty)
            ∷ tool "get_entity_graph" (entry "account_id" (str account) empty)
            ∷ tool "check_sanctions_list" (entry "name" (str beneficiary) empty)
            ∷ tool "emit_case_file" (case_input account amount currency rules_score f)
            ∷ [])
        else ok (tool "emit_case_file" low_input ∷ [])

  -- `r.get("rule") == "impossible_travel"` for some triggered rule
  travels : List (Dict Num) → Bool
  unfolding get
  travels [] = false
  travels (r ∷ rs) =
      elim (get r "rule") [ some (str s) ↦ s == "impossible_travel" | _ ↦ false ] || travels rs

  -- `r["rule"]` of each triggered rule
  rule_names : List (Dict Num) → Result (List String)
  unfolding item
  rule_names [] = ok []
  rule_names (r ∷ rs) = do
    v ← item r "rule"
    name ← elim v [ str s ↦ ok s | _ ↦ err (other_exception "TypeError") ]
    rest ← rule_names rs
    ok (name ∷ rest)

  unfoldable pub triage_step :
      String → RuleEngineVerdict Num → PreFilterVerdict Num → Result (Step Num)
  unfolding travels rule_names
  triage_step scenario rules prefilter =
      if scenario == "high"
      then (do
        names ← rule_names rules.triggered_rules
        let triggered = if truthy (join ", " names) then join ", " names else "none"
        ok (
            tool "emit_triage_verdict" (
              entry "fraud_likelihood" (float (rt.decimal 82 2)) (
                entry "category"
                  (str (
                    if travels rules.triggered_rules
                    then "potential_account_takeover"
                    else "unusual_activity"))
                  (entry "escalate" (bool true) (
                    entry "reasoning"
                      (str (
                        "Rules score "
                        <> rt.show_int rules.risk_score
                        <> ". Triggered: "
                        <> triggered
                        <> ". Statistical anomaly: "
                        <> rt.show_json (bool prefilter.is_anomaly)
                        <> ". Replay triage escalates these signals for evidence gathering."))
                      empty))))))
      else ok (
          tool "emit_triage_verdict" (
            entry "fraud_likelihood" (float (rt.decimal 4 2)) (
              entry "category" (str "normal_activity") (
                entry "escalate" (bool false) (
                  entry "reasoning"
                    (str
                      "Amount, beneficiary and device are all consistent with this account's recent history; no rules or pre-filter signals fired above threshold.")
                    empty)))))

  -- `" ".join(item for item in evidence if item not in case_summary)`, where `in` is the substring test
  unmentioned : String → List String → List String
  unmentioned summary [] = []
  unmentioned summary (e ∷ es) =
      let rest = unmentioned summary es in if is_some (find? summary e) then rest else e ∷ rest

  unfoldable pub compliance_step : String → List String → Step Num
  unfolding unmentioned
  compliance_step summary evidence = tool "emit_compliance_report" (
      entry "narrative"
        (str (
          "SYNTHETIC DRAFT - "
          <> summary
          <> " "
          <> join " " (unmentioned summary evidence)
          <> " Manual review recommended. This risk narrative precedes the separate payment decision. No real funds moved and no regulatory report was filed."))
        (entry "obligations_referenced"
          (arr (strs ("Internal review of suspicious activity (synthetic demonstration)" ∷ [])))
          empty))
