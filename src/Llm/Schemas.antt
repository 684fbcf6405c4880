-- ===== src/Llm/Schemas.antt =====
-- The tools that the agents offer to a model, of agents-python/app/llm: their names and the JSON
-- schemas of their inputs. `conforms` is the meaning that JSON Schema gives to the keywords that
-- these schemas use; a number without a fraction that is written as a float is no integer here.
pub mod Members
pub mod Inputs
use vaultwatch.Base.{
  String, Bool, true, false, ◌&&◌, ◌||◌, Option, none, some, List, [], ◌∷◌, ◌==◌, is_some,
  if◌then◌else◌,
}
use vaultwatch.Base.Int.{ℤ, pos, leb_ℤ}
use vaultwatch.Runtime.{Runtime, strs}
use vaultwatch.Models.Values.{
  Json, Dict, Items, null, bool, int, float, str, arr, obj, nil, cons, empty, entry, get,
}

module _ {N : Type 0} where
  abbrev pub typed : String → Json N
  typed t = obj (entry "type" (str t) empty)

  abbrev pub texts : Json N
  texts = obj (entry "type" (str "array") (entry "items" (typed "string") empty))

  abbrev tool : String → String → Dict N → Dict N
  tool name description schema =
      entry "name" (str name)
        (entry "description" (str description) (entry "input_schema" (obj schema) empty))

  abbrev object : Dict N → List String → Dict N
  object properties required =
      entry "type" (str "object")
        (entry "properties" (obj properties) (entry "required" (arr (strs required)) empty))

  abbrev pub triage_schema : Dict N
  triage_schema =
      object
        (entry "fraud_likelihood"
          (obj (
            entry "type" (str "number")
              (entry "minimum" (int (pos 0)) (entry "maximum" (int (pos 1)) empty))))
          (entry "category" (typed "string")
            (entry "escalate" (typed "boolean") (entry "reasoning" (typed "string") empty))))
        ("fraud_likelihood" ∷ "category" ∷ "escalate" ∷ "reasoning" ∷ [])

  abbrev pub case_schema : Dict N
  case_schema =
      object
        (entry "summary" (typed "string") (
          entry "risk_score"
            (obj (
              entry "type" (str "integer")
                (entry "minimum" (int (pos 0)) (entry "maximum" (int (pos 100)) empty))))
            (entry "evidence" texts (
              entry "linked_accounts" texts (
                entry "sanctions_hit" (typed "boolean")
                  (entry "recommend_compliance_review" (typed "boolean") empty))))))
        ("summary" ∷ "risk_score" ∷ "evidence" ∷ "recommend_compliance_review" ∷ [])

  abbrev pub compliance_schema : Dict N
  compliance_schema =
      object (entry "narrative" (typed "string") (entry "obligations_referenced" texts empty))
        ("narrative" ∷ [])

  abbrev pub emit_triage_verdict_tool : Dict N
  emit_triage_verdict_tool =
      tool "emit_triage_verdict" "Emit the structured fraud-triage verdict for this transaction."
        triage_schema

  abbrev pub emit_case_file_tool : Dict N
  emit_case_file_tool =
      tool "emit_case_file"
        "Emit the final structured case file once enough evidence has been gathered." case_schema

  abbrev pub emit_compliance_report_tool : Dict N
  emit_compliance_report_tool =
      tool "emit_compliance_report" "Emit the structured compliance narrative for this case."
        compliance_schema

  abbrev pub research_tool_schemas : List (Dict N)
  research_tool_schemas =
      tool "get_transaction_history"
        "Fetch an account's recent transaction history to establish its normal spending baseline."
        (object (entry "account_id" (typed "string") empty) ("account_id" ∷ []))
      ∷ tool "get_entity_graph"
          "Fetch accounts linked to the given account via shared device, beneficiary, or other identifiers."
          (object (entry "account_id" (typed "string") empty) ("account_id" ∷ []))
      ∷ tool "check_sanctions_list" "Screen a name against the sanctions/watchlist."
          (object (entry "name" (typed "string") empty) ("name" ∷ []))
      ∷ []

  -- `type`
  unfoldable pub has_type : String → Json N → Bool
  has_type t (bool b) = t == "boolean"
  has_type t (int z) = t == "integer" || t == "number"
  has_type t (float x) = t == "number"
  has_type t (str s) = t == "string"
  has_type t (arr xs) = t == "array"
  has_type t (obj d) = t == "object"
  has_type t null = t == "null"

  -- `required`
  unfoldable pub has_all : Dict N → Items N → Bool
  unfolding get
  has_all d nil = true
  has_all d (cons (str k) ks) = is_some (get d k) && has_all d ks
  has_all d (cons _ ks) = has_all d ks

  unfoldable pub every : (Json N → Bool) → Items N → Bool
  every f nil = true
  every f (cons x xs) = f x && every f xs

  -- `items`, which binds arrays only
  unfoldable pub each_item : (Json N → Bool) → Json N → Bool
  unfolding every
  each_item f (arr xs) = every f xs
  each_item f _ = true

module _ (rt : Runtime) where
  open rt use {Num}

  -- `minimum` and `maximum`, which bind numbers only
  unfoldable pub at_least : ℤ → Json Num → Bool
  at_least m (int z) = leb_ℤ m z
  at_least m (float x) = rt.le (rt.of_ℤ m) x
  at_least m _ = true

  unfoldable pub at_most : ℤ → Json Num → Bool
  at_most m (int z) = leb_ℤ z m
  at_most m (float x) = rt.le x (rt.of_ℤ m)
  at_most m _ = true

  unfoldable mutual
    pub conforms : Json Num → Json Num → Bool
    conforms (obj keywords) v = satisfies keywords v
    conforms _ v = true

    satisfies : Dict Num → Json Num → Bool
    satisfies empty v = true
    satisfies (entry k s rest) v = let others = satisfies rest v in keyword k s v && others

    keyword : String → Json Num → Json Num → Bool
    keyword k (str t) v = if k == "type" then has_type t v else true
    keyword k (int m) v =
        if k == "minimum" then at_least m v else if k == "maximum" then at_most m v else true
    keyword k (arr ks) (obj d) = if k == "required" then has_all d ks else true
    keyword k (obj s) v =
        let members = properties s v in
        let items = each_item (satisfies s) v in
        if k == "properties" then members else if k == "items" then items else true
    keyword k _ v = true

    properties : Dict Num → Json Num → Bool
    properties (entry k s rest) (obj d) =
        let others = properties rest (obj d) in
        elim (get d k) [ none ↦ true | some v ↦ conforms s v ] && others
    properties _ v = true
