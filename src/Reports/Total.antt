-- ===== src/Reports/Total.antt =====
-- The report of a saved run is written, whatever the run was.
use vaultwatch.Base.{ℕ, String, ◌≡◌, sym, Option, none, some, List, [], ◌∷◌, map}
use mathlib.Core.Path.{subst}
use vaultwatch.Base.Exec.{Result, ok}
use vaultwatch.Base.Exec.Results.{◌>>=◌}
use vaultwatch.Runtime.{or_else, Runtime, strs}
use vaultwatch.Models.{RuleEngineVerdict, Alert}
use vaultwatch.Models.Values.{
  Json, Dict, str, obj, empty, get, item, subscript, list_of, items_of, list_of-items_of,
}
use vaultwatch.Llm.Transcripts.{get_from}
use vaultwatch.CaseRecord.{PipelineResult, Payment, CaseEvent}
use vaultwatch.CaseRecord.Dump.{event_dict, alert_dict, payment_dict, or_null}
use vaultwatch.Reports.{
  fstring, joined, iterated, spaced, escaped, row, receipt, finding, tool_evidence,
}
use vaultwatch.Reports.Reads.{journey_of, place_name, reasons_of, no_payment, no_alert}
use vaultwatch.Reports.Returns.{
  IsOk, IsOk-bind, Every, joined-IsOk, IsRule, IsReceipt, get_from-IsOk, spaced-strs, row-IsOk,
  receipt-IsOk, finding-IsOk,
}

abbrev pub rules_listed : {N : Type 0} → Option (RuleEngineVerdict N) → List (Dict N)
rules_listed none = []
rules_listed (some v) = v.triggered_rules

-- What the report needs of the answers of other services and of a caller's review: the rules and the
-- receipts have their fields, and the places of the review are dicts.
pub record IsReadable {N : Type 0} (r : PipelineResult N) : Type 0 where
  pub rules : Every IsRule (rules_listed r.rules)
  pub receipts : Every IsReceipt r.audit.entries
  pub origin : (d : Dict N) × (get_from (obj r.review) "origin" (obj empty) ≡ ok (obj d))
  pub location :
      (d : Dict N) × (get_from (obj r.review) "current_location" (obj empty) ≡ ok (obj d))

module _ (rt : Runtime) (iso_json iso : ℕ → String) where
  open rt use {Num}

  abbrev pub payment_of : Option (Payment Num) → Json Num
  payment_of o = or_else rt (or_null (λ p. obj (payment_dict iso_json iso p)) o) no_payment

  abbrev pub decision_of : Option (Alert Num) → Json Num
  decision_of o = or_else rt (or_null (λ a. obj (alert_dict iso_json iso a)) o) no_alert

  pub payment-action : (o : Option (Payment Num)) → IsOk (subscript (payment_of o) "action")
  unfolding or_else subscript item payment_dict
  payment-action none = tt
  payment-action (some p) = tt

  pub payment-reasons : (o : Option (Payment Num)) → IsOk (reasons_of (payment_of o))
  unfolding or_else subscript item payment_dict reasons_of iterated spaced
  payment-reasons none = tt
  payment-reasons (some p) =
      IsOk-bind (spaced {N = Num} (list_of (strs p.reasons))) _ (spaced-strs Num p.reasons) λ s. tt

  pub payment-status :
      (o : Option (Payment Num)) (v : Json Num)
      → IsOk (get_from (payment_of o) "execution_status" v)
  unfolding or_else get_from get payment_dict
  payment-status none v = tt
  payment-status (some p) v = tt

  pub decision-title : (o : Option (Alert Num)) → IsOk (subscript (decision_of o) "title")
  unfolding or_else subscript item alert_dict
  decision-title none = tt
  decision-title (some a) = tt

  pub decision-severity : (o : Option (Alert Num)) → IsOk (subscript (decision_of o) "severity")
  unfolding or_else subscript item alert_dict
  decision-severity none = tt
  decision-severity (some a) = tt

  place_name-IsOk :
      (review d : Dict Num) (k : String)
      → get_from (obj review) k (obj empty) ≡ ok (obj d)
      → IsOk (place_name rt (obj review) k)
  unfolding place_name
  place_name-IsOk review d k e =
      subst (λ r. IsOk (named r)) (sym e)
        (IsOk-bind (get_from (obj d) "name" (str "Not recorded")) _ (get_from-IsOk d "name" _)
          λ name. tt)
    where
      named : Result (Json Num) → Result String
      named r = do
        place ← r
        name ← get_from place "name" (str "Not recorded")
        ok (vaultwatch.Reports.str_of rt name)

  pub journey-IsOk : (r : PipelineResult Num) → IsReadable r → IsOk (journey_of rt (obj r.review))
  unfolding journey_of
  journey-IsOk r h =
      IsOk-bind (place_name rt (obj r.review) "origin") _ (place_name-IsOk r.review _ _ h.origin.1)
        λ origin.
          IsOk-bind (place_name rt (obj r.review) "current_location") _
            (place_name-IsOk r.review _ _ h.location.1) λ location. tt

  pub rows-IsOk :
      (es : List (CaseEvent Num))
      → IsOk (joined (row rt) (list_of (items_of (map (λ e. obj (event_dict iso_json iso e)) es))))
  rows-IsOk es =
      subst (λ xs. IsOk (joined (row rt) xs)) (sym (list_of-items_of _))
        (joined-IsOk (row rt) _ (each es))
    where
      each :
          (xs : List (CaseEvent Num))
          → Every (λ x. IsOk (row rt x)) (map (λ e. obj (event_dict iso_json iso e)) xs)
      each [] = tt
      each (x ∷ xs) = (row-IsOk rt iso_json iso x, each xs)

  pub receipts-IsOk :
      (es : List (Json Num))
      → Every IsReceipt es
      → IsOk (joined (receipt rt) (list_of (items_of es)))
  receipts-IsOk es h =
      subst (λ xs. IsOk (joined (receipt rt) xs)) (sym (list_of-items_of _))
        (joined-IsOk (receipt rt) es (each es h))
    where
      each : (xs : List (Json Num)) → Every IsReceipt xs → Every (λ x. IsOk (receipt rt x)) xs
      each [] h = tt
      each (x ∷ xs) h = (receipt-IsOk rt iso_json iso x h.0, each xs h.1)

  pub findings-IsOk :
      (ds : List (Dict Num))
      → Every IsRule ds
      → IsOk (joined (finding rt) (list_of (items_of (map obj ds))))
  findings-IsOk ds h =
      subst (λ xs. IsOk (joined (finding rt) xs)) (sym (list_of-items_of _))
        (joined-IsOk (finding rt) _ (each ds h))
    where
      each :
          (xs : List (Dict Num)) → Every IsRule xs → Every (λ x. IsOk (finding rt x)) (map obj xs)
      each [] h = tt
      each (x ∷ xs) h = (finding-IsOk rt iso_json iso x h.0, each xs h.1)
