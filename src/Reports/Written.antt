-- ===== src/Reports/Written.antt =====
-- The page of a saved run is written, once its parts are.
use vaultwatch.Base.{ℕ, String, sym, Option, none, some}
use mathlib.Core.Path.{subst}
use vaultwatch.Base.Exec.{Result}
use vaultwatch.Runtime.{or_else, Runtime}
use vaultwatch.Models.{Alert}
use vaultwatch.Models.Values.{Json, Dict, obj, get, item, subscript, list_of-items_of}
use vaultwatch.Llm.Transcripts.{get_from}
use vaultwatch.CaseRecord.{PipelineResult}
use vaultwatch.CaseRecord.Dump.{
  as_dict, compliance_dict, alert_dict, transaction_dict, audit_dict, alert_detail,
}
use vaultwatch.CaseStore.{Row}
use vaultwatch.Api.{Verification}
use vaultwatch.Reports.{fstring, iterated, escaped, tool_evidence, Subject}
use vaultwatch.Reports.Reads.{
  Parts, no_alert, familiar, correlation, recipient_of, narrative_of, check_data,
  investigation_data, evidence_data,
}
use vaultwatch.Reports.Page.{
  blocked, page, heading_parts, payment_parts, table_parts, timeline_parts, evidence_parts,
}
use vaultwatch.Reports.Returns.{
  IsOk, IsOk-bind, fstring-IsOk, also, row_dict, verification_dict, get_from-IsOk, escaped-IsOk,
  tool_evidence-IsOk,
}
use vaultwatch.Reports.Total.{
  payment_of, decision_of, payment-action, payment-reasons, payment-status, decision-title,
  decision-severity,
}

module _ (rt : Runtime) (iso_json iso : ℕ → String) where
  open rt use {Num}

  abbrev pub dict_of : PipelineResult Num → Dict Num
  dict_of = as_dict iso_json iso

  abbrev pub saved_row : Row (PipelineResult Num) → Dict Num
  saved_row saved = row_dict (record {
    transaction_id = saved.transaction_id;
    account_id = saved.account_id;
    result = dict_of saved.result;
  })

module _ (rt : Runtime) (iso_json iso : ℕ → String) (indented : Json rt.Num → String) where
  open rt use {Num}

  familiar-IsOk : (d : Dict Num) (k : String) (s : Subject) → IsOk (familiar rt (obj d) k s)
  unfolding familiar
  familiar-IsOk d k s = IsOk-bind (get_from (obj d) k _) _ (get_from-IsOk d k _) λ v. tt

  correlation-IsOk :
      (o : Option (Alert Num)) → IsOk (correlation rt (decision_of rt iso_json iso o))
  unfolding correlation or_else alert_dict
  correlation-IsOk none = IsOk-bind (get_from no_alert _ _) _ (get_from-IsOk _ _ _) λ v. tt
  correlation-IsOk (some a) =
      IsOk-bind (get_from (obj (alert_dict iso_json iso a)) _ _) _ (get_from-IsOk _ _ _) λ v. tt

  narrative-IsOk :
      (r : PipelineResult Num) → IsOk (narrative_of rt (obj (dict_of rt iso_json iso r)))
  unfolding narrative_of get_from get or_else as_dict compliance_dict
  narrative-IsOk r =
      elim r.compliance
        as (λ o.
          IsOk (narrative_of rt (obj (dict_of rt iso_json iso (record r { compliance = o }))))) [
            | none ↦ tt
            | some c ↦ tt
          ]

  investigation-IsOk :
      (r : PipelineResult Num)
      → IsOk (
          investigation_data
            (obj (dict_of rt iso_json iso r))
            (decision_of rt iso_json iso r.alert))
  unfolding investigation_data get_from get or_else as_dict alert_dict alert_detail
  investigation-IsOk r =
      elim r.alert
        as (λ o.
          IsOk (
            investigation_data (obj (dict_of rt iso_json iso r)) (decision_of rt iso_json iso o))) [
              | none ↦ tt
              | some a ↦ tt
            ]

  evidence-IsOk :
      (r : PipelineResult Num) → IsOk (evidence_data rt (obj (dict_of rt iso_json iso r)))
  unfolding evidence_data get_from get as_dict iterated
  evidence-IsOk r =
      IsOk-bind (tool_evidence rt _) _
        (subst (λ xs. IsOk (tool_evidence rt xs)) (sym (list_of-items_of _))
          (tool_evidence-IsOk rt iso_json iso r.events))
        λ xs. tt

  blocked-IsOk :
      (title : String) (v : Result (Json Num)) → IsOk v → IsOk (blocked rt indented title v)
  unfolding blocked
  blocked-IsOk title v h = IsOk-bind v _ h λ _. tt

  -- the parts of the page of `r`
  abbrev made :
      PipelineResult Num
      → String
      → String
      → String
      → String
      → String
      → Json Num
      → String
      → Parts Num
  made r rows receipts journey findings screen summary integrity = record {
    result = obj (dict_of rt iso_json iso r);
    tx = obj (transaction_dict iso_json iso r.transaction);
    review = obj r.review;
    audit = obj (audit_dict iso_json iso r.audit);
    payment = payment_of rt iso_json iso r.payment;
    rows = rows;
    receipts = receipts;
    decision = decision_of rt iso_json iso r.alert;
    journey = journey;
    findings = findings;
    screen = screen;
    summary = summary;
    integrity = integrity;
  }

  module _ (saved : Row (PipelineResult Num)) (v : Verification Num)
      (rows receipts journey findings screen : String) (summary : Json Num)
      (integrity : String) where
    abbrev parts : Parts Num
    parts = made saved.result rows receipts journey findings screen summary integrity

    heading-IsOk : IsOk (
        fstring (
          heading_parts rt indented
            (saved_row rt iso_json iso saved)
            (verification_dict iso v)
            parts))
    unfolding heading_parts escaped item get_from get subscript as_dict transaction_dict audit_dict
        row_dict recipient_of check_data
    heading-IsOk = fstring-IsOk _ (
        also _ (escaped-IsOk rt iso_json iso _ (decision-title rt iso_json iso saved.result.alert))
          (also _
            (escaped-IsOk rt iso_json iso _ (decision-severity rt iso_json iso saved.result.alert))
            tt))

    payment-IsOk : IsOk (
        fstring (
          payment_parts rt indented
            (saved_row rt iso_json iso saved)
            (verification_dict iso v)
            parts))
    unfolding payment_parts escaped item get_from get subscript as_dict transaction_dict audit_dict
        row_dict recipient_of check_data
    payment-IsOk = fstring-IsOk _ (
        also _
          (escaped-IsOk rt iso_json iso _ (payment-action rt iso_json iso saved.result.payment))
          (also _
            (escaped-IsOk rt iso_json iso _ (payment-reasons rt iso_json iso saved.result.payment))
            (also _
              (escaped-IsOk rt iso_json iso _
                (payment-status rt iso_json iso saved.result.payment _))
              tt)))

    table-IsOk : IsOk (
        fstring (
          table_parts rt indented
            (saved_row rt iso_json iso saved)
            (verification_dict iso v)
            parts))
    unfolding table_parts escaped item get_from get subscript as_dict transaction_dict audit_dict
        row_dict recipient_of check_data
    table-IsOk = fstring-IsOk _ (
        also _ (escaped-IsOk rt iso_json iso _ (get_from-IsOk saved.result.review _ _)) (
          also _ (escaped-IsOk rt iso_json iso _ (get_from-IsOk saved.result.review _ _)) (
            also _ (familiar-IsOk saved.result.review _ _) (
              also _ (familiar-IsOk saved.result.review _ _) (
                also _ (correlation-IsOk saved.result.alert) (
                  also _
                    (escaped-IsOk rt iso_json iso _ (get_from-IsOk (verification_dict iso v) _ _))
                    (also _ (escaped-IsOk rt iso_json iso _ (get_from-IsOk saved.result.review _ _))
                      tt)))))))

    timeline-IsOk : IsOk (
        fstring (
          timeline_parts rt indented
            (saved_row rt iso_json iso saved)
            (verification_dict iso v)
            parts))
    unfolding timeline_parts escaped item get_from get subscript as_dict transaction_dict audit_dict
        row_dict recipient_of check_data
    timeline-IsOk =
        fstring-IsOk _ (also _ (escaped-IsOk rt iso_json iso _ (narrative-IsOk saved.result)) tt)

    last-IsOk : IsOk (
        fstring (
          evidence_parts rt indented
            (saved_row rt iso_json iso saved)
            (verification_dict iso v)
            parts))
    unfolding evidence_parts escaped item get_from get subscript as_dict transaction_dict audit_dict
        row_dict recipient_of check_data
    last-IsOk = fstring-IsOk _ (
        also _ (blocked-IsOk _ _ tt) (
          also _ (blocked-IsOk _ _ (investigation-IsOk saved.result)) (
            also _ (blocked-IsOk _ _ (evidence-IsOk saved.result))
              (also _ (blocked-IsOk _ _ tt) tt))))

    pub page-IsOk :
        IsOk (page rt indented (saved_row rt iso_json iso saved) (verification_dict iso v) parts)
    unfolding page
    page-IsOk = fstring-IsOk _ (
        also _ heading-IsOk
          (also _ payment-IsOk (also _ table-IsOk (also _ timeline-IsOk (also _ last-IsOk tt)))))
