-- ===== src/Reports/Complete.antt =====
-- The report of a saved run is written, whatever the run was.
use vaultwatch.Base.{ℕ, String, ◌≡◌, Option, none, some}
use vaultwatch.Base.Exec.{ok}
use vaultwatch.Runtime.{or_else, Runtime, truth}
use vaultwatch.Models.{CaseFile}
use vaultwatch.Models.Values.{Json, obj, get, item, subscript}
use vaultwatch.Llm.Transcripts.{get_from}
use vaultwatch.CaseRecord.{PipelineResult}
use vaultwatch.CaseRecord.Dump.{as_dict, rules_dict, case_dict, or_null, audit_dict}
use vaultwatch.CaseStore.{Row}
use vaultwatch.Api.{Verification, checked, unavailable}
use vaultwatch.Reports.{joined, iterated, row, receipt, finding}
use vaultwatch.Reports.Reads.{
  Parts, listed, triggered, parts_of, journey_of, screen_of, summary_of, integrity_of,
}
use vaultwatch.Reports.Page.{page, render_report}
use vaultwatch.Reports.Returns.{
  OkWith, IsOk, IsOk-bind, OkWith-bind, returned, one_of, Every, row_dict, verification_dict,
  IsRule, IsAnswer,
}
use vaultwatch.Reports.Total.{
  rules_listed, IsReadable, journey-IsOk, rows-IsOk, receipts-IsOk, findings-IsOk,
}
use vaultwatch.Reports.Written.{dict_of, saved_row, page-IsOk}

module _ (rt : Runtime) (iso_json iso : ℕ → String) (indented : Json rt.Num → String) where
  open rt use {Num}

  findings_of-IsOk :
      (r : PipelineResult Num)
      → Every IsRule (rules_listed r.rules)
      → OkWith
          (λ rules. IsOk (joined (finding rt) rules))
          (triggered rt (obj (dict_of rt iso_json iso r)))
  unfolding triggered get_from get as_dict or_else truth rules_dict iterated joined
  findings_of-IsOk r =
      elim r.rules
        as (λ o.
          Every IsRule (rules_listed o)
          → OkWith (λ rules. IsOk (joined (finding rt) rules))
              (triggered rt (obj (dict_of rt iso_json iso (record r { rules = o }))))) [
                | none ↦ λ h. tt
                | some v ↦ λ h. findings-IsOk rt iso_json iso v.triggered_rules h
              ]

  screen-IsOk : (o : Option CaseFile) → IsOk (screen_of rt (or_null (λ c. obj (case_dict c)) o))
  unfolding truth screen_of get_from get case_dict
  screen-IsOk none = tt
  screen-IsOk (some c) = tt

  summary-IsOk : (o : Option CaseFile) → IsOk (summary_of rt (or_null (λ c. obj (case_dict c)) o))
  unfolding truth summary_of subscript item case_dict
  summary-IsOk none = tt
  summary-IsOk (some c) = tt

  integrity-IsOk :
      (v : Verification Num) → IsAnswer v → IsOk (integrity_of rt (verification_dict iso v))
  unfolding truth integrity_of get_from get verification_dict
  integrity-IsOk unavailable h = tt
  integrity-IsOk (checked v t) h =
      one_of (truth rt v) _ _ (IsOk-bind (subscript v "valid") _ h λ _. tt) tt

  IsWritten : Row (PipelineResult Num) → Verification Num → Parts Num → Type 0
  IsWritten saved v p =
      IsOk (page rt indented (saved_row rt iso_json iso saved) (verification_dict iso v) p)

  parts_of-IsWritten :
      (saved : Row (PipelineResult Num)) (v : Verification Num)
      → IsReadable saved.result
      → IsAnswer v
      → OkWith
          (IsWritten saved v)
          (parts_of rt (saved_row rt iso_json iso saved) (verification_dict iso v))
  unfolding parts_of item get_from get row_dict as_dict audit_dict listed iterated IsWritten
  parts_of-IsWritten saved v h g =
      let r = saved.result in
      OkWith-bind _ (IsWritten saved v) (joined (row rt) _) _ (rows-IsOk rt iso_json iso r.events)
        λ rows _.
          OkWith-bind _ (IsWritten saved v) (joined (receipt rt) _) _
            (receipts-IsOk rt iso_json iso r.audit.entries h.receipts)
            λ receipts _.
              OkWith-bind _ (IsWritten saved v) (journey_of rt _) _
                (journey-IsOk rt iso_json iso r h)
                λ journey _.
                  OkWith-bind _ (IsWritten saved v) (triggered rt _) _ (findings_of-IsOk r h.rules)
                    λ rules k.
                      OkWith-bind _ (IsWritten saved v) (joined (finding rt) rules) _ k
                        λ findings _.
                          OkWith-bind _ (IsWritten saved v) (screen_of rt _) _ (screen-IsOk r.case)
                            λ screen _.
                              OkWith-bind _ (IsWritten saved v) (summary_of rt _) _
                                (summary-IsOk r.case)
                                λ summary _.
                                  OkWith-bind _ (IsWritten saved v) (integrity_of rt _) _
                                    (integrity-IsOk v g)
                                    λ integrity _.
                                      page-IsOk rt iso_json iso indented saved v rows receipts
                                        journey findings screen summary integrity

  -- A case file that was saved has a report, whatever it and the verification hold, where the rules
  -- have a text as their name and a detail, the receipts their three fields, the places of the review
  -- are dicts, and an answer of the audit service says whether the chain is valid.
  pub render_report-returns :
      (saved : Row (PipelineResult Num)) (v : Verification Num)
      → IsReadable saved.result
      → IsAnswer v
      → (html : String) × (render_report rt indented
            (saved_row rt iso_json iso saved)
            (verification_dict iso v)
          ≡ ok html)
  unfolding render_report IsWritten
  render_report-returns saved v h g = returned _ (
      OkWith-bind (IsWritten saved v) (λ _. Unit)
        (parts_of rt (saved_row rt iso_json iso saved) (verification_dict iso v)) _
        (parts_of-IsWritten saved v h g) λ p w. w)
