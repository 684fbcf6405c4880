-- ===== src/Reports/Reads.antt =====
-- agents-python/app/reports.py: what `render_report` reads of a record.
use vaultwatch.Base.{String, ◌<>◌, List, if◌then◌else◌}
use vaultwatch.Base.Exec.{Result, ok}
use vaultwatch.Base.Exec.Results.{◌>>=◌}
use vaultwatch.Runtime.{or_else, Runtime, truth}
use vaultwatch.Models.Values.{
  Json, Dict, null, str, arr, obj, nil, cons, empty, entry, item, subscript, items_of,
}
use vaultwatch.Llm.Transcripts.{get_from}
use vaultwatch.Reports.{
  joined, iterated, spaced, Subject, str_of, familiarity, row, receipt, finding, tool_evidence,
}

-- what `render_report` computes before it writes the page
pub record Parts (N : Type 0) : Type 0 where
  pub result : Json N
  pub tx : Json N
  pub review : Json N
  pub audit : Json N
  pub payment : Json N
  pub rows : String
  pub receipts : String
  pub decision : Json N
  pub journey : String
  pub findings : String
  pub screen : String
  pub summary : Json N
  pub integrity : String

module _ {N : Type 0} where
  -- a payment of a record that has none
  abbrev pub no_payment : Json N
  no_payment = obj (
      entry "action" (str "not_evaluated")
        (entry "reasons" (arr (cons (str "This record predates payment controls.") nil)) empty))

  abbrev pub no_alert : Json N
  no_alert = obj (entry "title" (str "Closed without alert") (entry "severity" (str "low") empty))

  unfoldable pub reasons_of : Json N → Result (Json N)
  reasons_of payment = do
    reasons ← subscript payment "reasons"
    xs ← iterated reasons
    text ← spaced xs
    ok (str text)

  unfoldable pub recipient_of : Json N → Result (Json N)
  recipient_of tx = do
    id ← get_from tx "beneficiary_id" (str "Not recorded")
    get_from tx "beneficiary_name" id

  abbrev pub location_data : Json N → Json N → Json N
  location_data tx review = obj (entry "transaction" tx (entry "review" review empty))

  unfoldable pub check_data : Json N → Result (Json N)
  check_data result = do
    rules ← get_from result "rules" null
    prefilter ← get_from result "prefilter" null
    ok (obj (entry "rules" rules (entry "prefilter" prefilter empty)))

  unfoldable pub investigation_data : Json N → Json N → Result (Json N)
  investigation_data result decision = do
    triage ← get_from result "triage" null
    case_file ← get_from result "case" null
    compliance ← get_from result "compliance" null
    detail ← get_from decision "detail" (obj empty)
    warning ← get_from detail "security_event" null
    ok (
        obj (
          entry "triage" triage (
            entry "case" case_file
              (entry "compliance" compliance (entry "security_event" warning empty)))))

module _ (rt : Runtime) where
  open rt use {Num}

  unfoldable pub familiar : Json Num → String → Subject → Result String
  familiar review k subject = do v ← get_from review k null; ok (familiarity rt v subject)

  unfoldable pub correlation : Json Num → Result String
  correlation decision = do
    fused ← get_from decision "fused_with_security_event" null
    ok (
        if truth rt fused
        then "Matched Go login warning to this account"
        else "No matched login warning")

  unfoldable pub narrative_of : Json Num → Result (Json Num)
  narrative_of result = do
    compliance ← get_from result "compliance" null
    get_from (or_else rt compliance (obj empty)) "narrative"
        (str "No compliance draft was requested. See the payment decision for the current outcome.")

  unfoldable pub evidence_data : Json Num → Result (Json Num)
  evidence_data result = do
    events ← get_from result "events" (arr nil)
    es ← iterated events
    details ← tool_evidence rt es
    ok (arr (items_of details))

  -- a place's name in `journey`
  unfoldable pub place_name : Json Num → String → Result String
  place_name review k = do
    place ← get_from review k (obj empty)
    name ← get_from place "name" (str "Not recorded")
    ok (str_of rt name)

  unfoldable pub journey_of : Json Num → Result String
  journey_of review = do
    origin ← place_name review "origin"
    location ← place_name review "current_location"
    ok (origin <> " → " <> location)

  -- `(result.get("rules") or {}).get("triggered_rules", [])`
  unfoldable pub triggered : Json Num → Result (List (Json Num))
  triggered result = do
    rules ← get_from result "rules" null
    listed ← get_from (or_else rt rules (obj empty)) "triggered_rules" (arr nil)
    iterated listed

  unfoldable pub listed : Json Num → String → Result (List (Json Num))
  listed d k = do v ← get_from d k (arr nil); iterated v

  unfoldable pub screen_of : Json Num → Result String
  screen_of case_file =
      if truth rt case_file
      then (do
        hit ← get_from case_file "sanctions_hit" null
        ok (if truth rt hit then "Match found" else "No match"))
      else ok "Not screened: case closed before investigation"

  unfoldable pub summary_of : Json Num → Result (Json Num)
  summary_of case_file =
      if truth rt case_file
      then subscript case_file "summary"
      else ok
          (str "Initial checks did not require an investigation. The case closed without an alert.")

  unfoldable pub integrity_of : Dict Num → Result String
  integrity_of verification = do
    current ← get_from (obj verification) "verify" null
    if truth rt current
        then (do
          valid ← subscript current "valid"
          ok (if truth rt valid then "Valid" else "BROKEN"))
        else ok "Unavailable"

  -- the statements before the page
  unfoldable pub parts_of : Dict Num → Dict Num → Result (Parts Num)
  parts_of record_dict verification = do
    result ← item record_dict "result"
    tx ← get_from result "transaction" (obj empty)
    review ← get_from result "review" (obj empty)
    audit ← get_from result "audit" (obj empty)
    paid ← get_from result "payment" null
    events ← listed result "events"
    rows ← joined (row rt) events
    entries ← listed audit "entries"
    receipts ← joined (receipt rt) entries
    alert ← get_from result "alert" null
    journey ← journey_of review
    rules ← triggered result
    findings ← joined (finding rt) rules
    case_file ← get_from result "case" null
    screen ← screen_of case_file
    summary ← summary_of case_file
    integrity ← integrity_of verification
    ok (record {
      result = result;
      tx = tx;
      review = review;
      audit = audit;
      payment = or_else rt paid no_payment;
      rows = rows;
      receipts = receipts;
      decision = or_else rt alert no_alert;
      journey = journey;
      findings = findings;
      screen = screen;
      summary = summary;
      integrity = integrity;
    })
