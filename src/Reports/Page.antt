-- ===== src/Reports/Page.antt =====
-- `render_report` of agents-python/app/reports.py: the page that it writes.
use vaultwatch.Base.{String, ◌<>◌, truthy, List, [], ◌∷◌, if◌then◌else◌}
use vaultwatch.Base.Exec.{Result, ok}
use vaultwatch.Base.Exec.Results.{◌>>=◌}
use vaultwatch.Runtime.{Runtime}
use vaultwatch.Models.Values.{Json, Dict, str, arr, obj, nil, item, subscript}
use vaultwatch.Llm.Transcripts.{get_from}
use vaultwatch.Reports.{fstring, device, recipient, esc, escaped}
use vaultwatch.Reports.Reads.{
  Parts, reasons_of, recipient_of, location_data, check_data, investigation_data, familiar,
  correlation, narrative_of, evidence_data, parts_of,
}

-- `findings or "<li>...</li>"`
unfoldable pub shown_findings : String → String
shown_findings findings =
    if truthy findings then findings else "<li>No deterministic rules triggered.</li>"

module _ (rt : Runtime) where
  open rt use {Num}

  -- `json.dumps(value, indent=2, ensure_ascii=False)` is a parameter
  module _ (indented : Json Num → String) where
    unfoldable pub block : String → Json Num → String
    block title value =
        "<section><h2>"
        <> esc rt (str title)
        <> "</h2><pre>"
        <> esc rt (str (indented value))
        <> "</pre></section>"

    unfoldable pub blocked : String → Result (Json Num) → Result String
    blocked title value = do v ← value; ok (block title v)

    module _ (record_dict verification : Dict Num) (p : Parts Num) where
      unfoldable pub heading_parts : List (Result String)
      heading_parts =
          ok "<!doctype html><html lang=\"en\"><meta charset=\"utf-8\"><title>VaultWatch case "
          ∷ escaped rt (item record_dict "transaction_id")
          ∷ ok
              "</title>\n<style>body{font:15px/1.6 system-ui;max-width:1000px;margin:40px auto;padding:0 24px;color:#17212b}h1{margin-bottom:0}h2{font-size:19px;margin-top:32px}.note{background:#edf3f7;padding:16px;border-left:4px solid #376d82}table{border-collapse:collapse;width:100%;font-size:13px}td,th{border-bottom:1px solid #ddd;padding:9px;text-align:left;vertical-align:top}pre{white-space:pre-wrap;overflow-wrap:anywhere;background:#f4f6f8;padding:16px;font-size:12px}.hash{word-break:break-all;font:11px monospace}section{break-inside:avoid}@media print{body{margin:0;max-width:none}button{display:none}}</style>\n<h1>VaultWatch audit report</h1><p>"
          ∷ escaped rt (item record_dict "transaction_id")
          ∷ ok " · "
          ∷ escaped rt (get_from p.tx "account_id" (str ""))
          ∷ ok "</p>\n<p class=\"note\">Synthetic demonstration · "
          ∷ escaped rt (get_from p.result "model_mode" (str "unknown"))
          ∷ ok
              " model mode · No money moved. No regulatory filing. Hash verification checks record integrity, not the truth of a fraud allegation.</p>\n<h2>"
          ∷ escaped rt (get_from p.tx "amount" (str ""))
          ∷ ok " "
          ∷ escaped rt (get_from p.tx "currency" (str ""))
          ∷ ok " · "
          ∷ escaped rt (subscript p.decision "title")
          ∷ ok "</h2><p>Final severity: <strong>"
          ∷ escaped rt (subscript p.decision "severity")
          ∷ ok "</strong>. Processing audit at completion: <strong>"
          ∷ []

      unfoldable pub payment_parts : List (Result String)
      payment_parts =
          escaped rt (get_from p.audit "status" (str "not recorded"))
          ∷ ok "</strong>.</p>\n<h2>Case summary</h2><p>"
          ∷ ok (esc rt p.summary)
          ∷ ok "</p>\n<h2>Payment decision: "
          ∷ escaped rt (subscript p.payment "action")
          ∷ ok "</h2><p>"
          ∷ escaped rt (reasons_of p.payment)
          ∷ ok "</p>\n<p>Execution: "
          ∷ escaped rt (get_from p.payment "execution_status" (str "not recorded"))
          ∷ ok ". Local simulation only; no money moved.</p>\n"
          ∷ ok (block "Payment policy and simulation receipt" p.payment)
          ∷ []

      unfoldable pub table_parts : List (Result String)
      table_parts =
          ok "\n<table><tr><th>Recipient</th><td>"
          ∷ escaped rt (recipient_of p.tx)
          ∷ ok "</td></tr>\n<tr><th>Account location journey</th><td>"
          ∷ ok (esc rt (str p.journey))
          ∷ ok " · "
          ∷ escaped rt (get_from p.review "distance_km" (str "Not recorded"))
          ∷ ok " km in "
          ∷ escaped rt (get_from p.review "elapsed_minutes" (str "Not recorded"))
          ∷ ok " minutes</td></tr>\n<tr><th>Device / recipient</th><td>"
          ∷ familiar rt p.review "new_device" device
          ∷ ok " / "
          ∷ familiar rt p.review "new_beneficiary" recipient
          ∷ ok "</td></tr>\n<tr><th>Synthetic watchlist</th><td>"
          ∷ ok (esc rt (str p.screen))
          ∷ ok "</td></tr>\n<tr><th>Security correlation</th><td>"
          ∷ correlation rt p.decision
          ∷ ok "</td></tr>\n<tr><th>Current audit verification</th><td>"
          ∷ ok (esc rt (str p.integrity))
          ∷ ok " · checked "
          ∷ escaped rt (get_from (obj verification) "checked_at" (str "Not available"))
          ∷ ok "</td></tr></table>\n<p>"
          ∷ escaped rt
              (get_from p.review "location_note" (str "Location evidence was not recorded."))
          ∷ []

      unfoldable pub timeline_parts : List (Result String)
      timeline_parts =
          ok "</p>\n<h2>Reasons for review</h2><ul>"
          ∷ ok (shown_findings p.findings)
          ∷ ok "</ul>\n<p>"
          ∷ escaped rt (narrative_of rt p.result)
          ∷ ok
              "</p>\n<h2>Processing timeline</h2><table><tr><th>Time (UTC)</th><th>Stage</th><th>What happened</th></tr>"
          ∷ ok p.rows
          ∷ ok "</table>\n"
          ∷ []

      unfoldable pub evidence_parts : List (Result String)
      evidence_parts =
          ok (block "Transaction and location data" (location_data p.tx p.review))
          ∷ ok "\n"
          ∷ blocked "Rules and statistical check" (check_data p.result)
          ∷ ok "\n"
          ∷ blocked "Investigation and compliance draft" (investigation_data p.result p.decision)
          ∷ ok "\n"
          ∷ blocked "Research tool evidence" (evidence_data rt p.result)
          ∷ ok
              "\n<h2>Audit receipts</h2><p>Each receipt links to the previous record through a SHA-256 hash. The local file-backed chain is tamper-evident; it is not independently signed or externally anchored.</p><table><tr><th>Sequence</th><th>Event</th><th>Hash</th></tr>"
          ∷ ok p.receipts
          ∷ ok "</table>\n"
          ∷ ok (block "Current chain verification" (obj verification))
          ∷ ok "\n"
          ∷ blocked "Audit errors" (get_from p.audit "errors" (arr nil))
          ∷ ok "\n<p>Use your browser’s Print command to save this report as a PDF.</p></html>"
          ∷ []

      -- the f-string that is returned, in five parts
      unfoldable pub page : Result String
      page = fstring (
          fstring heading_parts
          ∷ fstring payment_parts
          ∷ fstring table_parts
          ∷ fstring timeline_parts
          ∷ fstring evidence_parts
          ∷ [])

    unfoldable pub render_report : Dict Num → Dict Num → Result String
    render_report record_dict verification = do
      p ← parts_of rt record_dict verification
      page record_dict verification p
