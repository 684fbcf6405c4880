-- ===== src/Tests/Reports.antt =====
-- Reports of a run whose texts are full of markup.
use vaultwatch.Base.{true, ℕ, ◌+◌, ◌*◌, String, ◌≡◌, refl, none, some, [], ◌∷◌}
use vaultwatch.Base.Int.{pos}
use vaultwatch.Base.Exec.{ok}
use vaultwatch.Models.{RuleEngineVerdict}
use vaultwatch.Runtime.{or_else}
use vaultwatch.Models.Values.{Json, Dict, str, int, bool, obj, empty, entry, get, item, subscript}
use vaultwatch.Llm.Transcripts.{get_from}
use vaultwatch.CaseRecord.{PipelineResult, new_result}
use vaultwatch.CaseRecord.Dump.{as_dict, rules_dict, audit_dict, transaction_dict}
use vaultwatch.Reports.{iterated, escaped, esc, str_of}
use vaultwatch.Reports.Reads.{triggered, listed, recipient_of}
use vaultwatch.CaseStore.{Row}
use vaultwatch.Api.{Verification, checked}
use vaultwatch.Reports.Escape.{opening, occurrences, html_escape}
use vaultwatch.Reports.Counts.{of_page, of_row, of_receipt, of_rules}
use vaultwatch.Reports.Safety.{events_in, receipts_in, rules_in, render_report-Marks}
use vaultwatch.Reports.Returns.{row_dict, verification_dict, IsAnswer}
use vaultwatch.Reports.Page.{render_report}
use vaultwatch.Reports.Total.{IsReadable}
use vaultwatch.Reports.Written.{saved_row}
use vaultwatch.Reports.Complete.{render_report-returns}
use vaultwatch.Tests.Fixture.{cents, payment, context, tally}

escaped_tag :
    html_escape "<b>\"Tom & Jerry's\"</b>" ≡ "&lt;b&gt;&quot;Tom &amp; Jerry&#x27;s&quot;&lt;/b&gt;"
unfolding html_escape
escaped_tag = refl

abbrev rule : Dict ℕ
rule = entry "rule" (str "<script>") (entry "detail" (str "\"new\" beneficiary") empty)

abbrev receipt : Json ℕ
receipt = obj (
    entry "seq" (int (pos 1))
      (entry "event_type" (str "case.opened") (entry "hash" (str "<i>") empty)))

abbrev verdict : RuleEngineVerdict ℕ
verdict = record {
  transaction_id = "tx_1";
  risk_score = pos 30;
  risk_band = "medium";
  triggered_rules = rule ∷ [];
}

abbrev result : PipelineResult ℕ
result = record (new_result payment context empty "replay") {
  rules = some verdict;
  audit = record (new_result payment context empty "replay").audit {
    entries = receipt ∷ receipt ∷ [];
  };
}

abbrev saved : Row (PipelineResult ℕ)
saved = record { transaction_id = "<tx>"; account_id = "acct_1"; result = result }

abbrev verification : Verification ℕ
verification = checked (obj (entry "valid" (bool true) empty)) 7

abbrev printed : Json ℕ → String
printed _ = "{\"a\": \"<b>\"}"

readable : IsReadable result
unfolding new_result get_from get subscript item
readable = record {
  rules = ((("<script>", refl), tt), tt);
  receipts = ((tt, tt, tt), ((tt, tt, tt), tt));
  origin = (empty, refl);
  location = (empty, refl);
}

answer : IsAnswer verification
unfolding subscript item
answer = tt

render_report-returns_example :
    (html : String) × (render_report cents printed
        (saved_row cents tally tally saved)
        (verification_dict tally verification)
      ≡ ok html)
render_report-returns_example =
    render_report-returns cents tally tally printed saved verification readable answer

-- One rule, no event, and two receipts: 148 + 4 + 2 * 8 tags begin.
render_report-Marks_example :
    occurrences b'<'
      (render_report-returns cents tally tally printed saved verification readable answer).0
    ≡ of_page opening
      + of_rules opening (rules_in cents (saved_row cents tally tally saved))
      + of_row opening * events_in cents (saved_row cents tally tally saved)
      + of_receipt opening * receipts_in cents (saved_row cents tally tally saved)
render_report-Marks_example =
    render_report-Marks cents printed opening (saved_row cents tally tally saved)
      (verification_dict tally verification)
      (render_report-returns cents tally tally printed saved verification readable answer).1

tags :
    of_page opening
      + of_rules opening (rules_in cents (saved_row cents tally tally saved))
      + of_row opening * events_in cents (saved_row cents tally tally saved)
      + of_receipt opening * receipts_in cents (saved_row cents tally tally saved)
    ≡ 168
unfolding item get_from get row_dict triggered as_dict or_else rules_dict iterated listed new_result
    audit_dict
tags = refl

-- A recipient that is known by its identifier only is written as `None`.
unnamed :
    escaped cents (
      recipient_of
        (obj (transaction_dict tally tally (record payment { beneficiary_name = none }))))
    ≡ ok "None"
unfolding escaped recipient_of get_from get transaction_dict esc html_escape str_of
unnamed = refl
