-- ===== src/Tests/Decisions.antt =====
-- The payment policy, the payment control, the security feed and the case store on concrete values.
use vaultwatch.Base.{ℕ, ◌≡◌, ◌↔◌, refl, false, none, some, List, [], ◌∷◌, take, min, arith}
use vaultwatch.Base.Int.{pos}
use vaultwatch.Base.Exec.{cancelled}
use vaultwatch.Base.Exec.Ends.{Ends}
use vaultwatch.Base.Exec.{ok}
use vaultwatch.Models.{Alert, CaseFile, high}
use vaultwatch.Models.Values.{empty}
use vaultwatch.CaseRecord.{PipelineResult, new_result, block, allow}
use vaultwatch.Audit.{Run}
use vaultwatch.Payments.{payment_policy, apply_payment_control}
use vaultwatch.Payments.Policy.{IsClear, IsBlocking, policy_decides}
use vaultwatch.Payments.Evidence.{policy_on_dict, policy_on_dict-as_dict}
use vaultwatch.CaseRecord.Dump.{as_dict}
use vaultwatch.Models.Values.{obj}
use vaultwatch.Payments.Control.{IsControlled, control_decides}
use vaultwatch.SecurityFeed.{recent_security_event}
use vaultwatch.SecurityFeed.Window.{History, latest, replay, recent-eq-latest}
use vaultwatch.CaseStore.{Row, recent, get, find_row}
use vaultwatch.CaseStore.History.{saved, store-eq-history}
use vaultwatch.Tests.Fixture.{tally, cents, clock, lost_audit, payment, context, warning, scored}

abbrev case : CaseFile
case = record {
  summary = "unusual amount";
  risk_score = pos 72;
  evidence = [];
  linked_accounts = [];
  sanctions_hit = false;
  recommend_compliance_review = false;
}

abbrev alert : Alert ℕ
alert = record {
  transaction_id = "tx_1";
  account_id = "acct_1";
  severity = high;
  title = "Financial risk alert";
  case = case;
  security_event = none;
  fused_with_security_event = false;
  timestamp = 0;
}

-- a case whose rules are critical, and whose alert is not
abbrev masked : PipelineResult ℕ
masked = record (new_result payment context empty "replay") {
  rules = some (record (scored 90) { risk_band = "critical" });
  case = some case;
  alert = some alert;
}

policy_decides_example :
    (((payment_policy masked).0 ≡ block) ↔ IsBlocking masked)
    × (((payment_policy masked).0 ≡ allow) ↔ IsClear masked)
policy_decides_example = policy_decides masked

policy_on_dict-as_dict_example :
    policy_on_dict cents (obj (as_dict tally tally masked)) ≡ ok (payment_policy masked)
policy_on_dict-as_dict_example = policy_on_dict-as_dict cents tally tally masked

abbrev opening : Run ℕ ℕ
opening = record { result = new_result payment context empty "replay"; world = 0 }

control_decides_example :
    Ends
      (λ _ s. IsControlled cents clock (some lost_audit) opening.result s.result)
      (λ e _. e ≡ cancelled)
      (apply_payment_control cents clock (some lost_audit) opening)
control_decides_example = control_decides cents clock (some lost_audit) opening

abbrev history : History ℕ
history =
    (800000000, record warning { account_id = some "acct_2" })
    ∷ (700000000, record warning { type = "new_device" })
    ∷ (100000000, warning)
    ∷ []

recent-eq-latest_example :
    recent_security_event (replay history) "acct_1" 900000000 ≡ latest "acct_1" 900000000 history
recent-eq-latest_example =
    recent-eq-latest 900000000 "acct_1" history (omega arith, (omega arith, (omega arith, tt)))

recent_event : latest "acct_1" 900000000 history ≡ some (record warning { type = "new_device" })
recent_event = refl

abbrev rows : List (Row ℕ)
rows =
    record { transaction_id = "tx_3"; account_id = "acct_1"; result = 3 }
    ∷ record { transaction_id = "tx_1"; account_id = "acct_1"; result = 2 }
    ∷ record { transaction_id = "tx_1"; account_id = "acct_1"; result = 1 }
    ∷ []

store-eq-history_example :
    (recent 50 (saved 2 rows) ≡ take (min 50 2) rows)
    × (get "tx_1" (saved 2 rows) ≡ find_row "tx_1" (take 2 rows))
store-eq-history_example = store-eq-history 2 50 "tx_1" rows
