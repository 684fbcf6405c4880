-- ===== src/Tests/Clients.antt =====
-- A rules engine that answers each request with one verdict.
use vaultwatch.Base.{ℕ, suc, ◌≡◌, refl}
use vaultwatch.Base.Exec.{ok}
use vaultwatch.Models.Values.{obj}
use vaultwatch.CaseRecord.Dump.{rules_dict}
use vaultwatch.Clients.{Http, score, rstrip_slash}
use vaultwatch.Clients.Answers.{score-rules_dict}
use vaultwatch.Tests.Fixture.{cents, payment, context, scored, tally}
use vaultwatch.Tests.Services.{cents-Validates}

-- a response is its status
abbrev pub engine : Http ℕ ℕ
engine = record {
  Response = ℕ;
  post = λ url body w. (ok 200, suc w);
  get = λ url w. (ok 200, suc w);
  raise_for_status = λ status. ok tt;
  json = λ status. ok (obj (rules_dict (scored 60)));
}

score-rules_dict_example :
    score cents tally tally engine "http://rules/" payment context 4 ≡ (ok (scored 60), 5)
score-rules_dict_example =
    score-rules_dict cents cents-Validates tally tally engine "http://rules/" payment context
      (scored 60) 200 4 5 refl refl refl

stripped : rstrip_slash "http://rules//" ≡ "http://rules"
unfolding rstrip_slash
stripped = refl
