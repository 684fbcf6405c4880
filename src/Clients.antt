-- ===== src/Clients.antt =====
-- The clients of the Rust service: agents-python/app/audit.py and agents-python/app/risk_engine.py,
-- over httpx, which is a parameter. Clients/Answers.antt has what they make of its answers.
pub mod Answers
use vaultwatch.Base.{ℕ, String, ◌<>◌, Option, none, some, List, [], ◌∷◌, truthy, eqb, if◌then◌else◌}
use Prim.Native.Char.{code}
use vaultwatch.Base.Exec.{Result, ok, err, value_error, other_exception, Exec, lift, pure, ◌>>=◌}
use vaultwatch.Runtime.{Runtime}
use vaultwatch.Models.{Transaction, ScoringContext, RuleEngineVerdict, stage_value}
use vaultwatch.Models.Values.{Json, Dict, Items, str, arr, obj, nil, cons, empty, entry}
use vaultwatch.CaseRecord.Dump.{
  transaction_dict, context_dict, event_dict, case_dict, compliance_dict, or_null,
}
use vaultwatch.Audit.{Payload, opened, event_payload, completed, AuditService}
use vaultwatch.Llm.Verdicts.{rule_engine_verdict}

-- An `httpx.AsyncClient`. A request that gets no response raises; `raise_for_status` and `json` are
-- the response's methods.
pub record Http (N W : Type 0) : Type 1 where
  pub Response : Type 0
  pub post : String → Dict N → Exec W Response
  pub get : String → Exec W Response
  pub raise_for_status : Response → Result Unit
  pub json : Response → Result (Json N)

-- `s.rstrip("/")`
unfoldable pub rstrip_slash : String → String
rstrip_slash String.[] = ""
rstrip_slash (String.◌∷◌ c s) =
    let rest = rstrip_slash s in
    if truthy rest then String.◌∷◌ c rest else if eqb (code c) b'/' then "" else String.◌∷◌ c ""

module _ {N : Type 0} (iso_json iso : ℕ → String) where
  -- the payloads that a run appends
  unfoldable pub payload_dict : Payload N → Dict N
  payload_dict (opened tx ctx review mode) =
      entry "transaction" (obj (transaction_dict iso_json iso tx)) (
        entry "context" (obj (context_dict ctx))
          (entry "review" (obj review) (entry "model_mode" (str mode) empty)))
  payload_dict (event_payload e) = event_dict iso_json iso e
  payload_dict (completed stage c report) = entry "stage" (str (stage_value stage)) (
      entry "case" (or_null (λ x. obj (case_dict x)) c)
        (entry "compliance" (or_null (λ x. obj (compliance_dict x)) report) empty))

  module _ {W : Type 0} (http : Http N W) where
    open http use {raise_for_status, json}

    -- `AuditClient.append`
    unfoldable pub append : String → String → Payload N → Exec W (Json N)
    append transaction_id event_type payload = do
      response ← http.post "/v1/audit/append" (
          entry "event_type" (str event_type) (
            entry "subject_id" (str transaction_id)
              (entry "payload" (obj (payload_dict payload)) empty)))
      _ ← lift (raise_for_status response)
      lift (json response)

    -- `AuditClient.verify`
    unfoldable pub verify : Exec W (Json N)
    verify = do
      response ← http.get "/v1/audit/verify"
      _ ← lift (raise_for_status response)
      lift (json response)

    abbrev pub audit_client : AuditService N W
    audit_client = record { append = append; verify = verify }

module _ (rt : Runtime) where
  open rt use {Num}

  -- `HttpRiskEngineClient.score`
  module _ (iso_json iso : ℕ → String) {W : Type 0} (http : Http Num W) (base_url : String) where
    unfoldable pub verdict_in : Json Num → Exec W (RuleEngineVerdict Num)
    verdict_in answer = lift (rule_engine_verdict rt answer)

    unfoldable pub read_verdict : http.Response → Exec W (RuleEngineVerdict Num)
    read_verdict response =
        lift (http.raise_for_status response) >>= λ _. lift (http.json response) >>= verdict_in

    unfoldable pub score : Transaction Num → ScoringContext Num → Exec W (RuleEngineVerdict Num)
    score tx ctx = do
      response ← http.post (rstrip_slash base_url <> "/v1/score") (
          entry "transaction" (obj (transaction_dict iso_json iso tx))
            (entry "context" (obj (context_dict ctx)) empty))
      read_verdict response
