-- ===== src/Llm/Schemas/Inputs.antt =====
-- A tool input that fits the schema of its tool validates.
use vaultwatch.Base.{true, false, ◌&&◌, ◌≡◌, ◌∙◌, none, []}
use vaultwatch.Base.Int.{pos, leb_ℤ}
use vaultwatch.Base.Exec.{ok}
use vaultwatch.Runtime.{Runtime, Validates}
use vaultwatch.Models.{TriageVerdict, CaseFile, ComplianceReport}
use vaultwatch.Models.Values.{Dict, obj, get}
use vaultwatch.Llm.Schemas.{
  conforms, texts, triage_schema, case_schema, compliance_schema, has_type, has_all, typed,
}
use vaultwatch.Llm.Verdicts.{
  required, defaulted, triage_verdict, case_file, compliance_report, in_unit, disclaimer,
}
use vaultwatch.Llm.Verdicts.Fields.{from_field, passed}
use vaultwatch.Llm.Schemas.Members.{
  ReadsIntegers, four, ten, pair_and_one, required-reads, required-value, defaulted-reads,
  defaulted-none, text-reads, flag-reads, likelihood-reads, points-reads, texts-reads, held, there,
  likelihood, points,
}

module _ (rt : Runtime) (v : Validates rt) (n : ReadsIntegers rt) where
  open rt use {Num}

  triage_schema-valid :
      (d : Dict Num)
      → conforms rt (obj triage_schema) (obj d) ≡ true
      → (t : TriageVerdict Num) × (triage_verdict rt d ≡ ok t)
  unfolding conforms has_type has_all triage_verdict
  triage_schema-valid d h =
      let (c₁, c₂, c₃, c₄, n₁, n₂, n₃, n₄) =
        four (held rt d "fraud_likelihood" likelihood) (held rt d "category" (typed "string"))
          (held rt d "escalate" (typed "boolean")) (held rt d "reasoning" (typed "string"))
          (there d "fraud_likelihood") (there d "category") (there d "escalate")
          (there d "reasoning") h in
      let (y, e₁, i) =
        required-reads rt.to_float (λ y. in_unit rt y ≡ true) (conforms rt likelihood) d
          "fraud_likelihood" (likelihood-reads rt v n) c₁ n₁ in
      let (category, e₂) = required-value rt.to_str _ d "category" (text-reads rt v n) c₂ n₂ in
      let (escalate, e₃) = required-value rt.to_bool _ d "escalate" (flag-reads rt v n) c₃ n₃ in
      let (reasoning, e₄) = required-value rt.to_str _ d "reasoning" (text-reads rt v n) c₄ n₄ in
      let verdict : TriageVerdict Num = record {
        fraud_likelihood = y;
        category = category;
        escalate = escalate;
        reasoning = reasoning;
      } in
      (
        verdict,
        from_field (required rt.to_float d "fraud_likelihood") _ e₁
            ∙ from_field (required rt.to_str d "category") _ e₂
            ∙ from_field (required rt.to_bool d "escalate") _ e₃
            ∙ from_field (required rt.to_str d "reasoning") _ e₄
            ∙ passed (in_unit rt y) verdict i,
      )

  case_schema-valid :
      (d : Dict Num)
      → conforms rt (obj case_schema) (obj d) ≡ true
      → (c : CaseFile) × (case_file rt d ≡ ok c)
  unfolding conforms has_type has_all case_file
  case_schema-valid d h =
      let (c₁, c₂, c₃, c₄, c₅, c₆, n₁, n₂, n₃, n₄) =
        ten (held rt d "summary" (typed "string")) (held rt d "risk_score" points)
          (held rt d "evidence" texts) (held rt d "linked_accounts" texts)
          (held rt d "sanctions_hit" (typed "boolean"))
          (held rt d "recommend_compliance_review" (typed "boolean")) (there d "summary")
          (there d "risk_score") (there d "evidence") (there d "recommend_compliance_review") h in
      let (summary, e₁) = required-value rt.to_str _ d "summary" (text-reads rt v n) c₁ n₁ in
      let (score, e₂, i) =
        required-reads rt.to_int (λ z. leb_ℤ (pos 0) z && leb_ℤ z (pos 100) ≡ true)
          (conforms rt points) d "risk_score" (points-reads rt v n) c₂ n₂ in
      let (evidence, e₃) = defaulted-reads rt.to_strs _ [] d "evidence" (texts-reads rt v n) c₃ in
      let (linked, e₄) =
        defaulted-reads rt.to_strs _ [] d "linked_accounts" (texts-reads rt v n) c₄ in
      let (hit, e₅) = defaulted-reads rt.to_bool _ false d "sanctions_hit" (flag-reads rt v n) c₅ in
      let (review, e₆) =
        required-value rt.to_bool _ d "recommend_compliance_review" (flag-reads rt v n) c₆ n₄ in
      let c : CaseFile = record {
        summary = summary;
        risk_score = score;
        evidence = evidence;
        linked_accounts = linked;
        sanctions_hit = hit;
        recommend_compliance_review = review;
      } in
      (
        c,
        from_field (required rt.to_str d "summary") _ e₁
            ∙ from_field (required rt.to_int d "risk_score") _ e₂
            ∙ from_field (defaulted rt.to_strs [] d "evidence") _ e₃
            ∙ from_field (defaulted rt.to_strs [] d "linked_accounts") _ e₄
            ∙ from_field (defaulted rt.to_bool false d "sanctions_hit") _ e₅
            ∙ from_field (required rt.to_bool d "recommend_compliance_review") _ e₆
            ∙ passed (leb_ℤ (pos 0) score && leb_ℤ score (pos 100)) c i,
      )

  compliance_schema-valid :
      (d : Dict Num)
      → conforms rt (obj compliance_schema) (obj d) ≡ true
      → get d "disclaimer" ≡ none
      → (r : ComplianceReport) × (compliance_report rt d ≡ ok r)
  unfolding conforms has_type has_all compliance_report
  compliance_schema-valid d h absent =
      let (c₁, c₂, n₁) =
        pair_and_one (held rt d "narrative" (typed "string"))
          (held rt d "obligations_referenced" texts) (there d "narrative") h in
      let (narrative, e₁) = required-value rt.to_str _ d "narrative" (text-reads rt v n) c₁ n₁ in
      let (obligations, e₂) =
        defaulted-reads rt.to_strs _ [] d "obligations_referenced" (texts-reads rt v n) c₂ in
      let r : ComplianceReport = record {
        narrative = narrative;
        obligations_referenced = obligations;
        disclaimer = disclaimer;
      } in
      (
        r,
        from_field (required rt.to_str d "narrative") _ e₁
            ∙ from_field (defaulted rt.to_strs [] d "obligations_referenced") _ e₂
            ∙ from_field (defaulted rt.to_str disclaimer d "disclaimer") _
                (defaulted-none rt.to_str disclaimer d "disclaimer" absent),
      )

-- the tools by which an agent ends
pub data Emitted : Type 0 where
  triage case compliance : Emitted

abbrev pub schema_of : {N : Type 0} → Emitted → Dict N
schema_of triage = triage_schema
schema_of case = case_schema
schema_of compliance = compliance_schema

module _ (rt : Runtime) where
  open rt use {Num}

  -- the input of the tool makes its verdict
  abbrev pub IsAccepted : Emitted → Dict Num → Type 0
  IsAccepted triage d = (t : TriageVerdict Num) × (triage_verdict rt d ≡ ok t)
  IsAccepted case d = (c : CaseFile) × (case_file rt d ≡ ok c)
  IsAccepted compliance d = (r : ComplianceReport) × (compliance_report rt d ≡ ok r)

  -- Where pydantic takes a value of a field's own type as it is, and an integer as a float, whatever
  -- input of an emitting tool fits the schema that the model is given, and has no member
  -- `disclaimer`, validates as the tool's verdict.
  pub schema_of-IsAccepted :
      Validates rt
      → ReadsIntegers rt
      → (tool : Emitted) (d : Dict Num) → conforms rt (obj (schema_of tool)) (obj d) ≡ true
      → get d "disclaimer" ≡ none
      → IsAccepted tool d
  schema_of-IsAccepted v n triage d h absent = triage_schema-valid rt v n d h
  schema_of-IsAccepted v n case d h absent = case_schema-valid rt v n d h
  schema_of-IsAccepted v n compliance d h absent = compliance_schema-valid rt v n d h absent
