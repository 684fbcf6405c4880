-- ===== src/Llm/Verdicts/Fields.antt =====
-- When the validation of a verdict succeeds, and what it then guarantees.
use vaultwatch.Base.{
  [], ◌∙◌, ◌≡◌, refl, ap, String, Bool, true, false, ◌&&◌, none, some, Option, if◌then◌else◌, arith,
}
use vaultwatch.Base.Int.{ℤ, pos, leb_ℤ, ◌≤ℤ◌}
use vaultwatch.Base.Exec.{Result, ok, err, value_error}
use vaultwatch.Base.Exec.Results.{◌>>=◌, Yields, Yields-bind}
use vaultwatch.Runtime.{Runtime, Validates, strs}
use vaultwatch.Models.{CaseFile}
use vaultwatch.Models.Values.{Json, Dict, get, str, int, bool, arr}
use vaultwatch.Llm.Verdicts.{or_invalid, required, defaulted, case_file, triage_verdict, in_unit}

after_test :
    {B : Type 0} {P : B → Type 0} (t : Bool) (b : B)
    → (t ≡ true → P b)
    → Yields P (if t then ok b else err (value_error "ValidationError"))
after_test true b h = record { at = h refl }
after_test false b h = record { at = tt }

pub from_field :
    {A B : Type 0} {a : A} (m : Result A) (f : A → Result B) → m ≡ ok a → (m >>= f) ≡ f a
from_field m f e = ap (λ r. r >>= f) e

pub passed :
    {B : Type 0} (t : Bool) (b : B)
    → t ≡ true
    → (if t then ok b else err (value_error "ValidationError")) ≡ ok b
passed t b e = rw e

module _ {N A : Type 0} (convert : Json N → Option A) where
  pub required-eq :
      (d : Dict N) (k : String) {x : Json N} {a : A}
      → get d k ≡ some x
      → convert x ≡ some a
      → required convert d k ≡ ok a
  unfolding required
  required-eq d k {x} {a} e h =
      ap
        (λ o. elim o [
          | none ↦ err (value_error "ValidationError")
          | some v ↦ or_invalid (convert v)
        ])
        e
      ∙ ap or_invalid h

  pub defaulted-eq :
      (a₀ : A) (d : Dict N) (k : String) {x : Json N} {a : A}
      → get d k ≡ some x
      → convert x ≡ some a
      → defaulted convert a₀ d k ≡ ok a
  unfolding defaulted
  defaulted-eq a₀ d k {x} {a} e h =
      ap (λ o. elim o [ none ↦ ok a₀ | some v ↦ or_invalid (convert v) ]) e ∙ ap or_invalid h

abbrev pub InRange : CaseFile → Type 0
InRange c = (pos 0 ≤ℤ c.risk_score) × (c.risk_score ≤ℤ pos 100)

in_range : (z : ℤ) → leb_ℤ (pos 0) z && leb_ℤ z (pos 100) ≡ true → (pos 0 ≤ℤ z) × (z ≤ℤ pos 100)
in_range z h = ground arith

module _ (rt : Runtime) where
  open rt use {Num}

  pub case_file-InRange : (d : Dict Num) → Yields InRange (case_file rt d)
  unfolding case_file
  case_file-InRange d = Yields-bind (required rt.to_str d "summary") _ λ summary _.
      Yields-bind (required rt.to_int d "risk_score") _ λ score _.
        Yields-bind (defaulted rt.to_strs [] d "evidence") _ λ evidence _.
          Yields-bind (defaulted rt.to_strs [] d "linked_accounts") _ λ linked _.
            Yields-bind (defaulted rt.to_bool false d "sanctions_hit") _ λ hit _.
              Yields-bind (required rt.to_bool d "recommend_compliance_review") _
                λ review _. after_test _ _ λ h. in_range score h

  pub triage_verdict-InRange :
      (d : Dict Num) → Yields (λ t. in_unit rt t.fraud_likelihood ≡ true) (triage_verdict rt d)
  unfolding triage_verdict
  triage_verdict-InRange d =
      Yields-bind (required rt.to_float d "fraud_likelihood") _ λ likelihood _.
        Yields-bind (required rt.to_str d "category") _ λ category _.
          Yields-bind (required rt.to_bool d "escalate") _ λ escalate _.
            Yields-bind (required rt.to_str d "reasoning") _ λ reasoning _. after_test _ _ λ h. h

  -- Fields of their own types are taken as they are.
  pub case_file-fields :
      (d : Dict Num) (v : Validates rt) (c : CaseFile)
      → get d "summary" ≡ some (str c.summary)
      → get d "risk_score" ≡ some (int c.risk_score)
      → get d "evidence" ≡ some (arr (strs c.evidence))
      → get d "linked_accounts" ≡ some (arr (strs c.linked_accounts))
      → get d "sanctions_hit" ≡ some (bool c.sanctions_hit)
      → get d "recommend_compliance_review" ≡ some (bool c.recommend_compliance_review)
      → leb_ℤ (pos 0) c.risk_score && leb_ℤ c.risk_score (pos 100) ≡ true
      → case_file rt d ≡ ok c
  unfolding case_file
  case_file-fields d v c e1 e2 e3 e4 e5 e6 e7 =
      from_field (required rt.to_str d "summary") _ (required-eq _ d _ e1 (v.to_str-str c.summary))
      ∙ from_field (required rt.to_int d "risk_score") _
          (required-eq _ d _ e2 (v.to_int-int c.risk_score))
      ∙ from_field (defaulted rt.to_strs [] d "evidence") _
          (defaulted-eq _ [] d _ e3 (v.to_strs-strs c.evidence))
      ∙ from_field (defaulted rt.to_strs [] d "linked_accounts") _
          (defaulted-eq _ [] d _ e4 (v.to_strs-strs c.linked_accounts))
      ∙ from_field (defaulted rt.to_bool false d "sanctions_hit") _
          (defaulted-eq _ false d _ e5 (v.to_bool-bool c.sanctions_hit))
      ∙ from_field (required rt.to_bool d "recommend_compliance_review") _
          (required-eq _ d _ e6 (v.to_bool-bool c.recommend_compliance_review))
      ∙ passed _ c e7
