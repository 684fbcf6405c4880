-- ===== src/Llm/Transcripts/Scores.antt =====
-- The case file that the replay script of the investigation emits.
use vaultwatch.Base.{ℕ, ◌≤◌, ◌≡◌, refl, String, Bool, true, ◌||◌, leb, ◌<>◌, arith}
use vaultwatch.Base.Int.{ℤ, pos, leb_ℤ, ◌≤ℤ◌}
use vaultwatch.Base.Exec.{ok}
use vaultwatch.Runtime.{Runtime, Validates}
use vaultwatch.Models.{CaseFile}
use vaultwatch.Models.Values.{get}
use vaultwatch.Llm.Verdicts.{case_file}
use vaultwatch.Llm.Verdicts.Fields.{case_file-fields}
use vaultwatch.Llm.Transcripts.{Findings, base_score, case_score, mean, facts, join, case_input}

module _ (rt : Runtime) (account : String) (amount : rt.Num) (currency : String) (rules_score : ℤ)
    (f : Findings rt.Num) where
  open rt use {Num}

  base-bounds :
      (average : Num)
      → (40 ≤ base_score rt amount rules_score average)
        × (base_score rt amount rules_score average ≤ 70)
  unfolding base_score
  base-bounds average = ground arith

  score-bounds :
      (hit : Bool) (base : ℕ)
      → 40 ≤ base
      → (40 ≤ case_score rt hit base f.linked)
        × (case_score rt hit base f.linked ≤ 95)
        × (hit ≡ true → 85 ≤ case_score rt hit base f.linked)
  unfolding case_score
  score-bounds hit base h = ground arith

  -- the score that the script gives
  abbrev pub score : ℕ
  score = case_score rt f.hit (base_score rt amount rules_score (mean rt f.amounts)) f.linked

  abbrev pub scripted : CaseFile
  scripted = record {
    summary =
        "Account "
        <> account
        <> " was escalated by triage. "
        <> join " " (facts rt amount currency f);
    risk_score = pos score;
    evidence = facts rt amount currency f;
    linked_accounts = f.linked;
    sanctions_hit = f.hit;
    recommend_compliance_review = leb 70 score || f.hit;
  }

  -- What a case file says of the evidence that it was made from.
  pub record IsCaseOf (c : CaseFile) : Type 0 where
    pub linked : c.linked_accounts ≡ f.linked
    pub hit : c.sanctions_hit ≡ f.hit
    pub review : c.recommend_compliance_review ≡ leb_ℤ (pos 70) c.risk_score
    pub bounds : (pos 40 ≤ℤ c.risk_score) × (c.risk_score ≤ℤ pos 95)
    pub severe : f.hit ≡ true → pos 85 ≤ℤ c.risk_score

  pub scripted-valid :
      Validates rt
      → case_file rt (case_input rt account amount currency rules_score f) ≡ ok scripted
  unfolding case_input get
  scripted-valid v = case_file-fields rt _ v scripted refl refl refl refl refl refl (
      ground (
        arith,
        score-bounds f.hit (base_score rt amount rules_score (mean rt f.amounts))
            (base-bounds (mean rt f.amounts)).0,
      ))

  -- Where pydantic takes a value of a field's own type as it is, the case that the script emits
  -- passes its validation, whatever the evidence. It names the accounts that were linked and the
  -- watchlist's answer, scores from 40 to 95 points, at least 85 on a watchlist hit, and asks for a
  -- compliance review exactly from 70 points on.
  scripted_case :
      Validates rt
      → (c : CaseFile) × (case_file rt (case_input rt account amount currency rules_score f) ≡ ok c)
        × IsCaseOf c
  scripted_case v =
      let b =
        score-bounds f.hit (base_score rt amount rules_score (mean rt f.amounts))
          (base-bounds (mean rt f.amounts)).0 in
      (
        scripted,
        scripted-valid v,
        record {
          linked = refl;
          hit = refl;
          review = ground (arith, b);
          bounds = omega (arith, b.0, b.1);
          severe = λ h. ground (arith, b);
        },
      )
