-- ===== src/Reports/Blocks.antt =====
-- The parts of the page that are no literal text: the words of the code, and the blocks.
use vaultwatch.Base.{Bool, ℕ, ◌+◌, String, ◌<>◌, ◌≡◌, refl, arith, true, false, if◌then◌else◌}
use vaultwatch.Base.Exec.{Result, ok, err}
use vaultwatch.Base.Exec.Results.{◌>>=◌}
use vaultwatch.Runtime.{Runtime, truth}
use vaultwatch.Models.Values.{Json, null, bool, str}
use vaultwatch.Llm.Transcripts.{get_from}
use vaultwatch.Reports.{esc, familiarity, Subject, device, recipient}
use vaultwatch.Reports.Escape.{
  IsMarkup, opening, closing, quote, apostrophe, occurrences, occurrences-append,
}
use vaultwatch.Reports.Markup.{Marks, Marks-esc}
use vaultwatch.Reports.Reads.{familiar, correlation}
use vaultwatch.Reports.Page.{block, blocked}

-- a text without any of the four characters
clean :
    {k : ℕ} (m : IsMarkup k) (s : String)
    → occurrences b'<' s ≡ 0
    → occurrences b'>' s ≡ 0
    → occurrences b'"' s ≡ 0
    → occurrences b'\'' s ≡ 0
    → occurrences k s ≡ 0
clean opening s h₁ h₂ h₃ h₄ = h₁
clean closing s h₁ h₂ h₃ h₄ = h₂
clean quote s h₁ h₂ h₃ h₄ = h₃
clean apostrophe s h₁ h₂ h₃ h₄ = h₄

-- two clean texts among three others
occurrences-around :
    (k : ℕ) (a b c d e : String)
    → occurrences k b ≡ 0
    → occurrences k d ≡ 0
    → occurrences k (a <> b <> c <> d <> e) ≡ occurrences k a + (occurrences k c + occurrences k e)
occurrences-around k a b c d e h₁ h₂ = omega (
  arith,
  occurrences-append k a (b <> c <> d <> e),
  occurrences-append k b (c <> d <> e),
  occurrences-append k c (d <> e),
  occurrences-append k d e,
  h₁,
  h₂,
)

module _ (rt : Runtime) {k : ℕ} (m : IsMarkup k) where
  open rt use {Num}

  familiarity-Marks : (v : Json Num) (s : Subject) → occurrences k (familiarity rt v s) ≡ 0
  unfolding familiarity occurrences
  familiarity-Marks (bool true) device = clean m "New device" refl refl refl refl
  familiarity-Marks (bool true) recipient = clean m "New recipient" refl refl refl refl
  familiarity-Marks (bool false) device = clean m "Known device" refl refl refl refl
  familiarity-Marks (bool false) recipient = clean m "Known recipient" refl refl refl refl
  familiarity-Marks _ device = clean m "Device familiarity not recorded" refl refl refl refl
  familiarity-Marks _ recipient = clean m "Recipient familiarity not recorded" refl refl refl refl

  pub familiar-Marks :
      (review : Json Num) (key : String) (s : Subject) → Marks k 0 (familiar rt review key s)
  unfolding familiar
  familiar-Marks review key s =
      elim (get_from review key null) as (λ r. Marks k 0 (r >>= λ v. ok (familiarity rt v s))) [
        | ok v ↦ record { at = familiarity-Marks v s }
        | err e ↦ record { at = tt }
      ]

  pub correlation-Marks : (decision : Json Num) → Marks k 0 (correlation rt decision)
  unfolding correlation occurrences
  correlation-Marks decision =
      elim (get_from decision "fused_with_security_event" null)
        as (λ r. Marks k 0 (
          r >>= λ fused. ok (
            if truth rt fused
            then "Matched Go login warning to this account"
            else "No matched login warning"))) [
              | ok fused ↦ record { at = one_of (truth rt fused) }
              | err e ↦ record { at = tt }
            ]
    where
      one_of :
          (b : Bool)
          → occurrences k
              (if b then "Matched Go login warning to this account" else "No matched login warning")
            ≡ 0
      one_of true = clean m "Matched Go login warning to this account" refl refl refl refl
      one_of false = clean m "No matched login warning" refl refl refl refl

  module _ (indented : Json Num → String) where
    abbrev block_marks : ℕ
    block_marks =
        occurrences k "<section><h2>"
        + (occurrences k "</h2><pre>" + occurrences k "</pre></section>")

    pub block-Marks :
        (title : String) (v : Json Num) → Marks k block_marks (ok (block rt indented title v))
    unfolding block
    block-Marks title v = record {
      at =
          occurrences-around k "<section><h2>" (esc rt (str title)) "</h2><pre>"
            (esc rt (str (indented v))) "</pre></section>" (Marks-esc rt m (str title)).at
            (Marks-esc rt m (str (indented v))).at;
    }

    pub blocked-Marks :
        (title : String) (r : Result (Json Num)) → Marks k block_marks (blocked rt indented title r)
    unfolding blocked
    blocked-Marks title (ok v) = block-Marks title v
    blocked-Marks title (err e) = record { at = tt }
