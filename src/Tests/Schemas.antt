-- ===== src/Tests/Schemas.antt =====
-- An input for the triage tool, with an integer for its likelihood.
use vaultwatch.Base.{ℕ, ◌≡◌, refl, true, false, leb, arith}
use vaultwatch.Base.Int.{ℤ, pos, negsuc, leb_ℤ}
use vaultwatch.Models.Values.{Dict, str, int, bool, obj, empty, entry, get}
use vaultwatch.Llm.Schemas.{conforms, has_type, has_all, at_least, at_most, triage_schema}
use vaultwatch.Llm.Schemas.Members.{ReadsIntegers}
use vaultwatch.Llm.Schemas.Inputs.{triage, IsAccepted, schema_of-IsAccepted}
use vaultwatch.Tests.Fixture.{cents, hundredfold}
use vaultwatch.Tests.Services.{cents-Validates}

hundredfold_mono : (a b : ℤ) → leb_ℤ a b ≡ true → leb (hundredfold a) (hundredfold b) ≡ true
hundredfold_mono (pos m) (pos n) h = ground arith
hundredfold_mono (pos m) (negsuc n) h = ground arith
hundredfold_mono (negsuc m) b h = ground arith

cents-ReadsIntegers : ReadsIntegers cents
cents-ReadsIntegers = record { to_float-int = λ z. refl; of_ℤ_mono = hundredfold_mono }

abbrev input : Dict ℕ
input = entry "fraud_likelihood" (int (pos 1)) (
    entry "category" (str "sanctions")
      (entry "escalate" (bool true) (entry "reasoning" (str "watchlist") empty)))

schema_of-IsAccepted_example : IsAccepted cents triage input
unfolding conforms has_type has_all at_least at_most get
schema_of-IsAccepted_example =
    schema_of-IsAccepted cents cents-Validates cents-ReadsIntegers triage input refl refl

-- a likelihood above one does not fit
too_likely :
    conforms cents (obj triage_schema) (obj (entry "fraud_likelihood" (int (pos 2)) empty)) ≡ false
unfolding conforms has_type has_all at_least at_most get
too_likely = refl
