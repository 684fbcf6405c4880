-- ===== src/Reports/Markup.antt =====
-- How many characters of markup a part of the report holds: those of its literal texts, since what
-- was recorded is escaped.
use vaultwatch.Base.{ℕ, suc, ◌+◌, ◌*◌, String, ◌<>◌, ◌≡◌, refl, ◌∙◌, List, [], ◌∷◌, length, arith}
use mathlib.Core.Path.{subst}
use vaultwatch.Base.Exec.{Result, ok, err}
use vaultwatch.Base.Exec.Results.{◌>>=◌, Holds}
use vaultwatch.Runtime.{Runtime}
use vaultwatch.Models.Values.{Json}
use vaultwatch.Reports.{fstring, joined, str_of, esc, escaped, row, receipt, finding}
use vaultwatch.Reports.Escape.{IsMarkup, occurrences, occurrences-append, occurrences-html_escape}

-- the text, if there is one, has `n` times the character `k`
pub record Marks (k n : ℕ) (r : Result String) : Type 0 where
  pub at : Holds (λ s. occurrences k s ≡ n) r

pub Marks-ok :
    {k n : ℕ} {r : Result String} {s : String} → Marks k n r → r ≡ ok s → occurrences k s ≡ n
Marks-ok {k} {n} h e = (subst (λ x. Marks k n x) e h).at

module _ {k : ℕ} where
  Marks-before :
      {m n : ℕ} (s : String) (rest : Result String)
      → occurrences k s ≡ m
      → Marks k n rest
      → Marks k (m + n) (rest >>= λ t. ok (s <> t))
  Marks-before s (ok t) h g = record { at = occurrences-append k s t ∙ omega (arith, h, g.at) }
  Marks-before s (err e) h g = record { at = tt }

  pub Marks-part :
      {m n : ℕ} (p : Result String) (ps : List (Result String))
      → Marks k m p
      → Marks k n (fstring ps)
      → Marks k (m + n) (fstring (p ∷ ps))
  unfolding fstring
  Marks-part (ok s) ps h g = Marks-before s (fstring ps) h.at g
  Marks-part (err e) ps h g = record { at = tt }

  pub Marks-none : Marks k 0 (fstring [])
  unfolding fstring occurrences
  Marks-none = record { at = refl }

  pub Marks-text :
      {n : ℕ} (s : String) (ps : List (Result String))
      → Marks k n (fstring ps)
      → Marks k (occurrences k s + n) (fstring (ok s ∷ ps))
  Marks-text s ps g = Marks-part (ok s) ps (record { at = refl }) g

  -- a part without markup
  pub Marks-clean :
      {n : ℕ} (p : Result String) (ps : List (Result String))
      → Marks k 0 p
      → Marks k n (fstring ps)
      → Marks k n (fstring (p ∷ ps))
  Marks-clean {n} p ps h g =
      subst (λ x. Marks k x (fstring (p ∷ ps))) (omega arith) (Marks-part p ps h g)

  module _ {A : Type 0} {n : ℕ} where
    pub joined-Marks :
        (f : A → Result String)
        → ((x : A) → Marks k n (f x))
        → (xs : List A) → Marks k (n * length xs) (joined f xs)
    unfolding joined occurrences
    joined-Marks f h [] = record { at = omega arith }
    joined-Marks f h (x ∷ xs) =
        elim (f x)
            as (λ r.
              Marks k n r
              → Marks k (n * suc (length xs)) (r >>= λ s. joined f xs >>= λ rest. ok (s <> rest))) [
                | ok s ↦ λ g.
                    subst (λ z. Marks k z (joined f xs >>= λ rest. ok (s <> rest))) (omega arith)
                      (Marks-before s (joined f xs) g.at (joined-Marks f h xs))
                | err e ↦ λ g. record { at = tt }
              ]
          (h x)

-- the characters of markup of a text that a cell or an item is written in
module _ (rt : Runtime) {k : ℕ} (m : IsMarkup k) where
  open rt use {Num}

  pub Marks-esc : (v : Json Num) → Marks k 0 (ok (esc rt v))
  unfolding esc
  Marks-esc v = record { at = occurrences-html_escape (str_of rt v) m }

  pub Marks-escaped : (r : Result (Json Num)) → Marks k 0 (escaped rt r)
  unfolding escaped
  Marks-escaped (ok v) = Marks-esc v
  Marks-escaped (err e) = record { at = tt }

  unfoldable pub row_marks : (e : Json Num) → (n : ℕ) × Marks k n (row rt e)
  unfolding row
  row_marks e = (
    _,
    Marks-text _ _ (
        Marks-clean _ _ (Marks-escaped _) (
          Marks-text _ _ (
            Marks-clean _ _ (Marks-escaped _)
              (Marks-text _ _ (Marks-clean _ _ (Marks-escaped _) (Marks-text _ _ Marks-none)))))),
  )

  unfoldable pub receipt_marks : (e : Json Num) → (n : ℕ) × Marks k n (receipt rt e)
  unfolding receipt
  receipt_marks e = (
    _,
    Marks-text _ _ (
        Marks-clean _ _ (Marks-escaped _) (
          Marks-text _ _ (
            Marks-clean _ _ (Marks-escaped _)
              (Marks-text _ _ (Marks-clean _ _ (Marks-escaped _) (Marks-text _ _ Marks-none)))))),
  )

  unfoldable pub finding_marks : (e : Json Num) → (n : ℕ) × Marks k n (finding rt e)
  unfolding finding
  finding_marks e = (
    _,
    Marks-text _ _ (
        Marks-clean _ _ (Marks-escaped _)
          (Marks-text _ _ (Marks-clean _ _ (Marks-escaped _) (Marks-text _ _ Marks-none)))),
  )
