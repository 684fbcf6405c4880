-- ===== src/Reports/Escape.antt =====
-- `html.escape`, by which agents-python/app/reports.py writes whatever was recorded, as the five
-- replacements of Python's library, and the characters that are left in what it gives.
use Prim.Native.Char.{code}
use vaultwatch.Base.{ℕ, ◌+◌, String, ◌<>◌, ◌≡◌, refl, ap, ◌∙◌, if◌then◌else◌, eqb, arith}
use text.Mathlib.TextLemmas.{cons-append, nil-append}

-- `s.replace(c, t)` of one character
unfoldable pub replace : ℕ → String → String → String
replace c t String.[] = ""
replace c t (String.◌∷◌ x s) =
    let rest = replace c t s in if eqb (code x) c then t <> rest else String.◌∷◌ x rest

-- `html.escape(s)`, with `quote=True`, one replacement after the other
ampersands : String → String
ampersands s = replace b'&' "&amp;" s

openings : String → String
openings s = replace b'<' "&lt;" (ampersands s)

closings : String → String
closings s = replace b'>' "&gt;" (openings s)

quotes : String → String
quotes s = replace b'"' "&quot;" (closings s)

unfoldable pub html_escape : String → String
unfolding replace ampersands openings closings quotes
html_escape s = replace b'\'' "&#x27;" (quotes s)

-- how often a character stands in a text
unfoldable pub occurrences : ℕ → String → ℕ
occurrences k String.[] = 0
occurrences k (String.◌∷◌ x s) =
    let rest = occurrences k s in if eqb (code x) k then 1 + rest else rest

pub occurrences-append :
    (k : ℕ) (s t : String) → occurrences k (s <> t) ≡ occurrences k s + occurrences k t
unfolding occurrences
occurrences-append k String.[] t = ap (occurrences k) (nil-append t) ∙ omega arith
occurrences-append k (String.◌∷◌ x s) t =
    ap (occurrences k) (cons-append x s t) ∙ ground (arith, occurrences-append k s t)

-- a replacement that writes no `k` keeps all others
occurrences-replace :
    (k c : ℕ) (t s : String)
    → occurrences k t ≡ 0
    → occurrences k (replace c t s) ≡ (if eqb k c then 0 else occurrences k s)
unfolding occurrences replace
occurrences-replace k c t String.[] h = ground arith
occurrences-replace k c t (String.◌∷◌ x s) h =
    ground (arith, occurrences-append k t (replace c t s), occurrences-replace k c t s h)

-- the characters that begin and end a tag or an attribute
pub data IsMarkup : ℕ → Type 0 where
  opening : IsMarkup b'<'
  closing : IsMarkup b'>'
  quote : IsMarkup b'"'
  apostrophe : IsMarkup b'\''

pub occurrences-html_escape : {k : ℕ} (s : String) → IsMarkup k → occurrences k (html_escape s) ≡ 0
unfolding html_escape occurrences ampersands openings closings quotes
occurrences-html_escape s opening =
    occurrences-replace b'<' b'\'' "&#x27;" (quotes s) refl
    ∙ occurrences-replace b'<' b'"' "&quot;" (closings s) refl
    ∙ occurrences-replace b'<' b'>' "&gt;" (openings s) refl
    ∙ occurrences-replace b'<' b'<' "&lt;" (ampersands s) refl
occurrences-html_escape s closing =
    occurrences-replace b'>' b'\'' "&#x27;" (quotes s) refl
    ∙ occurrences-replace b'>' b'"' "&quot;" (closings s) refl
    ∙ occurrences-replace b'>' b'>' "&gt;" (openings s) refl
occurrences-html_escape s quote =
    occurrences-replace b'"' b'\'' "&#x27;" (quotes s) refl
    ∙ occurrences-replace b'"' b'"' "&quot;" (closings s) refl
occurrences-html_escape s apostrophe = occurrences-replace b'\'' b'\'' "&#x27;" (quotes s) refl
