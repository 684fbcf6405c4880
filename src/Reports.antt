-- ===== src/Reports.antt =====
-- agents-python/app/reports.py: how the report writes a value, and the parts that are written once
-- for each event, receipt and rule. Reports/Page.antt has the report itself. A record is JSON, as the
-- case store gives it back, and what Python raises of JSON of another shape is raised here.
pub mod Escape
pub mod Reads
pub mod Page
pub mod Markup
pub mod Blocks
pub mod Layout
pub mod Counts
pub mod Safety
pub mod Returns
pub mod Total
pub mod Written
pub mod Complete
use vaultwatch.Base.{
  ℕ, String, ◌<>◌, Bool, true, false, Option, none, some, List, [], ◌∷◌, ◌++◌, if◌then◌else◌,
}
use vaultwatch.Base.Exec.{Result, ok, err, other_exception}
use vaultwatch.Base.Exec.Results.{◌>>=◌}
use vaultwatch.Runtime.{Runtime, truth}
use vaultwatch.Models.Values.{
  Json, Dict, null, bool, int, float, str, arr, obj, empty, entry, get, subscript, list_of,
}
use vaultwatch.Llm.Transcripts.{get_from}
use Escape.{html_escape, replace}

-- An f-string: the parts in order, of which each may raise.
unfoldable pub fstring : List (Result String) → Result String
fstring [] = ok ""
fstring (p ∷ ps) = do s ← p; rest ← fstring ps; ok (s <> rest)

module _ {A : Type 0} where
  -- `"".join(f(x) for x in xs)`
  unfoldable pub joined : (A → Result String) → List A → Result String
  joined f [] = ok ""
  joined f (x ∷ xs) = do s ← f x; rest ← joined f xs; ok (s <> rest)

module _ {N : Type 0} where
  abbrev characters : String → List (Json N)
  characters String.[] = []
  characters (String.◌∷◌ c s) = str (String.◌∷◌ c "") ∷ characters s

  abbrev keys : Dict N → List (Json N)
  keys empty = []
  keys (entry k v d) = str k ∷ keys d

  -- `for x in v`: a `TypeError` unless `v` is a list, a dict or a text
  unfoldable pub iterated : Json N → Result (List (Json N))
  iterated (arr xs) = ok (list_of xs)
  iterated (obj d) = ok (keys d)
  iterated (str s) = ok (characters s)
  iterated _ = err (other_exception "TypeError")

  -- `" ".join(xs)`: a `TypeError` unless each is a text
  unfoldable pub spaced : List (Json N) → Result String
  spaced [] = ok ""
  spaced (str s ∷ []) = ok s
  spaced (str s ∷ xs) = do rest ← spaced xs; ok (s <> " " <> rest)
  spaced (_ ∷ xs) = err (other_exception "TypeError")

  -- `v.replace("_", " ")`: an `AttributeError` unless `v` is a text
  unfoldable pub without_underscores : Json N → Result String
  unfolding replace
  without_underscores (str s) = ok (replace b'_' " " s)
  without_underscores _ = err (other_exception "AttributeError")

pub data Subject : Type 0 where
  device recipient : Subject

module _ (rt : Runtime) where
  open rt use {Num}

  -- `str(v)`, as an f-string writes it too
  unfoldable pub str_of : Json Num → String
  str_of null = "None"
  str_of (bool b) = if b then "True" else "False"
  str_of (int z) = rt.show_int z
  str_of (float x) = rt.show_num x
  str_of (str s) = s
  str_of v = rt.show_json v

  unfoldable pub esc : Json Num → String
  unfolding html_escape str_of
  esc v = html_escape (str_of v)

  -- `esc` of an expression that may raise
  unfoldable pub escaped : Result (Json Num) → Result String
  escaped r = do v ← r; ok (esc v)

  -- `familiarity(value, subject)`
  unfoldable pub familiarity : Json Num → Subject → String
  familiarity (bool true) device = "New device"
  familiarity (bool true) recipient = "New recipient"
  familiarity (bool false) device = "Known device"
  familiarity (bool false) recipient = "Known recipient"
  familiarity _ device = "Device familiarity not recorded"
  familiarity _ recipient = "Recipient familiarity not recorded"

  unfoldable pub row : Json Num → Result String
  row e = fstring (
      ok "<tr><td>"
      ∷ escaped (subscript e "timestamp")
      ∷ ok "</td><td>"
      ∷ escaped (get_from e "stage" (str "alert"))
      ∷ ok "</td><td>"
      ∷ escaped (do title ← get_from e "title" (str ""); get_from e "label" title)
      ∷ ok "</td></tr>"
      ∷ [])

  unfoldable pub receipt : Json Num → Result String
  receipt e = fstring (
      ok "<tr><td>"
      ∷ escaped (subscript e "seq")
      ∷ ok "</td><td>"
      ∷ escaped (subscript e "event_type")
      ∷ ok "</td><td class=\"hash\">"
      ∷ escaped (subscript e "hash")
      ∷ ok "</td></tr>"
      ∷ [])

  unfoldable pub finding : Json Num → Result String
  finding rule = fstring (
      ok "<li><strong>"
      ∷ escaped (do name ← subscript rule "rule"; text ← without_underscores name; ok (str text))
      ∷ ok "</strong>: "
      ∷ escaped (subscript rule "detail")
      ∷ ok "</li>"
      ∷ [])

  -- `e["detail"]`, if `e` came from a tool
  unfoldable pub evidence_of : Json Num → Result (List (Json Num))
  unfolding truth
  evidence_of e = do
    detail ← get_from e "detail" (obj empty)
    tool ← get_from detail "tool" null
    if truth rt tool then (do v ← subscript e "detail"; ok (v ∷ [])) else ok []

  unfoldable pub tool_evidence : List (Json Num) → Result (List (Json Num))
  tool_evidence [] = ok []
  tool_evidence (e ∷ es) = do kept ← evidence_of e; rest ← tool_evidence es; ok (kept ++ rest)
