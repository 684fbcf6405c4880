-- ===== src/Reports/Returns.antt =====
-- Which parts of a report return: those that read what a run saves.
use vaultwatch.Base.{
  ℕ, String, ◌≡◌, refl, sym, none, some, List, [], ◌∷◌, map, true, false, Bool, truthy,
  if◌then◌else◌,
}
use mathlib.Core.Path.{subst}
use vaultwatch.Base.Exec.{Result, ok, err}
use vaultwatch.Base.Exec.Results.{◌>>=◌}
use vaultwatch.Runtime.{Runtime, strs}
use vaultwatch.Models.{tool_detail}
use vaultwatch.Models.Values.{
  Json, Dict, null, str, obj, empty, entry, get, item, subscript, list_of,
}
use vaultwatch.Llm.Transcripts.{get_from}
use vaultwatch.CaseRecord.{CaseEvent, agent_event, alert_event, payment_event}
use vaultwatch.CaseRecord.Dump.{detail_dict, alert_detail, event_dict}
use vaultwatch.CaseStore.{Row}
use vaultwatch.Api.{Verification, checked, unavailable}
use vaultwatch.Reports.{
  fstring, joined, spaced, escaped, row, receipt, finding, tool_evidence, evidence_of,
  without_underscores,
}

-- it returns, with a value that has `P`
abbrev pub OkWith : {A : Type 0} → (A → Type 0) → Result A → Type 0
OkWith P (ok a) = P a
OkWith P (err e) = ⊥

abbrev pub IsOk : {A : Type 0} → Result A → Type 0
IsOk = OkWith λ _. Unit

module _ {A B : Type 0} where
  pub OkWith-bind :
      (P : A → Type 0) (Q : B → Type 0) (r : Result A) (f : A → Result B)
      → OkWith P r
      → ((a : A) → P a → OkWith Q (f a))
      → OkWith Q (r >>= f)
  OkWith-bind P Q (ok a) f h k = k a h
  OkWith-bind P Q (err e) f h k = h

  pub IsOk-bind :
      (r : Result A) (f : A → Result B) → IsOk r → ((a : A) → IsOk (f a)) → IsOk (r >>= f)
  IsOk-bind r f h k = OkWith-bind (λ _. Unit) (λ _. Unit) r f h λ a _. k a

module _ {A : Type 0} where
  pub returned : (r : Result A) → IsOk r → (a : A) × (r ≡ ok a)
  returned (ok a) h = (a, refl)
  returned (err e) h = absurd h

  pub one_of : (b : Bool) (r s : Result A) → IsOk r → IsOk s → IsOk (if b then r else s)
  one_of true r s h g = h
  one_of false r s h g = g

  -- a predicate of each member
  abbrev pub Every : (A → Type 0) → List A → Type 0
  Every P [] = Unit
  Every P (x ∷ xs) = P x × Every P xs

  pub joined-IsOk :
      (f : A → Result String) (xs : List A) → Every (λ x. IsOk (f x)) xs → IsOk (joined f xs)
  unfolding joined
  joined-IsOk f [] h = tt
  joined-IsOk f (x ∷ xs) h =
      IsOk-bind (f x) _ h.0 λ s. IsOk-bind (joined f xs) _ (joined-IsOk f xs h.1) λ t. tt

-- `p` returns, and so does what follows
abbrev pub And : Result String → Type 0 → Type 0
And (ok s) X = X
And (err e) X = ⊥

-- Each part returns. Of those that compute to a text nothing is left to show.
abbrev pub AllOk : List (Result String) → Type 0
AllOk [] = Unit
AllOk (p ∷ ps) = And p (AllOk ps)

pub also : {X : Type 0} (p : Result String) → IsOk p → X → And p X
also (ok s) h x = x
also (err e) h x = h

pub fstring-IsOk : (ps : List (Result String)) → AllOk ps → IsOk (fstring ps)
unfolding fstring
fstring-IsOk [] h = tt
fstring-IsOk (ok s ∷ ps) h = IsOk-bind (fstring ps) _ (fstring-IsOk ps h) λ t. tt
fstring-IsOk (err e ∷ ps) h = h

module _ {N : Type 0} where
  -- a row of the case store
  unfoldable pub row_dict : Row (Dict N) → Dict N
  row_dict r =
      entry "transaction_id" (str r.transaction_id)
        (entry "account_id" (str r.account_id) (entry "result" (obj r.result) empty))

  -- what `audit_status` answers, and what `printable_report` takes in its place
  unfoldable pub verification_dict : (ℕ → String) → Verification N → Dict N
  verification_dict iso (checked v t) = entry "verify" v (entry "checked_at" (str (iso t)) empty)
  verification_dict iso unavailable = entry "status" (str "unavailable") (entry "verify" null empty)

  -- a rule's name is a text, and it has its detail
  abbrev pub IsRule : Dict N → Type 0
  IsRule d = ((name : String) × (item d "rule" ≡ ok (str name))) × IsOk (item d "detail")

  abbrev pub IsReceipt : Json N → Type 0
  IsReceipt e =
      IsOk (subscript e "seq") × IsOk (subscript e "event_type") × IsOk (subscript e "hash")

  -- a place of the review, if it is there
  abbrev pub IsPlace : Json N → Type 0
  IsPlace (obj d) = Unit
  IsPlace _ = ⊥

  abbrev pub IsAnswer : Verification N → Type 0
  IsAnswer (checked v t) = IsOk (subscript v "valid")
  IsAnswer unavailable = Unit

module _ {N : Type 0} where
  pub get_from-IsOk :
      (d : Dict N) (k : String) (default : Json N) → IsOk (get_from (obj d) k default)
  unfolding get_from
  get_from-IsOk d k default =
      elim (get d k) as (λ o. IsOk (elim o [ none ↦ ok default | some v ↦ ok v ])) [
        | none ↦ tt
        | some v ↦ tt
      ]

module _ (N : Type 0) where
  pub spaced-strs : (xs : List String) → IsOk (spaced {N = N} (list_of (strs xs)))
  unfolding spaced
  spaced-strs [] = tt
  spaced-strs (x ∷ []) = tt
  spaced-strs (x ∷ y ∷ xs) =
      IsOk-bind (spaced {N = N} (list_of (strs (y ∷ xs)))) _ (spaced-strs (y ∷ xs)) λ _. tt

module _ (rt : Runtime) (iso_json iso : ℕ → String) where
  open rt use {Num}

  pub escaped-IsOk : (r : Result (Json Num)) → IsOk r → IsOk (escaped rt r)
  unfolding escaped
  escaped-IsOk r h = IsOk-bind r _ h λ v. tt

  pub row-IsOk : (e : CaseEvent Num) → IsOk (row rt (obj (event_dict iso_json iso e)))
  unfolding row fstring escaped subscript item get_from get event_dict
  row-IsOk (agent_event e) = tt
  row-IsOk (alert_event a) = tt
  row-IsOk (payment_event e) = tt

  pub receipt-IsOk : (e : Json Num) → IsReceipt e → IsOk (receipt rt e)
  unfolding receipt
  receipt-IsOk e h =
      fstring-IsOk _
        (also _ (escaped-IsOk _ h.0) (also _ (escaped-IsOk _ h.1) (also _ (escaped-IsOk _ h.2) tt)))

  abbrev named : Result (Json Num) → Result (Json Num)
  named r = do name ← r; text ← without_underscores name; ok (str text)

  pub finding-IsOk : (d : Dict Num) → IsRule d → IsOk (finding rt (obj d))
  unfolding finding subscript without_underscores
  finding-IsOk d h = fstring-IsOk _ (
      also _ (escaped-IsOk _ (subst (λ r. IsOk (named r)) (sym h.0.1) tt))
        (also _ (escaped-IsOk _ h.1) tt))

  evidence_of-IsOk : (e : CaseEvent Num) → IsOk (evidence_of rt (obj (event_dict iso_json iso e)))
  unfolding evidence_of subscript item get_from get event_dict detail_dict alert_detail
  evidence_of-IsOk (alert_event a) = tt
  evidence_of-IsOk (payment_event e) = tt
  evidence_of-IsOk (agent_event e) =
      elim e.detail
        as (λ d. IsOk (
          evidence_of rt (obj (event_dict iso_json iso (agent_event (record e { detail = d })))))) [
            | tool_detail name input result ↦ one_of (truthy name) _ _ tt tt
            | _ ↦ tt
          ]

  pub tool_evidence-IsOk :
      (es : List (CaseEvent Num))
      → IsOk (tool_evidence rt (map (λ e. obj (event_dict iso_json iso e)) es))
  unfolding tool_evidence
  tool_evidence-IsOk [] = tt
  tool_evidence-IsOk (e ∷ es) =
      IsOk-bind (evidence_of rt (obj (event_dict iso_json iso e))) _ (evidence_of-IsOk e)
        λ kept. IsOk-bind (tool_evidence rt _) _ (tool_evidence-IsOk es) λ rest. tt
