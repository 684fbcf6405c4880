-- ===== src/Reports/Safety.antt =====
-- No recorded text adds markup to the report.
use vaultwatch.Base.{
  ℕ, suc, ◌+◌, ◌*◌, ◌<◌, String, ◌≡◌, refl, ap, ◌∙◌, sym, List, [], ◌∷◌, length, arith, true, false,
  truthy, if◌then◌else◌, Bool-cases, inl, inr, eq_iff, ◌==◌,
}
use vaultwatch.Base.Exec.{Result, ok, err}
use vaultwatch.Base.Exec.Results.{◌>>=◌, Yields, Yields-bind, Yields-ok}
use vaultwatch.Runtime.{Runtime}
use vaultwatch.Models.Values.{Json, Dict, null, obj, empty, item}
use vaultwatch.Llm.Transcripts.{get_from}
use vaultwatch.Reports.{joined, row, receipt, finding}
use vaultwatch.Reports.Escape.{IsMarkup, opening, closing, quote, apostrophe, occurrences}
use vaultwatch.Reports.Markup.{
  Marks, Marks-ok, joined-Marks, row_marks, receipt_marks, finding_marks,
}
use vaultwatch.Reports.Reads.{
  Parts, listed, triggered, parts_of, journey_of, screen_of, summary_of, integrity_of,
}
use vaultwatch.Reports.Page.{shown_findings, page, render_report}
use vaultwatch.Reports.Counts.{of_row, of_receipt, of_rules, of_page, page-Marks}

-- how many a list holds that is read of a record
abbrev pub many : {A : Type 0} → Result (List A) → ℕ
many (ok xs) = length xs
many (err e) = 0

module _ (rt : Runtime) where
  open rt use {Num}

  abbrev pub events_in : Dict Num → ℕ
  events_in d = many (item d "result" >>= λ result. listed rt result "events")

  abbrev pub receipts_in : Dict Num → ℕ
  receipts_in d = many (
      item d "result" >>= λ result.
      get_from result "audit" (obj empty) >>= λ audit. listed rt audit "entries")

  abbrev pub rules_in : Dict Num → ℕ
  rules_in d = many (item d "result" >>= triggered rt)

  row-Marks : {k : ℕ} (m : IsMarkup k) (e : Json Num) → Marks k (of_row m) (row rt e)
  unfolding row_marks occurrences
  row-Marks opening e = (row_marks rt opening e).1
  row-Marks closing e = (row_marks rt closing e).1
  row-Marks quote e = (row_marks rt quote e).1
  row-Marks apostrophe e = (row_marks rt apostrophe e).1

  receipt-Marks : {k : ℕ} (m : IsMarkup k) (e : Json Num) → Marks k (of_receipt m) (receipt rt e)
  unfolding receipt_marks occurrences
  receipt-Marks opening e = (receipt_marks rt opening e).1
  receipt-Marks closing e = (receipt_marks rt closing e).1
  receipt-Marks quote e = (receipt_marks rt quote e).1
  receipt-Marks apostrophe e = (receipt_marks rt apostrophe e).1

  abbrev of_finding : {k : ℕ} → IsMarkup k → ℕ
  of_finding quote = 0
  of_finding apostrophe = 0
  of_finding _ = 4

  finding-Marks : {k : ℕ} (m : IsMarkup k) (e : Json Num) → Marks k (of_finding m) (finding rt e)
  unfolding finding_marks occurrences
  finding-Marks opening e = (finding_marks rt opening e).1
  finding-Marks closing e = (finding_marks rt closing e).1
  finding-Marks quote e = (finding_marks rt quote e).1
  finding-Marks apostrophe e = (finding_marks rt apostrophe e).1

  truthy-occurrences : (k : ℕ) (s : String) → 0 < occurrences k s → truthy s ≡ true
  unfolding occurrences
  truthy-occurrences k s h = elim (Bool-cases (s == "")) [
    | inl e ↦ absurd (omega (arith, h, ap (occurrences k) ((eq_iff s "").0 e)))
    | inr e ↦ ap (λ b. if b then false else true) e
  ]

  shown : (s : String) → truthy s ≡ true → shown_findings s ≡ s
  unfolding shown_findings
  shown s h = ap (λ b. if b then s else "<li>No deterministic rules triggered.</li>") h

  of_findings : {k : ℕ} (m : IsMarkup k) (n : ℕ) → of_finding m * suc n ≡ of_rules m (suc n)
  of_findings opening n = refl
  of_findings closing n = refl
  of_findings quote n = omega arith
  of_findings apostrophe n = omega arith

  no_findings : {k : ℕ} (m : IsMarkup k) → occurrences k (shown_findings "") ≡ of_rules m 0
  unfolding occurrences shown_findings
  no_findings opening = refl
  no_findings closing = refl
  no_findings quote = refl
  no_findings apostrophe = refl

  shown-Marks :
      {k : ℕ} (m : IsMarkup k) (rules : List (Json Num))
      → Marks k
          (of_rules m (length rules))
          (joined (finding rt) rules >>= λ s. ok (shown_findings s))
  unfolding joined
  shown-Marks m [] = record { at = no_findings m }
  shown-Marks {k} m (r ∷ rs) =
      elim (joined (finding rt) (r ∷ rs))
          as (λ x.
            Marks b'<' (4 * suc (length rs)) x
            → Marks k (of_finding m * suc (length rs)) x
            → Marks k (of_rules m (suc (length rs))) (x >>= λ s. ok (shown_findings s))) [
              | ok s ↦ λ h g. record {
                at =
                    ap (occurrences k) (shown s (truthy-occurrences b'<' s (omega (arith, h.at))))
                    ∙ g.at
                    ∙ of_findings m (length rs);
              }
              | err e ↦ λ h g. record { at = tt }
            ]
        (joined-Marks (finding rt) (finding-Marks opening) (r ∷ rs))
        (joined-Marks (finding rt) (finding-Marks m) (r ∷ rs))

  -- what the lists of a record come to in its parts
  IsListed : {k : ℕ} → IsMarkup k → Dict Num → Parts Num → Type 0
  IsListed {k} m d p =
      (occurrences k p.rows ≡ of_row m * events_in d)
      × (occurrences k p.receipts ≡ of_receipt m * receipts_in d)
      × (occurrences k (shown_findings p.findings) ≡ of_rules m (rules_in d))

  from_result :
      (d : Dict Num) (f : Json Num → Result (List (Json Num))) {result : Json Num}
      → item d "result" ≡ ok result
      → many (item d "result" >>= f) ≡ many (f result)
  from_result d f e = ap (λ r. many (r >>= f)) e

  from_audit :
      (result audit : Json Num)
      → get_from result "audit" (obj empty) ≡ ok audit
      → many (get_from result "audit" (obj empty) >>= λ a. listed rt a "entries")
        ≡ many (listed rt audit "entries")
  from_audit result audit e = ap (λ r. many (r >>= λ a. listed rt a "entries")) e

  in_rows :
      {k : ℕ} (m : IsMarkup k) (events : List (Json Num)) (s : String)
      → joined (row rt) events ≡ ok s
      → occurrences k s ≡ of_row m * length events
  in_rows m events s e = Marks-ok (joined-Marks (row rt) (row-Marks m) events) e

  in_receipts :
      {k : ℕ} (m : IsMarkup k) (entries : List (Json Num)) (s : String)
      → joined (receipt rt) entries ≡ ok s
      → occurrences k s ≡ of_receipt m * length entries
  in_receipts m entries s e = Marks-ok (joined-Marks (receipt rt) (receipt-Marks m) entries) e

  in_findings :
      {k : ℕ} (m : IsMarkup k) (rules : List (Json Num)) (s : String)
      → joined (finding rt) rules ≡ ok s
      → occurrences k (shown_findings s) ≡ of_rules m (length rules)
  in_findings m rules s e =
      Marks-ok (shown-Marks m rules) (ap (λ r. r >>= λ x. ok (shown_findings x)) e)

  parts_of-IsListed :
      {k : ℕ} (m : IsMarkup k) (d verification : Dict Num)
      → Yields (IsListed m d) (parts_of rt d verification)
  unfolding parts_of IsListed
  parts_of-IsListed {k} m d verification = Yields-bind (item d "result") _ λ result e₁.
      Yields-bind (get_from result "transaction" (obj empty)) _ λ tx _.
        Yields-bind (get_from result "review" (obj empty)) _ λ review _.
          Yields-bind (get_from result "audit" (obj empty)) _ λ audit e₂.
            Yields-bind (get_from result "payment" null) _ λ paid _.
              Yields-bind (listed rt result "events") _ λ events e₃.
                Yields-bind (joined (row rt) events) _ λ rows e₄.
                  Yields-bind (listed rt audit "entries") _ λ entries e₅.
                    Yields-bind (joined (receipt rt) entries) _ λ receipts e₆.
                      Yields-bind (get_from result "alert" null) _ λ alert _.
                        Yields-bind (journey_of rt review) _ λ journey _.
                          Yields-bind (triggered rt result) _ λ rules e₇.
                            Yields-bind (joined (finding rt) rules) _ λ found e₈.
                              Yields-bind (get_from result "case" null) _ λ case_file _.
                                Yields-bind (screen_of rt case_file) _ λ screen _.
                                  Yields-bind (summary_of rt case_file) _ λ summary _.
                                    Yields-bind (integrity_of rt verification) _ λ integrity _.
                                      record {
                                        at = (
                                          in_rows m events rows e₄
                                              ∙ ap (λ n. of_row m * n)
                                                  (sym (
                                                    from_result d (λ x. listed rt x "events") e₁
                                                    ∙ ap many e₃)),
                                          in_receipts m entries receipts e₆
                                              ∙ ap (λ n. of_receipt m * n)
                                                  (sym (
                                                    from_result d _ e₁
                                                    ∙ from_audit result audit e₂
                                                    ∙ ap many e₅)),
                                          in_findings m rules found e₈
                                              ∙ ap (of_rules m) (
                                                  sym
                                                    (from_result d (triggered rt) e₁ ∙ ap many e₇)),
                                        );
                                      }

  page-Yields :
      {k n l : ℕ} (r : Result String)
      → Marks k n r
      → n ≡ l
      → Yields (λ html. occurrences k html ≡ l) r
  page-Yields (ok s) h e = record { at = h.at ∙ e }
  page-Yields (err x) h e = record { at = tt }

  abbrev of_record : {k : ℕ} → IsMarkup k → Dict Num → ℕ
  of_record m d =
      of_page m + of_rules m (rules_in d) + of_row m * events_in d + of_receipt m * receipts_in d

  -- The report of a record, if it is returned, has exactly as many of each of the characters `<`,
  -- `>`, `"` and `'` as the record's numbers of events, receipts and triggered rules say, whatever
  -- texts the record and the verification hold.
  pub render_report-Marks :
      (indented : Json Num → String) {k : ℕ} (m : IsMarkup k) (d verification : Dict Num)
      {html : String}
      → render_report rt indented d verification ≡ ok html
      → occurrences k html
        ≡ of_page m
          + of_rules m (rules_in d)
          + of_row m * events_in d
          + of_receipt m * receipts_in d
  unfolding render_report IsListed
  render_report-Marks indented {k} m d verification e =
      Yields-ok
        (Yields-bind (parts_of rt d verification) _ λ p h.
          let l = Yields-ok (parts_of-IsListed m d verification) h in
          page-Yields {l = of_record m d} (page rt indented d verification p)
            (page-Marks rt indented d verification p m) (omega (arith, l.0, l.1, l.2)))
        e
