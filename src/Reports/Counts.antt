-- ===== src/Reports/Counts.antt =====
-- The characters of markup of the whole page.
use vaultwatch.Base.{ℕ, zero, suc, ◌+◌, ◌*◌, String, ◌≡◌, refl, arith}
use mathlib.Core.Path.{subst}
use vaultwatch.Runtime.{Runtime}
use vaultwatch.Models.Values.{Json, Dict}
use vaultwatch.Reports.Escape.{IsMarkup, opening, closing, quote, apostrophe, occurrences}
use vaultwatch.Reports.Markup.{Marks, Marks-none, Marks-part}
use vaultwatch.Reports.Reads.{Parts}
use vaultwatch.Reports.Page.{page, shown_findings}
use vaultwatch.Reports.Layout.{
  heading_marks, payment_marks, table_marks, timeline_marks, evidence_marks,
}

-- the characters of the literal texts, and of the blocks
abbrev pub of_row : {k : ℕ} → IsMarkup k → ℕ
of_row quote = 0
of_row apostrophe = 0
of_row _ = 8

abbrev pub of_receipt : {k : ℕ} → IsMarkup k → ℕ
of_receipt quote = 2
of_receipt apostrophe = 0
of_receipt _ = 8

-- of a list of `n` rules
abbrev pub of_rules : {k : ℕ} → IsMarkup k → ℕ → ℕ
of_rules quote n = 0
of_rules apostrophe n = 0
of_rules _ zero = 2
of_rules _ (suc n) = 4 * suc n

abbrev pub of_page : {k : ℕ} → IsMarkup k → ℕ
of_page quote = 6
of_page apostrophe = 0
of_page _ = 148

module _ (rt : Runtime) (indented : Json rt.Num → String) (record_dict verification : Dict rt.Num)
    (p : Parts rt.Num) where
  abbrev MarksPage : {k : ℕ} → IsMarkup k → Type 0
  MarksPage {k} m =
      Marks k
        (of_page m
          + occurrences k (shown_findings p.findings)
          + occurrences k p.rows
          + occurrences k p.receipts)
        (page rt indented record_dict verification p)

  -- the five parts together
  combine :
      {k : ℕ} (m : IsMarkup k) (h q t l e : ℕ)
      → ((heading_marks rt m indented record_dict verification p).0 ≡ h)
        × ((payment_marks rt m indented record_dict verification p).0 ≡ q)
        × ((table_marks rt m indented record_dict verification p).0 ≡ t)
        × ((timeline_marks rt m indented record_dict verification p).0 ≡ l)
        × ((evidence_marks rt m indented record_dict verification p).0 ≡ e)
      → {n : ℕ} → h + (q + (t + (l + e))) ≡ n
      → Marks k n (page rt indented record_dict verification p)
  unfolding page
  combine {k} m h q t l e (e₁, e₂, e₃, e₄, e₅) total =
      let a = heading_marks rt m indented record_dict verification p in
      let b = payment_marks rt m indented record_dict verification p in
      let c = table_marks rt m indented record_dict verification p in
      let d = timeline_marks rt m indented record_dict verification p in
      let f = evidence_marks rt m indented record_dict verification p in
      subst (λ x. Marks k x (page rt indented record_dict verification p))
        (omega (arith, e₁, e₂, e₃, e₄, e₅, total))
        (Marks-part _ _ a.1 (
          Marks-part _ _ b.1
            (Marks-part _ _ c.1 (Marks-part _ _ d.1 (Marks-part _ _ f.1 Marks-none)))))

  pub page-Marks : {k : ℕ} (m : IsMarkup k) → MarksPage m
  unfolding page heading_marks payment_marks table_marks timeline_marks evidence_marks occurrences
  page-Marks opening =
      combine opening 19 18 39
        (4
          + (occurrences b'<' (shown_findings p.findings)
              + (2 + (12 + (occurrences b'<' p.rows + 1)))))
        (6
          + (0
              + (6
                  + (0
                      + (6
                          + (0
                              + (6
                                  + (13
                                      + (occurrences b'<' p.receipts
                                          + (1 + (6 + (0 + (6 + (3))))))))))))))
        (refl, refl, refl, refl, refl) (omega arith)
  page-Marks closing =
      combine closing 19 18 39
        (4
          + (occurrences b'>' (shown_findings p.findings)
              + (2 + (12 + (occurrences b'>' p.rows + 1)))))
        (6
          + (0
              + (6
                  + (0
                      + (6
                          + (0
                              + (6
                                  + (13
                                      + (occurrences b'>' p.receipts
                                          + (1 + (6 + (0 + (6 + (3))))))))))))))
        (refl, refl, refl, refl, refl) (omega arith)
  page-Marks quote =
      combine quote 6 0 0
        (0
          + (occurrences b'"' (shown_findings p.findings)
              + (0 + (0 + (occurrences b'"' p.rows + 0)))))
        (0
          + (0
              + (0
                  + (0
                      + (0
                          + (0
                              + (0
                                  + (0
                                      + (occurrences b'"' p.receipts
                                          + (0 + (0 + (0 + (0 + (0))))))))))))))
        (refl, refl, refl, refl, refl) (omega arith)
  page-Marks apostrophe =
      combine apostrophe 0 0 0
        (0
          + (occurrences b'\'' (shown_findings p.findings)
              + (0 + (0 + (occurrences b'\'' p.rows + 0)))))
        (0
          + (0
              + (0
                  + (0
                      + (0
                          + (0
                              + (0
                                  + (0
                                      + (occurrences b'\'' p.receipts
                                          + (0 + (0 + (0 + (0 + (0))))))))))))))
        (refl, refl, refl, refl, refl) (omega arith)
