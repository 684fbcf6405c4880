-- ===== src/Reports/Layout.antt =====
-- The characters of markup of the five parts of the page, each with its count.
use vaultwatch.Base.{ℕ, String}
use vaultwatch.Runtime.{Runtime}
use vaultwatch.Models.Values.{Json, Dict}
use vaultwatch.Reports.{fstring}
use vaultwatch.Reports.Escape.{IsMarkup}
use vaultwatch.Reports.Markup.{
  Marks, Marks-none, Marks-text, Marks-clean, Marks-part, Marks-esc, Marks-escaped,
}
use vaultwatch.Reports.Reads.{Parts}
use vaultwatch.Reports.Page.{
  heading_parts, payment_parts, table_parts, timeline_parts, evidence_parts,
}
use vaultwatch.Reports.Blocks.{familiar-Marks, correlation-Marks, block-Marks, blocked-Marks}

module _ (rt : Runtime) {k : ℕ} (m : IsMarkup k) where
  open rt use {Num}

  module _ (indented : Json Num → String) where
    module _ (record_dict verification : Dict Num) (p : Parts Num) where
      unfoldable pub heading_marks :
          (n : ℕ) × Marks k n (fstring (heading_parts rt indented record_dict verification p))
      unfolding heading_parts
      heading_marks = (
        _,
        Marks-text _ _ (
            Marks-clean _ _ (Marks-escaped rt m _) (
              Marks-text _ _ (
                Marks-clean _ _ (Marks-escaped rt m _) (
                  Marks-text _ _ (
                    Marks-clean _ _ (Marks-escaped rt m _) (
                      Marks-text _ _ (
                        Marks-clean _ _ (Marks-escaped rt m _) (
                          Marks-text _ _ (
                            Marks-clean _ _ (Marks-escaped rt m _) (
                              Marks-text _ _ (
                                Marks-clean _ _ (Marks-escaped rt m _) (
                                  Marks-text _ _ (
                                    Marks-clean _ _ (Marks-escaped rt m _) (
                                      Marks-text _ _ (
                                        Marks-clean _ _ (Marks-escaped rt m _)
                                          (Marks-text _ _ Marks-none)))))))))))))))),
      )

      unfoldable pub payment_marks :
          (n : ℕ) × Marks k n (fstring (payment_parts rt indented record_dict verification p))
      unfolding payment_parts
      payment_marks = (
        _,
        Marks-clean _ _ (Marks-escaped rt m _) (
            Marks-text _ _ (
              Marks-clean _ _ (Marks-esc rt m _) (
                Marks-text _ _ (
                  Marks-clean _ _ (Marks-escaped rt m _) (
                    Marks-text _ _ (
                      Marks-clean _ _ (Marks-escaped rt m _) (
                        Marks-text _ _ (
                          Marks-clean _ _ (Marks-escaped rt m _) (
                            Marks-text _ _
                              (Marks-part _ _ (block-Marks rt m indented _ _) Marks-none)))))))))),
      )

      unfoldable pub table_marks :
          (n : ℕ) × Marks k n (fstring (table_parts rt indented record_dict verification p))
      unfolding table_parts
      table_marks = (
        _,
        Marks-text _ _ (
            Marks-clean _ _ (Marks-escaped rt m _) (
              Marks-text _ _ (
                Marks-clean _ _ (Marks-esc rt m _) (
                  Marks-text _ _ (
                    Marks-clean _ _ (Marks-escaped rt m _) (
                      Marks-text _ _ (
                        Marks-clean _ _ (Marks-escaped rt m _) (
                          Marks-text _ _ (
                            Marks-clean _ _ (familiar-Marks rt m _ _ _) (
                              Marks-text _ _ (
                                Marks-clean _ _ (familiar-Marks rt m _ _ _) (
                                  Marks-text _ _ (
                                    Marks-clean _ _ (Marks-esc rt m _) (
                                      Marks-text _ _ (
                                        Marks-clean _ _ (correlation-Marks rt m _) (
                                          Marks-text _ _ (
                                            Marks-clean _ _ (Marks-esc rt m _) (
                                              Marks-text _ _ (
                                                Marks-clean _ _ (Marks-escaped rt m _) (
                                                  Marks-text _ _ (
                                                    Marks-clean _ _ (Marks-escaped rt m _)
                                                      Marks-none))))))))))))))))))))),
      )

      unfoldable pub timeline_marks :
          (n : ℕ) × Marks k n (fstring (timeline_parts rt indented record_dict verification p))
      unfolding timeline_parts
      timeline_marks = (
        _,
        Marks-text _ _ (
            Marks-text _ _ (
              Marks-text _ _ (
                Marks-clean _ _ (Marks-escaped rt m _)
                  (Marks-text _ _ (Marks-text _ _ (Marks-text _ _ Marks-none)))))),
      )

      unfoldable pub evidence_marks :
          (n : ℕ) × Marks k n (fstring (evidence_parts rt indented record_dict verification p))
      unfolding evidence_parts
      evidence_marks = (
        _,
        Marks-part _ _ (block-Marks rt m indented _ _) (
            Marks-text _ _ (
              Marks-part _ _ (blocked-Marks rt m indented _ _) (
                Marks-text _ _ (
                  Marks-part _ _ (blocked-Marks rt m indented _ _) (
                    Marks-text _ _ (
                      Marks-part _ _ (blocked-Marks rt m indented _ _) (
                        Marks-text _ _ (
                          Marks-text _ _ (
                            Marks-text _ _ (
                              Marks-part _ _ (block-Marks rt m indented _ _) (
                                Marks-text _ _ (
                                  Marks-part _ _ (blocked-Marks rt m indented _ _)
                                    (Marks-text _ _ Marks-none))))))))))))),
      )
