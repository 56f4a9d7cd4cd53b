-- ===== src/Tests/CdcRuns.antt =====
-- The theorems on the CDC check, with two crossings and globs without wildcards.
use corejack.Prelude.{true, [], ◌∷◌, ◌≡◌, ◌↔◌, all, any}
use corejack.Text.{Text, codes, text_eq}
use corejack.Cdc.{Entry, Row, covers, summarize, check_cdc}
use corejack.Cdc.Coverage.{Reviewed, summarize-Reviewed, check_cdc_iff}

abbrev exact : Entry
exact = record { rule = codes "CDC-1"; start_glob = codes "a/q"; end_glob = codes "b/d" }

abbrev crossing : Text → Row
crossing rule = record {
  rule = rule;
  severity = codes "Warning";
  startpoint_clock = codes "clk";
  endpoint_clock = codes "tck";
  startpoint = codes "a/q";
  endpoint = codes "b/d";
}

summarize-Reviewed_example :
    let rows = crossing (codes "CDC-1") ∷ crossing (codes "CDC-7") ∷ [] in
    let s = summarize text_eq (exact ∷ []) rows in
    Reviewed text_eq (exact ∷ []) rows s.covered s.unreviewed
summarize-Reviewed_example =
    summarize-Reviewed text_eq (exact ∷ [])
      (crossing (codes "CDC-1") ∷ crossing (codes "CDC-7") ∷ [])

check_cdc_iff_example :
    ((check_cdc text_eq (exact ∷ []) (crossing (codes "CDC-1") ∷ [])).1 ≡ 0)
    ↔ (all (λ row. any (covers text_eq row) (exact ∷ [])) (crossing (codes "CDC-1") ∷ []) ≡ true)
check_cdc_iff_example = check_cdc_iff text_eq (exact ∷ []) (crossing (codes "CDC-1") ∷ [])
