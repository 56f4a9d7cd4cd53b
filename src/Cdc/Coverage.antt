-- ===== src/Cdc/Coverage.antt =====
-- The exit status of the CDC check, and what becomes of each crossing.
use corejack.Prelude.{
  Bool, true, false, List, [], ◌∷◌, ◌++◌, none, some, ◌≡◌, ◌↔◌, refl, ap, subst, arith, is_nil, all,
  any, Option-cases, Bool-cases, inl, inr,
}
use corejack.Text.{Text}
use corejack.Cdc.{Entry, Row, covers, reviewed_by, summarize, check_cdc}

module _ (fnmatchcase : Text → Text → Bool) where
  reviewed_by-any :
      (row : Row) (es : List Entry)
      → (reviewed_by fnmatchcase row es ≡ none) ↔ (any (covers fnmatchcase row) es ≡ false)
  unfolding reviewed_by
  reviewed_by-any row [] = ground arith
  reviewed_by-any row (e ∷ es) = ground (arith, reviewed_by-any row es)

  -- The first entry that covers a row.
  pub record IsFirst (row : Row) (es : List Entry) (e : Entry) : Type 0 where
    pub before : List Entry
    pub after : List Entry
    pub stands : es ≡ before ++ e ∷ after
    pub covers_row : covers fnmatchcase row e ≡ true
    pub none_before : any (covers fnmatchcase row) before ≡ false

  -- The rows, in their order, with the entries that they are counted for and the rows that are left.
  pub data Reviewed (es : List Entry) : List Row → List Entry → List Row → Type 0 where
    done : Reviewed es [] [] []
    has_entry :
        (row : Row) (e : Entry) {rows left : List Row} {entries : List Entry}
        → IsFirst row es e
        → Reviewed es rows entries left
        → Reviewed es (row ∷ rows) (e ∷ entries) left
    has_none :
        (row : Row) {rows left : List Row} {entries : List Entry}
        → any (covers fnmatchcase row) es ≡ false
        → Reviewed es rows entries left
        → Reviewed es (row ∷ rows) entries (row ∷ left)

  reviewed_by-IsFirst :
      (row : Row) (es : List Entry) {e : Entry}
      → reviewed_by fnmatchcase row es ≡ some e
      → IsFirst row es e
  unfolding reviewed_by
  reviewed_by-IsFirst row [] h = cc
  reviewed_by-IsFirst row (c ∷ es) {e} h = elim (Bool-cases (covers fnmatchcase row c)) [
    | inl yes_covers ↦
        let same : c ≡ e = ground (arith, h, yes_covers) in
        record {
          before = [];
          after = es;
          stands = ap (λ x. x ∷ es) same;
          covers_row = subst (λ x. covers fnmatchcase row x ≡ true) same yes_covers;
          none_before = refl;
        }
    | inr other ↦
        let later = reviewed_by-IsFirst row es {e = e} (ground (arith, h, other)) in
        record {
          before = c ∷ later.before;
          after = later.after;
          stands = ap (λ x. c ∷ x) later.stands;
          covers_row = later.covers_row;
          none_before = rw (other, later.none_before) refl;
        }
  ]

  reviewed :
      (es : List Entry) {rows : List Row} {entries entries' : List Entry} {left left' : List Row}
      → entries ≡ entries'
      → left ≡ left'
      → Reviewed es rows entries left
      → Reviewed es rows entries' left'
  reviewed es {rows} {entries} {entries'} {left} {left'} ee el h =
      subst (λ x. Reviewed es rows x left') ee (subst (λ x. Reviewed es rows entries x) el h)

  -- A crossing that an entry covers is counted for the first such entry, and every other one is listed as
  -- unreviewed, both in the order of the report.
  pub summarize-Reviewed :
      (es : List Entry) (rows : List Row)
      → Reviewed es rows
          (summarize fnmatchcase es rows).covered
          (summarize fnmatchcase es rows).unreviewed
  unfolding summarize
  summarize-Reviewed es [] = done
  summarize-Reviewed es (row ∷ rows) =
      let rest = summarize-Reviewed es rows in
      elim (Option-cases (reviewed_by fnmatchcase row es)) [
        | inl e ↦
            reviewed es (rw e refl) (rw e refl) (has_none row ((reviewed_by-any row es).0 e) rest)
        | inr (entry, e) ↦
            reviewed es (rw e refl) (rw e refl)
              (has_entry row entry (reviewed_by-IsFirst row es e) rest)
      ]

  summarize-nil :
      (es : List Entry) (rows : List Row)
      → (is_nil (summarize fnmatchcase es rows).unreviewed ≡ true)
        ↔ (all (λ row. any (covers fnmatchcase row) es) rows ≡ true)
  unfolding summarize
  summarize-nil es [] = ground arith
  summarize-nil es (row ∷ rows) = elim (Option-cases (reviewed_by fnmatchcase row es)) [
    | inl e ↦ ground (arith, e, summarize-nil es rows, reviewed_by-any row es)
    | inr (entry, e) ↦ ground (arith, e, summarize-nil es rows, reviewed_by-any row es)
  ]

  -- The check exits with status 0 just when every crossing is covered by an entry of the allowlist:
  -- with its rule, and with globs that match every pin of both of its ends.
  pub check_cdc_iff :
      (es : List Entry) (rows : List Row)
      → ((check_cdc fnmatchcase es rows).1 ≡ 0)
        ↔ (all (λ row. any (covers fnmatchcase row) es) rows ≡ true)
  unfolding check_cdc
  check_cdc_iff es rows = ground (arith, summarize-nil es rows)
