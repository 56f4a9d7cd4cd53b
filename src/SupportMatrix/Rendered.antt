-- ===== src/SupportMatrix/Rendered.antt =====
-- The page of bin/render_support_matrix.py for a repository whose descriptors pass the checks of
-- bin/validate_target.py.
use corejack.Prelude.{
  true, false, List, [], ◌∷◌, ◌≡◌, refl, sym, subst, ◌∙◌, arith, All, Option-cases, Bool-cases, inl,
  inr, is_nil,
}
use corejack.Text.{Text, is_some, contains, text_eq}
use corejack.Text.Laws.{text_eq_iff, text_eq_refl}
use corejack.Failure.{Result, ok, map_result, Result-cases}
use corejack.Host.{Host, core_dir, board_dir, descriptor_names}
use corejack.Members.{unsupported-nil}
use corejack.Template.{unsupported}
use corejack.CoreCheck.Rules.{CoreReport, core_check}
use corejack.BoardCheck.{BoardFields}
use corejack.BoardCheck.Rules.{board_check, board_cores}
use corejack.SupportMatrix.{
  CoreRow, BoardRow, core_record, board_record, core_named, board_row, render_board_matrix,
}
use corejack.SupportMatrix.Pages.{render}
use corejack.SupportMatrix.Records.{core_record-checked, board_record-checked}

-- A comprehension over results that are all there.
map_result-All {ℓ κ} :
    {A : Type ℓ} {B : Type κ} (f : A → Result B) (P : B → Type 0) (xs : List A)
    → All (λ x. (y : B) × (f x ≡ ok y) × P y) xs
    → (ys : List B) × (map_result f xs ≡ ok ys) × All P ys
unfolding map_result
map_result-All f P [] h = ([], refl, tt)
map_result-All f P (x ∷ xs) ((y, e, py), h) =
    let (ys, es, ps) = map_result-All f P xs h in (y ∷ ys, rw (e, es) refl, (py, ps))

All-contains :
    (P : Text → Type 0) (xs : List Text) → ((x : Text) → contains xs x ≡ true → P x) → All P xs
All-contains P [] h = tt
All-contains P (x ∷ xs) h =
    (h x (rw (text_eq_refl x) refl), All-contains P xs (λ y m. h y (rw m (ground arith))))

other_name :
    (core name row_name : Text)
    → row_name ≡ name
    → text_eq row_name core ≡ false
    → text_eq core name ≡ false
other_name core name row_name same other = elim (Bool-cases (text_eq core name)) [
  | inr differs ↦ differs
  | inl equal ↦
      let found = (text_eq_iff row_name core).1 (same ∙ sym ((text_eq_iff core name).0 equal)) in
      absurd (ground (arith, other, found))
]

-- Each core of a list has its row among those of the list.
core_rows :
    (host : Host) (names : List Text)
    → ((core : Text)
        → contains names core ≡ true
        → (row : CoreRow) × (core_record host core ≡ ok row) × (row.name ≡ core))
    → (rows : List CoreRow) × (map_result (core_record host) names ≡ ok rows)
      × ((core : Text) → contains names core ≡ true → is_some (core_named core rows) ≡ true)
unfolding map_result core_named
core_rows host [] h = ([], refl, λ core m. cc)
core_rows host (name ∷ names) h =
    let (row, e, same) = h name (rw (text_eq_refl name) refl) in
    let (rows, es, finds) = core_rows host names (λ core m. h core (rw m (ground arith))) in
    (
      row ∷ rows,
      rw (e, es) refl,
      λ core m. elim (Bool-cases (text_eq row.name core)) [
        | inl here ↦ rw here refl
        | inr other ↦
            let differs = other_name core name row.name same other in
            rw other (finds core (ground (arith, m, differs)))
      ],
    )

-- A table has a row for each core that the board lists.
render_board_matrix-ok :
    (cores : List CoreRow) (board : BoardRow)
    → ((core : Text)
        → contains board.compatible_cores core ≡ true
        → is_some (core_named core cores) ≡ true)
    → (page : Text) × (render_board_matrix cores board ≡ ok page)
unfolding render_board_matrix board_row
render_board_matrix-ok cores board finds =
    let (rows, e, _) =
      map_result-All (board_row cores) (λ _. Unit {0}) board.compatible_cores
        (All-contains _ board.compatible_cores (λ core m. named core (finds core m))) in
    elim (Result-cases (render_board_matrix cores board)) [
      | inl (message, bad) ↦ absurd (ground (arith, bad, e))
      | inr rendered ↦ rendered
    ]
  where
    named :
        (core : Text)
        → is_some (core_named core cores) ≡ true
        → (row : List Text) × (board_row cores core ≡ ok row) × (Unit {0})
    named core h = elim (Option-cases (core_named core cores)) [
      | inl bad ↦ absurd (ground (arith, h, bad))
      | inr (c, e) ↦ elim (Result-cases (board_row cores core)) [
        | inl (message, bad) ↦ absurd (ground (arith, bad, e))
        | inr (row, er) ↦ (row, er, tt)
      ]
    ]

board_check-known :
    (host : Host) (board top : Text) {f : BoardFields}
    → board_check host board ≡ ok (f, top)
    → is_nil (unsupported (descriptor_names host core_dir) f.compatible_cores) ≡ true
unfolding board_check board_cores
board_check-known host board top h = ground (arith, h)

Finds : List CoreRow → BoardRow → Type 0
Finds cores row =
    (core : Text)
    → contains row.compatible_cores core ≡ true
    → is_some (core_named core cores) ≡ true

pages-ok :
    (cores : List CoreRow) (boards : List BoardRow)
    → All (Finds cores) boards
    → (pages : List Text) × (map_result (render_board_matrix cores) boards ≡ ok pages)
unfolding map_result Finds
pages-ok cores [] h = ([], refl)
pages-ok cores (board ∷ boards) (finds, h) =
    let (page, e) = render_board_matrix-ok cores board finds in
    let (pages, es) = pages-ok cores boards h in (page ∷ pages, rw (e, es) refl)

-- If each core and each board of the repository passes its check, the page of the support matrix is
-- rendered.
pub render-checked :
    (host : Host)
    → ((core : Text)
        → contains (descriptor_names host core_dir) core ≡ true
        → (r : CoreReport) × (core_check host core ≡ ok r))
    → ((board : Text)
        → contains (descriptor_names host board_dir) board ≡ true
        → (x : BoardFields × Text) × (board_check host board ≡ ok x))
    → (page : Text) × (render host ≡ ok page)
unfolding render Finds
render-checked host core_passes board_passes =
    let (cores, ec, finds) =
      core_rows host (descriptor_names host core_dir)
        (λ core m. let (r, e) = core_passes core m in core_record-checked host core e) in
    let board_row_of : (board : Text)
        → contains (descriptor_names host board_dir) board ≡ true
        → (row : BoardRow) × (board_record host board ≡ ok row) × Finds cores row =
      λ board m.
        let (x, e) = board_passes board m in
        let (row, er, same) = board_record-checked host board x.1 {f = x.0} e in
        (
          row,
          er,
          λ core listed. finds core (
              unsupported-nil (descriptor_names host core_dir) x.0.compatible_cores core
                (board_check-known host board x.1 {f = x.0} e)
                (subst (λ cs. contains cs core ≡ true) same listed)),
        ) in
    let (boards, eb, all_find) =
      map_result-All (board_record host) (Finds cores) (descriptor_names host board_dir)
        (All-contains _ (descriptor_names host board_dir) board_row_of) in
    let (pages, ep) = pages-ok cores boards all_find in
    elim (Result-cases (render host)) [
      | inl (message, bad) ↦ absurd (ground (arith, bad, ec, eb, ep))
      | inr rendered ↦ rendered
    ]
