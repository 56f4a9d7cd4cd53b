-- ===== src/BoardScaffold/Named.antt =====
-- What `replace_in_fpga_target` of bin/create_board.py does to the lines of corejack.core.
use corejack.Prelude.{
  Bool, true, false, List, [], ◌∷◌, ◌++◌, ◌≡◌, refl, sym, ◌∙◌, subst, ◌||◌, arith, inl, inr,
  Bool-cases,
}
use corejack.Text.{Text, splitlines}
use corejack.Text.Lines.{unlines}
use corejack.Failure.{ok, Result-cases, no_marker}
use corejack.Splice.{replace_marker}
use corejack.BoardScaffold.{Board, wrap_name}
use corejack.BoardScaffold.Target.{
  Scan, start, choice, fileset_line, scanned, rewrite, board_fileset, rtl_marker, finished,
  replace_in_fpga_target,
}
use corejack.BoardScaffold.Regions.{
  names_part, names_top, Follows, or-false, scanned-Follows, scanned-changed_part,
  scanned-changed_top, scanned-changed_filesets, part_not_top, written-part, written-kept,
  written-top, written-first_top,
}

-- Each line stays in its place: just the parts and the toplevels of the target `fpga` have the choice for the
-- board behind them, and the fileset of the board stands before the first of those toplevels. The
-- flag says that the fileset is written, `before` has the lines that were there before.
pub data Named (a : Board) : Bool → List Text → List Text → List Text → Type 0 where
  done : {seen : Bool} {before : List Text} → Named a seen before [] []
  kept :
      (line : Text) {seen : Bool} {before ls out : List Text}
      → names_part before line ≡ false
      → names_top before line ≡ false
      → Named a seen (line ∷ before) ls out
      → Named a seen before (line ∷ ls) (line ∷ out)
  part :
      (line : Text) {seen : Bool} {before ls out : List Text}
      → names_part before line ≡ true
      → Named a seen (line ∷ before) ls out
      → Named a seen before (line ∷ ls) ((line ++ choice a a.part) ∷ out)
  top :
      (line : Text) {before ls out : List Text}
      → names_top before line ≡ true
      → Named a true (line ∷ before) ls out
      → Named a true before (line ∷ ls) ((line ++ choice a (wrap_name a)) ∷ out)
  first_top :
      (line : Text) {before ls out : List Text}
      → names_top before line ≡ true
      → Named a true (line ∷ before) ls out
      → Named a false before (line ∷ ls) (fileset_line a ∷ (line ++ choice a (wrap_name a)) ∷ out)

-- A line of the text that a test holds for.
abbrev pub some_line : (List Text → Text → Bool) → List Text → List Text → Bool
some_line test before [] = false
some_line test before (line ∷ ls) = test before line || some_line test (line ∷ before) ls

-- A line and what stands behind it.
behind :
    (a : Board) (out : List Text) {seen seen' : Bool} {before ls first first' : List Text}
    → seen ≡ seen'
    → first ≡ first'
    → Named a seen before ls (first ++ out)
    → Named a seen' before ls (first' ++ out)
behind a out {seen} {seen'} {before} {ls} {first} {first'} es ef n =
    subst (λ b. Named a b before ls (first' ++ out)) es
      (subst (λ f. Named a seen before ls (f ++ out)) ef n)

rewrite-Named :
    (a : Board) (s : Scan) (before lines : List Text)
    → Follows s before
    → Named a s.changed_filesets before lines (rewrite a s lines).0
unfolding rewrite
rewrite-Named a s before [] h = done
rewrite-Named a s before (line ∷ lines) h =
    let next =
      rewrite-Named a (scanned a s line) (line ∷ before) lines
        (scanned-Follows a line s before h) in
    let others = (rewrite a (scanned a s line) lines).0 in
    let changed = scanned-changed_filesets a line s before h in
    let rest = λ (seen : Bool) (e : s.changed_filesets || names_top before line ≡ seen).
      subst (λ b. Named a b (line ∷ before) lines (rewrite a (scanned a s line) lines).0)
        (changed ∙ e) next in
    elim (Bool-cases (names_part before line)) [
      | inl p ↦ behind a others refl (sym (written-part a line s before h p)) (
          part line p
            (rest s.changed_filesets (rw (part_not_top a line s before h p) (or-false _))))
      | inr no_part ↦ elim (Bool-cases (names_top before line)) [
        | inr no_top ↦
            behind a others refl (sym (written-kept a line s before h no_part no_top))
              (kept line no_part no_top (rest s.changed_filesets (rw no_top (or-false _))))
        | inl t ↦ elim (Bool-cases s.changed_filesets) [
          | inl seen ↦
              behind a others (sym seen) (sym (written-top a line s before h t seen))
                (top line t (rest true (rw seen refl)))
          | inr fresh ↦
              behind a others (sym fresh) (sym (written-first_top a line s before h t fresh))
                (first_top line t (rest true (rw (fresh, t) refl)))
        ]
      ]
    ]

-- Each of the three changes is made just when a line asks for it.
rewrite-changed :
    (a : Board) (s : Scan) (before lines : List Text)
    → Follows s before
    → let end = (rewrite a s lines).1 in
      (end.changed_part ≡ s.changed_part || some_line names_part before lines)
      × (end.changed_top ≡ s.changed_top || some_line names_top before lines)
unfolding rewrite
rewrite-changed a s before [] h = (sym (or-false _), sym (or-false _))
rewrite-changed a s before (line ∷ lines) h =
    let (parts, tops) =
      rewrite-changed a (scanned a s line) (line ∷ before) lines
        (scanned-Follows a line s before h) in
    (
      ground (arith, parts, scanned-changed_part a line s before h),
      ground (arith, tops, scanned-changed_top a line s before h),
    )

finished-eq-ok :
    (out : List Text) (end : Scan) {updated : Text}
    → finished (out, end) ≡ ok updated
    → (updated ≡ unlines out) × (end.changed_part ≡ true) × (end.changed_top ≡ true)
unfolding finished
finished-eq-ok out end h = ground (arith, h)

-- What `replace_in_fpga_target` makes of the lines.
pub record Renamed (a : Board) (lines : List Text) (updated : Text) : Type 0 where
  pub out : List Text
  pub text : updated ≡ unlines out
  pub same_lines : Named a false [] lines out
  pub has_part : some_line names_part [] lines ≡ true
  pub has_top : some_line names_top [] lines ≡ true

-- If `replace_in_fpga_target` returns, it has put the fileset of the board in front of the first marker
-- of the RTL fileset, and kept the lines of that text in their order. Behind each part in the options
-- of the target `fpga` and behind each toplevel of that target stands the choice for the board, and
-- in front of the first such toplevel its fileset; no other line is changed, and there is such a
-- part and such a toplevel.
pub replace_in_fpga_target-Named :
    (a : Board) (text : Text) {updated : Text}
    → replace_in_fpga_target a text ≡ ok updated
    → (with_fileset : Text) × (replace_marker rtl_marker
          (board_fileset a ++ rtl_marker)
          (no_marker rtl_marker)
          text
        ≡ ok with_fileset)
      × Renamed a (splitlines with_fileset) updated
unfolding replace_in_fpga_target
replace_in_fpga_target-Named a text {updated} h =
    elim (Result-cases
      (replace_marker rtl_marker (board_fileset a ++ rtl_marker) (no_marker rtl_marker) text)) [
        | inl (message, failed) ↦ absurd (ground (arith, failed, h))
        | inr (with_fileset, made) ↦
            let lines = splitlines with_fileset in
            let ended : finished (rewrite a start lines) ≡ ok updated = ground (arith, made, h) in
            let (text_is, parted, topped) =
              finished-eq-ok (rewrite a start lines).0 (rewrite a start lines).1 ended in
            let begins : Follows start [] = record { target = refl; options = refl } in
            let (parts, tops) = rewrite-changed a start [] lines begins in
            (
              with_fileset,
              made,
              record {
                out = (rewrite a start lines).0;
                text = text_is;
                same_lines = rewrite-Named a start [] lines begins;
                has_part = sym parts ∙ parted;
                has_top = sym tops ∙ topped;
              },
            )
      ]
