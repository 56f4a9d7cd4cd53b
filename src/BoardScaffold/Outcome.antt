-- ===== src/BoardScaffold/Outcome.antt =====
-- What bin/create_board.py leaves of the repository, and what it has done to it when it returns.
use corejack.Prelude.{some, ◌≡◌, ◌≢◌, sym, ap, ◌∙◌, arith, inl, inr, All}
use corejack.Text.{Text}
use corejack.Failure.{ok, Result-cases}
use corejack.Edit.{Files, for_each, NewFile, refuse_existing, write_new, ◌>>◌}
use corejack.Edit.Stays.{
  Leaves, >>=-Leaves, for_each-Leaves, edit_file-Leaves, refuse_existing-Leaves, write_new-Leaves,
}
use corejack.Edit.Success.{
  >>=-eq-ok, edit_file-eq-ok, IsFresh, refuse_all-eq-ok, Edited, written-same, write_all-done,
  Edited-Stays,
}
use corejack.Scaffold.CoreFile.{core_file}
use corejack.BoardScaffold.{Options, Board, requested}
use corejack.BoardScaffold.Target.{replace_in_fpga_target}
use corejack.BoardScaffold.Create.{board_files, name_board, write_board, create_board}

write_board-Leaves : (path : Text) (a : Board) → core_file ≢ path → Leaves path (write_board a)
unfolding write_board name_board
write_board-Leaves path a h =
    >>=-Leaves path (for_each refuse_existing (board_files a)) _
      (for_each-Leaves path refuse_existing (board_files a) (refuse_existing-Leaves path))
      λ _.
        >>=-Leaves path (name_board a) _
          (edit_file-Leaves path core_file (replace_in_fpga_target a) h)
          λ _. for_each-Leaves path write_new (board_files a) (write_new-Leaves path)

-- Whichever way the scaffold of a board ends, a file that was there is there with the same text,
-- unless it is corejack.core.
pub create_board-Leaves :
    (o : Options) (path : Text) → core_file ≢ path → Leaves path (create_board o)
unfolding create_board
create_board-Leaves o path h files text e = elim (Result-cases (requested files o)) [
  | inl (message, refused) ↦ ground (arith, refused, e)
  | inr (a, granted) ↦ rw granted (write_board-Leaves path a h files text e)
]

-- A board that was created: no new file was there, each is there with its text, and corejack.core has
-- been rewritten.
pub record Created (before after : Files) (a : Board) : Type 0 where
  pub fresh : All (IsFresh before) (board_files a)
  pub added : All (λ (n : NewFile). after n.0 ≡ some n.1) (board_files a)
  pub core_list : Edited before after core_file (replace_in_fpga_target a)

write_board-Created :
    (a : Board) (before : Files) {after : Files}
    → write_board a before ≡ (ok tt, after)
    → Created before after a
unfolding write_board name_board
write_board-Created a before {after} h =
    let (u, s0, h0, t0) =
      >>=-eq-ok (for_each refuse_existing (board_files a))
        (λ _. name_board a >> for_each write_new (board_files a)) before h in
    let (fresh, same) = refuse_all-eq-ok (board_files a) before h0 in
    let (v, s1, h1, t1) =
      >>=-eq-ok (name_board a) (λ _. for_each write_new (board_files a)) s0 t0 in
    let (old, new, was, made, now) =
      edit_file-eq-ok core_file (replace_in_fpga_target a) before
        (ap (name_board a) (sym same) ∙ h1) in
    let (added, keep) = write_all-done (board_files a) s1 t1 in
    record {
      fresh = fresh;
      added = added;
      core_list =
          Edited-Stays before s1 after core_file (replace_in_fpga_target a) (keep core_file)
            (record {
              old = old;
              new = new;
              was = was;
              computed = made;
              now = written-same core_file new before now;
            });
    }

create_board-granted :
    (o : Options) (before : Files) {after : Files}
    → create_board o before ≡ (ok tt, after)
    → (a : Board) × (requested before o ≡ ok a) × (write_board a before ≡ (ok tt, after))
unfolding create_board
create_board-granted o before h = elim (Result-cases (requested before o)) [
  | inl (message, refused) ↦ absurd (ground (arith, refused, h))
  | inr (a, granted) ↦ (a, granted, ground (arith, granted, h))
]

-- When the scaffold of a board returns, the four files that it adds were not there and hold the texts
-- of its request, and corejack.core holds what `replace_in_fpga_target` computes from its old text.
pub create_board-Created :
    (o : Options) (before : Files) {after : Files}
    → create_board o before ≡ (ok tt, after)
    → (a : Board) × (requested before o ≡ ok a) × Created before after a
create_board-Created o before h =
    let (a, granted, done) = create_board-granted o before h in
    (a, granted, write_board-Created a before done)
