-- ===== src/Scaffold/Created.antt =====
-- What bin/create_core.py has done to the repository when it returns.
use corejack.Prelude.{some, ◌≡◌, ◌≢◌, refl, sym, ap, ◌∙◌, arith, inl, inr, Option-cases}
use corejack.Text.{Text, text_eq}
use corejack.Failure.{ok}
use corejack.Edit.{Files, for_each, edit_file, refuse_existing, write_new, ◌>>◌}
use corejack.Edit.Success.{
  >>=-eq-ok, edit_file-eq-ok, refuse_all-eq-ok, Edited, Added, written-same, written-other,
  write_all-done, Edited-Stays,
}
use corejack.Scaffold.Request.{Core}
use corejack.Scaffold.Texts.{core_descriptor, core_adapter, core_fusesoc}
use corejack.Scaffold.Package.{package_path, package_with}
use corejack.Scaffold.CoreFile.{core_file, core_file_with}
use corejack.Scaffold.Create.{
  board_path, core_path, adapter_path, fusesoc_path, update_platform_pkg, update_corejack_core,
  update_board_descriptor, listed, new_files, write_core, update_files,
}
use corejack.Text.Laws.{text_eq-ne}

pub record Created (before after : Files) (a : Core) : Type 0 where
  pub descriptor : Added before after (core_path a.core) (core_descriptor a)
  pub adapter : Added before after (adapter_path a) (core_adapter a)
  pub fusesoc : Added before after (fusesoc_path a.core) (core_fusesoc a)
  pub package_file : Edited before after package_path (package_with a)
  pub core_list : Edited before after core_file (core_file_with a)
  pub board : Edited before after (board_path a.board) (listed a)

-- Two paths that begin differently.
package-core_file : package_path ≢ core_file
package-core_file = text_eq-ne _ _ (unfold text_eq in refl)

package-board : (board : Text) → package_path ≢ board_path board
package-board board = text_eq-ne _ _ (unfold text_eq in refl)

core_file-board : (board : Text) → core_file ≢ board_path board
core_file-board board = text_eq-ne _ _ (unfold text_eq in refl)

update_board_descriptor-eq-ok :
    (a : Core) (before : Files) {after : Files}
    → update_board_descriptor a before ≡ (ok tt, after)
    → edit_file (board_path a.board) (listed a) before ≡ (ok tt, after)
unfolding update_board_descriptor
update_board_descriptor-eq-ok a before h = elim (Option-cases (before (board_path a.board))) [
  | inl missing ↦ absurd (ground (arith, missing, h))
  | inr (text, there) ↦ ground (arith, there, h)
]

abbrev Updated : Files → Files → Core → Type 0
Updated before after a =
    Edited before after package_path (package_with a)
    × Edited before after core_file (core_file_with a)
    × Edited before after (board_path a.board) (listed a)

-- The three edits are of three different files.
update_files-Updated :
    (a : Core) (before : Files) {after : Files}
    → update_files a before ≡ (ok tt, after)
    → Updated before after a
unfolding update_files update_platform_pkg update_corejack_core
update_files-Updated a before {after} h =
    let (u, s1, h1, t1) =
      >>=-eq-ok (update_platform_pkg a) (λ _. update_corejack_core a >> update_board_descriptor a)
        before h in
    let (p_old, p_new, p_was, p_made, p_now) =
      edit_file-eq-ok package_path (package_with a) before h1 in
    let (v, s2, h2, t2) =
      >>=-eq-ok (update_corejack_core a) (λ _. update_board_descriptor a) s1 t1 in
    let (c_old, c_new, c_was, c_made, c_now) = edit_file-eq-ok core_file (core_file_with a) s1 h2 in
    let (b_old, b_new, b_was, b_made, b_now) =
      edit_file-eq-ok (board_path a.board) (listed a) s2 (update_board_descriptor-eq-ok a s2 t2) in
    let board : Text = board_path a.board in
    let c_end : after core_file ≡ some c_new =
      written-other core_file board b_new s2 b_now (λ e. core_file-board a.board (sym e))
      ∙ written-same core_file c_new s1 c_now in
    let p_end : after package_path ≡ some p_new =
      written-other package_path board b_new s2 b_now (λ e. package-board a.board (sym e))
      ∙ written-other package_path core_file c_new s1 c_now (λ e. package-core_file (sym e))
      ∙ written-same package_path p_new before p_now in
    let b_same : s2 board ≡ before board =
      written-other board core_file c_new s1 c_now (core_file-board a.board)
      ∙ written-other board package_path p_new before p_now (package-board a.board) in
    (
      record { old = p_old; new = p_new; was = p_was; computed = p_made; now = p_end },
      record {
        old = c_old;
        new = c_new;
        was =
            sym (written-other core_file package_path p_new before p_now package-core_file) ∙ c_was;
        computed = c_made;
        now = c_end;
      },
      record {
        old = b_old;
        new = b_new;
        was = sym b_same ∙ b_was;
        computed = b_made;
        now = written-same board b_new s2 b_now;
      },
    )

pub write_core-Created :
    (a : Core) (before : Files) {after : Files}
    → write_core a before ≡ (ok tt, after)
    → Created before after a
unfolding write_core new_files
write_core-Created a before {after} h =
    let (u, s0, h0, t0) =
      >>=-eq-ok (for_each refuse_existing (new_files a))
        (λ _. update_files a >> for_each write_new (new_files a)) before h in
    let ((f1, (f2, (f3, z))), same) = refuse_all-eq-ok (new_files a) before h0 in
    let (v, s1, h1, t1) =
      >>=-eq-ok (update_files a) (λ _. for_each write_new (new_files a)) s0 t0 in
    let (p, c, b) = update_files-Updated a before (ap (update_files a) (sym same) ∙ h1) in
    let ((n1, (n2, (n3, z'))), keep) = write_all-done (new_files a) s1 t1 in
    record {
      descriptor = record { was = f1; now = n1 };
      adapter = record { was = f2; now = n2 };
      fusesoc = record { was = f3; now = n3 };
      package_file =
          Edited-Stays before s1 after package_path (package_with a) (keep package_path) p;
      core_list = Edited-Stays before s1 after core_file (core_file_with a) (keep core_file) c;
      board =
          Edited-Stays before s1 after (board_path a.board) (listed a) (keep (board_path a.board))
            b;
    }
