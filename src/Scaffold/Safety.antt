-- ===== src/Scaffold/Safety.antt =====
-- What bin/create_core.py leaves of the files that are there, whichever way it ends.
use corejack.Prelude.{◌≡◌, ◌≢◌, arith, inl, inr}
use corejack.Text.{Text, codes}
use corejack.Failure.{ok, missing_file, Result-cases}
use corejack.Edit.{Files, edit_file, guard, refuse_existing, write_new, for_each}
use corejack.Edit.Stays.{
  Leaves, >>=-Leaves, for_each-Leaves, edit_file-Leaves, refuse_existing-Leaves, write_new-Leaves,
}
use corejack.Scaffold.Request.{Options, Core, requested}
use corejack.Scaffold.Package.{package_path, package_with}
use corejack.Scaffold.CoreFile.{core_file, core_file_with}
use corejack.Scaffold.Create.{
  board_path, update_platform_pkg, update_corejack_core, update_board_descriptor, new_files,
  no_board, listed, write_core, create_core, update_files,
}

module _ (path : Text) (a : Core) where
  update_platform_pkg-Leaves : package_path ≢ path → Leaves path (update_platform_pkg a)
  unfolding update_platform_pkg
  update_platform_pkg-Leaves h = edit_file-Leaves path package_path (package_with a) h

  update_corejack_core-Leaves : core_file ≢ path → Leaves path (update_corejack_core a)
  unfolding update_corejack_core
  update_corejack_core-Leaves h = edit_file-Leaves path core_file (core_file_with a) h

  update_board_descriptor-Leaves :
      board_path a.board ≢ path → Leaves path (update_board_descriptor a)
  unfolding update_board_descriptor
  update_board_descriptor-Leaves h =
      >>=-Leaves {B = Unit {0}} path
        (guard (no_board (board_path a.board))
          (missing_file (codes "board descriptor") (board_path a.board)))
        (λ _. edit_file (board_path a.board) (listed a)) (λ files text e. e)
        λ _. edit_file-Leaves path (board_path a.board) (listed a) h

requested-board :
    (files : Files) (o : Options) {a : Core} → requested files o ≡ ok a → a.board ≡ o.board
unfolding requested
requested-board files o h = ground (arith, h)

write_core-Leaves :
    (path : Text) (a : Core)
    → package_path ≢ path
    → core_file ≢ path
    → board_path a.board ≢ path
    → Leaves path (write_core a)
unfolding write_core update_files
write_core-Leaves path a hp hc hb =
    >>=-Leaves path (for_each refuse_existing (new_files a)) _
      (for_each-Leaves path refuse_existing (new_files a) (refuse_existing-Leaves path))
      λ _.
        >>=-Leaves path (update_files a) _
          (>>=-Leaves path (update_platform_pkg a) _ (update_platform_pkg-Leaves path a hp) λ _.
            >>=-Leaves path (update_corejack_core a) _ (update_corejack_core-Leaves path a hc)
              λ _. update_board_descriptor-Leaves path a hb)
          λ _. for_each-Leaves path write_new (new_files a) (write_new-Leaves path)

-- Whichever way the scaffold of a core ends, a file that was there is there with the same text, unless
-- it is the platform package, corejack.core or the descriptor of the named board.
pub create_core-Leaves :
    (o : Options) (path : Text)
    → package_path ≢ path
    → core_file ≢ path
    → board_path o.board ≢ path
    → Leaves path (create_core o)
unfolding create_core
create_core-Leaves o path hp hc hb files text e = elim (Result-cases (requested files o)) [
  | inl (message, refused) ↦ ground (arith, refused, e)
  | inr (a, granted) ↦
      let named : board_path a.board ≢ path = rw (requested-board files o granted) hb in
      rw granted (write_core-Leaves path a hp hc named files text e)
]
