-- ===== src/Scaffold/Create.antt =====
-- `create_core` of bin/create_core.py on the files of the repository: the three files that it edits, and
-- the three that it writes.
use corejack.Prelude.{Bool, not, List, [], ◌∷◌, ◌++◌}
use corejack.Text.{Text, codes}
use corejack.Failure.{Result, missing_file}
use corejack.Edit.{
  Files, Edit, exists, for_each, ◌>>=◌, ◌>>◌, edit_file, guard, NewFile, refuse_existing, write_new,
}
use corejack.Scaffold.{append_yaml_top_list_item}
use corejack.Scaffold.Request.{Options, Core, requested}
use corejack.Scaffold.Texts.{adapter_name, core_descriptor, core_fusesoc, core_adapter}
use corejack.Scaffold.Package.{package_path, package_with}
use corejack.Scaffold.CoreFile.{core_file, core_file_with}

abbrev pub board_path : Text → Text
board_path board = codes "cfg/boards/" ++ (board ++ codes ".yaml")

abbrev pub core_path : Text → Text
core_path core = codes "cfg/cores/" ++ (core ++ codes ".yaml")

abbrev pub adapter_path : Core → Text
adapter_path a = codes "rtl/cores/" ++ (adapter_name a ++ codes ".sv")

abbrev pub fusesoc_path : Text → Text
fusesoc_path core = codes "corejack_core_" ++ (core ++ codes ".core")

unfoldable pub update_platform_pkg : Core → Edit (Unit {0})
unfolding edit_file package_with
update_platform_pkg a = edit_file package_path (package_with a)

unfoldable pub update_corejack_core : Core → Edit (Unit {0})
unfolding edit_file core_file_with
update_corejack_core a = edit_file core_file (core_file_with a)

abbrev pub listed : Core → Text → Result Text
listed a text = append_yaml_top_list_item text (codes "compatible_cores") a.core

abbrev pub no_board : Text → Files → Bool
no_board path files = not (exists files path)

unfoldable pub update_board_descriptor : Core → Edit (Unit {0})
unfolding edit_file append_yaml_top_list_item
update_board_descriptor a = do
  guard (no_board (board_path a.board))
      (missing_file (codes "board descriptor") (board_path a.board))
  edit_file (board_path a.board) (listed a)

unfoldable pub new_files : Core → List NewFile
new_files a =
    (core_path a.core, core_descriptor a)
    ∷ (adapter_path a, core_adapter a)
    ∷ (fusesoc_path a.core, core_fusesoc a)
    ∷ []

-- `args` with its values filled in, from the files as they are.
abbrev pub request : Options → Edit Core
request options files = (requested files options, files)

-- The three files that name their cores.
unfoldable pub update_files : Core → Edit (Unit {0})
unfolding update_platform_pkg update_corejack_core update_board_descriptor
update_files a = update_platform_pkg a >> (update_corejack_core a >> update_board_descriptor a)

-- The changes of a request that passed its tests.
unfoldable pub write_core : Core → Edit (Unit {0})
unfolding update_files new_files refuse_existing write_new
write_core a = do
  for_each refuse_existing (new_files a)
  update_files a
  for_each write_new (new_files a)

unfoldable pub create_core : Options → Edit (Unit {0})
unfolding write_core requested
create_core options = request options >>= write_core
