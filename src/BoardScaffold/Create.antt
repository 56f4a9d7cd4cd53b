-- ===== src/BoardScaffold/Create.antt =====
-- `create_board` of bin/create_board.py on the files of the repository: corejack.core, which it edits, and
-- the four files that it writes.
use corejack.Prelude.{List, [], ◌∷◌, ◌++◌}
use corejack.Text.{Text, codes}
use corejack.Edit.{Edit, for_each, edit_file, NewFile, refuse_existing, write_new, ◌>>=◌, ◌>>◌}
use corejack.Scaffold.CoreFile.{core_file}
use corejack.Scaffold.Create.{board_path}
use corejack.BoardScaffold.{Options, Board, wrap_name, requested}
use corejack.BoardScaffold.Texts.{board_descriptor, board_core, board_xdc}
use corejack.BoardScaffold.Wrapper.{board_wrapper}
use corejack.BoardScaffold.Target.{replace_in_fpga_target}

abbrev pub board_folder : Board → Text
board_folder a = codes "rtl/platform/fpga/boards/" ++ (a.board ++ codes "/")

abbrev pub xdc_path : Board → Text
xdc_path a = board_folder a ++ (a.board ++ codes ".xdc")

abbrev pub top_path : Board → Text
top_path a = board_folder a ++ (wrap_name a ++ codes ".sv")

abbrev pub board_core_path : Board → Text
board_core_path a = codes "corejack_board_" ++ (a.board ++ codes ".core")

unfoldable pub board_files : Board → List NewFile
board_files a =
    (board_path a.board, board_descriptor a)
    ∷ (xdc_path a, board_xdc a)
    ∷ (top_path a, board_wrapper a)
    ∷ (board_core_path a, board_core a)
    ∷ []

unfoldable pub name_board : Board → Edit (Unit {0})
unfolding edit_file replace_in_fpga_target
name_board a = edit_file core_file (replace_in_fpga_target a)

-- The changes of a request that passed its tests.
unfoldable pub write_board : Board → Edit (Unit {0})
unfolding board_files name_board refuse_existing write_new
write_board a = do
  for_each refuse_existing (board_files a)
  name_board a
  for_each write_new (board_files a)

abbrev pub request : Options → Edit Board
request options files = (requested files options, files)

unfoldable pub create_board : Options → Edit (Unit {0})
unfolding requested write_board
create_board options = request options >>= write_board
