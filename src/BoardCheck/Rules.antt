-- ===== src/BoardCheck/Rules.antt =====
-- The templates, files and build targets of a board, the tests on its settings and on its cores, and
-- `board_check` as a whole.
use corejack.Prelude.{Bool, not, List, [], ◌∷◌, ◌++◌, is_nil}
use corejack.Text.{Text, codes, text_eq, contains, has_infix}
use corejack.Failure.{
  Failure, Result, ok, check, or_fail, for_each, ◌>>=◌, ◌>>◌, missing_file, module_not_defined,
  target_missing, unsupported_value, not_isolated, no_compatible_cores, unknown_names,
  not_reciprocal, file_not_found,
}
use corejack.Host.{Host, core_dir, descriptor_names, descriptor_path}
use corejack.Search.{defines_module, make_target_exists, fusesoc_target_exists}
use corejack.Template.{unsupported}
use corejack.Yaml.{yaml_top_list}
use corejack.Banner.{check_uart_banner_descriptor}
use corejack.Descriptor.{check_template, excludes}
use corejack.Descriptor.Config.{format_for}
use corejack.CoreCheck.{checks, check_repo_file}
use corejack.BoardCheck.{BoardFields, board_fields}

-- `compatible_cores[0] if compatible_cores else "core"`
abbrev pub first_core : List Text → Text
first_core [] = codes "core"
first_core (core ∷ cores) = core

abbrev pub wrapper_path : Text → Text → Text
wrapper_path board top =
    codes "rtl/platform/fpga/boards/" ++ (board ++ (b'/' ∷ (top ++ codes ".sv")))

-- The wrapper's file defines the module that the template names.
unfoldable pub board_wrapper : Host → Text → BoardFields → Result Text
board_wrapper host board f = do
  check_template (codes "fpga.top_template") f.top_template
  top ← format_for host (first_core f.compatible_cores) board f.top_template
  text ← or_fail (host.file (wrapper_path board top)) (missing_file (codes "FPGA wrapper") top)
  check (defines_module top text) (module_not_defined top (wrapper_path board top))
  ok top

unfoldable pub core_target : Host → Text → Text → Text → Result (Unit {0})
core_target host board template core = do
  target ← format_for host core board template
  check (fusesoc_target_exists host target) (target_missing (codes "fpga.target") target)

unfoldable pub board_targets : Host → Text → BoardFields → Result (Unit {0})
unfolding check_repo_file
board_targets host board f = do
  xdc ← check_repo_file host f.xdc (codes "constraints.xdc")
  openocd ←
      check_repo_file host
        (codes "rtl/platform/fpga/scripts/openocd-" ++ (f.jtag_adapter ++ codes ".cfg"))
        (codes "debug.jtag_adapter")
  check_template (codes "fpga.target") f.fpga_target_template
  for_each (core_target host board f.fpga_target_template) f.compatible_cores
  check (make_target_exists host f.bitstream_target)
      (target_missing (codes "programming.bitstream_target") f.bitstream_target)
  check (make_target_exists host f.program_target)
      (target_missing (codes "programming.program_target") f.program_target)

unfoldable pub board_rules : BoardFields → List (Bool × Failure)
board_rules f =
    (
      contains (codes "active_low" ∷ codes "active_high" ∷ []) f.reset_polarity,
      unsupported_value (codes "reset.polarity") f.reset_polarity,
    )
    ∷ (
      text_eq f.debug_transport (codes "jtag"),
      unsupported_value (codes "debug.transport") f.debug_transport,
    )
    ∷ (
      text_eq f.programming_flow (codes "vivado"),
      unsupported_value (codes "programming.flow") f.programming_flow,
    )
    ∷ (has_infix (codes "{board}") f.work_root, not_isolated (codes "board"))
    ∷ (has_infix (codes "{core}") f.work_root, not_isolated (codes "core"))
    ∷ (not (is_nil f.compatible_cores), no_compatible_cores)
    ∷ []

-- One core that the board names: its list of boards, if it has one, names the board.
unfoldable pub names_board : Host → Text → Text → Result (Unit {0})
names_board host board core = do
  core_text ← or_fail (host.file (descriptor_path core_dir core)) (file_not_found core)
  check (not (excludes (yaml_top_list core_text (codes "compatible_boards")) board))
      (not_reciprocal core board)

unfoldable pub board_cores : Host → Text → List Text → Result (Unit {0})
board_cores host board cores = do
  let missing = unsupported (descriptor_names host core_dir) cores
  check (is_nil missing) (unknown_names (codes "compatible_cores") missing)
  for_each (names_board host board) cores

-- What a passed check has read, and the top module.
unfoldable pub board_check : Host → Text → Result (BoardFields × Text)
board_check host board = do
  fields ← board_fields host board
  top ← board_wrapper host board fields
  board_targets host board fields
  checks (board_rules fields)
  check_uart_banner_descriptor host
  board_cores host board fields.compatible_cores
  ok (fields, top)
