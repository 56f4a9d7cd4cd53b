-- ===== src/SupportMatrix.antt =====
-- bin/render_support_matrix.py: the page with the support tables, from the descriptors. Its reader of
-- scalars strips every quote at both ends of a value, where that of bin/validate_target.py takes one pair.
pub mod Pages
pub mod Presence
pub mod Records
pub mod Rendered
use corejack.Prelude.{
  ℕ, Bool, true, false, List, [], ◌∷◌, ◌++◌, map, Option, none, some, if◌then◌else◌, is_nil, length,
  replicate,
}
use corejack.Text.{Text, codes, text_eq, texts_eq, strip, strip_quotes, splitlines, join}
use corejack.Failure.{
  Failure, Result, ok, or_fail, map_result, ◌>>=◌, missing_field, file_not_found, no_such_key,
}
use corejack.Host.{Host, core_dir, board_dir, descriptor_names, descriptor_path}
use corejack.Yaml.{
  KeyLine, Frame, Round, next, return, key_line, push_frame, keys_of, skips, yaml_top_list,
}
use corejack.Descriptor.{at1, at2, or_default}

unfoldable pub bare_value : Text → Option Text
bare_value value = if is_nil value then none else some (strip_quotes (strip value))

bare_match : List Text → List Frame → KeyLine → Round (List Frame) (Option Text)
bare_match path stack k =
    let stack' = push_frame k stack in
    if texts_eq (keys_of stack') path then return (bare_value k.value) else next stack'

unfoldable pub bare_step : List Text → List Frame → Text → Round (List Frame) (Option Text)
unfolding bare_match
bare_step path stack line =
    if skips line
    then next stack
    else elim (key_line line) [ none ↦ next stack | some k ↦ bare_match path stack k ]

unfoldable pub scan_bare : List Text → List Frame → List Text → Option Text
scan_bare path stack [] = none
scan_bare path stack (line ∷ lines) = elim (bare_step path stack line) [
  | next stack' ↦ scan_bare path stack' lines
  | return r ↦ r
]

unfoldable pub path_scalar : Text → List Text → Option Text
path_scalar text path = scan_bare path [] (splitlines text)

unfoldable pub field : Text → List Text → Text → Result Text
field text path descriptor = or_fail (path_scalar text path) (missing_field path descriptor)

-- The script has its own copy of `yaml_top_list`, the same line by line.
unfoldable pub top_list : Text → Text → List Text
top_list text key = yaml_top_list text key

pub record CoreRow : Type 0 where
  pub name : Text
  pub display : Text
  pub xlen : Text
  pub march : Text
  pub mabi : Text
  pub sim : Text
  pub fpga : Text
  pub debug : Text
  pub zephyr : Text
  pub debug_supported : Text
  pub compatible_boards : List Text

unfoldable pub core_record : Host → Text → Result CoreRow
core_record host core = do
  let path = descriptor_path core_dir core
  text ← or_fail (host.file path) (file_not_found path)
  display ← field text (at1 (codes "display_name")) path
  xlen ← field text (at2 (codes "isa") (codes "xlen")) path
  march ← field text (at2 (codes "isa") (codes "march")) path
  mabi ← field text (at2 (codes "isa") (codes "mabi")) path
  sim ← field text (at2 (codes "integration") (codes "sim")) path
  fpga ← field text (at2 (codes "integration") (codes "fpga")) path
  debug ← field text (at2 (codes "integration") (codes "debug")) path
  debug_supported ← field text (at2 (codes "debug") (codes "supported")) path
  ok (record {
    name = core;
    display = display;
    xlen = xlen;
    march = march;
    mabi = mabi;
    sim = sim;
    fpga = fpga;
    debug = debug;
    zephyr =
        or_default (path_scalar text (codes "software" ∷ codes "zephyr" ∷ codes "status" ∷ []))
          (codes "planned");
    debug_supported = debug_supported;
    compatible_boards = top_list text (codes "compatible_boards");
  })

pub record BoardRow : Type 0 where
  pub name : Text
  pub display : Text
  pub part : Text
  pub soc_hz : Text
  pub uart_baud : Text
  pub compatible_cores : List Text

unfoldable pub board_record : Host → Text → Result BoardRow
board_record host board = do
  let path = descriptor_path board_dir board
  text ← or_fail (host.file path) (file_not_found path)
  display ← field text (at1 (codes "display_name")) path
  part ← field text (at2 (codes "fpga") (codes "part")) path
  soc_hz ← field text (at2 (codes "clock") (codes "soc_hz")) path
  uart_baud ← field text (at2 (codes "uart") (codes "baud")) path
  ok (record {
    name = board;
    display = display;
    part = part;
    soc_hz = soc_hz;
    uart_baud = uart_baud;
    compatible_cores = top_list text (codes "compatible_cores");
  })

abbrev supported_fpga : CoreRow → Bool
supported_fpga core = text_eq core.fpga (codes "supported")

unfoldable pub load_run_path : CoreRow → Text
load_run_path core =
    if text_eq core.debug (codes "supported")
    then codes "OpenOCD/GDB"
    else if supported_fpga core
    then codes "UART loader"
    else codes "none"

unfoldable pub default_fpga_acceptance : CoreRow → Text
default_fpga_acceptance core = if supported_fpga core then codes "yes" else codes "no"

abbrev pub joined : List Text → Text
joined = join (codes "\n")

abbrev pub heading : Text → ℕ → List Text
heading text c = text ∷ replicate (length text) c ∷ []

-- The lines of a row: the first cell opens it.
unfoldable pub row_lines : List Text → List Text
row_lines [] = []
row_lines (cell ∷ cells) = (codes "   * - " ++ cell) ∷ map (λ c. codes "     - " ++ c) cells

unfoldable pub all_row_lines : List (List Text) → List Text
all_row_lines [] = []
all_row_lines (row ∷ rows) = row_lines row ++ all_row_lines rows

unfoldable pub table : List Text → List (List Text) → Text
table headers rows =
    joined
      (codes ".. list-table::" ∷ codes "   :header-rows: 1" ∷ [] ∷ all_row_lines (headers ∷ rows))

abbrev pub quoted : Text → Text
quoted s = codes "``" ++ (s ++ codes "``")

unfoldable pub core_named : Text → List CoreRow → Option CoreRow
core_named name [] = none
core_named name (c ∷ cores) =
    let rest = core_named name cores in if text_eq c.name name then some c else rest

unfoldable pub board_row : List CoreRow → Text → Result (List Text)
board_row cores name = do
  core ← or_fail (core_named name cores) (no_such_key name)
  ok (
      quoted name
      ∷ core.display
      ∷ core.sim
      ∷ core.fpga
      ∷ load_run_path core
      ∷ core.debug
      ∷ default_fpga_acceptance core
      ∷ [])

abbrev pub board_headers : List Text
board_headers =
    codes "Core"
    ∷ codes "Display name"
    ∷ codes "Sim ``hello_world``"
    ∷ codes "FPGA ``hello_world``"
    ∷ codes "Load/run path"
    ∷ codes "OpenOCD/GDB step"
    ∷ codes "Default FPGA acceptance"
    ∷ []

unfoldable pub render_board_matrix : List CoreRow → BoardRow → Result Text
render_board_matrix cores board = do
  rows ← map_result (board_row cores) board.compatible_cores
  ok (
      joined (
        heading (board.display ++ (codes " (" ++ (quoted board.name ++ codes ")"))) b'-'
        ++ []
          ∷ (codes "- FPGA part: " ++ quoted board.part)
          ∷ (codes "- SoC clock: " ++ (quoted board.soc_hz ++ codes " Hz"))
          ∷ (codes "- UART baud: " ++ quoted board.uart_baud)
          ∷ []
          ∷ table board_headers rows
          ∷ []))
