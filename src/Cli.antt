-- ===== src/Cli.antt =====
-- The command line of bin/validate_target.py: what a check reports, `list_targets`, and the choice that
-- `main` makes among the commands, after argparse.
pub mod Reports
use corejack.Prelude.{
  Bool, true, false, not, List, [], ◌∷◌, ◌++◌, map, Option, none, some, if◌then◌else◌, is_nil,
}
use corejack.Text.{Text, codes, join}
use corejack.Failure.{Failure, Result, ok, err, option_required}
use corejack.Host.{Host, core_dir, board_dir, descriptor_names}
use corejack.Number.{decimal}
use corejack.Script.{Script, quietly, print, resume, behind, ◌>>=◌, ◌>>◌}
use corejack.Rtl.{mem_num_banks}
use corejack.Banner.{resolve_uart_banner}
use corejack.Descriptor.{integration_status, fusesoc_core_flags, load_descriptors, is_compatible}
use corejack.Descriptor.Config.{TargetConfig, target_config}
use corejack.CoreCheck.Rules.{CoreReport, core_check}
use corejack.BoardCheck.{BoardFields}
use corejack.BoardCheck.Rules.{wrapper_path, board_check}
use corejack.Target.{line_of, reason_text, validate, print_compatible_cores, target_check}

abbrev spaced : List Text → Text
spaced = join (codes " ")

abbrev status_line : Text → Text → Text
status_line flow status = flow ++ (b':' ∷ status)

-- The report of `core_check` up to the flags.
unfoldable pub core_head : Text → CoreReport → List Text
core_head core r =
    line_of (codes "CORE") core
    ∷ line_of (codes "DISPLAY_NAME") r.identity.display_name
    ∷ line_of (codes "ADAPTER") r.adapter.0
    ∷ line_of (codes "ADAPTER_FILE") r.adapter.1
    ∷ line_of (codes "WRAPPER") r.settings.wrapper_module
    ∷ line_of (codes "SIM_FUSESOC_TARGET") r.settings.sim_target
    ∷ line_of (codes "FUSESOC_CORE_FLAG") r.settings.core_flag
    ∷ []

-- The rest of it, in which `flags` are those of `fusesoc_core_flags`.
unfoldable pub core_tail : CoreReport → List Text → List Text
core_tail r flags =
    line_of (codes "FUSESOC_CORE_FLAGS") (spaced flags)
    ∷ line_of (codes "CORE_TYPE") (decimal r.platform.core_type)
    ∷ line_of (codes "CORE_INTEGRATION") r.platform.integration
    ∷ line_of (codes "CORE_TYPE_ENUM") r.platform.enum_name
    ∷ line_of (codes "XLEN") (decimal r.settings.xlen)
    ∷ line_of (codes "MARCH") r.settings.march
    ∷ line_of (codes "MABI") r.settings.mabi
    ∷ line_of (codes "BUSES") (r.settings.instruction_bus ++ (b',' ∷ r.settings.data_bus))
    ∷ line_of (codes "TOOLCHAIN") r.settings.toolchain
    ∷ line_of (codes "ZEPHYR_STATUS") r.settings.zephyr
    ∷ line_of (codes "COMPATIBLE_BOARDS") (spaced r.settings.compatible_boards)
    ∷ line_of (codes "INTEGRATION") (
        spaced (
          status_line (codes "sim") r.identity.sim
          ∷ status_line (codes "fpga") r.identity.fpga
          ∷ status_line (codes "debug") r.identity.debug
          ∷ []))
    ∷ codes "CORE_CHECK=passed"
    ∷ []

unfoldable pub print_core_check : Host → Text → Script (Unit {0})
print_core_check host core = do
  report ← quietly (core_check host core)
  print (core_head core report)
  flags ← quietly (fusesoc_core_flags report.identity.text)
  print (core_tail report flags)

abbrev clock_ports : BoardFields → Text
clock_ports f = if is_nil f.clk_n then f.clk_p else f.clk_p ++ (b',' ∷ f.clk_n)

unfoldable pub board_lines : Text → BoardFields → Text → List Text
board_lines board f top =
    line_of (codes "BOARD") board
    ∷ line_of (codes "DISPLAY_NAME") f.display_name
    ∷ line_of (codes "FPGA_PART") f.part
    ∷ line_of (codes "FPGA_TARGET_TEMPLATE") f.fpga_target_template
    ∷ line_of (codes "FUSESOC_BOARD_FLAG") f.board_flag
    ∷ line_of (codes "FPGA_TOP") top
    ∷ line_of (codes "FPGA_WRAPPER") (wrapper_path board top)
    ∷ line_of (codes "XDC") f.xdc
    ∷ line_of (codes "JTAG_ADAPTER") f.jtag_adapter
    ∷ line_of (codes "OPENOCD_CFG")
        (codes "rtl/platform/fpga/scripts/openocd-" ++ (f.jtag_adapter ++ codes ".cfg"))
    ∷ line_of (codes "CLOCK_INPUT_HZ") (decimal f.input_hz)
    ∷ line_of (codes "SOC_CLK_HZ") (decimal f.soc_hz)
    ∷ line_of (codes "CLOCK_PORTS") (clock_ports f)
    ∷ line_of (codes "RESET") (f.reset_port ++ (b',' ∷ f.reset_polarity))
    ∷ line_of (codes "UART") (f.uart_tx ++ (b',' ∷ (f.uart_rx ++ (b',' ∷ decimal f.uart_baud))))
    ∷ line_of (codes "SMOKE_APP") f.smoke_app
    ∷ line_of (codes "COMPATIBLE_CORES") (spaced f.compatible_cores)
    ∷ codes "BOARD_CHECK=passed"
    ∷ []

unfoldable pub print_board_check : Host → Text → Script (Unit {0})
print_board_check host board = do
  passed ← quietly (board_check host board)
  print (board_lines board passed.0 passed.1)

-- A heading and its lines, or `(none)`.
abbrev listing : Text → List Text → List Text
listing heading [] = heading ∷ codes "  (none)" ∷ []
listing heading (x ∷ xs) = heading ∷ map (λ name. codes "  " ++ name) (x ∷ xs)

abbrev pub pair_name : Text → Text → Text
pair_name core board = codes "  " ++ (core ++ (b'/' ∷ (board ++ codes ": ")))

unfoldable pub combination_line : Text → Text → Text → TargetConfig → Text
combination_line core board core_text c =
    pair_name core board
    ++ spaced (
        line_of (codes "sim_target") c.sim_fusesoc_target
        ∷ line_of (codes "core_flag") c.fusesoc_core_flag
        ∷ line_of (codes "core_flags") c.fusesoc_core_flags
        ∷ line_of (codes "board_flag") c.fusesoc_board_flag
        ∷ line_of (codes "target") c.fpga_target
        ∷ line_of (codes "top") c.fpga_top
        ∷ line_of (codes "core_type") c.core_type
        ∷ line_of (codes "integration") c.core_integration
        ∷ line_of (codes "toolchain") c.toolchain
        ∷ line_of (codes "zephyr") c.zephyr_status
        ∷ line_of (codes "march") c.march
        ∷ line_of (codes "mabi") c.mabi
        ∷ line_of (codes "clk") (c.soc_clk_hz ++ codes "Hz")
        ∷ line_of (codes "baud") c.uart_baud
        ∷ line_of (codes "sim") (integration_status core_text (codes "sim"))
        ∷ line_of (codes "fpga") (integration_status core_text (codes "fpga"))
        ∷ line_of (codes "debug") (integration_status core_text (codes "debug"))
        ∷ [])

-- One pair of `list_targets`: its line is printed, or the line of why it is unavailable is returned.
unfoldable pub list_pair : Host → Text → Text → Script (Option Text)
list_pair host core board = do
  texts ← quietly (load_descriptors host core board)
  elim (is_compatible core board texts.0 texts.1 (codes "fpga") true) [
    | some reason ↦ quietly (ok (some (pair_name core board ++ reason_text reason)))
    | none ↦ quietly (target_config host core board texts.0 texts.1) >>= λ config.
        print (combination_line core board texts.0 config ∷ []) >>= λ _. quietly (ok none)
  ]

-- `for core in cores: for board in boards`
abbrev pairs_of : List Text → List Text → List (Text × Text)
pairs_of [] boards = []
pairs_of (core ∷ cores) boards = map (λ board. (core, board)) boards ++ pairs_of cores boards

abbrev pub noted : Option Text → Bool × List Text → Bool × List Text
noted none (found, unavailable) = (true, unavailable)
noted (some line) (found, unavailable) = (found, line ∷ unavailable)

-- Whether a pair was found, and the lines of the others.
unfoldable pub list_pairs : Host → List (Text × Text) → Script (Bool × List Text)
list_pairs host [] = quietly (ok (false, []))
list_pairs host ((core, board) ∷ pairs) = do
  line ← list_pair host core board
  rest ← list_pairs host pairs
  quietly (ok (noted line rest))

abbrev unavailable_lines : List Text → List Text
unavailable_lines [] = []
unavailable_lines (line ∷ lines) = codes "Unavailable combinations:" ∷ line ∷ lines

unfoldable pub list_targets : Host → Script (Unit {0})
list_targets host = do
  let cores = descriptor_names host core_dir
  let boards = descriptor_names host board_dir
  print (listing (codes "Available cores:") cores)
  print (listing (codes "Available boards:") boards)
  print (codes "Descriptor combinations:" ∷ [])
  result ← list_pairs host (pairs_of cores boards)
  print (if result.0 then [] else codes "  (none)" ∷ [])
  print (unavailable_lines result.1)

-- What argparse hands to `main`.
pub record Options : Type 0 where
  pub core : Option Text
  pub board : Option Text
  pub quiet : Bool
  pub make : Bool
  pub flow : Text
  pub allow_planned : Bool
  pub list : Bool
  pub compatible_cores : Bool
  pub board_check : Bool
  pub core_check : Bool
  pub target_check : Bool
  pub uart_banner : Bool
  pub firmware : Text
  pub variant : Text
  pub alive_only : Bool
  pub mem_num_banks : Bool

-- `if not args.x: fail(...)`: an empty name counts as none.
unfoldable pub required : Text → Option Text → Result Text
required option none = err (option_required option)
required option (some x) = if is_nil x then err (option_required option) else ok x

abbrev last_line : List Text → List Text
last_line [] = []
last_line (x ∷ []) = x ∷ []
last_line (x ∷ y ∷ ys) = last_line (y ∷ ys)

unfoldable pub print_uart_banner : Host → Options → Script (Unit {0})
print_uart_banner host o = do
  core ← quietly (required (codes "--core") o.core)
  board ← quietly (required (codes "--board") o.board)
  lines ← quietly (resolve_uart_banner host o.firmware o.variant core board)
  print (if o.alive_only then last_line lines else lines)

unfoldable pub validate_pair : Host → Options → Script (Unit {0})
validate_pair host o = do
  core ← quietly (required (codes "--core") o.core)
  board ← quietly (required (codes "--board") o.board)
  validate host core board o.quiet o.make o.allow_planned o.flow

unfoldable pub main : Host → Options → Script (Unit {0})
main host o =
    if o.mem_num_banks
    then (quietly (mem_num_banks host) >>= λ banks. print (decimal banks ∷ []))
    else if o.uart_banner
    then print_uart_banner host o
    else if o.list
    then list_targets host
    else if o.compatible_cores
    then (quietly (required (codes "--board") o.board) >>= print_compatible_cores host)
    else if o.board_check
    then (quietly (required (codes "--board") o.board) >>= print_board_check host)
    else if o.core_check
    then (quietly (required (codes "--core") o.core) >>= print_core_check host)
    else if o.target_check
    then (quietly (required (codes "--board") o.board) >>= target_check host)
    else validate_pair host o
