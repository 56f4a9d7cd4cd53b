-- ===== src/Target.antt =====
-- The commands of bin/validate_target.py on a core and a board: `validate`, `target_check`,
-- `print_compatible_cores` and `list_targets`, with the lines that they print.
pub mod Checked
pub mod Matrix
pub mod Passes
pub mod Flows
use corejack.Prelude.{
  ℕ, suc, ◌+◌, Bool, true, false, not, ◌&&◌, List, [], ◌∷◌, ◌++◌, map, Option, none, some,
  if◌then◌else◌, is_nil, length,
}
use corejack.Text.{Text, codes, text_eq, join}
use corejack.Failure.{
  Failure, Result, ok, err, or_fail, unknown_board, not_compatible, flow_failed,
  no_compatible_cores,
}
use corejack.Host.{Host, core_dir, board_dir, descriptor_names, descriptor_path}
use corejack.Number.{decimal}
use corejack.Script.{Script, quietly, print, ◌>>=◌, ◌>>◌, for_each}
use corejack.Yaml.{yaml_top_list}
use corejack.Descriptor.{
  Reason, integration, core_supports, board_supports, integration_status, load_descriptors,
  is_compatible,
}
use corejack.Descriptor.Config.{TargetConfig, target_config}
use corejack.CoreCheck.Rules.{core_check}
use corejack.BoardCheck.Rules.{board_check}

abbrev pub comma_list : List Text → Text
comma_list = join (codes ", ")

unfoldable pub reason_text : Reason → Text
reason_text (integration flow status) = flow ++ (codes " integration status: " ++ status)
reason_text (core_supports boards) = codes "core supports: " ++ comma_list boards
reason_text (board_supports cores) = codes "board supports: " ++ comma_list cores

abbrev pub line_of : Text → Text → Text
line_of key value = key ++ (b'=' ∷ value)

-- The dictionary of `target_config`, in the order of its keys.
unfoldable pub config_items : TargetConfig → List (Text × Text)
config_items c =
    (codes "CORE_TYPE", c.core_type)
    ∷ (codes "CORE_INTEGRATION", c.core_integration)
    ∷ (codes "SIM_FUSESOC_TARGET", c.sim_fusesoc_target)
    ∷ (codes "FUSESOC_CORE_FLAG", c.fusesoc_core_flag)
    ∷ (codes "FUSESOC_CORE_FLAGS", c.fusesoc_core_flags)
    ∷ (codes "FUSESOC_BOARD_FLAG", c.fusesoc_board_flag)
    ∷ (codes "FUSESOC_FLAGS", c.fusesoc_flags)
    ∷ (codes "FPGA_TOP", c.fpga_top)
    ∷ (codes "FPGA_TARGET", c.fpga_target)
    ∷ (codes "FPGA_WORK_ROOT", c.fpga_work_root)
    ∷ (codes "JTAG_ADAPTER", c.jtag_adapter)
    ∷ (codes "MARCH", c.march)
    ∷ (codes "MABI", c.mabi)
    ∷ (codes "TOOLCHAIN", c.toolchain)
    ∷ (codes "ZEPHYR_STATUS", c.zephyr_status)
    ∷ (codes "SOC_CLK_HZ", c.soc_clk_hz)
    ∷ (codes "UART_BAUD", c.uart_baud)
    ∷ (codes "SOC_RAM_BYTES", c.soc_ram_bytes)
    ∷ (codes "RAM_WORDS", c.ram_words)
    ∷ []

abbrev pub make_line : Text × Text → Text
make_line (key, value) = codes "$(eval " ++ (key ++ (codes " := " ++ (value ++ codes ")")))

unfoldable pub config_lines : TargetConfig → List Text
config_lines c =
    line_of (codes "FPGA_TOP") c.fpga_top
    ∷ line_of (codes "FPGA_TARGET") c.fpga_target
    ∷ line_of (codes "FPGA_WORK_ROOT") c.fpga_work_root
    ∷ line_of (codes "CORE_TYPE") c.core_type
    ∷ line_of (codes "CORE_INTEGRATION") c.core_integration
    ∷ line_of (codes "SIM_FUSESOC_TARGET") c.sim_fusesoc_target
    ∷ line_of (codes "FUSESOC_CORE_FLAG") c.fusesoc_core_flag
    ∷ line_of (codes "FUSESOC_CORE_FLAGS") c.fusesoc_core_flags
    ∷ line_of (codes "FUSESOC_BOARD_FLAG") c.fusesoc_board_flag
    ∷ line_of (codes "FUSESOC_FLAGS") c.fusesoc_flags
    ∷ line_of (codes "JTAG_ADAPTER") c.jtag_adapter
    ∷ line_of (codes "MARCH") c.march
    ∷ line_of (codes "MABI") c.mabi
    ∷ line_of (codes "TOOLCHAIN") c.toolchain
    ∷ line_of (codes "ZEPHYR_STATUS") c.zephyr_status
    ∷ line_of (codes "SOC_CLK_HZ") c.soc_clk_hz
    ∷ line_of (codes "UART_BAUD") c.uart_baud
    ∷ []

-- `if not compatible: fail(...)`
unfoldable pub require_compatible : Text → Text → Option Reason → Result (Unit {0})
unfolding reason_text
require_compatible core board none = ok tt
require_compatible core board (some reason) = err (not_compatible core board (reason_text reason))

validate_output : Bool → Bool → Text → Text → Text → Text → TargetConfig → List Text
unfolding config_items config_lines
validate_output quiet make core board flow status c =
    if quiet
    then []
    else if make
    then map make_line (config_items c)
    else line_of (codes "CORE") core
      ∷ line_of (codes "BOARD") board
      ∷ line_of (codes "FLOW") flow
      ∷ line_of (codes "INTEGRATION_STATUS") status
      ∷ config_lines c

unfoldable pub validate : Host → Text → Text → Bool → Bool → Bool → Text → Script (Unit {0})
unfolding validate_output require_compatible
validate host core board quiet make allow_planned flow = do
  texts ← quietly (load_descriptors host core board)
  quietly
      (require_compatible core board (is_compatible core board texts.0 texts.1 flow allow_planned))
  config ← quietly (target_config host core board texts.0 texts.1)
  print (validate_output quiet make core board flow (integration_status texts.0 flow) config)

unfoldable pub print_compatible_cores : Host → Text → Script (Unit {0})
print_compatible_cores host board = do
  text ← quietly (
      or_fail (host.file (descriptor_path board_dir board))
        (unknown_board board (descriptor_names host board_dir)))
  let cores = yaml_top_list text (codes "compatible_cores")
  print (join (codes " ") (if is_nil cores then descriptor_names host core_dir else cores) ∷ [])

-- One flow of `target_check`: a supported flow has to be compatible.
unfoldable pub flow_result : Text → Text → Text → Text → Text → Result Text
flow_result core board core_text board_text flow =
    let status = integration_status core_text flow in
    if text_eq status (codes "supported")
    then elim (is_compatible core board core_text board_text flow false) [
      | none ↦ ok (flow ++ codes ":supported")
      | some reason ↦ err (flow_failed core board flow (reason_text reason))
    ]
    else ok (flow ++ (b':' ∷ status))

unfoldable pub target_line : Text → Text → TargetConfig → List Text → Text
target_line core board c flows =
    codes "TARGET="
    ++ (core
        ++ (b'/'
            ∷ (board
                ++ (b' '
                    ∷ join (codes " ") (
                        line_of (codes "top") c.fpga_top
                        ∷ line_of (codes "core_type") c.core_type
                        ∷ line_of (codes "integration") c.core_integration
                        ∷ line_of (codes "toolchain") c.toolchain
                        ∷ line_of (codes "zephyr") c.zephyr_status
                        ∷ line_of (codes "march") c.march
                        ∷ line_of (codes "mabi") c.mabi
                        ∷ flows)))))

unfoldable pub check_pair : Host → Text → Text → Script (Unit {0})
check_pair host board core = do
  report ← quietly (core_check host core)
  texts ← quietly (load_descriptors host core board)
  config ← quietly (target_config host core board texts.0 texts.1)
  sim ← quietly (flow_result core board texts.0 texts.1 (codes "sim"))
  fpga ← quietly (flow_result core board texts.0 texts.1 (codes "fpga"))
  debug ← quietly (flow_result core board texts.0 texts.1 (codes "debug"))
  print (target_line core board config (sim ∷ fpga ∷ debug ∷ []) ∷ [])

require_cores : Text → List Text → Result (List Text)
require_cores board cores = if is_nil cores then err no_compatible_cores else ok cores

unfoldable pub target_check : Host → Text → Script (Unit {0})
unfolding require_cores
target_check host board = do
  text ← quietly (
      or_fail (host.file (descriptor_path board_dir board))
        (unknown_board board (descriptor_names host board_dir)))
  cores ← quietly (require_cores board (yaml_top_list text (codes "compatible_cores")))
  checked ← quietly (board_check host board)
  print (
      line_of (codes "BOARD") board
      ∷ line_of (codes "COMPATIBLE_CORES") (join (codes " ") cores)
      ∷ [])
  for_each (check_pair host board) cores
  print (
      (codes "TARGET_CHECK=passed board="
        ++ (board ++ (codes " targets=" ++ decimal (length cores))))
      ∷ [])
