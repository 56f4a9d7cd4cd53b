-- ===== src/BoardCheck.antt =====
-- `board_check` of bin/validate_target.py, in the stages in which it reads and tests a board
-- descriptor. `Rules` has the tests on what was read, and the whole check.
pub mod Rules
pub mod Fields
pub mod Ram
use corejack.Prelude.{
  ℕ, ◌+◌, ◌*◌, ◌%◌, Bool, true, false, not, ◌&&◌, ◌||◌, List, [], ◌∷◌, ◌++◌, Option, none, some,
  ◌==◌, if◌then◌else◌, is_nil,
}
use corejack.Text.{Text, codes}
use corejack.Failure.{
  Failure, Result, ok, err, check, or_fail, ◌>>=◌, ◌>>◌, unknown_board, ram_granule,
}
use corejack.Host.{Host, board_dir, descriptor_names, descriptor_path}
use corejack.Number.{parse_positive_int}
use corejack.Rtl.{mem_num_banks}
use corejack.Yaml.{yaml_path_scalar, yaml_top_list}
use corejack.Descriptor.{at1, at2, require_scalar, or_default, fusesoc_board_flag}
use corejack.Descriptor.Config.{board_label}

pub record BoardFields : Type 0 where
  pub text : Text
  pub display_name : Text
  pub part : Text
  pub top_template : Text
  pub fpga_target_template : Text
  pub board_flag : Text
  pub work_root : Text
  pub input_hz : ℕ
  pub soc_hz : ℕ
  pub clk_p : Text
  pub clk_n : Text
  pub reset_polarity : Text
  pub reset_port : Text
  pub uart_baud : ℕ
  pub uart_tx : Text
  pub uart_rx : Text
  pub debug_transport : Text
  pub jtag_adapter : Text
  pub xdc : Text
  pub programming_flow : Text
  pub bitstream_target : Text
  pub program_target : Text
  pub smoke_app : Text
  pub compatible_cores : List Text

-- A required field, and a required positive number.
unfoldable pub field_of : Text → Text → Text → Text → Result Text
field_of board text section field = require_scalar text (at2 section field) (board_label board)

unfoldable pub positive_of : Text → Text → Text → Text → Result ℕ
unfolding field_of
positive_of board text section field = do
  value ← field_of board text section field
  parse_positive_int value (section ++ (b'.' ∷ field))

-- An SRAM size has to fill every bank with 64-bit words.
unfoldable pub check_ram_bytes : Host → Option Text → Result (Unit {0})
check_ram_bytes host none = ok tt
check_ram_bytes host (some raw) = do
  ram_bytes ← parse_positive_int raw (codes "memory.ram_bytes")
  banks ← mem_num_banks host
  check (ram_bytes % (8 * banks) == 0) (ram_granule (8 * banks))

unfoldable pub board_fields : Host → Text → Result BoardFields
board_fields host board = do
  text ←
      or_fail (host.file (descriptor_path board_dir board))
        (unknown_board board (descriptor_names host board_dir))
  display_name ← require_scalar text (at1 (codes "display_name")) (board_label board)
  part ← field_of board text (codes "fpga") (codes "part")
  top_template ← field_of board text (codes "fpga") (codes "top_template")
  fpga_target_template ← field_of board text (codes "fpga") (codes "target")
  board_flag ← fusesoc_board_flag text
  work_root ← field_of board text (codes "fpga") (codes "work_root")
  input_hz ← positive_of board text (codes "clock") (codes "input_hz")
  soc_hz ← positive_of board text (codes "clock") (codes "soc_hz")
  clk_p ←
      require_scalar text (codes "clock" ∷ codes "constraints_ports" ∷ codes "p" ∷ [])
        (board_label board)
  reset_polarity ← field_of board text (codes "reset") (codes "polarity")
  reset_port ← field_of board text (codes "reset") (codes "constraints_port")
  check_ram_bytes host (yaml_path_scalar text (at2 (codes "memory") (codes "ram_bytes")))
  uart_baud ← positive_of board text (codes "uart") (codes "baud")
  uart_tx ← field_of board text (codes "uart") (codes "tx_port")
  uart_rx ← field_of board text (codes "uart") (codes "rx_port")
  debug_transport ← field_of board text (codes "debug") (codes "transport")
  jtag_adapter ← field_of board text (codes "debug") (codes "jtag_adapter")
  xdc ← field_of board text (codes "constraints") (codes "xdc")
  programming_flow ← field_of board text (codes "programming") (codes "flow")
  bitstream_target ← field_of board text (codes "programming") (codes "bitstream_target")
  program_target ← field_of board text (codes "programming") (codes "program_target")
  smoke_app ← field_of board text (codes "validation") (codes "smoke_app")
  ok (record {
    text = text;
    display_name = display_name;
    part = part;
    top_template = top_template;
    fpga_target_template = fpga_target_template;
    board_flag = board_flag;
    work_root = work_root;
    input_hz = input_hz;
    soc_hz = soc_hz;
    clk_p = clk_p;
    clk_n =
        or_default
          (yaml_path_scalar text (codes "clock" ∷ codes "constraints_ports" ∷ codes "n" ∷ [])) [];
    reset_polarity = reset_polarity;
    reset_port = reset_port;
    uart_baud = uart_baud;
    uart_tx = uart_tx;
    uart_rx = uart_rx;
    debug_transport = debug_transport;
    jtag_adapter = jtag_adapter;
    xdc = xdc;
    programming_flow = programming_flow;
    bitstream_target = bitstream_target;
    program_target = program_target;
    smoke_app = smoke_app;
    compatible_cores = yaml_top_list text (codes "compatible_cores");
  })
