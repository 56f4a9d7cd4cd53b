-- ===== src/Descriptor/Config.antt =====
-- `target_config`: the values that the Makefile gets for a core and a board.

use corejack.Prelude.{List, [], ◌∷◌, ◌++◌}
use corejack.Text.{Text, codes, join}
use corejack.Failure.{Result, ok, or_fail, ◌>>=◌, ◌>>◌, bad_integer, bad_template}
use corejack.Host.{Host}
use corejack.Number.{int_literal, quarter, show_int}
use corejack.Template.{format}
use corejack.Yaml.{yaml_path_scalar}
use corejack.Descriptor.{
  at2, require_scalar, or_default, zephyr_status, platform_integration, fusesoc_core_flags,
  fusesoc_board_flag, core_and_board, check_template,
}

-- What is read of the board descriptor.
pub record BoardConfig : Type 0 where
  pub top_template : Text
  pub fpga_target : Text
  pub board_flag : Text
  pub work_root : Text
  pub jtag_adapter : Text
  pub soc_clk_hz : Text
  pub uart_baud : Text
  pub ram_bytes : Text
  pub ram_words : Text

-- What is read of the core descriptor.
pub record CoreConfig : Type 0 where
  pub march : Text
  pub mabi : Text
  pub toolchain : Text
  pub zephyr : Text
  pub core_type : Text
  pub integration : Text
  pub sim_target : Text
  pub core_flag : Text
  pub core_flags : List Text

pub record TargetConfig : Type 0 where
  pub core_type : Text
  pub core_integration : Text
  pub sim_fusesoc_target : Text
  pub fusesoc_core_flag : Text
  pub fusesoc_core_flags : Text
  pub fusesoc_board_flag : Text
  pub fusesoc_flags : Text
  pub fpga_top : Text
  pub fpga_target : Text
  pub fpga_work_root : Text
  pub jtag_adapter : Text
  pub march : Text
  pub mabi : Text
  pub toolchain : Text
  pub zephyr_status : Text
  pub soc_clk_hz : Text
  pub uart_baud : Text
  pub soc_ram_bytes : Text
  pub ram_words : Text

-- The field's default is the 1 MiB of soc_top.
unfoldable pub ram_bytes_of : Text → Text
ram_bytes_of board_text =
    or_default (yaml_path_scalar board_text (at2 (codes "memory") (codes "ram_bytes")))
      (codes "1048576")

abbrev pub board_label : Text → Text
board_label board = codes "BOARD '" ++ (board ++ codes "'")

abbrev pub core_label : Text → Text
core_label core = codes "CORE '" ++ (core ++ codes "'")

-- The result's fields; `resolve` makes the work root an absolute path.
abbrev pub assembled : Host → BoardConfig → CoreConfig → Text → Text → TargetConfig
assembled host b c fpga_top work_root = record {
  core_type = c.core_type;
  core_integration = c.integration;
  sim_fusesoc_target = c.sim_target;
  fusesoc_core_flag = c.core_flag;
  fusesoc_core_flags = join (codes " ") c.core_flags;
  fusesoc_board_flag = b.board_flag;
  fusesoc_flags = join (codes " ") (c.core_flags ++ b.board_flag ∷ []);
  fpga_top = fpga_top;
  fpga_target = b.fpga_target;
  fpga_work_root = host.resolve work_root;
  jtag_adapter = b.jtag_adapter;
  march = c.march;
  mabi = c.mabi;
  toolchain = c.toolchain;
  zephyr_status = c.zephyr;
  soc_clk_hz = b.soc_clk_hz;
  uart_baud = b.uart_baud;
  soc_ram_bytes = b.ram_bytes;
  ram_words = b.ram_words;
}

module _ (host : Host) (core board : Text) where
  unfoldable pub format_for : Text → Result Text
  format_for t = or_fail (format host.format_field (core_and_board core board) t) (bad_template t)

  unfoldable pub board_config : Text → Result BoardConfig
  board_config text = do
    top_template ←
        require_scalar text (at2 (codes "fpga") (codes "top_template")) (board_label board)
    check_template (codes "board top_template") top_template
    target ← require_scalar text (at2 (codes "fpga") (codes "target")) (board_label board)
    check_template (codes "board fpga.target") target
    fpga_target ← format_for target
    board_flag ← fusesoc_board_flag text
    work_root ← require_scalar text (at2 (codes "fpga") (codes "work_root")) (board_label board)
    jtag_adapter ←
        require_scalar text (at2 (codes "debug") (codes "jtag_adapter")) (board_label board)
    soc_clk_hz ← require_scalar text (at2 (codes "clock") (codes "soc_hz")) (board_label board)
    uart_baud ← require_scalar text (at2 (codes "uart") (codes "baud")) (board_label board)
    bytes ← or_fail (int_literal (ram_bytes_of text)) (bad_integer (ram_bytes_of text))
    ok (record {
      top_template = top_template;
      fpga_target = fpga_target;
      board_flag = board_flag;
      work_root = work_root;
      jtag_adapter = jtag_adapter;
      soc_clk_hz = soc_clk_hz;
      uart_baud = uart_baud;
      ram_bytes = ram_bytes_of text;
      ram_words = show_int (quarter bytes);
    })

  unfoldable pub core_config : Text → Result CoreConfig
  core_config text = do
    march ← require_scalar text (at2 (codes "isa") (codes "march")) (core_label core)
    mabi ← require_scalar text (at2 (codes "isa") (codes "mabi")) (core_label core)
    toolchain ← require_scalar text (at2 (codes "software") (codes "toolchain")) (core_label core)
    core_type ← require_scalar text (at2 (codes "platform") (codes "core_type")) (core_label core)
    integration ← platform_integration text
    sim_target ← require_scalar text (at2 (codes "fusesoc") (codes "sim_target")) (core_label core)
    core_flag ← require_scalar text (at2 (codes "fusesoc") (codes "core_flag")) (core_label core)
    core_flags ← fusesoc_core_flags text
    ok (record {
      march = march;
      mabi = mabi;
      toolchain = toolchain;
      zephyr = zephyr_status text;
      core_type = core_type;
      integration = integration;
      sim_target = sim_target;
      core_flag = core_flag;
      core_flags = core_flags;
    })

  unfoldable pub assemble : BoardConfig → CoreConfig → Result TargetConfig
  assemble b c = do
    fpga_top ← format_for b.top_template
    work_root ← format_for b.work_root
    ok (assembled host b c fpga_top work_root)

  unfoldable pub target_config : Text → Text → Result TargetConfig
  target_config core_text board_text = do
    b ← board_config board_text
    c ← core_config core_text
    assemble b c
