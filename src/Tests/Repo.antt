-- ===== src/Tests/Repo.antt =====
-- The files of a repository with the board `b` and the core `c`.
use corejack.Prelude.{List, [], ◌∷◌, ◌++◌, Option, none, some, if◌then◌else◌}
use corejack.Text.{Text, codes, text_eq}
use corejack.Text.Lines.{unlines}
use corejack.Host.{Host}

abbrev pub core_yaml : Text
core_yaml = unlines (
    codes "name: c"
    ∷ codes "display_name: Core C"
    ∷ codes "integration:"
    ∷ codes "  sim: supported"
    ∷ codes "  fpga: supported"
    ∷ codes "  debug: planned"
    ∷ codes "adapter:"
    ∷ codes "  module: a"
    ∷ codes "  file: a.sv"
    ∷ codes "platform:"
    ∷ codes "  core_type: 0"
    ∷ codes "  integration: socket_region"
    ∷ codes "wrapper:"
    ∷ codes "  module: w"
    ∷ codes "fusesoc:"
    ∷ codes "  sim_target: sw-sim"
    ∷ codes "  core_flag: core_c"
    ∷ codes "isa:"
    ∷ codes "  xlen: 32"
    ∷ codes "  march: rv32imc"
    ∷ codes "  mabi: ilp32"
    ∷ codes "reset:"
    ∷ codes "  boot_addr: 0x80000000"
    ∷ codes "  mtvec_addr: 0x80000000"
    ∷ codes "debug:"
    ∷ codes "  supported: false"
    ∷ codes "buses:"
    ∷ codes "  instruction: obi"
    ∷ codes "  data: obi"
    ∷ codes "clocking:"
    ∷ codes "  validated_min_hz: 0"
    ∷ codes "  validated_max_hz: 0"
    ∷ codes "software:"
    ∷ codes "  default_target: sim"
    ∷ codes "  toolchain: riscv-multilib"
    ∷ codes "  zephyr:"
    ∷ codes "    status: planned"
    ∷ codes "compatible_boards:"
    ∷ codes "  - b"
    ∷ [])

abbrev pub board_yaml : Text
board_yaml = unlines (
    codes "display_name: Board B"
    ∷ codes "fpga:"
    ∷ codes "  part: p"
    ∷ codes "  top_template: t_{board}"
    ∷ codes "  target: fpga"
    ∷ codes "  work_root: o/{board}/{core}"
    ∷ codes "fusesoc:"
    ∷ codes "  board_flag: board_b"
    ∷ codes "clock:"
    ∷ codes "  input_hz: 200"
    ∷ codes "  soc_hz: 25"
    ∷ codes "  constraints_ports:"
    ∷ codes "    p: clk"
    ∷ codes "reset:"
    ∷ codes "  polarity: active_low"
    ∷ codes "  constraints_port: rst"
    ∷ codes "memory:"
    ∷ codes "  ram_bytes: 0x100"
    ∷ codes "uart:"
    ∷ codes "  baud: 9600"
    ∷ codes "  tx_port: tx"
    ∷ codes "  rx_port: rx"
    ∷ codes "debug:"
    ∷ codes "  transport: jtag"
    ∷ codes "  jtag_adapter: j"
    ∷ codes "constraints:"
    ∷ codes "  xdc: x.xdc"
    ∷ codes "programming:"
    ∷ codes "  flow: vivado"
    ∷ codes "  bitstream_target: bit"
    ∷ codes "  program_target: pgm"
    ∷ codes "validation:"
    ∷ codes "  smoke_app: hello"
    ∷ codes "compatible_cores: [c]"
    ∷ [])

abbrev banner_yaml : Text
banner_yaml = unlines (
    codes "baremetal:"
    ∷ codes "  banner:"
    ∷ codes "    - 'Core: {core}'"
    ∷ codes "  alive:"
    ∷ codes "    sim: 'sim'"
    ∷ codes "    debug: 'jtag'"
    ∷ codes "    loader: 'uart'"
    ∷ codes "zephyr:"
    ∷ codes "  banner:"
    ∷ codes "    - 'Board: {board}'"
    ∷ codes "  alive:"
    ∷ codes "    debug: 'd'"
    ∷ codes "    loader: 'l'"
    ∷ [])

abbrev files : List (Text × Text)
files =
    (codes "cfg/cores/c.yaml", core_yaml)
    ∷ (codes "cfg/boards/b.yaml", board_yaml)
    ∷ (codes "cfg/validation/uart_banners.yaml", banner_yaml)
    ∷ (codes "a.sv", codes "module a;\nendmodule\n")
    ∷ (codes "rtl/platform/fpga/boards/b/t_b.sv", codes "// top\nmodule t_b (\n")
    ∷ (codes "x.xdc", [])
    ∷ (codes "rtl/platform/fpga/scripts/openocd-j.cfg", [])
    ∷ (codes "Makefile", codes "bit: x\n\nall:\n")
    ∷ (codes "mk/fpga.mk", codes "pgm :\n")
    ∷ (codes "corejack.core", codes "targets:\n  fpga:\n    x\n")
    ∷ (
      codes "rtl/pkg/platform_pkg.sv",
      codes "typedef enum int unsigned {\n  CoreC = 0\n} core_type_e;\n",
    )
    ∷ (codes "rtl/pkg/mem_ss_pkg.sv", codes "  localparam int unsigned MemNumBanksDefault = 8;\n")
    ∷ []

abbrev find_file : List (Text × Text) → Text → Option Text
find_file [] path = none
find_file ((p, text) ∷ rest) path = if text_eq p path then some text else find_file rest path

abbrev entries_of : Text → List Text
entries_of dir =
    if text_eq dir (codes "cfg/cores")
    then codes "c.yaml" ∷ []
    else if text_eq dir (codes "cfg/boards")
    then codes "b.yaml" ∷ codes "README.md" ∷ []
    else if text_eq dir (codes "mk")
    then codes "fpga.mk" ∷ []
    else []

abbrev pub repo : Host
repo = record {
  file = find_file files;
  entries = entries_of;
  format_field = λ args f. none;
  resolve = λ path. codes "/repo/" ++ path;
}
