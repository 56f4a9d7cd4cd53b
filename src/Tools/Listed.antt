-- ===== src/Tools/Listed.antt =====
-- The tools that `main` of bin/check_tools.py looks for, and where.
use corejack.Prelude.{List, [], ◌∷◌, none, some, if◌then◌else◌, is_nil}
use corejack.Text.{Text, codes, text_eq}
use corejack.Tools.{Machine, Tool, under}

abbrev tool : Text → Text → List Text → List Text → List Text → Text → Text → Tool
tool name command version_args required_for search_paths note expected = record {
  name = name;
  command = command;
  version_args = version_args;
  required_for = required_for;
  search_paths = search_paths;
  note = note;
  expected_version = expected;
}

abbrev pub or_env : Machine → Text → Text → Text
or_env m name default = elim (m.env name) [ none ↦ default | some value ↦ value ]

-- `str(Path(text))`
abbrev pub path_text : Text → Text
path_text s = if is_nil s then codes "." else s

-- `toolchain_paths`: the root of the toolchain. The prefix of its commands is always the same.
unfoldable pub toolchain_root : Machine → Text → Text
toolchain_root m toolchain =
    if text_eq toolchain (codes "riscv-multilib")
    then path_text
        (or_env m (codes "COREJACK_RISCV_TOOLCHAIN") (under m.root (codes ".tools/riscv")))
    else path_text []

abbrev pub toolchain_bin : Machine → Text → List Text
toolchain_bin m toolchain =
    if is_nil (toolchain_root m toolchain)
    then []
    else under (toolchain_root m toolchain) (codes "bin") ∷ []

abbrev pub venv_bin : Machine → Text
venv_bin m = under m.root (codes ".venv/bin")

abbrev tools_dir : Machine → Text
tools_dir m = path_text (or_env m (codes "COREJACK_TOOLS_DIR") (under m.root (codes ".tools")))

abbrev verilator_bin : Machine → Text
verilator_bin m =
    under
      (path_text (or_env m (codes "COREJACK_VERILATOR") (under m.root (codes ".tools/verilator"))))
      (codes "bin")

abbrev verible_bin : Machine → Text
verible_bin m =
    under (path_text (or_env m (codes "COREJACK_VERIBLE") (under m.root (codes ".tools/verible"))))
      (codes "bin")

unfoldable pub core_tools : Machine → List Tool
core_tools m =
    tool (codes "Python") (m.python) (codes "--version" ∷ []) (codes "all" ∷ []) ([]) ([]) ([])
    ∷ tool (codes "venv Python") (codes "python") (codes "--version" ∷ []) (codes "all" ∷ [])
        (venv_bin m ∷ []) ([]) ([])
    ∷ tool (codes "GNU Make") (codes "make") (codes "--version" ∷ []) (codes "all" ∷ []) ([]) ([])
        ([])
    ∷ tool (codes "CMake") (codes "cmake") (codes "--version" ∷ []) (codes "all" ∷ []) ([]) ([])
        ([])
    ∷ tool (codes "Bender") (codes "bender") (codes "--version" ∷ []) (codes "all" ∷ [])
        (tools_dir m ∷ []) ([]) ([])
    ∷ tool (codes "FuseSoC") (codes "fusesoc") (codes "--version" ∷ []) (codes "all" ∷ [])
        (venv_bin m ∷ []) ([]) ([])
    ∷ []

unfoldable pub fw_tools : Machine → Text → List Tool
fw_tools m toolchain =
    tool (codes "C compiler") (codes "riscv64-unknown-elf-gcc") (codes "--version" ∷ [])
      (codes "all" ∷ []) (toolchain_bin m toolchain) ([]) ([])
    ∷ tool (codes "objcopy") (codes "riscv64-unknown-elf-objcopy") (codes "--version" ∷ [])
        (codes "all" ∷ []) (toolchain_bin m toolchain) ([]) ([])
    ∷ tool (codes "objdump") (codes "riscv64-unknown-elf-objdump") (codes "--version" ∷ [])
        (codes "all" ∷ []) (toolchain_bin m toolchain) ([]) ([])
    ∷ tool (codes "readelf") (codes "riscv64-unknown-elf-readelf") (codes "--version" ∷ [])
        (codes "all" ∷ []) (toolchain_bin m toolchain) ([]) ([])
    ∷ tool (codes "GDB") (codes "riscv64-unknown-elf-gdb") (codes "--version" ∷ [])
        (codes "debug" ∷ []) (toolchain_bin m toolchain) ([]) ([])
    ∷ []

unfoldable pub sim_tools : Machine → List Tool
sim_tools m =
    tool (codes "Verilator") (codes "verilator") (codes "--version" ∷ []) (codes "sim" ∷ [])
      (verilator_bin m ∷ []) ([]) ([])
    ∷ []

unfoldable pub verilator_build_tools : Machine → List Tool
verilator_build_tools m =
    tool (codes "git") (codes "git") (codes "--version" ∷ []) ([]) ([]) ([]) ([])
    ∷ tool (codes "autoconf") (codes "autoconf") (codes "--version" ∷ []) ([]) ([]) ([]) ([])
    ∷ tool (codes "flex") (codes "flex") (codes "--version" ∷ []) ([]) ([]) ([]) ([])
    ∷ tool (codes "bison") (codes "bison") (codes "--version" ∷ []) ([]) ([]) ([]) ([])
    ∷ tool (codes "help2man") (codes "help2man") (codes "--version" ∷ []) ([]) ([]) ([]) ([])
    ∷ tool (codes "Perl") (codes "perl") (codes "--version" ∷ []) ([]) ([]) ([]) ([])
    ∷ tool (codes "C++ compiler") (or_env m (codes "CXX") (codes "g++")) (codes "--version" ∷ [])
        ([]) ([]) ([]) ([])
    ∷ []

unfoldable pub style_tools : Machine → List Tool
style_tools m =
    tool (codes "Verible lint") (codes "verible-verilog-lint") (codes "--version" ∷ []) ([])
      (verible_bin m ∷ []) ([]) ([])
    ∷ tool (codes "Verible format") (codes "verible-verilog-format") (codes "--version" ∷ []) ([])
        (verible_bin m ∷ []) ([]) ([])
    ∷ tool (codes "Verible syntax") (codes "verible-verilog-syntax") (codes "--version" ∷ []) ([])
        (verible_bin m ∷ []) ([]) ([])
    ∷ []

unfoldable pub verible_install_tools : List Tool
verible_install_tools =
    tool (codes "curl") (codes "curl") (codes "--version" ∷ []) ([]) ([]) ([]) ([])
    ∷ tool (codes "tar") (codes "tar") (codes "--version" ∷ []) ([]) ([]) ([]) ([])
    ∷ []

unfoldable pub fpga_tools : Machine → List Tool
fpga_tools m =
    tool (codes "Vivado") (codes "vivado") (codes "-version" ∷ []) (codes "fpga" ∷ []) ([]) ([])
      (or_env m (codes "COREJACK_VIVADO_VERSION") (codes "2025.2.1"))
    ∷ []

unfoldable pub debug_tools : List Tool
debug_tools =
    tool (codes "OpenOCD") (codes "openocd") (codes "--version" ∷ []) (codes "debug" ∷ []) ([]) ([])
      ([])
    ∷ tool (codes "picocom") (codes "picocom") (codes "--help" ∷ []) ([]) ([])
        (codes "optional UART terminal") ([])
    ∷ []
