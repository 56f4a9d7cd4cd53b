-- ===== src/Scaffold/Texts.antt =====
-- The files of a new core, line by line: `core_descriptor`, `core_fusesoc` and `core_adapter` of
-- bin/create_core.py.
use corejack.Prelude.{List, [], ◌∷◌, ◌++◌}
use corejack.Text.{Text, codes}
use corejack.Text.Lines.{unlines}
use corejack.Number.{show_int}
use corejack.Scaffold.Request.{Core}

abbrev pub adapter_name : Core → Text
adapter_name a =
    codes "corejack_" ++ (a.core ++ (codes "_" ++ (a.integration_suffix ++ codes "_adapter")))

unfoldable pub core_lines : Core → List Text
core_lines a =
    (codes "name: " ++ a.core)
    ∷ (codes "display_name: " ++ a.display_name)
    ∷ []
    ∷ codes "integration:"
    ∷ codes "  sim: planned"
    ∷ codes "  fpga: planned"
    ∷ codes "  debug: planned"
    ∷ []
    ∷ codes "adapter:"
    ∷ (codes "  module: " ++ adapter_name a)
    ∷ (codes "  file: " ++ ((codes "rtl/cores/" ++ (adapter_name a ++ codes ".sv"))))
    ∷ []
    ∷ codes "platform:"
    ∷ (codes "  core_type: " ++ show_int a.core_type)
    ∷ (codes "  integration: " ++ a.platform_integration)
    ∷ []
    ∷ codes "wrapper:"
    ∷ (codes "  module: " ++ (a.core ++ codes "_wrapper"))
    ∷ []
    ∷ codes "fusesoc:"
    ∷ codes "  sim_target: sw-sim"
    ∷ (codes "  core_flag: core_" ++ a.core)
    ∷ []
    ∷ codes "isa:"
    ∷ (codes "  xlen: " ++ show_int a.xlen)
    ∷ (codes "  march: " ++ a.march)
    ∷ (codes "  mabi: " ++ a.mabi)
    ∷ []
    ∷ codes "reset:"
    ∷ codes "  boot_addr: 0x80000000"
    ∷ codes "  mtvec_addr: 0x80000000"
    ∷ []
    ∷ codes "debug:"
    ∷ codes "  supported: false"
    ∷ []
    ∷ codes "buses:"
    ∷ (codes "  instruction: " ++ a.instruction_bus)
    ∷ (codes "  data: " ++ a.data_bus)
    ∷ []
    ∷ codes "clocking:"
    ∷ codes "  validated_min_hz: 0"
    ∷ codes "  validated_max_hz: 0"
    ∷ []
    ∷ codes "software:"
    ∷ codes "  default_target: sim"
    ∷ codes "  toolchain: riscv-multilib"
    ∷ codes "  zephyr:"
    ∷ codes "    status: planned"
    ∷ []
    ∷ codes "compatible_boards:"
    ∷ (codes "  - " ++ a.board)
    ∷ []

unfoldable pub fusesoc_lines : Core → List Text
fusesoc_lines a =
    codes "CAPI=2:"
    ∷ []
    ∷ (codes "name: corejack:cores:" ++ (a.core ++ (codes ":" ++ a.version)))
    ∷ (codes "description: "
        ++ (a.display_name ++ codes " RTL and CoreJack adapter used by the CoreJack platform"))
    ∷ []
    ∷ codes "filesets:"
    ∷ codes "  rtl:"
    ∷ codes "    files:"
    ∷ (codes "      - rtl/cores/" ++ ((adapter_name a) ++ codes ".sv"))
    ∷ codes "    file_type: systemVerilogSource"
    ∷ []
    ∷ codes "targets:"
    ∷ codes "  default:"
    ∷ codes "    filesets:"
    ∷ codes "      - rtl"
    ∷ []

unfoldable pub adapter_lines : Core → List Text
adapter_lines a =
    (codes "// Placeholder adapter for " ++ (a.display_name ++ codes "."))
    ∷ codes "//"
    ∷ codes "// This scaffold is intentionally not wired into corejack_core_region. Replace"
    ∷ codes "// this module with the real core protocol adapter before attempting simulation"
    ∷ codes "// or FPGA support promotion."
    ∷ (codes "module " ++ ((adapter_name a) ++ codes ";"))
    ∷ codes "endmodule"
    ∷ []

unfoldable pub core_descriptor : Core → Text
core_descriptor a = unlines (core_lines a)

unfoldable pub core_fusesoc : Core → Text
core_fusesoc a = unlines (fusesoc_lines a)

unfoldable pub core_adapter : Core → Text
core_adapter a = unlines (adapter_lines a)
