-- ===== src/Tools/Main.antt =====
-- `main` of bin/check_tools.py: the tools by section, what is printed, and the exit status.
use corejack.Prelude.{
  ℕ, Bool, true, false, ◌&&◌, List, [], ◌∷◌, ◌++◌, map, none, some, if◌then◌else◌, is_nil, length,
  replicate, take, ltb,
}
use corejack.Text.{Text, codes, contains}
use corejack.Failure.{Result, ok, ◌>>=◌}
use corejack.Number.{decimal}
use corejack.Host.{Host}
use corejack.Descriptor.{load_descriptors}
use corejack.Descriptor.Config.{TargetConfig, target_config}
use corejack.Tools.{
  Machine, Tool, Report, run_lines, under, find_command, pad, check_c_header, check_tool,
  check_python_module,
}
use corejack.Tools.Listed.{
  toolchain_root, toolchain_bin, venv_bin, core_tools, fw_tools, sim_tools, verilator_build_tools,
  style_tools, verible_install_tools, fpga_tools, debug_tools,
}

-- `all_ok &= check_tool(tool, flow)` for each tool
unfoldable pub check_all : Machine → Text → List Tool → Report
unfolding check_tool
check_all m flow [] = ([], true)
check_all m flow (t ∷ ts) =
    let (lines, passed) = check_tool m flow t in
    let (more, rest) = check_all m flow ts in (lines ++ more, passed && rest)

abbrev pub section_lines : Text → List Text
section_lines title = [] ∷ title ∷ replicate (length title) b'-' ∷ []

abbrev pub value_line : Text → Text → Text
value_line name value = codes "  " ++ (pad 22 name ++ (codes " " ++ value))

-- The variants of the compiler, of which eight are shown.
abbrev variant_lines : Bool × List Text → List Text
variant_lines (false, lines) = []
variant_lines (true, lines) =
    value_line (codes "multilib") (decimal (length lines) ++ codes " variants")
    ∷ (map (value_line []) (take 8 lines)
        ++ (if ltb 8 (length lines) then value_line [] (codes "...") ∷ [] else []))

unfoldable pub multilib_lines : Machine → Text → List Text
unfolding find_command run_lines
multilib_lines m toolchain =
    elim (find_command m (codes "riscv64-unknown-elf-gcc") (toolchain_bin m toolchain)) [
      | none ↦ []
      | some gcc ↦ variant_lines (run_lines m (gcc ∷ codes "--print-multi-lib" ∷ []))
    ]

abbrev wave_note : Text
wave_note = codes "needed only for SIM_WAVES=1 SIM_WAVE_FORMAT=fst (VCD needs neither)"

-- The sections of the flows `all` and `sim`, which only report.
unfoldable pub sim_lines : Machine → Text → List Text
unfolding check_c_header check_all
sim_lines m flow =
    (check_c_header m (codes "lz4 headers") (codes "lz4.h") (codes "liblz4") false wave_note).0
    ++ ((check_c_header m (codes "zlib headers") (codes "zlib.h") (codes "zlib") false wave_note).0
        ++ (section_lines (codes "Optional Verilator Build Prerequisites")
            ++ ((check_all m flow (verilator_build_tools m)).0
                ++ (value_line (codes "system packages") (
                      codes
                        "flex/bison and zlib development headers may also be required by the host OS")
                    ∷ value_line [] (
                        codes "see docs/source/tooling.rst for the lz4/zlib waveform prerequisites")
                    ∷ []))))

abbrev pub reports_sim : Text → Bool
reports_sim flow = contains (codes "all" ∷ codes "sim" ∷ []) flow

abbrev pub python_required : Text → Bool
python_required flow = contains (codes "all" ∷ codes "sim" ∷ codes "fpga" ∷ codes "debug" ∷ []) flow

-- Everything behind the header, and `all_ok`.
unfoldable pub check_sections : Machine → Text → Text → Report
unfolding check_python_module multilib_lines sim_lines check_all
check_sections m toolchain flow =
    let core = check_all m flow (core_tools m) in
    let python =
      check_python_module m (codes "cocotb") (codes "cocotb") (under (venv_bin m) (codes "python"))
        (python_required flow) in
    let firmware = check_all m flow (fw_tools m toolchain) in
    let sim = check_all m flow (sim_tools m) in
    let fpga = check_all m flow (fpga_tools m) in
    let debug = check_all m flow debug_tools in
    (
      section_lines (codes "Core Tools")
          ++ (core.0
              ++ (section_lines (codes "Python Packages")
                  ++ (python.0
                      ++ (section_lines (codes "Firmware Toolchain")
                          ++ (firmware.0
                              ++ (multilib_lines m toolchain
                                  ++ (section_lines (codes "Simulation")
                                      ++ (sim.0
                                          ++ ((if reports_sim flow then sim_lines m flow else [])
                                              ++ (section_lines (codes "RTL Style")
                                                  ++ ((check_all m flow (style_tools m)).0
                                                      ++ ((if reports_sim flow
                                                            then section_lines (
                                                            codes
                                                            "Optional Verible Binary Install Prerequisites")
                                                            ++ (check_all m flow
                                                            verible_install_tools).0
                                                            else [])
                                                          ++ (section_lines (codes "FPGA")
                                                            ++ (fpga.0
                                                            ++ (section_lines (codes "Debug")
                                                            ++ debug.0))))))))))))))),
      core.1 && python.1 && firmware.1 && sim.1 && fpga.1 && debug.1,
    )

unfoldable pub head_lines : Machine → Text → Text → Text → TargetConfig → List Text
head_lines m core board flow config =
    codes "CoreJack tool check"
    ∷ (codes "  repo:      " ++ m.root)
    ∷ (codes "  flow:      " ++ flow)
    ∷ (codes "  core:      " ++ core)
    ∷ (codes "  board:     " ++ board)
    ∷ (codes "  toolchain: " ++ config.toolchain)
    ∷ (codes "  march:     " ++ config.march)
    ∷ (codes "  mabi:      " ++ config.mabi)
    ∷ (if is_nil (toolchain_root m config.toolchain)
        then []
        else (codes "  tc root:   " ++ toolchain_root m config.toolchain) ∷ [])

-- The lines that are printed, and the exit status.
abbrev pub ended : List Text → Report → List Text × ℕ
ended head (lines, true) = (head ++ (lines ++ ([] ∷ codes "Result: OK" ∷ [])), 0)
ended head (lines, false) =
    (head ++ (lines ++ ([] ∷ codes "Result: missing required tools" ∷ [])), 1)

unfoldable pub tools_main : Host → Machine → Text → Text → Text → Result (List Text × ℕ)
unfolding load_descriptors target_config head_lines check_sections
tools_main host m core board flow = do
  texts ← load_descriptors host core board
  config ← target_config host core board texts.0 texts.1
  ok (ended (head_lines m core board flow config) (check_sections m config.toolchain flow))
