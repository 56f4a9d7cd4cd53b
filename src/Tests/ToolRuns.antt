-- ===== src/Tests/ToolRuns.antt =====
-- The tool check of a machine with every tool, and the warnings of two Vivado logs.
use corejack.Prelude.{
  ◌≡◌, ◌↔◌, refl, true, List, [], ◌∷◌, ◌++◌, none, some, if◌then◌else◌, all, length,
}
use corejack.Text
use corejack.Text.{Text, codes, text_eq, contains}
use corejack.Failure.{ok}
use corejack.Number.{pos}
use corejack.Edit.{Files}
use corejack.Tools.{Machine, Completed, exited, check_tool}
use corejack.Tools.Main.{check_sections, tools_main}
use corejack.Tools.Flows.{provides, decisive, imports_cocotb, check_sections_iff, tools_main-all}
use corejack.Vivado.{Warning, load_allowlist, log_warnings, parse_logs, check_warnings}
use corejack.Vivado.Reviewed.{total, parse_logs-total, check_warnings_iff}
use corejack.Tests.Repo.{repo}

abbrev machine : Machine
machine = record {
  executable = λ path. true;
  which = λ command. some (codes "/usr/bin/" ++ command);
  env = λ name. none;
  run = λ argv text. exited (pos 0) (codes "version 2025.2.1");
  python = codes "python3";
  root = codes "/corejack";
}

abbrev allowlist : List Text
allowlist = codes "# reviewed" ∷ codes "Synth 8-7080 # parallel" ∷ []

abbrev logs : Files
logs path =
    if text_eq (codes "a.log") path
    then some (codes "INFO: x\nWARNING: [Synth 8-7080] few cells\nWARNING: [Synth 8-7080] again\n")
    else if text_eq (codes "b.log") path
    then some (codes "CRITICAL WARNING: [Timing 38-282] failed\n")
    else none

abbrev all_logs : List Text
all_logs = codes "a.log" ∷ codes "b.log" ∷ codes "c.log" ∷ []

record Run : Type 0 where
  lines : List Text
  passes : tools_main repo machine (codes "c") (codes "b") (codes "all") ≡ ok (lines, 0)
  reviewed : (check_warnings allowlist logs (codes "a.log" ∷ [])).1 ≡ 0
  unreviewed : (check_warnings allowlist logs all_logs).1 ≡ 1

run : Run
unfolding corejack.Cdc.pieces corejack.Cdc.split_words corejack.Cdc.before_hash
    corejack.Cdc.entry_of corejack.Cdc.load_lines corejack.Cdc.load_allowlist
    corejack.Descriptor.require_scalar corejack.Descriptor.integration_status
    corejack.Descriptor.zephyr_status corejack.Descriptor.platform_integration
    corejack.Descriptor.fusesoc_core_flags corejack.Descriptor.fusesoc_board_flag
    corejack.Descriptor.check_template corejack.Descriptor.load_descriptors
    corejack.Descriptor.is_compatible corejack.Descriptor.Config.ram_bytes_of corejack.Host.text_le
    corejack.Host.insert corejack.Host.sorted corejack.Host.stems corejack.Host.descriptor_names
    corejack.Host.descriptor_path corejack.Number.negate corejack.Number.quarter
    corejack.Number.digit_value corejack.Number.scan_digits corejack.Number.magnitude
    corejack.Number.int_literal corejack.Number.decimal_onto corejack.Number.decimal
    corejack.Number.show_int corejack.Number.parse_positive_int
    corejack.Number.parse_nonnegative_int corejack.Rtl.decimal_value corejack.Rtl.core_type_body
    corejack.Rtl.platform_core_type_values corejack.Rtl.enum_value corejack.Rtl.to_lower
    corejack.Rtl.to_upper corejack.Rtl.segments corejack.Rtl.capitalize
    corejack.Rtl.join_capitalized corejack.Rtl.expected_core_enum_name
    corejack.Rtl.without_underscores corejack.Rtl.is_bank_count corejack.Rtl.mem_num_banks
    corejack.Search.many_spaces corejack.Search.some_spaces corejack.Search.first_in_word
    corejack.Search.word_boundary corejack.Search.behind_breaks corejack.Search.at_line_end
    corejack.Search.defines_module corejack.Search.has_make_target
    corejack.Search.has_fusesoc_target corejack.Search.ends_with corejack.Search.make_target_exists
    corejack.Search.fusesoc_target_exists corejack.Search.spaces_then corejack.Search.first_at
    corejack.Search.first_behind_break corejack.Search.first_at_line_start corejack.Template.move
    corejack.Template.run corejack.Template.parse corejack.Template.field_names
    corejack.Template.unsupported corejack.Template.argument corejack.Template.is_simple
    corejack.Text.is_space corejack.Text.is_alnum corejack.Text.is_key_char corejack.Text.text_eq
    corejack.Text.texts_eq corejack.Text.strip_prefix corejack.Text.has_infix corejack.Text.ends_by
    corejack.Text.drop_last corejack.Text.inner corejack.Text.split_on corejack.Text.is_break
    corejack.Text.splitlines corejack.Text.join corejack.Tools.run_text corejack.Tools.run_lines
    corejack.Tools.find_command corejack.Tools.flow_requires corejack.Tools.first_which
    corejack.Tools.find_c_compiler corejack.Tools.probe_header corejack.Tools.or_pkg_config
    corejack.Tools.check_c_header corejack.Tools.version_fits corejack.Tools.check_tool
    corejack.Tools.check_python_module corejack.Tools.Listed.toolchain_root
    corejack.Tools.Listed.core_tools corejack.Tools.Listed.fw_tools corejack.Tools.Listed.sim_tools
    corejack.Tools.Listed.verilator_build_tools corejack.Tools.Listed.style_tools
    corejack.Tools.Listed.verible_install_tools corejack.Tools.Listed.fpga_tools
    corejack.Tools.Listed.debug_tools corejack.Tools.Main.check_all
    corejack.Tools.Main.multilib_lines corejack.Tools.Main.sim_lines
    corejack.Tools.Main.check_sections corejack.Tools.Main.head_lines corejack.Tools.Main.tools_main
    corejack.Vivado.load_allowlist corejack.Vivado.behind_severity corejack.Vivado.warning_of
    corejack.Vivado.warnings_of corejack.Vivado.log_warnings corejack.Vivado.add_warning
    corejack.Vivado.add_warnings corejack.Vivado.parse_logs corejack.Vivado.missing
    corejack.Vivado.entry_lines corejack.Vivado.all_lines corejack.Vivado.check_warnings
    corejack.Yaml.indent_of corejack.Yaml.key_line corejack.Yaml.pop_frames corejack.Yaml.keys_of
    corejack.Yaml.push_frame corejack.Yaml.skips corejack.Yaml.scalar_value corejack.Yaml.match_key
    corejack.Yaml.scalar_step corejack.Yaml.scan_scalar corejack.Yaml.yaml_path_scalar
    corejack.Yaml.list_item corejack.Yaml.key_match corejack.Yaml.list_step corejack.Yaml.scan_list
    corejack.Yaml.yaml_top_list corejack.Yaml.path_list_step corejack.Yaml.scan_path_list
    corejack.Yaml.yaml_path_list corejack.Text.strip_by corejack.Text.take_while
    corejack.Descriptor.Config.board_config corejack.Descriptor.Config.format_for
    corejack.Template.format corejack.Descriptor.Config.core_config
    corejack.Descriptor.Config.assemble corejack.Descriptor.Config.target_config
run = record { lines = _; passes = refl; reviewed = refl; unreviewed = refl }

tools_main-all_example :
    (lines : List Text) × (tools_main repo machine (codes "c") (codes "b") (codes "sim")
      ≡ ok (lines, 0))
tools_main-all_example =
    tools_main-all repo machine (codes "c") (codes "b") (codes "sim") {lines = run.lines} run.passes

check_sections_iff_example :
    ((check_sections machine (codes "riscv-multilib") (codes "fpga")).1 ≡ true) ↔ (
      (all (provides machine (codes "fpga")) (decisive machine (codes "riscv-multilib")) ≡ true)
      × (imports_cocotb machine (codes "fpga") ≡ true))
check_sections_iff_example = check_sections_iff machine (codes "riscv-multilib") (codes "fpga")

check_warnings_iff_example : ((check_warnings allowlist logs all_logs).1 ≡ 0) ↔ (
    all (λ (w : Warning). contains (load_allowlist allowlist) w.msg_id) (log_warnings logs all_logs)
    ≡ true)
check_warnings_iff_example = check_warnings_iff allowlist logs all_logs

parse_logs-total_example : total (parse_logs logs all_logs) ≡ length (log_warnings logs all_logs)
parse_logs-total_example = parse_logs-total logs all_logs
