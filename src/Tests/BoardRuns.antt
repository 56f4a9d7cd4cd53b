-- ===== src/Tests/BoardRuns.antt =====
-- A new board in a repository that holds a FuseSoC file.
use corejack.Prelude.{◌≡◌, refl, arith, ◌++◌, none, some, if◌then◌else◌}
use corejack.Text
use corejack.Text.{Text, codes, text_eq, splitlines}
use corejack.Text.Laws.{text_eq-ne}
use corejack.Failure.{ok, no_marker}
use corejack.Number.{pos}
use corejack.Edit.{Files}
use corejack.Splice.{replace_marker}
use corejack.BoardScaffold.{Options, Board, requested}
use corejack.BoardScaffold.Target.{board_fileset, rtl_marker, replace_in_fpga_target}
use corejack.BoardScaffold.Create.{create_board}
use corejack.BoardScaffold.Named.{Renamed, replace_in_fpga_target-Named}
use corejack.BoardScaffold.Outcome.{Created, create_board-Leaves, create_board-Created}

abbrev core_text : Text
core_text =
    codes
      "name: corejack:corejack:platform:0.4.2\n\nfilesets:\n\n  rtl:\n    files: []\n\ntargets:\n"
    ++ (codes
          "  fpga:\n    filesets_append:\n      - rtl\n    toplevel: board_axku5 ? (corejack_axku5_wrap)\n"
        ++ codes
            "    flow_options:\n      part: board_axku5 ? (xcku5p)\n  sim:\n    toplevel: tb\n")

abbrev files : Files
files path =
    if text_eq (codes "corejack.core") path
    then some core_text
    else if text_eq (codes "README.md") path
    then some (codes "CoreJack")
    else none

abbrev options : Options
options = record {
  board = codes "nexys";
  part = codes "xc7a200t";
  display_name = none;
  input_hz = pos 100000000;
  soc_hz = pos 25000000;
  clock_p = codes "sys_clk_p";
  clock_n = codes "sys_clk_n";
  reset_port = codes "sys_rst_n";
  reset_polarity = codes "active_low";
  uart_baud = pos 115200;
  uart_tx = codes "uart_tx";
  uart_rx = codes "uart_rx";
}

abbrev after : Files
after = (create_board options files).1

record Run : Type 0 where
  returns : (create_board options files).0 ≡ ok tt
  board : Board
  granted : requested files options ≡ ok board
  updated : Text
  replaced : replace_in_fpga_target board core_text ≡ ok updated

run : Run
unfolding corejack.BoardScaffold.requested corejack.BoardScaffold.Create.board_files
    corejack.BoardScaffold.Create.name_board corejack.BoardScaffold.Create.write_board
    corejack.BoardScaffold.Create.create_board corejack.BoardScaffold.Target.is_heading
    corejack.BoardScaffold.Target.enter_target corejack.BoardScaffold.Target.enter_options
    corejack.BoardScaffold.Target.written corejack.BoardScaffold.Target.scanned
    corejack.BoardScaffold.Target.rewrite corejack.BoardScaffold.Target.finished
    corejack.BoardScaffold.Target.replace_in_fpga_target
    corejack.BoardScaffold.Texts.descriptor_lines corejack.BoardScaffold.Texts.board_core_lines
    corejack.BoardScaffold.Texts.xdc_lines corejack.BoardScaffold.Texts.board_descriptor
    corejack.BoardScaffold.Texts.board_core corejack.BoardScaffold.Texts.board_xdc
    corejack.BoardScaffold.Wrapper.wrapper_lines corejack.BoardScaffold.Wrapper.board_wrapper
    corejack.Edit.write corejack.Edit.for_each corejack.Edit.edit_file corejack.Edit.refuse_existing
    corejack.Edit.write_new corejack.Number.negate corejack.Number.quarter
    corejack.Number.digit_value corejack.Number.scan_digits corejack.Number.magnitude
    corejack.Number.int_literal corejack.Number.decimal_onto corejack.Number.decimal
    corejack.Number.show_int corejack.Number.parse_positive_int
    corejack.Number.parse_nonnegative_int corejack.Rtl.decimal_value corejack.Rtl.core_type_body
    corejack.Rtl.platform_core_type_values corejack.Rtl.enum_value corejack.Rtl.to_lower
    corejack.Rtl.to_upper corejack.Rtl.segments corejack.Rtl.capitalize
    corejack.Rtl.join_capitalized corejack.Rtl.expected_core_enum_name
    corejack.Rtl.without_underscores corejack.Rtl.is_bank_count corejack.Rtl.mem_num_banks
    corejack.Scaffold.is_identifier corejack.Scaffold.require_identifier corejack.Scaffold.opens
    corejack.Scaffold.contains_item corejack.Scaffold.yaml_top_list_contains
    corejack.Scaffold.insert_item corejack.Scaffold.append_yaml_top_list_item
    corejack.Scaffold.existing_core_type_values corejack.Scaffold.next_value
    corejack.Scaffold.next_core_type corejack.Scaffold.CoreFile.underscored
    corejack.Scaffold.CoreFile.core_file_with corejack.Scaffold.Create.update_platform_pkg
    corejack.Scaffold.Create.update_corejack_core corejack.Scaffold.Create.update_board_descriptor
    corejack.Scaffold.Create.new_files corejack.Scaffold.Create.update_files
    corejack.Scaffold.Create.write_core corejack.Scaffold.Create.create_core
    corejack.Scaffold.Package.last_member corejack.Scaffold.Package.package_with
    corejack.Scaffold.Request.platform_version corejack.Scaffold.Request.core_type_of
    corejack.Scaffold.Request.display_name_of corejack.Scaffold.Request.requested
    corejack.Scaffold.Texts.core_lines corejack.Scaffold.Texts.fusesoc_lines
    corejack.Scaffold.Texts.adapter_lines corejack.Scaffold.Texts.core_descriptor
    corejack.Scaffold.Texts.core_fusesoc corejack.Scaffold.Texts.core_adapter
    corejack.Search.many_spaces corejack.Search.some_spaces corejack.Search.first_in_word
    corejack.Search.word_boundary corejack.Search.behind_breaks corejack.Search.at_line_end
    corejack.Search.defines_module corejack.Search.has_make_target
    corejack.Search.has_fusesoc_target corejack.Search.ends_with corejack.Search.make_target_exists
    corejack.Search.fusesoc_target_exists corejack.Search.spaces_then corejack.Search.first_at
    corejack.Search.first_behind_break corejack.Search.first_at_line_start
    corejack.Splice.replace_first corejack.Splice.replace_marker corejack.Splice.has_word
    corejack.Splice.digits_then corejack.Splice.behind_version corejack.Splice.find_platform_version
    corejack.Text.is_space corejack.Text.is_alnum corejack.Text.is_key_char corejack.Text.text_eq
    corejack.Text.texts_eq corejack.Text.strip_prefix corejack.Text.has_infix corejack.Text.ends_by
    corejack.Text.drop_last corejack.Text.inner corejack.Text.split_on corejack.Text.is_break
    corejack.Text.splitlines corejack.Text.join corejack.Text.strip_by corejack.Text.take_while
run = record { returns = refl; board = _; granted = refl; updated = _; replaced = refl }

done : create_board options files ≡ (ok tt, after)
done = ground (arith, run.returns)

create_board-Created_example :
    (a : Board) × (requested files options ≡ ok a) × Created files after a
create_board-Created_example = create_board-Created options files done

create_board-Leaves_example : after (codes "README.md") ≡ some (codes "CoreJack")
create_board-Leaves_example =
    create_board-Leaves options (codes "README.md") (text_eq-ne _ _ (unfold text_eq in refl)) files
      (codes "CoreJack") (unfold text_eq in refl)

replace_in_fpga_target-Named_example :
    (with_fileset : Text) × (replace_marker rtl_marker
        (board_fileset run.board ++ rtl_marker)
        (no_marker rtl_marker)
        core_text
      ≡ ok with_fileset)
    × Renamed run.board (splitlines with_fileset) run.updated
replace_in_fpga_target-Named_example = replace_in_fpga_target-Named run.board core_text run.replaced
