-- ===== src/Tests/CoreRuns.antt =====
-- A new core in a repository of three files.
use corejack.Prelude.{◌≡◌, ◌≢◌, refl, arith, true, ◌++◌, none, some, if◌then◌else◌, false}
use corejack.Text
use corejack.Text.{Text, codes, text_eq}
use corejack.Failure.{Failure, ok, err}
use corejack.Number.{pos}
use corejack.Edit.{Files}
use corejack.Scaffold.{yaml_top_list_contains}
use corejack.Scaffold.Request.{Options, Core, requested}
use corejack.Scaffold.Create.{board_path, create_core}
use corejack.Scaffold.Created.{Created}
use corejack.Scaffold.Outcome.{create_core-Created, create_core-twice}
use corejack.Scaffold.Safety.{create_core-Leaves}
use corejack.Text.Laws.{text_eq-ne}

abbrev pub package_text : Text
package_text = codes "typedef enum int unsigned {\n  CoreIbex = 0,\n  CoreCvw = 1\n} core_type_e;\n"

abbrev pub core_text : Text
core_text =
    codes
      "name: corejack:corejack:platform:0.4.2\n\nfilesets:\n\n  core_region_rtl:\n    files: []\n"
    ++ (codes "        - core_cvw ? (-DCOREJACK_CORE_CVW)\n"
        ++ (codes "      - core_cvw ? (core_cvw_rtl)\n      - core_region ? (core_region_rtl)\n"
            ++ codes
                "      - core_cvw ? (core_cvw_rtl)\n      - core_region ? (core_region_rtl)\n      - board_axku5 ? (board_axku5_rtl)\n"))

abbrev pub files : Files
files path =
    if text_eq (codes "rtl/pkg/platform_pkg.sv") path
    then some package_text
    else if text_eq (codes "corejack.core") path
    then some core_text
    else if text_eq (codes "cfg/boards/axku5.yaml") path
    then some (codes "name: axku5\n\ncompatible_cores:\n  - ibex\n")
    else if text_eq (codes "README.md") path
    then some (codes "CoreJack")
    else none

abbrev pub options : Options
options = record {
  core = codes "my_core";
  display_name = none;
  board = codes "axku5";
  xlen = pos 32;
  march = codes "rv32imc";
  mabi = codes "ilp32";
  instruction_bus = codes "obi";
  data_bus = codes "obi";
  platform_integration = codes "socket_region";
  integration_suffix = codes "socket";
  core_type = none;
}

abbrev after : Files
after = (create_core options files).1

record Run : Type 0 where
  returns : (create_core options files).0 ≡ ok tt
  core : Core
  granted : requested files options ≡ ok core

run : Run
unfolding corejack.Edit.write corejack.Edit.for_each corejack.Edit.edit_file
    corejack.Edit.refuse_existing corejack.Edit.write_new corejack.Number.negate
    corejack.Number.quarter corejack.Number.digit_value corejack.Number.scan_digits
    corejack.Number.magnitude corejack.Number.int_literal corejack.Number.decimal_onto
    corejack.Number.decimal corejack.Number.show_int corejack.Number.parse_positive_int
    corejack.Number.parse_nonnegative_int corejack.Rtl.decimal_value corejack.Rtl.core_type_body
    corejack.Rtl.platform_core_type_values corejack.Rtl.enum_value corejack.Rtl.to_lower
    corejack.Rtl.to_upper corejack.Rtl.segments corejack.Rtl.capitalize
    corejack.Rtl.join_capitalized corejack.Rtl.expected_core_enum_name
    corejack.Rtl.without_underscores corejack.Rtl.is_bank_count corejack.Rtl.mem_num_banks
    corejack.Scaffold.is_identifier corejack.Scaffold.require_identifier corejack.Scaffold.opens
    corejack.Scaffold.contains_item corejack.Scaffold.yaml_top_list_contains
    corejack.Scaffold.insert_item corejack.Scaffold.append_yaml_top_list_item
    corejack.Scaffold.existing_core_type_values corejack.Scaffold.next_value
    corejack.Scaffold.next_core_type corejack.Scaffold.CoreFile.underscored
    corejack.Scaffold.CoreFile.core_file_with corejack.Scaffold.Create.update_platform_pkg
    corejack.Scaffold.Create.update_corejack_core corejack.Scaffold.Create.update_board_descriptor
    corejack.Scaffold.Create.new_files corejack.Scaffold.Create.update_files
    corejack.Scaffold.Create.write_core corejack.Scaffold.Create.create_core
    corejack.Scaffold.Package.last_member corejack.Scaffold.Package.package_with
    corejack.Scaffold.Request.platform_version corejack.Scaffold.Request.core_type_of
    corejack.Scaffold.Request.display_name_of corejack.Scaffold.Request.requested
    corejack.Scaffold.Texts.core_lines corejack.Scaffold.Texts.fusesoc_lines
    corejack.Scaffold.Texts.adapter_lines corejack.Scaffold.Texts.core_descriptor
    corejack.Scaffold.Texts.core_fusesoc corejack.Scaffold.Texts.core_adapter
    corejack.Search.many_spaces corejack.Search.some_spaces corejack.Search.first_in_word
    corejack.Search.word_boundary corejack.Search.behind_breaks corejack.Search.at_line_end
    corejack.Search.defines_module corejack.Search.has_make_target
    corejack.Search.has_fusesoc_target corejack.Search.ends_with corejack.Search.make_target_exists
    corejack.Search.fusesoc_target_exists corejack.Search.spaces_then corejack.Search.first_at
    corejack.Search.first_behind_break corejack.Search.first_at_line_start
    corejack.Splice.replace_first corejack.Splice.replace_marker corejack.Splice.has_word
    corejack.Splice.digits_then corejack.Splice.behind_version corejack.Splice.find_platform_version
    corejack.Text.is_space corejack.Text.is_alnum corejack.Text.is_key_char corejack.Text.text_eq
    corejack.Text.texts_eq corejack.Text.strip_prefix corejack.Text.has_infix corejack.Text.ends_by
    corejack.Text.drop_last corejack.Text.inner corejack.Text.split_on corejack.Text.is_break
    corejack.Text.splitlines corejack.Text.join corejack.Yaml.indent_of corejack.Yaml.key_line
    corejack.Yaml.pop_frames corejack.Yaml.keys_of corejack.Yaml.push_frame corejack.Yaml.skips
    corejack.Yaml.scalar_value corejack.Yaml.match_key corejack.Yaml.scalar_step
    corejack.Yaml.scan_scalar corejack.Yaml.yaml_path_scalar corejack.Yaml.list_item
    corejack.Yaml.key_match corejack.Yaml.list_step corejack.Yaml.scan_list
    corejack.Yaml.yaml_top_list corejack.Yaml.path_list_step corejack.Yaml.scan_path_list
    corejack.Yaml.yaml_path_list corejack.Text.strip_by corejack.Text.take_while
run = record { returns = refl; core = _; granted = refl }

done : create_core options files ≡ (ok tt, after)
done = ground (arith, run.returns)

create_core-Created_example :
    (a : Core) × (requested files options ≡ ok a)
    × Created files after a
    × ((text : Text) × (after (board_path options.board) ≡ some text)
        × (yaml_top_list_contains text (codes "compatible_cores") options.core ≡ true))
create_core-Created_example = create_core-Created options files done

create_core-twice_example : (message : Failure) × (create_core options after ≡ (err message, after))
create_core-twice_example = create_core-twice options options files refl done

differ : {s t : Text} → text_eq s t ≡ false → s ≢ t
differ {s} {t} h = text_eq-ne s t h

create_core-Leaves_example : after (codes "README.md") ≡ some (codes "CoreJack")
create_core-Leaves_example =
    create_core-Leaves options (codes "README.md") (differ (unfold text_eq in refl))
      (differ (unfold text_eq in refl)) (differ (unfold text_eq in refl)) files (codes "CoreJack")
      (unfold text_eq in refl)
