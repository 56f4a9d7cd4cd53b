-- ===== src/Tests/Runs.antt =====
-- The checks of `repo`, run.
use corejack.Prelude.{Bool, List, ◌≡◌, true, refl, [], ◌∷◌}
use corejack.Text.{Text, codes, contains}
use corejack.Failure.{ok}
use corejack.Cli.{list_pairs}
use corejack.Host.{core_dir, board_dir, descriptor_names}
use corejack.Banner.{check_uart_banner_descriptor}
use corejack.CoreCheck.Rules.{CoreReport, core_check}
use corejack.BoardCheck.{BoardFields}
use corejack.BoardCheck.Rules.{board_check}
use corejack.Descriptor.Config.{format_for}
use corejack.Tests.Repo.{repo}

-- The core and the board pass, the board lists the core, and the templates can be formatted.
pub record Runs : Type 0 where
  pub report : CoreReport
  pub top : Text
  pub fields : BoardFields
  pub board_top : Text
  pub root : Text
  pub core_passes : core_check repo (codes "c") ≡ ok report
  pub board_passes : board_check repo (codes "b") ≡ ok (fields, top)
  pub lists : fields.compatible_cores ≡ codes "c" ∷ []
  pub is_listed : contains fields.compatible_cores (codes "c") ≡ true
  pub core_names : descriptor_names repo core_dir ≡ codes "c" ∷ []
  pub board_names : descriptor_names repo board_dir ≡ codes "b" ∷ []
  pub core_known : contains (descriptor_names repo core_dir) (codes "c") ≡ true
  pub names_board : contains report.settings.compatible_boards (codes "b") ≡ true
  pub banner_passes : check_uart_banner_descriptor repo ≡ ok tt
  pub listed : Bool × List Text
  pub lists_pairs : (list_pairs repo ((codes "c", codes "b") ∷ [])).result ≡ ok listed
  pub top_formats : format_for repo (codes "c") (codes "b") fields.top_template ≡ ok board_top
  pub root_formats : format_for repo (codes "c") (codes "b") fields.work_root ≡ ok root

pub runs : Runs
unfolding corejack.Cli.list_pairs corejack.Cli.list_pair corejack.Descriptor.Config.target_config
    corejack.Descriptor.Config.board_config corejack.Descriptor.Config.core_config
    corejack.Descriptor.Config.assemble corejack.Template.format
    corejack.Banner.check_uart_banner_descriptor corejack.Banner.banner_text
    corejack.Banner.check_firmware corejack.Banner.banner_lines corejack.Banner.check_banner_line
    corejack.Banner.alive_line corejack.Descriptor.Config.format_for corejack.BoardCheck.field_of
    corejack.BoardCheck.positive_of corejack.BoardCheck.check_ram_bytes
    corejack.BoardCheck.board_fields corejack.BoardCheck.Rules.board_wrapper
    corejack.BoardCheck.Rules.core_target corejack.BoardCheck.Rules.board_targets
    corejack.BoardCheck.Rules.board_rules corejack.BoardCheck.Rules.names_board
    corejack.BoardCheck.Rules.board_cores corejack.BoardCheck.Rules.board_check
    corejack.CoreCheck.checks corejack.CoreCheck.require_status corejack.CoreCheck.check_repo_file
    corejack.CoreCheck.core_identity corejack.CoreCheck.core_adapter
    corejack.CoreCheck.core_type_usage corejack.CoreCheck.duplicates
    corejack.CoreCheck.core_platform corejack.CoreCheck.nonnegative_field
    corejack.CoreCheck.positive_field corejack.CoreCheck.core_settings
    corejack.CoreCheck.Rules.setting_rules corejack.CoreCheck.Rules.debug_numbers
    corejack.CoreCheck.Rules.core_debug corejack.CoreCheck.Rules.names_core
    corejack.CoreCheck.Rules.core_boards corejack.CoreCheck.Rules.core_check
    corejack.Descriptor.require_scalar corejack.Descriptor.integration_status
    corejack.Descriptor.zephyr_status corejack.Descriptor.platform_integration
    corejack.Descriptor.fusesoc_core_flags corejack.Descriptor.fusesoc_board_flag
    corejack.Descriptor.check_template corejack.Descriptor.load_descriptors
    corejack.Descriptor.is_compatible corejack.Descriptor.Config.ram_bytes_of
    corejack.Failure.for_each corejack.Failure.map_result corejack.Host.text_le corejack.Host.insert
    corejack.Host.sorted corejack.Host.stems corejack.Host.descriptor_names
    corejack.Host.descriptor_path corejack.Number.negate corejack.Number.quarter
    corejack.Number.digit_value corejack.Number.scan_digits corejack.Number.magnitude
    corejack.Number.int_literal corejack.Number.decimal_onto corejack.Number.decimal
    corejack.Number.show_int corejack.Number.parse_positive_int
    corejack.Number.parse_nonnegative_int corejack.Rtl.decimal_value corejack.Rtl.core_type_body
    corejack.Rtl.platform_core_type_values corejack.Rtl.enum_value corejack.Rtl.to_lower
    corejack.Rtl.to_upper corejack.Rtl.segments corejack.Rtl.capitalize
    corejack.Rtl.join_capitalized corejack.Rtl.expected_core_enum_name
    corejack.Rtl.without_underscores corejack.Rtl.is_bank_count corejack.Rtl.mem_num_banks
    corejack.Search.many_spaces corejack.Search.some_spaces corejack.Search.word_boundary
    corejack.Search.behind_breaks corejack.Search.defines_module corejack.Search.has_make_target
    corejack.Search.has_fusesoc_target corejack.Search.ends_with corejack.Search.make_target_exists
    corejack.Search.fusesoc_target_exists corejack.Search.spaces_then corejack.Search.first_at
    corejack.Search.first_behind_break corejack.Search.first_at_line_start corejack.Template.move
    corejack.Template.run corejack.Template.parse corejack.Template.field_names
    corejack.Template.unsupported corejack.Template.argument corejack.Template.is_simple
    corejack.Text.is_space corejack.Text.is_alnum corejack.Text.is_key_char corejack.Text.text_eq
    corejack.Text.texts_eq corejack.Text.strip_prefix corejack.Text.has_infix corejack.Text.ends_by
    corejack.Text.drop_last corejack.Text.inner corejack.Text.split_on corejack.Text.is_break
    corejack.Text.splitlines corejack.Text.join corejack.Yaml.indent_of corejack.Yaml.key_line
    corejack.Yaml.pop_frames corejack.Yaml.keys_of corejack.Yaml.push_frame corejack.Yaml.skips
    corejack.Yaml.scalar_value corejack.Yaml.scalar_step corejack.Yaml.scan_scalar
    corejack.Yaml.yaml_path_scalar corejack.Yaml.list_item corejack.Yaml.key_match
    corejack.Yaml.list_step corejack.Yaml.scan_list corejack.Yaml.yaml_top_list
    corejack.Yaml.path_list_step corejack.Yaml.scan_path_list corejack.Yaml.yaml_path_list
    corejack.Text.strip_by corejack.Text.take_while
runs = record {
  report = _;
  top = _;
  fields = _;
  board_top = _;
  root = _;
  core_passes = refl;
  board_passes = refl;
  lists = refl;
  is_listed = refl;
  core_names = refl;
  board_names = refl;
  core_known = refl;
  names_board = refl;
  banner_passes = refl;
  listed = _;
  lists_pairs = refl;
  top_formats = refl;
  root_formats = refl;
}
