-- ===== src/Tests/ScaffoldRuns.antt =====
-- A new core in the small repository.
use corejack.Prelude.{◌<◌, List, some, ◌≡◌, refl}
use corejack.Text
use corejack.Text.{Text, codes}
use corejack.Failure.{ok}
use corejack.Rtl.{Member, enum_value, platform_core_type_values, core_type_body, members}
use corejack.Scaffold.{next_core_type, existing_core_type_values, next_value}
use corejack.Scaffold.CoreType.{next_core_type-unused}
use corejack.Tests.Repo.{repo}

record Package : Type 0 where
  found : List Member
  next_is_one : next_core_type repo.file ≡ ok 1
  reads : platform_core_type_values repo ≡ ok found
  has_core : enum_value (codes "CoreC") found ≡ some 0

rtl : Package
unfolding corejack.Number.negate corejack.Number.quarter corejack.Number.digit_value
    corejack.Number.scan_digits corejack.Number.magnitude corejack.Number.int_literal
    corejack.Number.decimal_onto corejack.Number.decimal corejack.Number.show_int
    corejack.Number.parse_positive_int corejack.Number.parse_nonnegative_int
    corejack.Rtl.decimal_value corejack.Rtl.core_type_body corejack.Rtl.platform_core_type_values
    corejack.Rtl.enum_value corejack.Rtl.to_lower corejack.Rtl.to_upper corejack.Rtl.segments
    corejack.Rtl.capitalize corejack.Rtl.join_capitalized corejack.Rtl.expected_core_enum_name
    corejack.Rtl.without_underscores corejack.Rtl.is_bank_count corejack.Rtl.mem_num_banks
    corejack.Scaffold.is_identifier corejack.Scaffold.require_identifier corejack.Scaffold.opens
    corejack.Scaffold.contains_item corejack.Scaffold.yaml_top_list_contains
    corejack.Scaffold.insert_item corejack.Scaffold.append_yaml_top_list_item
    corejack.Scaffold.existing_core_type_values corejack.Scaffold.next_value
    corejack.Scaffold.next_core_type corejack.Search.many_spaces corejack.Search.some_spaces
    corejack.Search.word_boundary corejack.Search.behind_breaks corejack.Search.defines_module
    corejack.Search.has_make_target corejack.Search.has_fusesoc_target corejack.Search.ends_with
    corejack.Search.make_target_exists corejack.Search.fusesoc_target_exists
    corejack.Search.spaces_then corejack.Search.first_at corejack.Search.first_behind_break
    corejack.Search.first_at_line_start corejack.Text.is_space corejack.Text.is_alnum
    corejack.Text.is_key_char corejack.Text.text_eq corejack.Text.texts_eq
    corejack.Text.strip_prefix corejack.Text.has_infix corejack.Text.ends_by corejack.Text.drop_last
    corejack.Text.inner corejack.Text.split_on corejack.Text.is_break corejack.Text.splitlines
    corejack.Text.join corejack.Yaml.indent_of corejack.Yaml.key_line corejack.Yaml.pop_frames
    corejack.Yaml.keys_of corejack.Yaml.push_frame corejack.Yaml.skips corejack.Yaml.scalar_value
    corejack.Yaml.scalar_step corejack.Yaml.scan_scalar corejack.Yaml.yaml_path_scalar
    corejack.Yaml.list_item corejack.Yaml.key_match corejack.Yaml.list_step corejack.Yaml.scan_list
    corejack.Yaml.yaml_top_list corejack.Yaml.path_list_step corejack.Yaml.scan_path_list
    corejack.Yaml.yaml_path_list corejack.Text.strip_by corejack.Text.take_while
rtl = record { found = _; next_is_one = refl; reads = refl; has_core = refl }

next_core_type-unused_example : 0 < 1
next_core_type-unused_example =
    next_core_type-unused repo (codes "CoreC") 1 0 rtl.next_is_one rtl.reads rtl.has_core
