-- ===== src/Tests/VersionRuns.antt =====
-- A new version in a repository with two FuseSoC files.
use corejack.Prelude.{◌≡◌, refl, arith, false, List, [], ◌∷◌, map, none, some, if◌then◌else◌}
use corejack.Text
use corejack.Text.{Text, codes, text_eq}
use corejack.Failure.{ok}
use corejack.Splice.{behind_version}
use corejack.Edit.{Files}
use corejack.Versions.{versions, replace_versions}
use corejack.Versions.Agree.{replace_versions-versions}
use corejack.Versions.Bump.{detect_current_version, collect_files, bump_main}
use corejack.Versions.Bumped.{bump_main-agrees}

abbrev platform_text : Text
platform_text = codes "name: corejack:corejack:platform:0.4.2\n  - corejack:cores:ibex:0.4.2\n"

abbrev files : Files
files path =
    if text_eq (codes "corejack.core") path
    then some platform_text
    else if text_eq (codes "corejack_core_ibex.core") path
    then some (codes "name: corejack:cores:ibex:0.4.2.1\n")
    else none

abbrev core_files : List Text
core_files = codes "corejack.core" ∷ codes "corejack_core_ibex.core" ∷ codes "gone.core" ∷ []

abbrev after : Files
after = (bump_main core_files false (some (codes "1.10.0")) files).1

record Run : Type 0 where
  returns : (bump_main core_files false (some (codes "1.10.0")) files).0 ≡ ok 3
  number : behind_version (codes "1.10.0") ≡ some []
  written :
      after (codes "corejack_core_ibex.core") ≡ some (codes "name: corejack:cores:ibex:1.10.0.1\n")

run : Run
unfolding corejack.Edit.write corejack.Edit.for_each corejack.Edit.edit_file
    corejack.Edit.refuse_existing corejack.Edit.write_new corejack.Number.negate
    corejack.Number.quarter corejack.Number.digit_value corejack.Number.scan_digits
    corejack.Number.magnitude corejack.Number.int_literal corejack.Number.decimal_onto
    corejack.Number.decimal corejack.Number.show_int corejack.Number.parse_positive_int
    corejack.Number.parse_nonnegative_int corejack.Rtl.decimal_value corejack.Rtl.core_type_body
    corejack.Rtl.platform_core_type_values corejack.Rtl.enum_value corejack.Rtl.to_lower
    corejack.Rtl.to_upper corejack.Rtl.segments corejack.Rtl.capitalize
    corejack.Rtl.join_capitalized corejack.Rtl.expected_core_enum_name
    corejack.Rtl.without_underscores corejack.Rtl.is_bank_count corejack.Rtl.mem_num_banks
    corejack.Search.many_spaces corejack.Search.some_spaces corejack.Search.first_in_word
    corejack.Search.word_boundary corejack.Search.behind_breaks corejack.Search.at_line_end
    corejack.Search.defines_module corejack.Search.has_make_target
    corejack.Search.has_fusesoc_target corejack.Search.ends_with corejack.Search.make_target_exists
    corejack.Search.fusesoc_target_exists corejack.Search.spaces_then corejack.Search.first_at
    corejack.Search.first_behind_break corejack.Search.first_at_line_start
    corejack.Splice.replace_first corejack.Splice.replace_marker corejack.Splice.has_word
    corejack.Splice.digits_then corejack.Splice.behind_version corejack.Splice.find_platform_version
    corejack.Text.is_space corejack.Text.is_alnum corejack.Text.is_key_char corejack.Text.text_eq
    corejack.Text.texts_eq corejack.Text.strip_prefix corejack.Text.has_infix corejack.Text.ends_by
    corejack.Text.drop_last corejack.Text.inner corejack.Text.split_on corejack.Text.is_break
    corejack.Text.splitlines corejack.Text.join corejack.Versions.name_segments
    corejack.Versions.name_at corejack.Versions.versions corejack.Versions.replace_versions
    corejack.Versions.Bump.all_versions corejack.Versions.Bump.detect_current_version
    corejack.Versions.Bump.collect_files corejack.Versions.Bump.rewrite_file
    corejack.Versions.Bump.rewrite_all corejack.Versions.Bump.is_semver
    corejack.Versions.Bump.bump_to corejack.Versions.Bump.bump_main corejack.Text.strip_by
    corejack.Text.take_while
run = record { returns = refl; number = refl; written = refl }

bump_main-agrees_example :
    detect_current_version after (collect_files files core_files) ≡ ok (codes "1.10.0")
bump_main-agrees_example =
    bump_main-agrees (codes "1.10.0") core_files files {n = 3} {after = after} run.number
      (ground (arith, run.returns))

replace_versions-versions_example :
    versions 0 (replace_versions (codes "1.10.0") 0 platform_text)
    ≡ map (λ _. codes "1.10.0") (versions 0 platform_text)
replace_versions-versions_example =
    replace_versions-versions (codes "1.10.0") 0 platform_text run.number
