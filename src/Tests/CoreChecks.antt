-- ===== src/Tests/CoreChecks.antt =====
-- The theorems on one core, on the banners and on single pairs, on the small repository.
use corejack.Prelude.{
  true, false, List, [], ◌∷◌, ◌++◌, none, some, ◌≡◌, ◌≢◌, ◌⊎◌, ◌↔◌, refl, is_nil,
}
use corejack.Text.{Text, codes, text_eq, contains}
use corejack.Failure.{ok, for_each}
use corejack.Host.{board_dir, descriptor_names, descriptor_path}
use corejack.Yaml.{yaml_path_scalar, yaml_top_list}
use corejack.Descriptor.{integration_status, is_compatible, excludes}
use corejack.CoreCheck.Meaning.{Meaning, core_check-Meaning}
use corejack.CoreCheck.Unique.{core_check-core_type_unique, core_check-boards}
use corejack.Banner.{banner_file, alive_path, check_banner_line, resolve_uart_banner}
use corejack.Banner.Checked.{formatted, resolve_uart_banner-checked}
use corejack.Target.{validate}
use corejack.Target.Flows.{Allows, is_compatible_iff, validate-quiet}
use corejack.Tests.Repo.{repo, core_yaml, board_yaml}
use corejack.Tests.Runs.{runs}

core_check-Meaning_example : Meaning repo (codes "c") runs.report
core_check-Meaning_example = core_check-Meaning repo (codes "c") runs.core_passes

core_check-core_type_unique_example : codes "c" ≡ codes "c"
core_check-core_type_unique_example =
    core_check-core_type_unique repo (codes "c") (codes "c") runs.core_passes runs.core_passes
      runs.core_known refl

core_check-boards_example :
    (contains (descriptor_names repo board_dir) (codes "b") ≡ true)
    × (text : Text) × (repo.file (descriptor_path board_dir (codes "b")) ≡ some text)
    × (excludes (yaml_top_list text (codes "compatible_cores")) (codes "c") ≡ false)
core_check-boards_example =
    core_check-boards repo (codes "c") (codes "b") runs.core_passes runs.names_board

resolve_uart_banner-checked_example :
    (text : Text) × (banner : List Text) × (alive : Text) × (repo.file banner_file ≡ some text)
    × (is_nil banner ≡ false)
    × (for_each (check_banner_line (codes "zephyr")) banner ≡ ok tt)
    × (yaml_path_scalar text (alive_path (codes "zephyr") (codes "loader")) ≡ some alive)
    × (resolve_uart_banner repo (codes "zephyr") (codes "loader") (codes "c") (codes "b")
        ≡ formatted repo (codes "loader") (codes "c") (codes "b") (banner ++ alive ∷ []))
unfolding text_eq
resolve_uart_banner-checked_example =
    resolve_uart_banner-checked repo (codes "zephyr") (codes "loader") (codes "c") (codes "b")
      runs.banner_passes refl refl

is_compatible_iff_example :
    (is_compatible (codes "c") (codes "b") core_yaml board_yaml (codes "debug") true ≡ none) ↔ (
      (integration_status core_yaml (codes "debug") ≢ codes "unsupported")
      × ((integration_status core_yaml (codes "debug") ≡ codes "supported") ⊎ (true ≡ true))
      × Allows (yaml_top_list core_yaml (codes "compatible_boards")) (codes "b")
      × Allows (yaml_top_list board_yaml (codes "compatible_cores")) (codes "c"))
is_compatible_iff_example =
    is_compatible_iff (codes "c") (codes "b") core_yaml board_yaml (codes "debug") true

validate-quiet_example :
    ((validate repo (codes "c") (codes "b") true true false (codes "fpga")).printed ≡ [])
    × ((validate repo (codes "c") (codes "b") true true false (codes "fpga")).result
        ≡ (validate repo (codes "c") (codes "b") false true false (codes "fpga")).result)
validate-quiet_example = validate-quiet repo (codes "c") (codes "b") (codes "fpga") true false
