-- ===== src/Descriptor.antt =====
-- The descriptor queries of bin/validate_target.py: `require_scalar`, the statuses and flags,
-- `is_compatible` and `load_descriptors`. `Config` has `target_config`.
pub mod Config
pub mod Total
pub mod Words
use corejack.Prelude.{
  ℕ, Bool, true, false, not, ◌&&◌, ◌||◌, List, [], ◌∷◌, ◌++◌, Option, none, some, if◌then◌else◌,
  is_nil, all,
}
use corejack.Text.{Text, codes, is_key_char, text_eq, contains, join, is_some}
use corejack.Failure.{
  Failure, Result, ok, err, check, or_fail, ◌>>=◌, ◌>>◌, missing_field, unsupported_integration,
  unsupported_characters, unsupported_fields, unknown_core, unknown_board, bad_integer,
  bad_template,
}
use corejack.Host.{Host, core_dir, board_dir, descriptor_names, descriptor_path}
use corejack.Number.{ℤ, int_literal, quarter, show_int}
use corejack.Template
use corejack.Template.{Piece, field_names, unsupported, format}
use corejack.Yaml.{yaml_path_scalar, yaml_top_list}

abbrev pub at1 : Text → List Text
at1 a = a ∷ []

abbrev pub at2 : Text → Text → List Text
at2 a b = a ∷ b ∷ []

unfoldable pub require_scalar : Text → List Text → Text → Result Text
require_scalar text path descriptor =
    or_fail (yaml_path_scalar text path) (missing_field path descriptor)

-- `value or default`
abbrev pub or_default : Option Text → Text → Text
or_default none d = d
or_default (some v) d = if is_nil v then d else v

unfoldable pub integration_status : Text → Text → Text
integration_status core_text flow =
    or_default (yaml_path_scalar core_text (at2 (codes "integration") flow)) (codes "supported")

unfoldable pub zephyr_status : Text → Text
zephyr_status core_text =
    or_default
      (yaml_path_scalar core_text (codes "software" ∷ codes "zephyr" ∷ codes "status" ∷ []))
      (codes "planned")

abbrev pub platform_integrations : List Text
platform_integrations = codes "socket_region" ∷ codes "native_axi" ∷ []

unfoldable pub platform_integration : Text → Result Text
platform_integration core_text = do
  integration ←
      require_scalar core_text (at2 (codes "platform") (codes "integration")) (codes "CORE")
  check (contains platform_integrations integration) (unsupported_integration integration)
  ok integration

unfoldable pub fusesoc_core_flags : Text → Result (List Text)
fusesoc_core_flags core_text = do
  core_flag ← require_scalar core_text (at2 (codes "fusesoc") (codes "core_flag")) (codes "CORE")
  integration ← platform_integration core_text
  ok (
      if text_eq integration (codes "socket_region")
      then core_flag ∷ codes "core_region" ∷ []
      else core_flag ∷ [])

-- `re.fullmatch(r"[A-Za-z0-9_]+", flag)`
abbrev pub is_word : Text → Bool
is_word s = not (is_nil s) && all is_key_char s

unfoldable pub fusesoc_board_flag : Text → Result Text
fusesoc_board_flag board_text = do
  flag ← require_scalar board_text (at2 (codes "fusesoc") (codes "board_flag")) (codes "BOARD")
  check (is_word flag) (unsupported_characters (codes "fusesoc.board_flag") flag)
  ok flag

abbrev pub core_and_board : Text → Text → Template.Arguments
core_and_board core board = (codes "core", core) ∷ (codes "board", board) ∷ []

-- The guard on the fields of a template, which raises on a malformed one.
unfoldable pub check_template : Text → Text → Result (Unit {0})
check_template what template = do
  pieces ← or_fail (Template.parse template) (bad_template template)
  let extra = unsupported (codes "core" ∷ codes "board" ∷ []) (field_names pieces)
  check (is_nil extra) (unsupported_fields what extra)

unfoldable pub load_descriptors : Host → Text → Text → Result (Text × Text)
load_descriptors host core board = do
  core_text ←
      or_fail (host.file (descriptor_path core_dir core))
        (unknown_core core (descriptor_names host core_dir))
  board_text ←
      or_fail (host.file (descriptor_path board_dir board))
        (unknown_board board (descriptor_names host board_dir))
  ok (core_text, board_text)

-- Why a core and a board do not go together.
pub data Reason : Type 0 where
  integration : Text → Text → Reason
  core_supports board_supports : List Text → Reason

-- `names and x not in names`
abbrev pub excludes : List Text → Text → Bool
excludes names x = not (is_nil names) && not (contains names x)

-- `None` is `(True, "")`, and a reason is `(False, reason)`.
unfoldable pub is_compatible : Text → Text → Text → Text → Text → Bool → Option Reason
is_compatible core board core_text board_text flow allow_planned =
    let status = integration_status core_text flow in
    let compatible_boards = yaml_top_list core_text (codes "compatible_boards") in
    let compatible_cores = yaml_top_list board_text (codes "compatible_cores") in
    if text_eq status (codes "unsupported")
    then some (integration flow status)
    else if not (text_eq status (codes "supported")) && not allow_planned
    then some (integration flow status)
    else if excludes compatible_boards board
    then some (core_supports compatible_boards)
    else if excludes compatible_cores core
    then some (board_supports compatible_cores)
    else none
