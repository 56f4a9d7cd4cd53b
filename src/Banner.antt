-- ===== src/Banner.antt =====
-- The UART banner descriptor in bin/validate_target.py: `check_uart_banner_descriptor` and
-- `resolve_uart_banner`.
pub mod Checked
use corejack.Prelude.{not, List, [], ◌∷◌, ◌++◌, if◌then◌else◌, is_nil}
use corejack.Text.{Text, codes, text_eq, contains, is_some}
use corejack.Failure.{
  Result, ok, check, or_fail, for_each, map_result, ◌>>=◌, ◌>>◌, missing_file, no_banner, no_alive,
  unsupported_fields, unsupported_value, bad_template,
}
use corejack.Host.{Host}
use corejack.Template
use corejack.Template.{field_names, unsupported, format}
use corejack.Yaml.{yaml_path_scalar, yaml_path_list}
use corejack.Descriptor.{at2}

abbrev pub uart_firmwares : List Text
uart_firmwares = codes "baremetal" ∷ codes "zephyr" ∷ []

abbrev pub uart_variants : List Text
uart_variants = codes "sim" ∷ codes "debug" ∷ codes "loader" ∷ []

abbrev pub banner_fields : List Text
banner_fields = codes "core" ∷ codes "board" ∷ codes "target" ∷ []

abbrev pub banner_file : Text
banner_file = codes "cfg/validation/uart_banners.yaml"

unfoldable pub banner_text : Host → Result Text
banner_text host = or_fail (host.file banner_file) (missing_file (codes "UART banner") banner_file)

abbrev pub alive_path : Text → Text → List Text
alive_path firmware variant = firmware ∷ codes "alive" ∷ variant ∷ []

-- The lines of a banner; there has to be one.
unfoldable pub banner_lines : Text → Text → Result (List Text)
banner_lines text firmware = do
  let banner = yaml_path_list text (at2 firmware (codes "banner"))
  check (not (is_nil banner)) (no_banner firmware)
  ok banner

unfoldable pub alive_line : Text → Text → Text → Result Text
alive_line text firmware variant =
    or_fail (yaml_path_scalar text (alive_path firmware variant)) (no_alive firmware variant)

-- The placeholders of one line are known ones.
unfoldable pub check_banner_line : Text → Text → Result (Unit {0})
check_banner_line firmware line = do
  pieces ← or_fail (Template.parse line) (bad_template line)
  let extra = unsupported banner_fields (field_names pieces)
  check (is_nil extra) (unsupported_fields (firmware ++ codes ".banner") extra)

-- `sim` is a variant of the bare-metal firmware only.
abbrev pub variants_of : Text → List Text
variants_of firmware =
    if text_eq firmware (codes "baremetal")
    then uart_variants
    else codes "debug" ∷ codes "loader" ∷ []

unfoldable pub check_firmware : Text → Text → Result (Unit {0})
check_firmware text firmware = do
  banner ← banner_lines text firmware
  for_each (check_banner_line firmware) banner
  for_each
      (λ variant.
        check (is_some (yaml_path_scalar text (alive_path firmware variant)))
          (no_alive firmware variant))
      (variants_of firmware)

unfoldable pub check_uart_banner_descriptor : Host → Result (Unit {0})
check_uart_banner_descriptor host = do
  text ← banner_text host
  for_each (check_firmware text) uart_firmwares

abbrev pub banner_arguments : Text → Text → Text → Template.Arguments
banner_arguments core board variant =
    (codes "core", core)
    ∷ (codes "board", board)
    ∷ (codes "target", if text_eq variant (codes "sim") then codes "sim" else codes "fpga")
    ∷ []

unfoldable pub resolve_uart_banner : Host → Text → Text → Text → Text → Result (List Text)
resolve_uart_banner host firmware variant core board = do
  check (contains uart_firmwares firmware) (unsupported_value (codes "firmware") firmware)
  check (contains uart_variants variant) (unsupported_value (codes "variant") variant)
  text ← banner_text host
  banner ← banner_lines text firmware
  alive ← alive_line text firmware variant
  map_result
      (λ line.
        or_fail (format host.format_field (banner_arguments core board variant) line)
          (bad_template line))
      (banner ++ alive ∷ [])
