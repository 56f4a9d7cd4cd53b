-- ===== src/Banner/Checked.antt =====
-- What a checked banner file gives to `resolve_uart_banner`.
use corejack.Prelude.{
  true, false, List, [], ◌∷◌, ◌++◌, some, ◌≡◌, refl, arith, inl, inr, is_nil, Option-cases,
  Bool-cases,
}
use corejack.Text.{Text, codes, text_eq, contains, is_some}
use corejack.Failure.{Result, ok, check, or_fail, for_each, map_result, no_alive, bad_template}
use corejack.Host.{Host}
use corejack.Template.{format}
use corejack.Yaml.{yaml_path_scalar, yaml_path_list}
use corejack.Descriptor.{at2}
use corejack.Members.{for_each-contains}
use corejack.Banner.{
  uart_firmwares, uart_variants, banner_file, banner_text, banner_lines, alive_path, alive_line,
  variants_of, check_banner_line, check_firmware, check_uart_banner_descriptor, banner_arguments,
  resolve_uart_banner,
}

-- The lines of a banner for a pair, in their order, with the line that says that it is alive at the end.
abbrev pub formatted : Host → Text → Text → Text → List Text → Result (List Text)
formatted host variant core board lines =
    map_result
      (λ line.
        or_fail (format host.format_field (banner_arguments core board variant) line)
          (bad_template line))
      lines

variants_of-known :
    (firmware variant : Text)
    → contains (variants_of firmware) variant ≡ true
    → contains uart_variants variant ≡ true
variants_of-known firmware variant m = elim (Bool-cases (text_eq firmware (codes "baremetal"))) [
  | inl bare ↦ ground (arith)
  | inr other ↦ ground (arith)
]

check_firmware-alive :
    (text firmware variant : Text)
    → check_firmware text firmware ≡ ok tt
    → contains (variants_of firmware) variant ≡ true
    → (banner : List Text) × (alive : Text) × (banner_lines text firmware ≡ ok banner)
      × (is_nil banner ≡ false)
      × (for_each (check_banner_line firmware) banner ≡ ok tt)
      × (yaml_path_scalar text (alive_path firmware variant) ≡ some alive)
unfolding check_firmware banner_lines
check_firmware-alive text firmware variant h m =
    let banner = yaml_path_list text (at2 firmware (codes "banner")) in
    let variants_checked =
      for_each
        (λ v. check (is_some (yaml_path_scalar text (alive_path firmware v))) (no_alive firmware v))
        (variants_of firmware) in
    let loop : variants_checked ≡ ok tt = ground (arith, h) in
    let one =
      for_each-contains
        (λ v. check (is_some (yaml_path_scalar text (alive_path firmware v))) (no_alive firmware v))
        (variants_of firmware) variant loop m in
    elim (Option-cases (yaml_path_scalar text (alive_path firmware variant))) [
      | inl bad ↦ absurd (ground (arith, one))
      | inr (alive, e) ↦ (banner, alive, ground (arith, h), ground (arith, h), ground (arith, h), e)
    ]

-- When the banner file passes its check, a firmware and a variant that it covers have at least one
-- banner line, and resolving them fails at most in the formatting of a line.
pub resolve_uart_banner-checked :
    (host : Host) (firmware variant core board : Text)
    → check_uart_banner_descriptor host ≡ ok tt
    → contains uart_firmwares firmware ≡ true
    → contains (variants_of firmware) variant ≡ true
    → (text : Text) × (banner : List Text) × (alive : Text) × (host.file banner_file ≡ some text)
      × (is_nil banner ≡ false)
      × (for_each (check_banner_line firmware) banner ≡ ok tt)
      × (yaml_path_scalar text (alive_path firmware variant) ≡ some alive)
      × (resolve_uart_banner host firmware variant core board
          ≡ formatted host variant core board (banner ++ alive ∷ []))
unfolding check_uart_banner_descriptor banner_text resolve_uart_banner alive_line
resolve_uart_banner-checked host firmware variant core board h mf mv =
    elim (Option-cases (host.file banner_file)) [
      | inl bad ↦ absurd (ground arith)
      | inr (text, et) ↦
          let loop : for_each (check_firmware text) uart_firmwares ≡ ok tt = ground arith in
          let one = for_each-contains (check_firmware text) uart_firmwares firmware loop mf in
          let (banner, alive, eb, nonempty, lines, ea) =
            check_firmware-alive text firmware variant one mv in
          (
            text,
            banner,
            alive,
            et,
            nonempty,
            lines,
            ea,
            rw (mf, variants_of-known firmware variant mv, et, eb, ea) refl,
          )
    ]
