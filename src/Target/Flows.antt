-- ===== src/Target/Flows.antt =====
-- Which pairs go together, and what `--quiet` changes.
use corejack.Prelude.{
  Bool, true, false, List, [], none, ◌≡◌, ◌⊎◌, ◌↔◌, inl, inr, refl, arith, is_nil, ◌≢◌,
}
use corejack.Text.{Text, codes, contains}
use corejack.Text.Laws.{text_eq_iff}
use corejack.Failure.{Result-cases}
use corejack.Host.{Host}
use corejack.Yaml.{yaml_top_list}
use corejack.Descriptor.{integration_status, load_descriptors, is_compatible, excludes}
use corejack.Descriptor.Config.{target_config}
use corejack.Target.{validate, validate_output, require_compatible}

-- An empty list allows every name, another one its members.
abbrev pub Allows : List Text → Text → Type 0
Allows names x = (is_nil names ≡ true) ⊎ (contains names x ≡ true)

excludes-Allows : (names : List Text) (x : Text) → (excludes names x ≡ false) ↔ Allows names x
excludes-Allows names x = ground arith

-- A core and a board go together for a flow just when the flow of the core is supported, or planned or
-- otherwise known to the descriptor and planned flows are asked for, but never `unsupported`, and each
-- of the two lists allows the other side.
pub is_compatible_iff :
    (core board core_text board_text flow : Text) (allow_planned : Bool)
    → (is_compatible core board core_text board_text flow allow_planned ≡ none) ↔ (
        (integration_status core_text flow ≢ codes "unsupported")
        × ((integration_status core_text flow ≡ codes "supported") ⊎ (allow_planned ≡ true))
        × Allows (yaml_top_list core_text (codes "compatible_boards")) board
        × Allows (yaml_top_list board_text (codes "compatible_cores")) core)
unfolding is_compatible
is_compatible_iff core board core_text board_text flow allow_planned =
    let status = integration_status core_text flow in
    let boards = excludes-Allows (yaml_top_list core_text (codes "compatible_boards")) board in
    let cores = excludes-Allows (yaml_top_list board_text (codes "compatible_cores")) core in
    let is_unsupported = text_eq_iff status (codes "unsupported") in
    let is_supported = text_eq_iff status (codes "supported") in
    ground (arith, boards, cores, is_unsupported, is_supported)

-- A quiet run prints nothing, and it ends as the run that prints does, in both of its formats.
pub validate-quiet :
    (host : Host) (core board flow : Text) (make allow_planned : Bool)
    → ((validate host core board true make allow_planned flow).printed ≡ [])
      × ((validate host core board true make allow_planned flow).result
          ≡ (validate host core board false make allow_planned flow).result)
unfolding validate validate_output
validate-quiet host core board flow make allow_planned =
    elim (Result-cases (load_descriptors host core board)) [
      | inl (e, h) ↦ (rw h refl, rw h refl)
      | inr (texts, h) ↦
          let compatible = is_compatible core board texts.0 texts.1 flow allow_planned in
          elim (Result-cases (require_compatible core board compatible)) [
            | inl (e, hc) ↦ (rw (h, hc) refl, rw (h, hc) refl)
            | inr (_, hc) ↦ elim (Result-cases (target_config host core board texts.0 texts.1)) [
              | inl (e, ht) ↦ (rw (h, hc, ht) refl, rw (h, hc, ht) refl)
              | inr (config, ht) ↦ (rw (h, hc, ht) refl, rw (h, hc, ht) refl)
            ]
          ]
    ]
