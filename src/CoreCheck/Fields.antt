-- ===== src/CoreCheck/Fields.antt =====
-- What the stages of a passed `core_check` have read, as `target_config` reads it again.
use corejack.Prelude.{true, List, [], ◌∷◌, some, ◌≡◌, arith, if◌then◌else◌}
use corejack.Text.{Text, codes, contains, text_eq}
use corejack.Failure.{ok, >>=-eq-ok}
use corejack.Host.{Host, core_dir, descriptor_path}
use corejack.Yaml.{yaml_top_list}
use corejack.Descriptor.{
  at2, require_scalar, zephyr_status, platform_integration, platform_integrations,
  fusesoc_core_flags,
}
use corejack.Descriptor.Config.{CoreConfig, core_config, core_label}
use corejack.CoreCheck.{Identity, Platform, Settings, core_identity, core_platform, core_settings}
use corejack.CoreCheck.Rules.{CoreReport, setting_rules}
use corejack.CoreCheck.Sound.{Passed}

module _ (host : Host) (core : Text) {i : Identity} (h : core_identity host core ≡ ok i) where
  pub file-core_identity : host.file (descriptor_path core_dir core) ≡ some i.text
  unfolding core_identity
  file-core_identity = ground arith

module _ (core text : Text) {s : Settings} (h : core_settings core text ≡ ok s) where
  pub march-core_settings :
      require_scalar text (at2 (codes "isa") (codes "march")) (core_label core) ≡ ok s.march
  unfolding core_settings
  march-core_settings = ground arith

  pub mabi-core_settings :
      require_scalar text (at2 (codes "isa") (codes "mabi")) (core_label core) ≡ ok s.mabi
  unfolding core_settings
  mabi-core_settings = ground arith

  toolchain-core_settings :
      require_scalar text (at2 (codes "software") (codes "toolchain")) (core_label core)
      ≡ ok s.toolchain
  unfolding core_settings
  toolchain-core_settings = ground arith

  sim_target-core_settings :
      require_scalar text (at2 (codes "fusesoc") (codes "sim_target")) (core_label core)
      ≡ ok s.sim_target
  unfolding core_settings
  sim_target-core_settings = ground arith

  core_flag-core_settings :
      require_scalar text (at2 (codes "fusesoc") (codes "core_flag")) (core_label core)
      ≡ ok s.core_flag
  unfolding core_settings
  core_flag-core_settings = ground arith

  pub compatible_boards-core_settings :
      s.compatible_boards ≡ yaml_top_list text (codes "compatible_boards")
  unfolding core_settings
  compatible_boards-core_settings = ground arith

module _ (host : Host) (core text : Text) {p : Platform}
    (h : core_platform host core text ≡ ok p) where
  integration-core_platform :
      require_scalar text (at2 (codes "platform") (codes "integration")) (core_label core)
      ≡ ok p.integration
  unfolding core_platform
  integration-core_platform = ground arith

  core_type-core_platform :
      (v : Text) × (require_scalar text
          (at2 (codes "platform") (codes "core_type"))
          (core_label core)
        ≡ ok v)
  unfolding core_platform
  core_type-core_platform =
      let (v, e, _) =
        >>=-eq-ok
          (require_scalar text (at2 (codes "platform") (codes "core_type")) (core_label core)) _
          h in
      (v, e)

-- The name of the descriptor in a message does not change what is read.
require_scalar-label :
    (text : Text) (path : List Text) (d d' : Text) {v : Text}
    → require_scalar text path d ≡ ok v
    → require_scalar text path d' ≡ ok v
unfolding require_scalar
require_scalar-label text path d d' h = ground arith

platform_integration-known :
    (core text integration : Text)
    → require_scalar text (at2 (codes "platform") (codes "integration")) (core_label core)
      ≡ ok integration
    → contains platform_integrations integration ≡ true
    → platform_integration text ≡ ok integration
unfolding platform_integration
platform_integration-known core text integration e k =
    rw (require_scalar-label text _ (core_label core) (codes "CORE") e) (rw k)

abbrev flags_of : Text → Text → List Text
flags_of flag integration =
    if text_eq integration (codes "socket_region")
    then flag ∷ codes "core_region" ∷ []
    else flag ∷ []

core_flags-known :
    (core text integration flag : Text)
    → require_scalar text (at2 (codes "fusesoc") (codes "core_flag")) (core_label core) ≡ ok flag
    → platform_integration text ≡ ok integration
    → (flags : List Text) × (fusesoc_core_flags text ≡ ok flags)
unfolding fusesoc_core_flags
core_flags-known core text integration flag e k = (
  flags_of flag integration,
  rw (require_scalar-label text _ (core_label core) (codes "CORE") e) (rw k),
)

-- The reading of a core that passes its check cannot fail in `target_config`.
pub core_config-Passed :
    (host : Host) (core board : Text) {r : CoreReport}
    → Passed host core r
    → (c : CoreConfig) × (core_config host core board r.identity.text ≡ ok c)
unfolding core_config setting_rules
core_config-Passed host core board {r} h =
    let text = r.identity.text in
    let (type_text, et) = core_type-core_platform host core text h.platform in
    let ei =
      platform_integration-known core text r.platform.integration
        (integration-core_platform host core text h.platform) (h.rules.1.1.1.1.1.1.1.1.1.1.1.1.0) in
    let ef = core_flag-core_settings core text h.settings in
    let (flags, efs) =
      core_flags-known core text r.platform.integration r.settings.core_flag ef ei in
    (
      record {
        march = r.settings.march;
        mabi = r.settings.mabi;
        toolchain = r.settings.toolchain;
        zephyr = zephyr_status text;
        core_type = type_text;
        integration = r.platform.integration;
        sim_target = r.settings.sim_target;
        core_flag = r.settings.core_flag;
        core_flags = flags;
      },
      rw (
        march-core_settings core text h.settings,
        mabi-core_settings core text h.settings,
        toolchain-core_settings core text h.settings,
        et,
        ei,
        sim_target-core_settings core text h.settings,
        ef,
        efs,
      ),
    )

-- The FuseSoC flags of a checked core are defined.
pub fusesoc_core_flags-Passed :
    (host : Host) (core : Text) {r : CoreReport}
    → Passed host core r
    → (flags : List Text) × (fusesoc_core_flags r.identity.text ≡ ok flags)
unfolding setting_rules
fusesoc_core_flags-Passed host core {r} h =
    core_flags-known core r.identity.text r.platform.integration r.settings.core_flag
      (core_flag-core_settings core r.identity.text h.settings)
      (platform_integration-known core r.identity.text r.platform.integration
        (integration-core_platform host core r.identity.text h.platform)
        (h.rules.1.1.1.1.1.1.1.1.1.1.1.1.0))
