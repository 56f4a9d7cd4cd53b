-- ===== src/Scaffold/Readback.antt =====
-- The descriptor that bin/create_core.py writes, as bin/validate_target.py reads it.
use corejack.Prelude.{
  true, List, [], ◌∷◌, ◌++◌, some, ◌≡◌, refl, sym, ap, ◌∙◌, arith, All, subst, Option,
}
use corejack.Text.{Text, codes, text_eq, strip_by, strip_prefix, lstrip_by, rstrip_by}
use corejack.Text.Lines.{OneLine, splitlines-unlines}
use corejack.Number.{show_int}
use corejack.Yaml.{Frame, skips, scalar_step, scan_scalar, yaml_path_scalar, next, Round, return}
use corejack.Yaml.Render.{Doc, end, scalar, items, section, render, IsClean}
use corejack.Yaml.Lookup.{lookup}
use corejack.Yaml.RoundTrip.{or_missing, yaml_path_scalar-render}
use corejack.Scaffold.Request.{Core}
use corejack.Scaffold.Texts.{adapter_name, core_lines, core_descriptor}
use corejack.Descriptor.{require_scalar, platform_integration, fusesoc_core_flags, zephyr_status}
use corejack.Failure.{ok}
use corejack.Host.{Host}
use corejack.Descriptor.Config.{core_config}

-- The lines that are not empty.
abbrev solid : List Text → List Text
solid [] = []
solid ([] ∷ lines) = solid lines
solid ((c ∷ s) ∷ lines) = (c ∷ s) ∷ solid lines

solid-OneLine : (lines : List Text) → All OneLine lines → All OneLine (solid lines)
solid-OneLine [] h = tt
solid-OneLine ([] ∷ lines) (h, hs) = solid-OneLine lines hs
solid-OneLine ((c ∷ s) ∷ lines) (h, hs) = (h, solid-OneLine lines hs)

skips-empty : skips [] ≡ true
unfolding skips strip_by lstrip_by rstrip_by strip_prefix
skips-empty = refl

scan-empty :
    (path : List Text) (stack : List Frame) (lines : List Text)
    → scan_scalar path stack ([] ∷ lines) ≡ scan_scalar path stack lines
unfolding scan_scalar scalar_step
scan-empty path stack lines = ground (arith, skips-empty)

after-step :
    (path : List Text) (lines others : List Text) (r : Round (List Frame) (Option Text))
    → ((stack : List Frame) → scan_scalar path stack lines ≡ scan_scalar path stack others)
    → elim r [ next stack ↦ scan_scalar path stack lines | return found ↦ found ]
      ≡ elim r [ next stack ↦ scan_scalar path stack others | return found ↦ found ]
after-step path lines others (next stack) h = h stack
after-step path lines others (return found) h = refl

-- Empty lines do not matter.
scan-solid :
    (path : List Text) (stack : List Frame) (lines : List Text)
    → scan_scalar path stack (solid lines) ≡ scan_scalar path stack lines
unfolding scan_scalar
scan-solid path stack [] = refl
scan-solid path stack ([] ∷ lines) = scan-solid path stack lines ∙ sym (scan-empty path stack lines)
scan-solid path stack ((c ∷ s) ∷ lines) =
    after-step path (solid lines) lines (scalar_step path stack (c ∷ s))
      λ stack'. scan-solid path stack' lines

-- The descriptor as a tree.
abbrev pub core_doc : Core → Doc
core_doc a = scalar (codes "name") a.core (
    scalar (codes "display_name") a.display_name (
      section (codes "integration")
        (scalar (codes "sim") (codes "planned")
          (scalar (codes "fpga") (codes "planned") (scalar (codes "debug") (codes "planned") end)))
        (section (codes "adapter")
          (scalar (codes "module") (adapter_name a)
            (scalar (codes "file") (codes "rtl/cores/" ++ (adapter_name a ++ codes ".sv")) end))
          (section (codes "platform")
            (scalar (codes "core_type") (show_int a.core_type)
              (scalar (codes "integration") a.platform_integration end))
            (section (codes "wrapper") (scalar (codes "module") (a.core ++ codes "_wrapper") end) (
              section (codes "fusesoc")
                (scalar (codes "sim_target") (codes "sw-sim")
                  (scalar (codes "core_flag") (codes "core_" ++ a.core) end))
                (section (codes "isa")
                  (scalar (codes "xlen") (show_int a.xlen)
                    (scalar (codes "march") a.march (scalar (codes "mabi") a.mabi end)))
                  (section (codes "reset")
                    (scalar (codes "boot_addr") (codes "0x80000000")
                      (scalar (codes "mtvec_addr") (codes "0x80000000") end))
                    (section (codes "debug") (scalar (codes "supported") (codes "false") end) (
                      section (codes "buses")
                        (scalar (codes "instruction") a.instruction_bus
                          (scalar (codes "data") a.data_bus end))
                        (section (codes "clocking")
                          (scalar (codes "validated_min_hz") (codes "0")
                            (scalar (codes "validated_max_hz") (codes "0") end))
                          (section (codes "software")
                            (scalar (codes "default_target") (codes "sim") (
                              scalar (codes "toolchain") (codes "riscv-multilib") (
                                section (codes "zephyr")
                                  (scalar (codes "status") (codes "planned") end) end)))
                            (items (codes "compatible_boards") (a.board ∷ []) end)))))))))))))

solid-core_lines : (a : Core) → solid (core_lines a) ≡ render 0 (core_doc a)
unfolding core_lines
solid-core_lines a = refl

-- Every value of the descriptor of a new core is read back: `yaml_path_scalar` finds in its text what the
-- tree of its sections holds at the path. The values are plain and none of them holds a line break.
pub core_descriptor-lookup :
    (a : Core) (j : Text) (js : List Text)
    → IsClean (core_doc a)
    → All OneLine (core_lines a)
    → yaml_path_scalar (core_descriptor a) (j ∷ js) ≡ or_missing (lookup (j ∷ js) (core_doc a))
unfolding core_descriptor yaml_path_scalar
core_descriptor-lookup a j js clean lines =
    let doc = render 0 (core_doc a) in
    let one : All OneLine doc =
      subst (All OneLine) (solid-core_lines a) (solid-OneLine (core_lines a) lines) in
    ap (scan_scalar (j ∷ js) []) (splitlines-unlines (core_lines a) lines)
    ∙ sym (scan-solid (j ∷ js) [] (core_lines a))
    ∙ ap (scan_scalar (j ∷ js) []) (solid-core_lines a ∙ sym (splitlines-unlines doc one))
    ∙ yaml_path_scalar-render (core_doc a) j js clean one

module _ (a : Core) (clean : IsClean (core_doc a)) (lines : All OneLine (core_lines a)) where
  reads :
      (j : Text) (js : List Text) {v : Text}
      → or_missing (lookup (j ∷ js) (core_doc a)) ≡ some v
      → yaml_path_scalar (core_descriptor a) (j ∷ js) ≡ some v
  reads j js e = core_descriptor-lookup a j js clean lines ∙ e

  reads-march :
      yaml_path_scalar (core_descriptor a) (codes "isa" ∷ codes "march" ∷ []) ≡ some (a.march)
  reads-march = reads (codes "isa") (codes "march" ∷ []) (unfold text_eq in refl)

  reads-mabi :
      yaml_path_scalar (core_descriptor a) (codes "isa" ∷ codes "mabi" ∷ []) ≡ some (a.mabi)
  reads-mabi = reads (codes "isa") (codes "mabi" ∷ []) (unfold text_eq in refl)

  reads-toolchain :
      yaml_path_scalar (core_descriptor a) (codes "software" ∷ codes "toolchain" ∷ [])
      ≡ some (codes "riscv-multilib")
  reads-toolchain = reads (codes "software") (codes "toolchain" ∷ []) (unfold text_eq in refl)

  reads-core_type :
      yaml_path_scalar (core_descriptor a) (codes "platform" ∷ codes "core_type" ∷ [])
      ≡ some (show_int a.core_type)
  reads-core_type = reads (codes "platform") (codes "core_type" ∷ []) (unfold text_eq in refl)

  reads-integration :
      yaml_path_scalar (core_descriptor a) (codes "platform" ∷ codes "integration" ∷ [])
      ≡ some (a.platform_integration)
  reads-integration = reads (codes "platform") (codes "integration" ∷ []) (unfold text_eq in refl)

  reads-sim_target :
      yaml_path_scalar (core_descriptor a) (codes "fusesoc" ∷ codes "sim_target" ∷ [])
      ≡ some (codes "sw-sim")
  reads-sim_target = reads (codes "fusesoc") (codes "sim_target" ∷ []) (unfold text_eq in refl)

  reads-core_flag :
      yaml_path_scalar (core_descriptor a) (codes "fusesoc" ∷ codes "core_flag" ∷ [])
      ≡ some (codes "core_" ++ a.core)
  reads-core_flag = reads (codes "fusesoc") (codes "core_flag" ∷ []) (unfold text_eq in refl)

  reads-zephyr :
      yaml_path_scalar (core_descriptor a) (codes "software" ∷ codes "zephyr" ∷ codes "status" ∷ [])
      ≡ some (codes "planned")
  reads-zephyr =
      reads (codes "software") (codes "zephyr" ∷ codes "status" ∷ []) (unfold text_eq in refl)

  new_core-integration :
      a.platform_integration ≡ codes "socket_region"
      → platform_integration (core_descriptor a) ≡ ok (codes "socket_region")
  unfolding platform_integration require_scalar
  new_core-integration socket = rw (reads-integration, socket) (unfold text_eq in refl)

  new_core-flags :
      a.platform_integration ≡ codes "socket_region"
      → fusesoc_core_flags (core_descriptor a)
        ≡ ok ((codes "core_" ++ a.core) ∷ codes "core_region" ∷ [])
  unfolding fusesoc_core_flags require_scalar
  new_core-flags socket = rw (reads-core_flag, new_core-integration socket) (unfold text_eq in refl)

  new_core-zephyr : zephyr_status (core_descriptor a) ≡ codes "planned"
  unfolding zephyr_status
  new_core-zephyr = rw reads-zephyr refl

  -- The descriptor of a new core of the socket region gives the configuration of the request to
  -- `target_config`: its ISA and ABI, its core type, the simulation target `sw-sim`, and the flags of the
  -- core and of the core region.
  pub core_descriptor-config :
      (host : Host) (board : Text)
      → a.platform_integration ≡ codes "socket_region"
      → core_config host a.core board (core_descriptor a)
        ≡ ok (record {
          march = a.march;
          mabi = a.mabi;
          toolchain = codes "riscv-multilib";
          zephyr = codes "planned";
          core_type = show_int a.core_type;
          integration = codes "socket_region";
          sim_target = codes "sw-sim";
          core_flag = codes "core_" ++ a.core;
          core_flags = (codes "core_" ++ a.core) ∷ codes "core_region" ∷ [];
        })
  unfolding core_config require_scalar
  core_descriptor-config host board socket =
      rw
        (
          reads-march,
          reads-mabi,
          reads-toolchain,
          reads-core_type,
          new_core-integration socket,
          reads-sim_target,
          reads-core_flag,
          new_core-flags socket,
          new_core-zephyr,
        )
        refl
