-- ===== src/CoreCheck/Meaning.antt =====
-- What the numbers and names of a checked core descriptor mean for the RTL and the toolchain.
use corejack.Prelude.{
  ℕ, ◌%◌, ◌≤◌, true, List, ◌++◌, some, ◌≡◌, ◌⊎◌, inl, inr, arith, All, ◌==◌, Bool-cases,
}
use mathlib.Core.Path.{subst}
use corejack.Text.{Text, codes, text_eq, starts_with}
use corejack.Text.Laws.{text_eq_iff, text_eq_refl}
use corejack.Failure.{ok, Result-cases}
use corejack.Host.{Host}
use corejack.Number.{decimal, decimal_onto}
use corejack.Rtl.{Member, platform_core_type_values, enum_value, expected_core_enum_name}
use corejack.CoreCheck.{Platform, Settings, core_platform}
use corejack.CoreCheck.Rules.{CoreReport, core_check, setting_rules, core_debug}
use corejack.CoreCheck.Sound.{Holds, core_check-Passed}

-- The width, the instruction set and the ABI agree.
abbrev pub IsaOf : ℕ → Text → Text → Settings → Type 0
IsaOf width isa abi s =
    (s.xlen ≡ width) × (starts_with isa s.march ≡ true) × (starts_with abi s.mabi ≡ true)

pub record Meaning (host : Host) (core : Text) (r : CoreReport) : Type 0 where
  pub isa :
      IsaOf 32 (codes "rv32") (codes "ilp32") r.settings
      ⊎ IsaOf 64 (codes "rv64") (codes "lp64") r.settings
  pub boot_aligned : r.settings.boot_addr % 4 ≡ 0
  pub mtvec_aligned : r.settings.mtvec_addr % 4 ≡ 0
  pub clock :
      (r.settings.validated_max_hz ≡ 0)
      ⊎ (r.settings.validated_min_hz ≤ r.settings.validated_max_hz)
  pub native_buses :
      r.platform.integration ≡ codes "native_axi"
      → (r.settings.instruction_bus ≡ codes "axi") × (r.settings.data_bus ≡ codes "axi")
  pub enum_member :
      (members : List Member) × (platform_core_type_values host ≡ ok members)
      × (enum_value (expected_core_enum_name core) members ≡ some r.platform.core_type)
  pub debug_status : (r.identity.debug ≡ codes "supported" → r.debug_supported ≡ codes "true")

rules-IsaOf :
    (integration : Text) (s : Settings)
    → All Holds (setting_rules integration s)
    → IsaOf 32 (codes "rv32") (codes "ilp32") s ⊎ IsaOf 64 (codes "rv64") (codes "lp64") s
unfolding setting_rules decimal decimal_onto
rules-IsaOf integration s (width, (march, (m32, (m64, _)))) = elim (Bool-cases (s.xlen == 32)) [
  | inl narrow ↦
      let e : s.xlen ≡ 32 = ground arith in
      inl
        (e, subst (λ n. starts_with (codes "rv" ++ decimal n) s.march ≡ true) e march, ground arith)
  | inr wide ↦
      let e : s.xlen ≡ 64 = ground arith in
      inr
        (e, subst (λ n. starts_with (codes "rv" ++ decimal n) s.march ≡ true) e march, ground arith)
]

rules-buses :
    (integration : Text) (s : Settings)
    → All Holds (setting_rules integration s)
    → integration ≡ codes "native_axi"
    → (s.instruction_bus ≡ codes "axi") × (s.data_bus ≡ codes "axi")
unfolding setting_rules
rules-buses integration s (_, (_, (_, (_, (_, (_, (_, (_, (_, (_, (_, (_, (_, (h, _))))))))))))))
      e =
    let (i, d) : (text_eq s.instruction_bus (codes "axi") ≡ true)
        × (text_eq s.data_bus (codes "axi") ≡ true) =
      ground (arith, text_eq_refl (codes "native_axi")) in
    ((text_eq_iff s.instruction_bus (codes "axi")).0 i, (text_eq_iff s.data_bus (codes "axi")).0 d)

core_platform-enum :
    (host : Host) (core text : Text) {p : Platform}
    → core_platform host core text ≡ ok p
    → (members : List Member) × (platform_core_type_values host ≡ ok members)
      × (enum_value (expected_core_enum_name core) members ≡ some p.core_type)
unfolding core_platform
core_platform-enum host core text h = elim (Result-cases (platform_core_type_values host)) [
  | inl (e, bad) ↦ absurd (ground arith)
  | inr (members, em) ↦ (members, em, ground arith)
]

-- A core that passes its check is a 32-bit or a 64-bit core with the instruction set and the ABI of that
-- width, its entry points are word-aligned, its clock range is not empty if it has an end, a core with its own AXI ports
-- has AXI buses, its type is that of its member of the RTL enumeration, and it supports debugging if it
-- says so.
pub core_check-Meaning :
    (host : Host) (core : Text) {r : CoreReport} → core_check host core ≡ ok r → Meaning host core r
unfolding setting_rules core_debug
core_check-Meaning host core {r} h =
    let p = core_check-Passed host core h in
    record {
      isa = rules-IsaOf r.platform.integration r.settings p.rules;
      boot_aligned = ground (arith, p.rules);
      mtvec_aligned = ground (arith, p.rules);
      clock = ground (arith, p.rules);
      native_buses = rules-buses r.platform.integration r.settings p.rules;
      enum_member = core_platform-enum host core r.identity.text p.platform;
      debug_status = λ e.
          (text_eq_iff r.debug_supported (codes "true")).0
            (ground (arith, p.debug, e, text_eq_refl (codes "supported")));
    }
