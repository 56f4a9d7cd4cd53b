-- ===== src/Scaffold/CoreType.antt =====
-- The core type that bin/create_core.py gives to a new core is one that `platform_core_type_values` of
-- bin/validate_target.py does not find.
use corejack.Prelude.{
  ℕ, ◌<◌, false, List, [], ◌∷◌, map, some, ◌≡◌, arith, Bool-cases, Option-cases, inl, inr,
}
use corejack.Text.{Text, codes, text_eq}
use corejack.Failure.{ok}
use corejack.Host.{Host}
use corejack.Rtl.{Member, members, core_type_body, enum_value, platform_core_type_values}
use corejack.Scaffold.{existing_core_type_values, next_value, next_core_type}

enum_value-below :
    (name : Text) (ms : List Member) (v : ℕ)
    → enum_value name ms ≡ some v
    → v < next_value (map (λ (m : Member). m.value) ms)
unfolding enum_value next_value
enum_value-below name [] v h = cc
enum_value-below name (m ∷ ms) v h = elim (Option-cases (enum_value name ms)) [
  | inl e ↦ elim (Bool-cases (text_eq m.name name)) [
    | inl same ↦ ground (arith, h, e)
    | inr other ↦ absurd (ground (arith, h, e))
  ]
  | inr (w, e) ↦ ground (arith, h, e, enum_value-below name ms w e)
]

-- The next core type is above the value of every member of the enumeration in the RTL.
pub next_core_type-unused :
    (host : Host) (name : Text) (n v : ℕ) {ms : List Member}
    → next_core_type host.file ≡ ok n
    → platform_core_type_values host ≡ ok ms
    → enum_value name ms ≡ some v
    → v < n
unfolding next_core_type existing_core_type_values platform_core_type_values
next_core_type-unused host name n v {ms} hn hm h =
    elim (Option-cases (host.file (codes "rtl/pkg/platform_pkg.sv"))) [
      | inl e ↦ absurd (ground (arith, hn, e))
      | inr (text, e) ↦ elim (Option-cases (core_type_body text)) [
        | inl bad ↦ absurd (ground (arith, hn, e, bad))
        | inr (body, eb) ↦
            let above : next_value (map (λ (m : Member). m.value) (members 0 false body)) ≡ n =
              ground (arith, hn, e, eb) in
            let same : members 0 false body ≡ ms = ground (arith, hm, e, eb) in
            rw (← above) (enum_value-below name (members 0 false body) v (rw same h))
      ]
    ]
