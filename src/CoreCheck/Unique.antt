-- ===== src/CoreCheck/Unique.antt =====
-- The core types of the descriptors under cfg/cores, and the boards that a core names.
use corejack.Prelude.{
  ℕ, true, false, List, [], ◌∷◌, Option, none, some, ◌≡◌, arith, inl, inr, is_nil, Bool-cases, ◌++◌,
  sym, ◌∙◌,
}
use corejack.Text.{Text, codes, text_eq, contains}
use corejack.Text.Laws.{text_eq_iff}
use corejack.Failure.{ok, file_not_found, or_fail, >>=-eq-ok, Result-cases, for_each}
use corejack.Host.{Host, core_dir, board_dir, descriptor_names, descriptor_path}
use corejack.Number.{parse_nonnegative_int}
use corejack.Template.{unsupported}
use corejack.Yaml.{yaml_path_scalar, yaml_top_list}
use corejack.Descriptor.{at2, require_scalar, excludes}
use corejack.Members.{for_each-contains, unsupported-nil}
use corejack.CoreCheck.{
  Platform, core_platform, core_type_usage, declared_type, add_usage, duplicates,
}
use corejack.CoreCheck.Rules.{CoreReport, core_check, core_boards, names_core}
use corejack.CoreCheck.Sound.{core_check-Passed}
use corejack.CoreCheck.Fields.{file-core_identity}

abbrev type_path : List Text
type_path = at2 (codes "platform") (codes "core_type")

-- A core with a type, as `core_type_usage` reads it.
record Typed (host : Host) (core : Text) (t : ℕ) : Type 0 where
  text : Text
  value : Text
  file : host.file (descriptor_path core_dir core) ≡ some text
  scalar : yaml_path_scalar text type_path ≡ some value
  number : (field : Text) → parse_nonnegative_int value field ≡ ok t

parse_nonnegative_int-field :
    (value field field' : Text) {t : ℕ}
    → parse_nonnegative_int value field ≡ ok t
    → parse_nonnegative_int value field' ≡ ok t
unfolding parse_nonnegative_int
parse_nonnegative_int-field value field field' h = ground arith

core_platform-Typed :
    (host : Host) (core : Text) {r : CoreReport}
    → core_check host core ≡ ok r
    → Typed host core r.platform.core_type
unfolding core_platform require_scalar
core_platform-Typed host core {r} h =
    let p = core_check-Passed host core h in
    let file = file-core_identity host core p.identity in
    let (value, ev, h1) =
      >>=-eq-ok (or_fail (yaml_path_scalar r.identity.text type_path) _) _ p.platform in
    let (t, et, h2) = >>=-eq-ok (parse_nonnegative_int value _) _ h1 in
    record {
      text = r.identity.text;
      value = value;
      file = file;
      scalar = ground arith;
      number = λ field.
          parse_nonnegative_int-field value (codes "platform.core_type") field (ground arith);
    }

-- One more name with no duplicate.
duplicates-first :
    (core other : Text) (t : ℕ) (o : Option ℕ) (usage : List (ℕ × Text))
    → is_nil (duplicates t core (add_usage other o usage)) ≡ true
    → is_nil (duplicates t core usage) ≡ true
unfolding add_usage duplicates
duplicates-first core other t none usage h = h
duplicates-first core other t (some u) usage h = ground arith

duplicates-alone :
    (core name : Text) (t : ℕ) (o : Option ℕ) (usage : List (ℕ × Text))
    → o ≡ some t
    → is_nil (duplicates t core (add_usage name o usage)) ≡ true
    → name ≡ core
unfolding add_usage duplicates
duplicates-alone core name t none usage e h = absurd (ground (arith, e))
duplicates-alone core name t (some u) usage e h = (text_eq_iff name core).0 (ground (arith, e))

-- The head of the usage, when the head of the names is a core with a type.
declared_type-Typed :
    (host : Host) (core name text : Text) (t : ℕ) (o : Option ℕ)
    → Typed host core t
    → host.file (descriptor_path core_dir core) ≡ some text
    → declared_type name (yaml_path_scalar text type_path) ≡ ok o
    → o ≡ some t
unfolding declared_type
declared_type-Typed host core name text t o ty file h =
    ground (arith, ty.file, ty.scalar, ty.number (name ++ codes ".platform.core_type"))

usage-alone :
    (host : Host) (core other : Text) (t : ℕ) (names : List Text) {usage : List (ℕ × Text)}
    → Typed host other t
    → core_type_usage host names ≡ ok usage
    → is_nil (duplicates t core usage) ≡ true
    → contains names other ≡ true
    → other ≡ core
unfolding core_type_usage
usage-alone host core other t [] ty h alone m = cc
usage-alone host core other t (name ∷ names) {usage} ty h alone m =
    let read = or_fail (host.file (descriptor_path core_dir name)) (file_not_found name) in
    let (text, et, h1) = >>=-eq-ok read _ h in
    let (o, eo, h2) = >>=-eq-ok (declared_type name (yaml_path_scalar text type_path)) _ h1 in
    let (rest, er, h3) = >>=-eq-ok (core_type_usage host names) _ h2 in
    let all_alone : is_nil (duplicates t core (add_usage name o rest)) ≡ true =
      ground (arith, h3, alone) in
    elim (Bool-cases (text_eq other name)) [
      | inl same ↦
          let e : name ≡ other = sym ((text_eq_iff other name).0 same) in
          let file : host.file (descriptor_path core_dir other) ≡ some text =
            rw (← e) (ground (arith, et)) in
          sym e
          ∙ duplicates-alone core name t o rest
              (declared_type-Typed host other name text t o ty file eo) all_alone
      | inr differs ↦
          usage-alone host core other t names ty er (duplicates-first core name t o rest all_alone)
            (ground arith)
    ]

core_platform-alone :
    (host : Host) (core text : Text) {p : Platform}
    → core_platform host core text ≡ ok p
    → (usage : List (ℕ × Text)) × (core_type_usage host (descriptor_names host core_dir) ≡ ok usage)
      × (is_nil (duplicates p.core_type core usage) ≡ true)
unfolding core_platform
core_platform-alone host core text h =
    elim (Result-cases (core_type_usage host (descriptor_names host core_dir))) [
      | inl (e, bad) ↦ absurd (ground arith)
      | inr (usage, eu) ↦ (usage, eu, ground arith)
    ]

-- Two cores of the repository that pass their checks have the same core type only if they are one.
pub core_check-core_type_unique :
    (host : Host) (core other : Text) {r s : CoreReport}
    → core_check host core ≡ ok r
    → core_check host other ≡ ok s
    → contains (descriptor_names host core_dir) other ≡ true
    → s.platform.core_type ≡ r.platform.core_type
    → other ≡ core
core_check-core_type_unique host core other {r} {s} hr hs m e =
    let (usage, eu, alone) =
      core_platform-alone host core r.identity.text (core_check-Passed host core hr).platform in
    usage-alone host core other r.platform.core_type (descriptor_names host core_dir)
      (rw (← e) (core_platform-Typed host other hs)) eu alone m

-- Every board in the list of a core that passes its check has a descriptor, and its list of cores, if
-- it is not empty, names the core.
pub core_check-boards :
    (host : Host) (core board : Text) {r : CoreReport}
    → core_check host core ≡ ok r
    → contains r.settings.compatible_boards board ≡ true
    → (contains (descriptor_names host board_dir) board ≡ true)
      × (text : Text) × (host.file (descriptor_path board_dir board) ≡ some text)
      × (excludes (yaml_top_list text (codes "compatible_cores")) core ≡ false)
unfolding core_boards names_core
core_check-boards host core board {r} h m =
    let boards = (core_check-Passed host core h).boards in
    let names = descriptor_names host board_dir in
    let known : is_nil (unsupported names r.settings.compatible_boards) ≡ true =
      ground (arith, boards) in
    let loop : for_each (names_core host core) r.settings.compatible_boards ≡ ok tt =
      ground (arith, boards) in
    let one = for_each-contains (names_core host core) r.settings.compatible_boards board loop m in
    let read = or_fail (host.file (descriptor_path board_dir board)) (file_not_found board) in
    let (text, et, ex) = >>=-eq-ok read _ one in
    (
      unsupported-nil names r.settings.compatible_boards board known m,
      text,
      ground (arith, et),
      ground (arith, ex),
    )
