-- ===== src/Failure.antt =====
-- How a run of bin/validate_target.py ends early: `fail(message)`, which prints the message and exits
-- with status 1, or an exception that nothing catches. A constructor is a message; its fields are
-- the values that the message shows. `Result` is the outcome of a function, `Script` that of one that
-- prints as it goes.
use corejack.Prelude.{
  if◌then◌else◌, ℕ, Bool, true, false, List, [], ◌∷◌, Option, none, some, ◌≡◌, ◌⊎◌, inl, inr, refl,
}
use corejack.Text.{Text}

pub data Failure : Type 0 where
  missing_field : List Text → Text → Failure
  no_list no_such_key : Text → Failure
  not_an_integer not_positive negative : Text → Text → Failure
  unsupported_fields : Text → List Text → Failure
  unsupported_characters : Text → Text → Failure
  unsupported_integration : Text → Failure
  unknown_core unknown_board : Text → List Text → Failure
  not_compatible : Text → Text → Text → Failure
  name_mismatch : Text → Text → Failure
  unsupported_status : Text → Text → Failure
  missing_file : Text → Text → Failure
  module_not_defined : Text → Text → Failure
  no_core_type_enum no_num_banks : Failure
  enum_missing : Text → Failure
  core_type_mismatch : ℕ → Text → ℕ → Failure
  core_type_shared : ℕ → List Text → Failure
  unsupported_xlen : ℕ → Failure
  march_mismatch mabi_mismatch : ℕ → Text → Failure
  unaligned : Text → ℕ → Failure
  unsupported_bus : Text → Text → Failure
  clock_range native_axi_buses no_compatible_boards no_compatible_cores : Failure
  unsupported_value : Text → Text → Failure
  debug_not_true debug_not_false : Failure
  unknown_names : Text → List Text → Failure
  not_reciprocal : Text → Text → Failure
  num_banks_not_power ram_granule : ℕ → Failure
  target_missing : Text → Text → Failure
  not_isolated : Text → Failure
  flow_failed : Text → Text → Text → Text → Failure
  no_banner : Text → Failure
  no_alive : Text → Text → Failure
  option_required : Text → Failure
  path_exists : Text → Failure
  already_there : Text → Text → Failure
  no_marker : Text → Failure
  no_core_files no_names several_versions : Failure
  not_semver : Text → Failure
  no_svg_root no_version no_last_member not_socket_region not_active_low not_an_xlen : Failure
  -- exceptions
  file_not_found : Text → Failure
  bad_integer bad_template : Text → Failure

pub data Result {ℓ} (A : Type ℓ) : Type ℓ where
  err : Failure → Result A
  ok : A → Result A

module _ {ℓ} {A : Type ℓ} where
  -- `fail(message)` where there is no value
  abbrev pub or_fail : Option A → Failure → Result A
  or_fail (some value) message = ok value
  or_fail none message = err message

  pub Result-cases :
      (outcome : Result A)
      → ((message : Failure) × (outcome ≡ err message)) ⊎ ((value : A) × (outcome ≡ ok value))
  Result-cases (err message) = inl (message, refl)
  Result-cases (ok value) = inr (value, refl)

-- `if not test: fail(message)`
abbrev pub check : Bool → Failure → Result (Unit {0})
check test message = if test then ok tt else err message

pub check-eq-ok : (test : Bool) (e : Failure) {u : Unit {0}} → check test e ≡ ok u → test ≡ true
check-eq-ok false e h = cc
check-eq-ok true e h = refl

module _ {ℓ κ} {A : Type ℓ} {B : Type κ} where
  infixl 5 ◌>>=◌
  -- The rest of a function, which a failure skips.
  abbrev pub ◌>>=◌ : Result A → (A → Result B) → Result B
  err message >>= rest = err message
  ok value >>= rest = rest value

  -- What a function returned, its first part had to return before.
  pub >>=-eq-ok :
      (first : Result A) (rest : A → Result B) {b : B}
      → (first >>= rest) ≡ ok b
      → (value : A) × (first ≡ ok value) × (rest value ≡ ok b)
  >>=-eq-ok (err message) rest h = cc
  >>=-eq-ok (ok value) rest h = (value, refl, h)

infixl 5 ◌>>◌
abbrev pub ◌>>◌ {ℓ} : {B : Type ℓ} → Result (Unit {0}) → Result B → Result B
first >> rest = first >>= λ _. rest

-- `for x in xs: f(x)`, which ends at the first failure.
unfoldable pub for_each {ℓ} : {A : Type ℓ} → (A → Result (Unit {0})) → List A → Result (Unit {0})
for_each f [] = ok tt
for_each f (x ∷ xs) = f x >> for_each f xs

-- `[f(x) for x in xs]`
unfoldable pub map_result {ℓ κ} :
    {A : Type ℓ} {B : Type κ} → (A → Result B) → List A → Result (List B)
map_result f [] = ok []
map_result f (x ∷ xs) = f x >>= λ y. map_result f xs >>= λ ys. ok (y ∷ ys)
