-- ===== src/CoreCheck.antt =====
-- `core_check` of bin/validate_target.py, in the stages in which it reads and tests a core
-- descriptor. Each stage returns what later code uses; the first failure ends the check. `Rules` has the tests on
-- what was read, and the whole check.
pub mod Rules
pub mod Sound
pub mod Unique
pub mod Meaning
pub mod Fields
use corejack.Prelude.{
  ℕ, ◌+◌, ◌%◌, Bool, true, false, not, ◌&&◌, ◌||◌, List, [], ◌∷◌, ◌++◌, Option, none, some, ◌==◌,
  leb, if◌then◌else◌, is_nil, all,
}
use corejack.Text.{Text, codes, is_alnum, is_key_char, text_eq, contains, starts_with, is_some}
use corejack.Failure.{
  Failure, Result, ok, err, check, or_fail, for_each, ◌>>=◌, ◌>>◌, unknown_core, name_mismatch,
  unsupported_status, missing_file, module_not_defined, enum_missing, core_type_mismatch,
  core_type_shared, unsupported_xlen, march_mismatch, mabi_mismatch, unaligned, unsupported_bus,
  clock_range, unsupported_value, unsupported_characters, unsupported_integration, native_axi_buses,
  no_compatible_boards, debug_not_true, debug_not_false, unknown_names, not_reciprocal,
  file_not_found,
}
use corejack.Host.{Host, core_dir, board_dir, descriptor_names, descriptor_path}
use corejack.Number.{decimal, parse_positive_int, parse_nonnegative_int}
use corejack.Search.{defines_module}
use corejack.Rtl.{Member, platform_core_type_values, enum_value, expected_core_enum_name}
use corejack.Yaml.{yaml_path_scalar, yaml_top_list}
use corejack.Descriptor.{at1, at2, require_scalar, platform_integrations, is_word, excludes}
use corejack.Descriptor.Config.{core_label}

-- `xs` in order, with the failure of the first test that does not hold.
unfoldable pub checks : List (Bool × Failure) → Result (Unit {0})
checks [] = ok tt
checks ((b, e) ∷ cs) = check b e >> checks cs

abbrev pub statuses_known : List Text
statuses_known = codes "supported" ∷ codes "planned" ∷ codes "unsupported" ∷ []

unfoldable pub require_status : Text → Text → Result (Unit {0})
require_status value field = check (contains statuses_known value) (unsupported_status field value)

unfoldable pub check_repo_file : Host → Text → Text → Result Text
check_repo_file host path field = or_fail (host.file path) (missing_file field path)

pub record Identity : Type 0 where
  pub text : Text
  pub display_name : Text
  pub sim : Text
  pub fpga : Text
  pub debug : Text

pub record Platform : Type 0 where
  pub core_type : ℕ
  pub integration : Text
  pub enum_name : Text

pub record Settings : Type 0 where
  pub wrapper_module : Text
  pub sim_target : Text
  pub core_flag : Text
  pub xlen : ℕ
  pub march : Text
  pub mabi : Text
  pub boot_addr : ℕ
  pub mtvec_addr : ℕ
  pub instruction_bus : Text
  pub data_bus : Text
  pub validated_min_hz : ℕ
  pub validated_max_hz : ℕ
  pub default_target : Text
  pub toolchain : Text
  pub zephyr : Text
  pub compatible_boards : List Text

abbrev status_of : Text → Text → Text → Result Text
status_of core text flow = require_scalar text (at2 (codes "integration") flow) (core_label core)

unfoldable pub core_identity : Host → Text → Result Identity
unfolding require_status
core_identity host core = do
  text ←
      or_fail (host.file (descriptor_path core_dir core))
        (unknown_core core (descriptor_names host core_dir))
  name ← require_scalar text (at1 (codes "name")) (core_label core)
  display_name ← require_scalar text (at1 (codes "display_name")) (core_label core)
  check (text_eq name core) (name_mismatch name core)
  sim ← status_of core text (codes "sim")
  fpga ← status_of core text (codes "fpga")
  debug ← status_of core text (codes "debug")
  require_status sim (codes "integration.sim")
  require_status fpga (codes "integration.fpga")
  require_status debug (codes "integration.debug")
  ok (record { text = text; display_name = display_name; sim = sim; fpga = fpga; debug = debug })

-- The adapter's module and file.
unfoldable pub core_adapter : Host → Text → Text → Result (Text × Text)
unfolding check_repo_file
core_adapter host core text = do
  adapter_module ← require_scalar text (at2 (codes "adapter") (codes "module")) (core_label core)
  adapter_file ← require_scalar text (at2 (codes "adapter") (codes "file")) (core_label core)
  adapter_text ← check_repo_file host adapter_file (codes "adapter.file")
  check (defines_module adapter_module adapter_text)
      (module_not_defined adapter_module adapter_file)
  ok (adapter_module, adapter_file)

declared_type : Text → Option Text → Result (Option ℕ)
declared_type core none = ok none
declared_type core (some value) = do
  core_type ← parse_nonnegative_int value (core ++ codes ".platform.core_type")
  ok (some core_type)

add_usage : Text → Option ℕ → List (ℕ × Text) → List (ℕ × Text)
add_usage core none usage = usage
add_usage core (some core_type) usage = (core_type, core) ∷ usage

-- `core_type_usage`: each core with its type, in the order of their names.
unfoldable pub core_type_usage : Host → List Text → Result (List (ℕ × Text))
unfolding declared_type add_usage
core_type_usage host [] = ok []
core_type_usage host (core ∷ cores) = do
  text ← or_fail (host.file (descriptor_path core_dir core)) (file_not_found core)
  core_type ←
      declared_type core (yaml_path_scalar text (at2 (codes "platform") (codes "core_type")))
  usage ← core_type_usage host cores
  ok (add_usage core core_type usage)

-- `[name for name in usage.get(core_type, []) if name != core]`
unfoldable pub duplicates : ℕ → Text → List (ℕ × Text) → List Text
duplicates core_type core [] = []
duplicates core_type core ((t, name) ∷ usage) =
    let rest = duplicates core_type core usage in
    if t == core_type && not (text_eq name core) then name ∷ rest else rest

unfoldable pub core_platform : Host → Text → Text → Result Platform
core_platform host core text = do
  value ← require_scalar text (at2 (codes "platform") (codes "core_type")) (core_label core)
  core_type ← parse_nonnegative_int value (codes "platform.core_type")
  integration ← require_scalar text (at2 (codes "platform") (codes "integration")) (core_label core)
  enum_values ← platform_core_type_values host
  let enum_name = expected_core_enum_name core
  declared ← or_fail (enum_value enum_name enum_values) (enum_missing enum_name)
  check (declared == core_type) (core_type_mismatch core_type enum_name declared)
  usage ← core_type_usage host (descriptor_names host core_dir)
  let others = duplicates core_type core usage
  check (is_nil others) (core_type_shared core_type others)
  ok (record { core_type = core_type; integration = integration; enum_name = enum_name })

-- A required number.
unfoldable pub nonnegative_field : Text → Text → Text → Text → Result ℕ
nonnegative_field core text section field = do
  value ← require_scalar text (at2 section field) (core_label core)
  parse_nonnegative_int value (section ++ (b'.' ∷ field))

unfoldable pub positive_field : Text → Text → Text → Text → Result ℕ
positive_field core text section field = do
  value ← require_scalar text (at2 section field) (core_label core)
  parse_positive_int value (section ++ (b'.' ∷ field))

unfoldable pub core_settings : Text → Text → Result Settings
core_settings core text = do
  wrapper_module ← require_scalar text (at2 (codes "wrapper") (codes "module")) (core_label core)
  sim_target ← require_scalar text (at2 (codes "fusesoc") (codes "sim_target")) (core_label core)
  core_flag ← require_scalar text (at2 (codes "fusesoc") (codes "core_flag")) (core_label core)
  xlen ← positive_field core text (codes "isa") (codes "xlen")
  march ← require_scalar text (at2 (codes "isa") (codes "march")) (core_label core)
  mabi ← require_scalar text (at2 (codes "isa") (codes "mabi")) (core_label core)
  boot_addr ← nonnegative_field core text (codes "reset") (codes "boot_addr")
  mtvec_addr ← nonnegative_field core text (codes "reset") (codes "mtvec_addr")
  instruction_bus ←
      require_scalar text (at2 (codes "buses") (codes "instruction")) (core_label core)
  data_bus ← require_scalar text (at2 (codes "buses") (codes "data")) (core_label core)
  validated_min_hz ← nonnegative_field core text (codes "clocking") (codes "validated_min_hz")
  validated_max_hz ← nonnegative_field core text (codes "clocking") (codes "validated_max_hz")
  default_target ←
      require_scalar text (at2 (codes "software") (codes "default_target")) (core_label core)
  toolchain ← require_scalar text (at2 (codes "software") (codes "toolchain")) (core_label core)
  zephyr ←
      require_scalar text (codes "software" ∷ codes "zephyr" ∷ codes "status" ∷ [])
        (core_label core)
  ok (record {
    wrapper_module = wrapper_module;
    sim_target = sim_target;
    core_flag = core_flag;
    xlen = xlen;
    march = march;
    mabi = mabi;
    boot_addr = boot_addr;
    mtvec_addr = mtvec_addr;
    instruction_bus = instruction_bus;
    data_bus = data_bus;
    validated_min_hz = validated_min_hz;
    validated_max_hz = validated_max_hz;
    default_target = default_target;
    toolchain = toolchain;
    zephyr = zephyr;
    compatible_boards = yaml_top_list text (codes "compatible_boards");
  })
