-- ===== src/CoreCheck/Rules.antt =====
-- The tests of `core_check` on the settings it has read, on debug support and on the boards, and the
-- check as a whole.
use corejack.Prelude.{
  ℕ, ◌%◌, Bool, not, ◌&&◌, ◌||◌, List, [], ◌∷◌, ◌++◌, ◌==◌, leb, if◌then◌else◌, is_nil, all,
}
use corejack.Text.{Text, codes, is_key_char, text_eq, contains, starts_with}
use corejack.Failure.{
  Failure, Result, ok, check, or_fail, for_each, ◌>>=◌, ◌>>◌, unsupported_xlen, march_mismatch,
  mabi_mismatch, unaligned, unsupported_bus, clock_range, unsupported_value, unsupported_characters,
  unsupported_integration, native_axi_buses, no_compatible_boards, debug_not_true, debug_not_false,
  unknown_names, not_reciprocal, file_not_found,
}
use corejack.Host.{Host, board_dir, descriptor_names, descriptor_path}
use corejack.Number.{decimal}
use corejack.Template.{unsupported}
use corejack.Yaml.{yaml_top_list}
use corejack.Descriptor.{at2, require_scalar, platform_integrations, is_word, excludes}
use corejack.Descriptor.Config.{core_label}
use corejack.CoreCheck.{
  Identity, Platform, Settings, checks, core_identity, core_adapter, core_platform, core_settings,
  positive_field, nonnegative_field,
}

abbrev pub bus_contracts : List Text
bus_contracts =
    codes "obi"
    ∷ codes "axi"
    ∷ codes "ahb_lite"
    ∷ codes "serv_wishbone_minimal"
    ∷ codes "picorv32_native"
    ∷ []

abbrev pub default_targets : List Text
default_targets = codes "sim" ∷ codes "fpga" ∷ []

abbrev pub zephyr_statuses : List Text
zephyr_statuses =
    codes "initial_supported" ∷ codes "supported" ∷ codes "planned" ∷ codes "unsupported" ∷ []

-- `re.fullmatch(r"[A-Za-z0-9_.:-]+", sim_target)`
abbrev pub is_target_char : ℕ → Bool
is_target_char c = is_key_char c || c == b'.' || c == b':' || c == b'-'

abbrev pub is_target_name : Text → Bool
is_target_name s = not (is_nil s) && all is_target_char s

-- `if premise and not conclusion: fail`
abbrev pub implies : Bool → Bool → Bool
implies a b = not a || b

unfoldable pub setting_rules : Text → Settings → List (Bool × Failure)
setting_rules integration s =
    (s.xlen == 32 || s.xlen == 64, unsupported_xlen s.xlen)
    ∷ (starts_with (codes "rv" ++ decimal s.xlen) s.march, march_mismatch s.xlen s.march)
    ∷ (implies (s.xlen == 32) (starts_with (codes "ilp32") s.mabi), mabi_mismatch 32 s.mabi)
    ∷ (implies (s.xlen == 64) (starts_with (codes "lp64") s.mabi), mabi_mismatch 64 s.mabi)
    ∷ (s.boot_addr % 4 == 0, unaligned (codes "reset.boot_addr") s.boot_addr)
    ∷ (s.mtvec_addr % 4 == 0, unaligned (codes "reset.mtvec_addr") s.mtvec_addr)
    ∷ (
      contains bus_contracts s.instruction_bus,
      unsupported_bus (codes "instruction") s.instruction_bus,
    )
    ∷ (contains bus_contracts s.data_bus, unsupported_bus (codes "data") s.data_bus)
    ∷ (s.validated_max_hz == 0 || leb s.validated_min_hz s.validated_max_hz, clock_range)
    ∷ (
      contains default_targets s.default_target,
      unsupported_value (codes "software.default_target") s.default_target,
    )
    ∷ (
      is_target_name s.sim_target,
      unsupported_characters (codes "fusesoc.sim_target") s.sim_target,
    )
    ∷ (is_word s.core_flag, unsupported_characters (codes "fusesoc.core_flag") s.core_flag)
    ∷ (contains platform_integrations integration, unsupported_integration integration)
    ∷ (
      implies (text_eq integration (codes "native_axi"))
          (text_eq s.instruction_bus (codes "axi") && text_eq s.data_bus (codes "axi")),
      native_axi_buses,
    )
    ∷ (
      text_eq s.toolchain (codes "riscv-multilib"),
      unsupported_value (codes "software.toolchain") s.toolchain,
    )
    ∷ (
      contains zephyr_statuses s.zephyr,
      unsupported_value (codes "software.zephyr.status") s.zephyr,
    )
    ∷ (not (is_nil s.compatible_boards), no_compatible_boards)
    ∷ []

-- The numbers of a core with debug support.
unfoldable pub debug_numbers : Text → Text → Result (Unit {0})
debug_numbers core text = do
  hart_count ← positive_field core text (codes "debug") (codes "hart_count")
  hartsel ← nonnegative_field core text (codes "debug") (codes "hartsel")
  halt_addr ← nonnegative_field core text (codes "debug") (codes "halt_addr")
  exception_addr ← nonnegative_field core text (codes "debug") (codes "exception_addr")
  ok tt

abbrev pub true_or_false : List Text
true_or_false = codes "true" ∷ codes "false" ∷ []

unfoldable pub core_debug : Text → Text → Text → Result Text
unfolding debug_numbers
core_debug core text status = do
  debug_supported ← require_scalar text (at2 (codes "debug") (codes "supported")) (core_label core)
  check (contains true_or_false debug_supported)
      (unsupported_value (codes "debug.supported") debug_supported)
  check (implies (text_eq status (codes "supported")) (text_eq debug_supported (codes "true")))
      debug_not_true
  check (implies (text_eq status (codes "unsupported")) (text_eq debug_supported (codes "false")))
      debug_not_false
  if text_eq status (codes "supported") then debug_numbers core text else ok tt
  ok debug_supported

-- One board that the core names: its list of cores, if it has one, names the core.
unfoldable pub names_core : Host → Text → Text → Result (Unit {0})
names_core host core board = do
  board_text ← or_fail (host.file (descriptor_path board_dir board)) (file_not_found board)
  check (not (excludes (yaml_top_list board_text (codes "compatible_cores")) core))
      (not_reciprocal board core)

unfoldable pub core_boards : Host → Text → List Text → Result (Unit {0})
core_boards host core boards = do
  let missing = unsupported (descriptor_names host board_dir) boards
  check (is_nil missing) (unknown_names (codes "compatible_boards") missing)
  for_each (names_core host core) boards

-- What a passed check has read.
pub record CoreReport : Type 0 where
  pub identity : Identity
  pub adapter : Text × Text
  pub platform : Platform
  pub settings : Settings
  pub debug_supported : Text

unfoldable pub core_check : Host → Text → Result CoreReport
core_check host core = do
  identity ← core_identity host core
  adapter ← core_adapter host core identity.text
  platform ← core_platform host core identity.text
  settings ← core_settings core identity.text
  checks (setting_rules platform.integration settings)
  debug_supported ← core_debug core identity.text identity.debug
  core_boards host core settings.compatible_boards
  ok (record {
    identity = identity;
    adapter = adapter;
    platform = platform;
    settings = settings;
    debug_supported = debug_supported;
  })
