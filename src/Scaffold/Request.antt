-- ===== src/Scaffold/Request.antt =====
-- What a new core is made of: the options of bin/create_core.py, and `platform_version` with the tests
-- of `create_core` on the options before any file is written.
use corejack.Prelude.{
  ℕ, ◌==◌, Bool, false, not, ◌||◌, List, [], ◌∷◌, ◌++◌, map, Option, none, some, if◌then◌else◌,
}
use corejack.Text.{Text, codes, text_eq, contains, starts_with}
use corejack.Failure.{
  Result, ok, check, or_fail, ◌>>=◌, ◌>>◌, file_not_found, no_version, not_socket_region,
  unsupported_bus, not_an_xlen, mabi_mismatch, march_mismatch,
}
use corejack.Number.{ℤ, pos, show_int}
use corejack.Rtl.{to_upper}
use corejack.Edit.{Files}
use corejack.Splice.{find_platform_version}
use corejack.Scaffold.{require_identifier, next_core_type}

-- The command line. An option that is not given and has no default of its own is `none`.
pub record Options : Type 0 where
  pub core : Text
  pub display_name : Option Text
  pub board : Text
  pub xlen : ℤ
  pub march : Text
  pub mabi : Text
  pub instruction_bus : Text
  pub data_bus : Text
  pub platform_integration : Text
  pub integration_suffix : Text
  pub core_type : Option ℤ

-- The arguments as the files are written from them, with the version of the platform.
pub record Core : Type 0 where
  pub core : Text
  pub display_name : Text
  pub board : Text
  pub xlen : ℤ
  pub march : Text
  pub mabi : Text
  pub instruction_bus : Text
  pub data_bus : Text
  pub platform_integration : Text
  pub integration_suffix : Text
  pub core_type : ℤ
  pub version : Text

unfoldable pub platform_version : Files → Result Text
unfolding find_platform_version
platform_version files = do
  text ← or_fail (files (codes "corejack.core")) (file_not_found (codes "corejack.core"))
  or_fail (find_platform_version text) no_version

abbrev pub buses : List Text
buses =
    codes "obi"
    ∷ codes "axi"
    ∷ codes "ahb_lite"
    ∷ codes "serv_wishbone_minimal"
    ∷ codes "picorv32_native"
    ∷ []

abbrev pub int_is : ℕ → ℤ → Bool
int_is n (pos m) = n == m
int_is n _ = false

unfoldable pub core_type_of : Files → Option ℤ → Result ℤ
core_type_of files (some n) = ok n
core_type_of files none = next_core_type files >>= λ n. ok (pos n)

unfoldable pub display_name_of : Text → Option Text → Text
display_name_of name (some given) = given
display_name_of name none = map to_upper name

-- The tests in the order of the code, with the two values that may not have been given.
unfoldable pub requested : Files → Options → Result Core
unfolding platform_version core_type_of
requested files o = do
  version ← platform_version files
  require_identifier o.core (codes "core")
  require_identifier o.board (codes "board")
  require_identifier o.integration_suffix (codes "integration suffix")
  check (text_eq o.platform_integration (codes "socket_region")) not_socket_region
  check (contains buses o.instruction_bus) (unsupported_bus (codes "instruction") o.instruction_bus)
  check (contains buses o.data_bus) (unsupported_bus (codes "data") o.data_bus)
  check (int_is 32 o.xlen || int_is 64 o.xlen) not_an_xlen
  core_type ← core_type_of files o.core_type
  check (not (int_is 32 o.xlen) || starts_with (codes "ilp32") o.mabi) (mabi_mismatch 32 o.mabi)
  check (not (int_is 64 o.xlen) || starts_with (codes "lp64") o.mabi) (mabi_mismatch 64 o.mabi)
  check (starts_with (codes "rv" ++ show_int o.xlen) o.march)
      (march_mismatch (if int_is 32 o.xlen then 32 else 64) o.march)
  ok (record {
    core = o.core;
    display_name = display_name_of o.core o.display_name;
    board = o.board;
    xlen = o.xlen;
    march = o.march;
    mabi = o.mabi;
    instruction_bus = o.instruction_bus;
    data_bus = o.data_bus;
    platform_integration = o.platform_integration;
    integration_suffix = o.integration_suffix;
    core_type = core_type;
    version = version;
  })
