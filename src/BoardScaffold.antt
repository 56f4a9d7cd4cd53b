-- ===== src/BoardScaffold.antt =====
-- The options of bin/create_board.py, and what it computes of them before it writes a file. The tests
-- of the names and the version of the platform are the code of bin/create_core.py.
pub mod Texts
pub mod Wrapper
pub mod Target
pub mod Create
pub mod Regions
pub mod Named
pub mod Outcome
use corejack.Prelude.{Option, none, some, ◌++◌}
use corejack.Text.{Text, codes, text_eq}
use corejack.Failure.{Result, ok, check, ◌>>=◌, ◌>>◌, not_active_low}
use corejack.Number.{ℤ}
use corejack.Edit.{Files}
use corejack.Scaffold.{require_identifier}
use corejack.Scaffold.Request.{platform_version, display_name_of}

-- The command line, with its defaults. The display name is `none` if it is not given.
pub record Options : Type 0 where
  pub board : Text
  pub part : Text
  pub display_name : Option Text
  pub input_hz : ℤ
  pub soc_hz : ℤ
  pub clock_p : Text
  pub clock_n : Text
  pub reset_port : Text
  pub reset_polarity : Text
  pub uart_baud : ℤ
  pub uart_tx : Text
  pub uart_rx : Text

-- The arguments as the files are written from them, with the version of the platform.
pub record Board : Type 0 where
  pub board : Text
  pub part : Text
  pub display_name : Text
  pub input_hz : ℤ
  pub soc_hz : ℤ
  pub clock_p : Text
  pub clock_n : Text
  pub reset_port : Text
  pub reset_polarity : Text
  pub uart_baud : ℤ
  pub uart_tx : Text
  pub uart_rx : Text
  pub version : Text

abbrev pub wrap_name : Board → Text
wrap_name a = codes "corejack_" ++ (a.board ++ codes "_wrap")

unfoldable pub requested : Files → Options → Result Board
unfolding platform_version require_identifier
requested files o = do
  version ← platform_version files
  require_identifier o.board (codes "board")
  check (text_eq o.reset_polarity (codes "active_low")) not_active_low
  ok (record {
    board = o.board;
    part = o.part;
    display_name = display_name_of o.board o.display_name;
    input_hz = o.input_hz;
    soc_hz = o.soc_hz;
    clock_p = o.clock_p;
    clock_n = o.clock_n;
    reset_port = o.reset_port;
    reset_polarity = o.reset_polarity;
    uart_baud = o.uart_baud;
    uart_tx = o.uart_tx;
    uart_rx = o.uart_rx;
    version = version;
  })
