-- ===== src/BoardCheck/Fields.antt =====
-- What the stages of a passed `board_check` have read.
use corejack.Prelude.{ℕ, List, some, ◌≡◌, arith}
use corejack.Text.{Text, codes}
use corejack.Failure.{ok, >>=-eq-ok}
use corejack.Host.{Host, board_dir, descriptor_path}
use corejack.Yaml.{yaml_path_scalar, yaml_top_list}
use corejack.Descriptor.Config.{board_label}
use corejack.Descriptor.{at2, require_scalar, fusesoc_board_flag}
use corejack.BoardCheck.{BoardFields, field_of, positive_of, check_ram_bytes, board_fields}

-- A required scalar that was read is in the text.
pub require_scalar-some :
    (text : Text) (path : List Text) (descriptor : Text) {v : Text}
    → require_scalar text path descriptor ≡ ok v
    → yaml_path_scalar text path ≡ some v
unfolding require_scalar
require_scalar-some text path descriptor h = ground arith

module _ (host : Host) (board : Text) {f : BoardFields} (h : board_fields host board ≡ ok f) where
  pub file-board_fields : host.file (descriptor_path board_dir board) ≡ some f.text
  unfolding board_fields
  file-board_fields = ground arith

  -- The scalars that the build reads again.
  pub top_template-board_fields :
      require_scalar f.text (at2 (codes "fpga") (codes "top_template")) (board_label board)
      ≡ ok f.top_template
  unfolding board_fields field_of
  top_template-board_fields = ground arith

  pub target-board_fields :
      require_scalar f.text (at2 (codes "fpga") (codes "target")) (board_label board)
      ≡ ok f.fpga_target_template
  unfolding board_fields field_of
  target-board_fields = ground arith

  pub board_flag-board_fields : fusesoc_board_flag f.text ≡ ok f.board_flag
  unfolding board_fields
  board_flag-board_fields = ground arith

  pub work_root-board_fields :
      require_scalar f.text (at2 (codes "fpga") (codes "work_root")) (board_label board)
      ≡ ok f.work_root
  unfolding board_fields field_of
  work_root-board_fields = ground arith

  pub jtag_adapter-board_fields :
      require_scalar f.text (at2 (codes "debug") (codes "jtag_adapter")) (board_label board)
      ≡ ok f.jtag_adapter
  unfolding board_fields field_of
  jtag_adapter-board_fields = ground arith

  pub soc_hz-board_fields : positive_of board f.text (codes "clock") (codes "soc_hz") ≡ ok f.soc_hz
  unfolding board_fields
  soc_hz-board_fields = ground arith

  pub uart_baud-board_fields :
      positive_of board f.text (codes "uart") (codes "baud") ≡ ok f.uart_baud
  unfolding board_fields
  uart_baud-board_fields = ground arith

  pub ram_bytes-board_fields :
      check_ram_bytes host (yaml_path_scalar f.text (at2 (codes "memory") (codes "ram_bytes")))
      ≡ ok tt
  unfolding board_fields
  ram_bytes-board_fields = ground arith

  pub compatible_cores-board_fields :
      f.compatible_cores ≡ yaml_top_list f.text (codes "compatible_cores")
  unfolding board_fields
  compatible_cores-board_fields = ground arith

-- A number that was read from a required field has a scalar behind it.
pub positive_of-scalar :
    (board text section field : Text) {n : ℕ}
    → positive_of board text section field ≡ ok n
    → (v : Text) × (require_scalar text (at2 section field) (board_label board) ≡ ok v)
unfolding positive_of
positive_of-scalar board text section field h =
    let (v, e, _) = >>=-eq-ok (require_scalar text (at2 section field) (board_label board)) _ h in
    (v, e)
