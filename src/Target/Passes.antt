-- ===== src/Target/Passes.antt =====
-- When `target_check` passes.
use corejack.Prelude.{true, ◌≡◌, ◌↔◌, arith}
use corejack.Text.{Text, contains}
use corejack.Failure.{ok}
use corejack.Host.{Host}
use corejack.Script.{quietly, >>=-eq-ok}
use corejack.Descriptor.{load_descriptors}
use corejack.Descriptor.Config.{TargetConfig, target_config, format_for}
use corejack.Descriptor.Total.{board_check-Templates, target_config-formats}
use corejack.CoreCheck.Rules.{CoreReport, core_check}
use corejack.CoreCheck.Sound.{core_check-Passed}
use corejack.CoreCheck.Fields.{file-core_identity}
use corejack.BoardCheck.{BoardFields}
use corejack.BoardCheck.Fields.{file-board_fields}
use corejack.BoardCheck.Rules.{board_check}
use corejack.Target.{check_pair, target_check}
use corejack.Target.Checked.{check_pair-PairPasses}
use corejack.Target.Matrix.{target_check-passes, target_check-pairs}

-- A core is ready for a board: it passes its check, and the two templates of the board that `board_check`
-- does not format can be formatted for the pair.
pub record Ready (host : Host) (board : Text) (f : BoardFields) (core : Text) : Type 0 where
  pub report : CoreReport
  pub core_passes : core_check host core ≡ ok report
  pub fpga_top : Text
  pub top_formats : format_for host core board f.top_template ≡ ok fpga_top
  pub root : Text
  pub root_formats : format_for host core board f.work_root ≡ ok root

check_pair-target_config :
    (host : Host) (board core : Text)
    → (check_pair host board core).result ≡ ok tt
    → (r : CoreReport) × (core_check host core ≡ ok r)
      × ((texts : Text × Text) × (load_descriptors host core board ≡ ok texts)
          × ((c : TargetConfig) × (target_config host core board texts.0 texts.1 ≡ ok c)))
unfolding check_pair
check_pair-target_config host board core h =
    let (r, er, h1) = >>=-eq-ok (quietly (core_check host core)) _ h in
    let (texts, et, h2) = >>=-eq-ok (quietly (load_descriptors host core board)) _ h1 in
    let (c, ec, _) = >>=-eq-ok (quietly (target_config host core board texts.0 texts.1)) _ h2 in
    (r, er, (texts, et, (c, ec)))

check_pair-Ready :
    (host : Host) (board top core : Text) {f : BoardFields}
    → board_check host board ≡ ok (f, top)
    → contains f.compatible_cores core ≡ true
    → (check_pair host board core).result ≡ ok tt
    → Ready host board f core
unfolding load_descriptors
check_pair-Ready host board top core {f} hb m h =
    let (r, er, (texts, et, (c, ec))) = check_pair-target_config host board core h in
    let core_file = file-core_identity host core (core_check-Passed host core er).identity in
    let board_file =
      file-board_fields host board (board_check-Templates host board top hb).fields in
    let of_core : texts.0 ≡ r.identity.text = ground (arith, et, core_file, board_file) in
    let of_board : texts.1 ≡ f.text = ground (arith, et, core_file, board_file) in
    let ((fpga_top, top_formats), (root, root_formats)) =
      target_config-formats host core board top {r = r} {config = c} hb er m
        (rw (← of_core, ← of_board) ec) in
    record {
      report = r;
      core_passes = er;
      fpga_top = fpga_top;
      top_formats = top_formats;
      root = root;
      root_formats = root_formats;
    }

-- `target_check` returns just when the board passes its check and each core that it lists passes its own,
-- with a top module and a work root that can be formatted for the pair.
pub target_check_iff :
    (host : Host) (board : Text)
    → ((target_check host board).result ≡ ok tt) ↔ (
        (x : BoardFields × Text) × (board_check host board ≡ ok x)
        × ((core : Text) → contains x.0.compatible_cores core ≡ true → Ready host board x.0 core))
target_check_iff host board = (
  λ h.
      let (x, eb, pairs) = target_check-pairs host board h in
      (x, eb, λ core m. check_pair-Ready host board x.1 core {f = x.0} eb m (pairs core m)),
  λ (x, eb, ready). target_check-passes host board x.1 {f = x.0} eb (λ core m.
      let r = ready core m in
      check_pair-PairPasses host core board x.1 {f = x.0} eb r.core_passes m r.top_formats
        r.root_formats),
)
