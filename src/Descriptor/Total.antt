-- ===== src/Descriptor/Total.antt =====
-- `target_config` on descriptors that passed their checks.
use corejack.Prelude.{true, ◌≡◌, refl, sym, ap, ◌∙◌, arith}
use corejack.Text.{Text, codes, contains}
use corejack.Members.{for_each-contains}
use corejack.CoreCheck.Rules.{CoreReport, core_check}
use corejack.CoreCheck.Sound.{core_check-Passed}
use corejack.CoreCheck.Fields.{core_config-Passed}
use corejack.Failure.{ok, for_each, >>=-eq-ok}
use corejack.Host.{Host}
use corejack.Number.{quarter, show_int, pos}
use corejack.Descriptor.{check_template}
use corejack.Descriptor.Config.{
  BoardConfig, CoreConfig, TargetConfig, board_config, assemble, assembled, target_config,
  format_for, ram_bytes_of,
}
use corejack.BoardCheck.{BoardFields, board_fields}
use corejack.BoardCheck.Fields.{
  top_template-board_fields, target-board_fields, board_flag-board_fields, work_root-board_fields,
  jtag_adapter-board_fields, soc_hz-board_fields, uart_baud-board_fields, ram_bytes-board_fields,
  positive_of-scalar,
}
use corejack.BoardCheck.Ram.{ram_size}
use corejack.BoardCheck.Rules.{board_check, board_wrapper, board_targets, core_target}

board_config-checked :
    (host : Host) (core board : Text) {f : BoardFields} (target : Text)
    → board_fields host board ≡ ok f
    → check_template (codes "board top_template") f.top_template ≡ ok tt
    → check_template (codes "board fpga.target") f.fpga_target_template ≡ ok tt
    → format_for host core board f.fpga_target_template ≡ ok target
    → (b : BoardConfig) × (board_config host core board f.text ≡ ok b)
      × (b.top_template ≡ f.top_template)
      × (b.work_root ≡ f.work_root)
unfolding board_config
board_config-checked host core board {f} target h ht hg hf =
    let (soc, es) =
      positive_of-scalar board f.text (codes "clock") (codes "soc_hz")
        (soc_hz-board_fields host board h) in
    let (baud, eb) =
      positive_of-scalar board f.text (codes "uart") (codes "baud")
        (uart_baud-board_fields host board h) in
    let size = ram_size host f.text (ram_bytes-board_fields host board h) in
    (
      record {
        top_template = f.top_template;
        fpga_target = target;
        board_flag = f.board_flag;
        work_root = f.work_root;
        jtag_adapter = f.jtag_adapter;
        soc_clk_hz = soc;
        uart_baud = baud;
        ram_bytes = ram_bytes_of f.text;
        ram_words = show_int (quarter (pos size.bytes));
      },
      rw (
        top_template-board_fields host board h,
        ht,
        target-board_fields host board h,
        hg,
        hf,
        board_flag-board_fields host board h,
        work_root-board_fields host board h,
        jtag_adapter-board_fields host board h,
        es,
        eb,
        size.reads,
      ),
      refl,
      refl,
    )

check_template-label :
    (what what' t : Text) → check_template what t ≡ ok tt → check_template what' t ≡ ok tt
unfolding check_template
check_template-label what what' t h = ground arith

-- What a passed `board_check` says of the two templates that it formats.
pub record Templates (host : Host) (board : Text) (f : BoardFields) : Type 0 where
  pub fields : board_fields host board ≡ ok f
  pub top : check_template (codes "fpga.top_template") f.top_template ≡ ok tt
  pub target : check_template (codes "fpga.target") f.fpga_target_template ≡ ok tt
  pub targets : for_each (core_target host board f.fpga_target_template) f.compatible_cores ≡ ok tt

pub board_check-Templates :
    (host : Host) (board top : Text) {f : BoardFields}
    → board_check host board ≡ ok (f, top)
    → Templates host board f
unfolding board_check board_wrapper board_targets
board_check-Templates host board top {f} h = record {
  fields = ground arith;
  top = ground arith;
  target = ground arith;
  targets = ground arith;
}

core_target-formats :
    (host : Host) (board template core : Text)
    → core_target host board template core ≡ ok tt
    → (target : Text) × (format_for host core board template ≡ ok target)
unfolding core_target
core_target-formats host board template core h =
    let (target, e, _) = >>=-eq-ok (format_for host core board template) _ h in (target, e)

assemble-formats :
    (host : Host) (core board : Text) (b : BoardConfig) (c : CoreConfig) {fpga_top root : Text}
    → format_for host core board b.top_template ≡ ok fpga_top
    → format_for host core board b.work_root ≡ ok root
    → assemble host core board b c ≡ ok (assembled host b c fpga_top root)
unfolding assemble
assemble-formats host core board b c ht hr = rw (ht, hr)

assemble-eq-ok :
    (host : Host) (core board : Text) (b : BoardConfig) (c : CoreConfig) {config : TargetConfig}
    → assemble host core board b c ≡ ok config
    → ((fpga_top : Text) × (format_for host core board b.top_template ≡ ok fpga_top))
      × ((root : Text) × (format_for host core board b.work_root ≡ ok root))
unfolding assemble
assemble-eq-ok host core board b c h =
    let (fpga_top, et, h1) = >>=-eq-ok (format_for host core board b.top_template) _ h in
    let (root, er, h2) = >>=-eq-ok (format_for host core board b.work_root) _ h1 in
    ((fpga_top, et), (root, er))

-- For a pair whose checks pass, `target_config` comes down to the last two templates.
pub record Assembles (host : Host) (core board : Text) (f : BoardFields) (r : CoreReport)
    : Type 0 where
  pub board_part : BoardConfig
  pub core_part : CoreConfig
  pub assembles :
      target_config host core board r.identity.text f.text
      ≡ assemble host core board board_part core_part
  pub top_template : board_part.top_template ≡ f.top_template
  pub work_root : board_part.work_root ≡ f.work_root

checked-Assembles :
    (host : Host) (core board top : Text) {f : BoardFields} {r : CoreReport}
    → board_check host board ≡ ok (f, top)
    → core_check host core ≡ ok r
    → contains f.compatible_cores core ≡ true
    → Assembles host core board f r
unfolding target_config
checked-Assembles host core board top {f} {r} hb hc m =
    let t = board_check-Templates host board top hb in
    let (target, eg) =
      core_target-formats host board f.fpga_target_template core
        (for_each-contains _ f.compatible_cores core t.targets m) in
    let (b, eb, et, ew) =
      board_config-checked host core board target t.fields
        (check_template-label (codes "fpga.top_template") (codes "board top_template")
          f.top_template t.top)
        (check_template-label (codes "fpga.target") (codes "board fpga.target")
          f.fpga_target_template t.target)
        eg in
    let (c, ec) = core_config-Passed host core board (core_check-Passed host core hc) in
    record {
      board_part = b;
      core_part = c;
      assembles = rw (eb, ec) refl;
      top_template = et;
      work_root = ew;
    }

-- A configuration of such a pair has formatted both of them.
pub target_config-formats :
    (host : Host) (core board top : Text) {f : BoardFields} {r : CoreReport} {config : TargetConfig}
    → board_check host board ≡ ok (f, top)
    → core_check host core ≡ ok r
    → contains f.compatible_cores core ≡ true
    → target_config host core board r.identity.text f.text ≡ ok config
    → ((fpga_top : Text) × (format_for host core board f.top_template ≡ ok fpga_top))
      × ((root : Text) × (format_for host core board f.work_root ≡ ok root))
target_config-formats host core board top hb hc m h =
    let a = checked-Assembles host core board top hb hc m in
    let ((fpga_top, et), (root, er)) =
      assemble-eq-ok host core board a.board_part a.core_part (sym a.assembles ∙ h) in
    (
      (fpga_top, ap (format_for host core board) (sym a.top_template) ∙ et),
      (root, ap (format_for host core board) (sym a.work_root) ∙ er),
    )

-- A board that passes its check and lists a core that passes its own has a configuration with that
-- core, if the top module and the work root can be formatted for the pair.
pub target_config-checked :
    (host : Host) (core board top : Text) {f : BoardFields} {r : CoreReport} {fpga_top root : Text}
    → board_check host board ≡ ok (f, top)
    → core_check host core ≡ ok r
    → contains f.compatible_cores core ≡ true
    → format_for host core board f.top_template ≡ ok fpga_top
    → format_for host core board f.work_root ≡ ok root
    → (c : TargetConfig) × (target_config host core board r.identity.text f.text ≡ ok c)
      × (c.fpga_top ≡ fpga_top)
      × (c.fpga_work_root ≡ host.resolve root)
target_config-checked host core board top {fpga_top = fpga_top} {root = root} hb hc m ht hr =
    let a = checked-Assembles host core board top hb hc m in
    (
      assembled host a.board_part a.core_part fpga_top root,
      a.assembles
          ∙ assemble-formats host core board a.board_part a.core_part (rw a.top_template ht)
              (rw a.work_root hr),
      refl,
      refl,
    )
