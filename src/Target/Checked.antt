-- ===== src/Target/Checked.antt =====
-- What a passed `target_check` guarantees, and when it passes.
use corejack.Prelude.{true, false, [], ◌∷◌, ◌++◌, none, some, ◌≡◌, arith, inl, inr, Bool-cases}
use corejack.Text.{Text, codes, text_eq, contains}
use corejack.Text.Laws.{text_eq_iff}
use corejack.Failure
use corejack.Failure.{Failure, Result, ok, err, or_fail, check}
use corejack.Host.{Host, core_dir, descriptor_path}
use corejack.Script.{print}
use corejack.Yaml.{yaml_top_list}
use corejack.Descriptor.{integration_status, load_descriptors, is_compatible, excludes}
use corejack.Descriptor.Config.{format_for}
use corejack.Descriptor.Total.{board_check-Templates, target_config-checked}
use corejack.CoreCheck.Rules.{CoreReport, core_check}
use corejack.CoreCheck.Sound.{core_check-Passed}
use corejack.CoreCheck.Fields.{file-core_identity}
use corejack.BoardCheck.{BoardFields}
use corejack.BoardCheck.Fields.{file-board_fields, compatible_cores-board_fields}
use corejack.BoardCheck.Rules.{board_check, names_board, board_cores}
use corejack.Members.{for_each-contains, contains-excludes}
use corejack.Target.{target_line, flow_result, check_pair}

names_board-excludes :
    (host : Host) (board core : Text) {core_text : Text}
    → names_board host board core ≡ ok tt
    → host.file (descriptor_path core_dir core) ≡ some core_text
    → excludes (yaml_top_list core_text (codes "compatible_boards")) board ≡ false
unfolding names_board
names_board-excludes host board core h file = ground arith

board_check-board_cores :
    (host : Host) (board top : Text) {f : BoardFields}
    → board_check host board ≡ ok (f, top)
    → Failure.for_each (names_board host board) f.compatible_cores ≡ ok tt
unfolding board_check board_cores
board_check-board_cores host board top h = ground arith

-- A pair whose lists allow one another is compatible for every flow with status `supported`.
is_compatible-listed :
    (core board core_text board_text flow : Text)
    → excludes (yaml_top_list core_text (codes "compatible_boards")) board ≡ false
    → excludes (yaml_top_list board_text (codes "compatible_cores")) core ≡ false
    → text_eq (integration_status core_text flow) (codes "supported") ≡ true
    → is_compatible core board core_text board_text flow false ≡ none
unfolding is_compatible text_eq
is_compatible-listed core board core_text board_text flow hc hb hs =
    rw ((text_eq_iff (integration_status core_text flow) (codes "supported")).0 hs, hc, hb)

-- Then no flow of `target_check` fails.
flow_result-listed :
    (core board core_text board_text flow : Text)
    → excludes (yaml_top_list core_text (codes "compatible_boards")) board ≡ false
    → excludes (yaml_top_list board_text (codes "compatible_cores")) core ≡ false
    → (t : Text) × (flow_result core board core_text board_text flow ≡ ok t)
unfolding flow_result
flow_result-listed core board core_text board_text flow hc hb =
    elim (Bool-cases (text_eq (integration_status core_text flow) (codes "supported"))) [
      | inl yes_supported ↦ (
        flow ++ codes ":supported",
        rw (
          yes_supported,
          is_compatible-listed core board core_text board_text flow hc hb yes_supported,
        ),
      )
      | inr other ↦ (flow ++ (b':' ∷ integration_status core_text flow), rw other)
    ]

-- The pair prints one line and does not fail.
pub record PairPasses (host : Host) (board core : Text) : Type 0 where
  pub line : Text
  pub passes : check_pair host board core ≡ print (line ∷ [])

-- For a board and a listed core that pass their checks, and whose top module and work root can be
-- formatted, the step of `target_check` for the pair prints one line and goes on.
pub check_pair-PairPasses :
    (host : Host) (core board top : Text) {f : BoardFields} {r : CoreReport} {fpga_top root : Text}
    → board_check host board ≡ ok (f, top)
    → core_check host core ≡ ok r
    → contains f.compatible_cores core ≡ true
    → format_for host core board f.top_template ≡ ok fpga_top
    → format_for host core board f.work_root ≡ ok root
    → PairPasses host board core
unfolding check_pair load_descriptors
check_pair-PairPasses host core board top {f} {r} hb hc m ht hr =
    let fields = (board_check-Templates host board top hb).fields in
    let core_file = file-core_identity host core (core_check-Passed host core hc).identity in
    let board_file = file-board_fields host board fields in
    let (c, ec, _, _) = target_config-checked host core board top hb hc m ht hr in
    let not_core =
      names_board-excludes host board core
        (for_each-contains (names_board host board) f.compatible_cores core
          (board_check-board_cores host board top hb) m)
        core_file in
    let not_board : excludes (yaml_top_list f.text (codes "compatible_cores")) core ≡ false =
      rw (← compatible_cores-board_fields host board fields)
        (contains-excludes f.compatible_cores core m) in
    let (sim, es) =
      flow_result-listed core board r.identity.text f.text (codes "sim") not_core not_board in
    let (fpga, ef) =
      flow_result-listed core board r.identity.text f.text (codes "fpga") not_core not_board in
    let (debug, ed) =
      flow_result-listed core board r.identity.text f.text (codes "debug") not_core not_board in
    record {
      line = target_line core board c (sim ∷ fpga ∷ debug ∷ []);
      passes = rw (hc, core_file, board_file, ec, es, ef, ed);
    }
