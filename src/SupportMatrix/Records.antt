-- ===== src/SupportMatrix/Records.antt =====
-- What bin/render_support_matrix.py reads of a descriptor that passes its check by bin/validate_target.py.
use corejack.Prelude.{List, [], ◌∷◌, ◌≡◌, refl, sym, arith, Option-cases, inl, inr}
use corejack.Text.{Text, codes}
use corejack.Failure.{ok, >>=-eq-ok}
use corejack.Host.{Host, core_dir, board_dir, descriptor_path}
use corejack.Descriptor.{at1, at2, or_default, require_scalar}
use corejack.Descriptor.Total.{board_check-Templates}
use corejack.Descriptor.Config.{core_label, board_label}
use corejack.CoreCheck.{core_identity, core_settings, positive_field}
use corejack.CoreCheck.Rules.{CoreReport, core_check, core_debug}
use corejack.CoreCheck.Sound.{Passed, core_check-Passed}
use corejack.CoreCheck.Fields.{file-core_identity, march-core_settings, mabi-core_settings}
use corejack.BoardCheck.{BoardFields, board_fields, field_of}
use corejack.BoardCheck.Fields.{
  positive_of-scalar, soc_hz-board_fields, uart_baud-board_fields, require_scalar-some,
  file-board_fields, compatible_cores-board_fields,
}
use corejack.BoardCheck.Rules.{board_check}
use corejack.SupportMatrix.{
  CoreRow, BoardRow, field, path_scalar, top_list, core_record, board_record,
}
use corejack.SupportMatrix.Presence.{path_scalar-presence}

-- A scalar that one script requires is there for the other one.
field-ok :
    (text : Text) (path : List Text) (d d' : Text) {v : Text}
    → require_scalar text path d ≡ ok v
    → (w : Text) × (field text path d' ≡ ok w)
unfolding field
field-ok text path d d' h = elim (Option-cases (path_scalar text path)) [
  | inr (w, e) ↦ (w, rw e refl)
  | inl e ↦
      absurd (ground (arith, e, path_scalar-presence text path, require_scalar-some text path d h))
]

positive_field-scalar :
    (core text a b : Text) {n : _}
    → positive_field core text a b ≡ ok n
    → (v : Text) × (require_scalar text (at2 a b) (core_label core) ≡ ok v)
unfolding positive_field
positive_field-scalar core text a b h =
    let (v, e, _) = >>=-eq-ok (require_scalar text (at2 a b) (core_label core)) _ h in (v, e)

module _ (host : Host) (core : Text) {r : CoreReport} (p : Passed host core r) where
  reads_display_name :
      require_scalar r.identity.text (at1 (codes "display_name")) (core_label core)
      ≡ ok r.identity.display_name
  unfolding core_identity
  reads_display_name = ground (arith, p.identity)

  reads_sim :
      require_scalar r.identity.text (at2 (codes "integration") (codes "sim")) (core_label core)
      ≡ ok r.identity.sim
  unfolding core_identity
  reads_sim = ground (arith, p.identity)

  reads_fpga :
      require_scalar r.identity.text (at2 (codes "integration") (codes "fpga")) (core_label core)
      ≡ ok r.identity.fpga
  unfolding core_identity
  reads_fpga = ground (arith, p.identity)

  reads_debug :
      require_scalar r.identity.text (at2 (codes "integration") (codes "debug")) (core_label core)
      ≡ ok r.identity.debug
  unfolding core_identity
  reads_debug = ground (arith, p.identity)

  reads_xlen : positive_field core r.identity.text (codes "isa") (codes "xlen") ≡ ok r.settings.xlen
  unfolding core_settings
  reads_xlen = ground (arith, p.settings)

  reads_debug_supported :
      (v : Text) × (require_scalar r.identity.text
          (at2 (codes "debug") (codes "supported"))
          (core_label core)
        ≡ ok v)
  unfolding core_debug
  reads_debug_supported =
      let (v, e, _) =
        >>=-eq-ok
          (require_scalar r.identity.text (at2 (codes "debug") (codes "supported"))
            (core_label core))
          _ p.debug in
      (v, e)

-- A core that passes its check has a row.
pub core_record-checked :
    (host : Host) (core : Text) {r : CoreReport}
    → core_check host core ≡ ok r
    → (row : CoreRow) × (core_record host core ≡ ok row) × (row.name ≡ core)
unfolding core_record
core_record-checked host core {r} h =
    let p = core_check-Passed host core h in
    let text = r.identity.text in
    let path = descriptor_path core_dir core in
    let (display, e1) =
      field-ok text (at1 (codes "display_name")) (core_label core) path
        (reads_display_name host core p) in
    let (_, ex) =
      positive_field-scalar core text (codes "isa") (codes "xlen") (reads_xlen host core p) in
    let (xlen, e2) = field-ok text (at2 (codes "isa") (codes "xlen")) (core_label core) path ex in
    let (march, e3) =
      field-ok text (at2 (codes "isa") (codes "march")) (core_label core) path
        (march-core_settings core text p.settings) in
    let (mabi, e4) =
      field-ok text (at2 (codes "isa") (codes "mabi")) (core_label core) path
        (mabi-core_settings core text p.settings) in
    let (sim, e5) =
      field-ok text (at2 (codes "integration") (codes "sim")) (core_label core) path
        (reads_sim host core p) in
    let (fpga, e6) =
      field-ok text (at2 (codes "integration") (codes "fpga")) (core_label core) path
        (reads_fpga host core p) in
    let (debug, e7) =
      field-ok text (at2 (codes "integration") (codes "debug")) (core_label core) path
        (reads_debug host core p) in
    let (_, ed) = reads_debug_supported host core p in
    let (debug_supported, e8) =
      field-ok text (at2 (codes "debug") (codes "supported")) (core_label core) path ed in
    (
      record {
        name = core;
        display = display;
        xlen = xlen;
        march = march;
        mabi = mabi;
        sim = sim;
        fpga = fpga;
        debug = debug;
        zephyr =
            or_default (path_scalar text (codes "software" ∷ codes "zephyr" ∷ codes "status" ∷ []))
              (codes "planned");
        debug_supported = debug_supported;
        compatible_boards = top_list text (codes "compatible_boards");
      },
      rw (file-core_identity host core p.identity, e1, e2, e3, e4, e5, e6, e7, e8) refl,
      refl,
    )

module _ (host : Host) (board : Text) {f : BoardFields} (h : board_fields host board ≡ ok f) where
  display_name-board_fields :
      require_scalar f.text (at1 (codes "display_name")) (board_label board) ≡ ok f.display_name
  unfolding board_fields
  display_name-board_fields = ground (arith, h)

  part-board_fields :
      require_scalar f.text (at2 (codes "fpga") (codes "part")) (board_label board) ≡ ok f.part
  unfolding board_fields field_of
  part-board_fields = ground (arith, h)

-- A board that passes its check has its tables, with the cores that the check has read.
pub board_record-checked :
    (host : Host) (board top : Text) {f : BoardFields}
    → board_check host board ≡ ok (f, top)
    → (row : BoardRow) × (board_record host board ≡ ok row)
      × (row.compatible_cores ≡ f.compatible_cores)
unfolding board_record
board_record-checked host board top {f} h =
    let fields = (board_check-Templates host board top h).fields in
    let text = f.text in
    let path = descriptor_path board_dir board in
    let (display, e1) =
      field-ok text (at1 (codes "display_name")) (board_label board) path
        (display_name-board_fields host board fields) in
    let (part, e2) =
      field-ok text (at2 (codes "fpga") (codes "part")) (board_label board) path
        (part-board_fields host board fields) in
    let (soc, es) =
      positive_of-scalar board text (codes "clock") (codes "soc_hz")
        (soc_hz-board_fields host board fields) in
    let (soc_hz, e3) =
      field-ok text (at2 (codes "clock") (codes "soc_hz")) (board_label board) path es in
    let (baud, eb) =
      positive_of-scalar board text (codes "uart") (codes "baud")
        (uart_baud-board_fields host board fields) in
    let (uart_baud, e4) =
      field-ok text (at2 (codes "uart") (codes "baud")) (board_label board) path eb in
    (
      record {
        name = board;
        display = display;
        part = part;
        soc_hz = soc_hz;
        uart_baud = uart_baud;
        compatible_cores = top_list text (codes "compatible_cores");
      },
      rw (file-board_fields host board fields, e1, e2, e3, e4) refl,
      (unfold top_list in sym (compatible_cores-board_fields host board fields)),
    )
