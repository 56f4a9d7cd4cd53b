-- ===== src/Target/Matrix.antt =====
-- `target_check` over all cores of a board.
use corejack.Prelude.{
  true, false, List, [], ◌∷◌, ◌≡◌, refl, ap, arith, is_nil, inl, inr, Bool-cases,
}
use corejack.Text.{Text, text_eq, contains}
use corejack.Text.Laws.{text_eq_iff, text_eq_refl}
use corejack.Failure.{ok, or_fail}
use corejack.Host.{Host, board_dir, descriptor_path}
use corejack.Script.{Script, quietly, >>=-eq-ok, for_each}
use corejack.Yaml.{yaml_top_list}
use corejack.CoreCheck.{checks}
use corejack.BoardCheck.{BoardFields}
use corejack.BoardCheck.Fields.{file-board_fields, compatible_cores-board_fields}
use corejack.BoardCheck.Rules.{board_check, board_rules}
use corejack.Descriptor.Total.{board_check-Templates}
use corejack.Target.{check_pair, require_cores, target_check}
use corejack.Target.Checked.{PairPasses}

-- A loop of scripts that all return has returned.
for_each-ok :
    (f : Text → Script (Unit {0})) (xs : List Text)
    → ((x : Text) → contains xs x ≡ true → (f x).result ≡ ok tt)
    → (for_each f xs).result ≡ ok tt
unfolding for_each
for_each-ok f [] h = refl
for_each-ok f (x ∷ xs) h =
    ground (arith, h x (rw (text_eq_refl x)), for_each-ok f xs (λ y m. h y (rw m (ground arith))))

-- And conversely.
for_each-all :
    (f : Text → Script (Unit {0})) (xs : List Text) (x : Text)
    → (for_each f xs).result ≡ ok tt
    → contains xs x ≡ true
    → (f x).result ≡ ok tt
unfolding for_each
for_each-all f [] x h m = cc
for_each-all f (y ∷ xs) x h m = elim (Bool-cases (text_eq x y)) [
  | inl same ↦ rw ((text_eq_iff x y).0 same) (ground arith)
  | inr other ↦ for_each-all f xs x (ground arith) (ground arith)
]

board_check-nonempty :
    (host : Host) (board top : Text) {f : BoardFields}
    → board_check host board ≡ ok (f, top)
    → is_nil f.compatible_cores ≡ false
unfolding board_check board_rules checks
board_check-nonempty host board top h = ground arith

-- The matrix of a board passes if the board passes its check and every pair with a core that the board
-- lists passes.
pub target_check-passes :
    (host : Host) (board top : Text) {f : BoardFields}
    → board_check host board ≡ ok (f, top)
    → ((core : Text) → contains f.compatible_cores core ≡ true → PairPasses host board core)
    → (target_check host board).result ≡ ok tt
unfolding target_check
target_check-passes host board top {f} hb pairs =
    let fields = (board_check-Templates host board top hb).fields in
    let loop =
      for_each-ok (check_pair host board) f.compatible_cores
        (λ core m. ap (λ (s : Script (Unit {0})). s.result) (pairs core m).passes) in
    rw (
      file-board_fields host board fields,
      ← compatible_cores-board_fields host board fields,
      board_check-nonempty host board top hb,
      hb,
      loop,
    )

pub target_check-pairs :
    (host : Host) (board : Text)
    → (target_check host board).result ≡ ok tt
    → (x : BoardFields × Text) × (board_check host board ≡ ok x)
      × ((core : Text)
          → contains x.0.compatible_cores core ≡ true
          → (check_pair host board core).result ≡ ok tt)
unfolding target_check
target_check-pairs host board h =
    let read = or_fail (host.file (descriptor_path board_dir board)) _ in
    let (text, et, h1) = >>=-eq-ok (quietly read) _ h in
    let (cores, ec, h2) = >>=-eq-ok (quietly (require_cores board (yaml_top_list text _))) _ h1 in
    let (x, eb, h3) = >>=-eq-ok (quietly (board_check host board)) _ h2 in
    let (_, el, _) = >>=-eq-ok (for_each (check_pair host board) cores) _ h3 in
    let fields = (board_check-Templates host board x.1 {f = x.0} eb).fields in
    let same : cores ≡ x.0.compatible_cores = ground (
      arith,
      ec,
      et,
      file-board_fields host board fields,
      compatible_cores-board_fields host board fields,
    ) in
    (x, eb, λ core m. for_each-all (check_pair host board) cores core el (rw same m))
