-- ===== src/Tests/MatrixRuns.antt =====
-- The readers of scalars on a descriptor of two lines, and the page of the small repository.
use corejack.Prelude.{true, List, [], ◌∷◌, ◌≡◌, sym, subst, arith, Bool-cases, inl, inr}
use corejack.Text.{Text, codes, is_some, contains, text_eq}
use corejack.Text.Laws.{text_eq_iff}
use corejack.Failure.{ok}
use corejack.Yaml.{yaml_path_scalar}
use corejack.SupportMatrix.{path_scalar}
use corejack.SupportMatrix.Pages.{render}
use corejack.SupportMatrix.Presence.{path_scalar-presence}
use corejack.SupportMatrix.Rendered.{render-checked}
use corejack.Tests.Repo.{repo}
use corejack.Tests.Runs.{runs}

path_scalar-presence_example :
    is_some (path_scalar (codes "isa:\n  xlen: '32'\n") (codes "isa" ∷ codes "xlen" ∷ []))
    ≡ is_some (yaml_path_scalar (codes "isa:\n  xlen: '32'\n") (codes "isa" ∷ codes "xlen" ∷ []))
path_scalar-presence_example =
    path_scalar-presence (codes "isa:\n  xlen: '32'\n") (codes "isa" ∷ codes "xlen" ∷ [])

only_name :
    (name other : Text) {names : List Text}
    → names ≡ name ∷ []
    → contains names other ≡ true
    → name ≡ other
only_name name other e m = elim (Bool-cases (text_eq other name)) [
  | inl same ↦ sym ((text_eq_iff other name).0 same)
  | inr differs ↦ absurd (ground (arith, differs, subst (λ ns. contains ns other ≡ true) e m))
]

render-checked_example : (page : Text) × (render repo ≡ ok page)
render-checked_example =
    render-checked repo
      (λ core m.
        rw (← only_name (codes "c") core runs.core_names m) (runs.report, runs.core_passes))
      (λ board m.
        rw (← only_name (codes "b") board runs.board_names m)
          ((runs.fields, runs.top), runs.board_passes))
