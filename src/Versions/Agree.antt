-- ===== src/Versions/Agree.antt =====
-- The sweep of bin/bump_version.py leaves each name of CoreJack with the new version.
use corejack.Prelude.{
  ℕ, zero, suc, ◌-◌, false, List, [], ◌∷◌, ◌++◌, map, none, some, ◌≡◌, refl, sym, ap, ◌∙◌, arith,
  inl, inr, Option-cases, append_assoc,
}
use corejack.Text.{Text, codes}
use corejack.Rtl.{is_digit}
use corejack.Splice.{behind_version, consumed}
use corejack.Yaml.Render.{first_is}
use corejack.Versions.{name_at, taken, versions, replace_versions}
use corejack.Versions.Parts.{take-prefix, behind_version-append, behind_version-parts}
use corejack.Versions.Sweep.{sweep}
use corejack.Versions.Replaced.{name_at-Match, sweep-kept, replace-skip, versions-skip, drop-taken}
use corejack.Versions.Kept.{name_at-kept, first-digit-sweep}

versions-kept : (c : ℕ) (s : Text) → name_at (c ∷ s) ≡ none → versions 0 (c ∷ s) ≡ versions 0 s
unfolding versions
versions-kept c s h = ground (arith, h)

versions-found :
    (c : ℕ) (s : Text) {v rest : Text}
    → name_at (c ∷ s) ≡ some (v, rest)
    → versions 0 (c ∷ s) ≡ consumed v rest ∷ versions (taken (c ∷ s) rest - 1) s
unfolding versions
versions-found c s h = ground (arith, h)

-- The version of one name, in front of a text that begins with no digit.
versions-name :
    (new name more : Text)
    → behind_version new ≡ some []
    → first_is is_digit more ≡ false
    → ((y z : Text)
        → behind_version y ≡ some z
        → name_at ((codes "corejack:" ++ name) ++ y) ≡ some (y, z))
    → versions 0 ((codes "corejack:" ++ name) ++ (new ++ more)) ≡ new ∷ versions 0 more
versions-name new name more h first other =
    let number : behind_version (new ++ more) ≡ some more =
      behind_version-append new more first h in
    let found = other (new ++ more) more number in
    let own : Text = codes "orejack:" ++ name in
    let tail : Text = own ++ (new ++ more) in
    let parts : tail ≡ (own ++ new) ++ more = sym (append_assoc own new more) in
    versions-found b'c' tail found
    ∙ ap (λ (t : Text). t ∷ versions (taken (b'c' ∷ tail) more - 1) tail) (take-prefix new more)
    ∙ ap (λ (vs : List Text). new ∷ vs)
        (versions-skip (taken (b'c' ∷ tail) more - 1) tail
          ∙ ap (versions 0) (drop-taken b'c' tail (own ++ new) more parts))

replace-suc :
    (new : Text) (k c : ℕ) (s : Text)
    → replace_versions new (suc k) (c ∷ s) ≡ replace_versions new k s
unfolding replace_versions
replace-suc new k c s = refl

versions-suc : (k c : ℕ) (s : Text) → versions (suc k) (c ∷ s) ≡ versions k s
unfolding versions
versions-suc k c s = refl

-- After the sweep, a text has as many versions of names of CoreJack as before, and each is the new
-- one. The new version is a version number and nothing else; `skip` characters of the text are left.
pub replace_versions-versions :
    (new : Text) (skip : ℕ) (s : Text)
    → behind_version new ≡ some []
    → versions 0 (replace_versions new skip s) ≡ map (λ _. new) (versions skip s)
replace_versions-versions new skip [] h = unfold versions replace_versions in refl
replace_versions-versions new (suc skip) (c ∷ s) h =
    ap (versions 0) (replace-suc new skip c s)
    ∙ replace_versions-versions new skip s h
    ∙ ap (map (λ _. new)) (sym (versions-suc skip c s))
replace_versions-versions new zero (c ∷ s) h = elim (Option-cases (name_at (c ∷ s))) [
  | inl nowhere ↦
      ap (versions 0) (sweep-kept new c s nowhere)
      ∙ versions-kept c (sweep new s) (name_at-kept new c s nowhere)
      ∙ replace_versions-versions new zero s h
      ∙ ap (map (λ _. new)) (sym (versions-kept c s nowhere))
  | inr ((v, rest), found) ↦
      let m = name_at-Match new c s found in
      let skip : ℕ = taken (c ∷ s) rest - 1 in
      let below = replace_versions-versions new skip s h in
      let same : replace_versions new skip s ≡ sweep new rest =
        replace-skip new skip s ∙ ap (sweep new) m.skipped in
      let (number, parts, first) = behind_version-parts v m.version in
      ap (versions 0) m.swept
      ∙ versions-name new m.name (sweep new rest) h (first-digit-sweep new rest ∙ first) m.other
      ∙ ap (λ (vs : List Text). new ∷ vs) (ap (versions 0) (sym same) ∙ below)
      ∙ ap (map (λ _. new)) (sym (versions-found c s found))
]
