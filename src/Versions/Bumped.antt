-- ===== src/Versions/Bumped.antt =====
-- A sweep of bin/bump_version.py over the FuseSoC files: what its own check says of the files behind it.
use corejack.Prelude.{
  ℕ, true, false, not, List, [], ◌∷◌, ◌++◌, map, Option, some, ◌≡◌, ◌≢◌, refl, sym, ap, ◌∙◌, arith,
  if◌then◌else◌, all, inl, inr, Bool-cases, Option-cases, ◌&&◌, is_nil, ◌+◌,
}
use corejack.Text.{Text, text_eq, contains}
use corejack.Text.Laws.{text_eq_iff, text_eq_refl, text_eq-ne}
use corejack.Failure.{Result, ok, Result-cases}
use corejack.Splice.{behind_version}
use corejack.Edit.{Files, write, quietly, ◌>>=◌}
use corejack.Edit.Success.{>>=-eq-ok}
use corejack.Versions.{versions, replace_versions}
use corejack.Versions.Agree.{replace_versions-versions}
use corejack.Versions.Bump.{
  versions_of, all_versions, only_version, detect_current_version, rewrite_file, rewrite_all,
  bump_to, bump_main, collect_files, is_semver,
}
use corejack.Edit.Stays.{write-same, write-other}

module _ (new : Text) where
  abbrev renew : List Text → List Text
  renew = map λ _. new

  renew-renew : (vs : List Text) → renew (renew vs) ≡ renew vs
  renew-renew [] = refl
  renew-renew (v ∷ vs) = ap (λ (ws : List Text). new ∷ ws) (renew-renew vs)

  renew-append : (vs ws : List Text) → renew (vs ++ ws) ≡ renew vs ++ renew ws
  renew-append [] ws = refl
  renew-append (v ∷ vs) ws = ap (λ (us : List Text). new ∷ us) (renew-append vs ws)

  nil-renew : (vs : List Text) → is_nil vs ≡ true → vs ≡ renew vs
  nil-renew [] h = refl
  nil-renew (v ∷ vs) h = cc

  -- The versions of each file behind a sweep of the listed ones.
  abbrev Swept : List Text → Files → Files → Type 0
  Swept paths before after =
      (p : Text)
      → versions_of (after p)
        ≡ (if contains paths p then renew (versions_of (before p)) else versions_of (before p))

  Swept-one :
      (path : Text) (before after : Files)
      → versions_of (after path) ≡ renew (versions_of (before path))
      → ((p : Text) → path ≢ p → after p ≡ before p)
      → Swept (path ∷ []) before after
  Swept-one path before after here elsewhere p = elim (Bool-cases (text_eq p path)) [
    | inl same ↦
        let e : p ≡ path = (text_eq_iff p path).0 same in
        rw same (
          ap (λ (q : Text). versions_of (after q)) e
          ∙ here
          ∙ ap (λ (q : Text). renew (versions_of (before q))) (sym e))
    | inr other ↦ rw other (ap versions_of (elsewhere p λ e. text_eq-ne p path other (sym e)))
  ]

  unwritten-same :
      (text : Text)
      → behind_version new ≡ some []
      → (not (is_nil (versions 0 text)) && not (text_eq (replace_versions new 0 text) text)) ≡ false
      → versions 0 text ≡ renew (versions 0 text)
  unwritten-same text h e = elim (Bool-cases (text_eq (replace_versions new 0 text) text)) [
    | inl same ↦
        sym (ap (versions 0) ((text_eq_iff (replace_versions new 0 text) text).0 same))
        ∙ replace_versions-versions new 0 text h
    | inr differ ↦ nil-renew (versions 0 text) (ground (arith, e, differ))
  ]

  rewrite_file-Swept :
      (path : Text) (before : Files) {n : ℕ} {after : Files}
      → behind_version new ≡ some []
      → rewrite_file new path before ≡ (ok n, after)
      → Swept (path ∷ []) before after
  unfolding rewrite_file
  rewrite_file-Swept path before {n} {after} h done = elim (Option-cases (before path)) [
    | inl missing ↦ absurd (ground (arith, missing, done))
    | inr (text, there) ↦
        let updated : Text = replace_versions new 0 text in
        let renewed : versions 0 updated ≡ renew (versions 0 text) =
          replace_versions-versions new 0 text h in
        elim (Bool-cases (not (is_nil (versions 0 text)) && not (text_eq updated text))) [
          | inl written ↦
              let now : write path updated before ≡ after = ground (arith, done, there, written) in
              Swept-one path before after
                (ap (λ (s : Files). versions_of (s path)) (sym now)
                  ∙ ap versions_of (write-same path updated before)
                  ∙ renewed
                  ∙ sym (ap (λ (o : Option Text). renew (versions_of o)) there))
                λ p other.
                  ap (λ (s : Files). s p) (sym now) ∙ write-other p path updated before other
          | inr unwritten ↦
              let now : before ≡ after = ground (arith, done, there, unwritten) in
              Swept-one path before after
                (ap (λ (s : Files). versions_of (s path)) (sym now)
                  ∙ ap versions_of there
                  ∙ unwritten-same text h unwritten
                  ∙ sym (ap (λ (o : Option Text). renew (versions_of o)) there))
                λ p other. ap (λ (s : Files). s p) (sym now)
        ]
  ]

  rewrite_all-Swept :
      (paths : List Text) (before : Files) {n : ℕ} {after : Files}
      → behind_version new ≡ some []
      → rewrite_all new paths before ≡ (ok n, after)
      → Swept paths before after
  unfolding rewrite_all
  rewrite_all-Swept [] before h done p =
      ap (λ (r : Result ℕ × Files). versions_of (r.1 p)) (sym done)
  rewrite_all-Swept (path ∷ paths) before {n} {after} h done p =
      let (n1, s1, done1, rest1) =
        >>=-eq-ok (rewrite_file new path) (λ n. rewrite_all new paths >>= λ m. quietly (ok (n + m)))
          before done in
      let (n2, s2, done2, rest2) =
        >>=-eq-ok (rewrite_all new paths) (λ m. quietly (ok (n1 + m))) s1 rest1 in
      let end : s2 ≡ after = ap (λ (r : Result ℕ × Files). r.1) rest2 in
      let first = rewrite_file-Swept path before h done1 p in
      let later = rewrite_all-Swept paths s1 h done2 p in
      ap (λ (s : Files). versions_of (s p)) (sym end)
      ∙ later
      ∙ ground (arith, first, renew-renew (versions_of (before p)))

  all_versions-Swept :
      (listed paths : List Text) (before after : Files)
      → ((p : Text) → contains listed p ≡ true → contains paths p ≡ true)
      → Swept paths before after
      → all_versions after listed ≡ renew (all_versions before listed)
  unfolding all_versions
  all_versions-Swept [] paths before after inside h = refl
  all_versions-Swept (p ∷ listed) paths before after inside h =
      let listed_p : contains paths p ≡ true = inside p (ground (arith, text_eq_refl p)) in
      let here : versions_of (after p) ≡ renew (versions_of (before p)) =
        ground (arith, h p, listed_p) in
      let rest =
        all_versions-Swept listed paths before after (λ q m. inside q (ground (arith, m))) h in
      ap (λ (vs : List Text). vs ++ all_versions after listed) here
      ∙ ap (λ (vs : List Text). renew (versions_of (before p)) ++ vs) rest
      ∙ sym (renew-append (versions_of (before p)) (all_versions before listed))

  all-renew : (vs : List Text) → all (λ w. text_eq new w) (renew vs) ≡ true
  all-renew [] = refl
  all-renew (v ∷ vs) = ground (arith, text_eq_refl new, all-renew vs)

  only_version-renew :
      (vs : List Text) {current : Text}
      → only_version vs ≡ ok current
      → only_version (renew vs) ≡ ok new
  only_version-renew [] h = cc
  only_version-renew (v ∷ vs) h = rw (all-renew vs) refl

  bump_to-agrees :
      (paths : List Text) (current : Text) (before : Files) {n : ℕ} {after : Files}
      → behind_version new ≡ some []
      → detect_current_version before paths ≡ ok current
      → bump_to paths current new before ≡ (ok n, after)
      → detect_current_version after paths ≡ ok new
  unfolding bump_to detect_current_version
  bump_to-agrees paths current before {n} {after} h detected done =
      elim (Bool-cases (is_semver new)) [
        | inr bad ↦ absurd (ground (arith, done, bad))
        | inl good ↦ elim (Bool-cases (text_eq new current)) [
          | inl same ↦
              let unchanged : before ≡ after = ground (arith, done, good, same) in
              ap (λ (s : Files). only_version (all_versions s paths)) (sym unchanged)
              ∙ detected
              ∙ ap (λ (v : Text). ok v) (sym ((text_eq_iff new current).0 same))
          | inr other ↦
              let swept : rewrite_all new paths before ≡ (ok n, after) =
                ground (arith, done, good, other) in
              ap only_version (
                all_versions-Swept paths paths before after (λ q m. m)
                  (rewrite_all-Swept paths before h swept))
              ∙ only_version-renew (all_versions before paths) detected
        ]
      ]

  -- When a bump to a version returns, the names of CoreJack in the FuseSoC files that were there agree on
  -- that version, by the script's own detection. The version is a version number and nothing else.
  pub bump_main-agrees :
      (core_files : List Text) (before : Files) {n : ℕ} {after : Files}
      → behind_version new ≡ some []
      → bump_main core_files false (some new) before ≡ (ok n, after)
      → detect_current_version after (collect_files before core_files) ≡ ok new
  unfolding bump_main
  bump_main-agrees core_files before {n} {after} h done =
      let paths = collect_files before core_files in
      elim (Result-cases (detect_current_version before paths)) [
        | inl (message, failed) ↦ absurd (ground (arith, done, failed))
        | inr (current, detected) ↦
            bump_to-agrees paths current before {n = n} {after = after} h detected
              (ground (arith, done, detected))
      ]
