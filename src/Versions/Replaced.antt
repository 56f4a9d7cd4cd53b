-- ===== src/Versions/Replaced.antt =====
-- After the sweep of bin/bump_version.py, each name of CoreJack has the new version.
use corejack.Prelude.{
  ℕ, zero, suc, ◌+◌, ◌-◌, [], ◌∷◌, ◌++◌, Option, none, some, ◌≡◌, ◌≢◌, refl, sym, ap, ◌∙◌, arith,
  length, drop, inl, inr, Option-cases, append_assoc, length-append,
}
use corejack.Text.{Text, codes, strip_prefix}
use corejack.Splice.{behind_version, consumed}
use corejack.Versions.{name_at, taken, versions, replace_versions}
use corejack.Versions.Parts.{take-prefix, drop-prefix, behind_version-parts}
use corejack.Versions.Sweep.{sweep, name_at-Named, version_at-behind}

pub replace-skip : (new : Text) (k : ℕ) (s : Text) → replace_versions new k s ≡ sweep new (drop k s)
unfolding replace_versions
replace-skip new zero s = refl
replace-skip new (suc k) [] = refl
replace-skip new (suc k) (c ∷ s) = replace-skip new k s

pub versions-skip : (k : ℕ) (s : Text) → versions k s ≡ versions 0 (drop k s)
unfolding versions
versions-skip zero s = refl
versions-skip (suc k) [] = refl
versions-skip (suc k) (c ∷ s) = versions-skip k s

pub drop-taken :
    (c : ℕ) (s front rest : Text) → s ≡ front ++ rest → drop (taken (c ∷ s) rest - 1) s ≡ rest
drop-taken c s front rest same =
    let size : length s ≡ length front + length rest = ap length same ∙ length-append front rest in
    let count : taken (c ∷ s) rest - 1 ≡ length (front ++ rest) - length rest =
      omega (arith, size, length-append front rest) in
    ap (λ (n : ℕ). drop n s) count
    ∙ ap (drop (length (front ++ rest) - length rest)) same
    ∙ drop-prefix front rest

-- A match, and the text behind the sweep from there.
pub record Match (new : Text) (c : ℕ) (s at_version rest : Text) : Type 0 where
  pub name : Text
  pub text : c ∷ s ≡ (codes "corejack:" ++ name) ++ at_version
  pub swept : sweep new (c ∷ s) ≡ (codes "corejack:" ++ name) ++ (new ++ sweep new rest)
  pub skipped : drop (taken (c ∷ s) rest - 1) s ≡ rest
  pub version : behind_version at_version ≡ some rest
  pub other :
      (y z : Text)
      → behind_version y ≡ some z
      → name_at ((codes "corejack:" ++ name) ++ y) ≡ some (y, z)

sweep-match :
    (new : Text) (c : ℕ) (s : Text) {v rest : Text}
    → name_at (c ∷ s) ≡ some (v, rest)
    → sweep new (c ∷ s)
      ≡ consumed (c ∷ s) v ++ (new ++ replace_versions new (taken (c ∷ s) rest - 1) s)
unfolding replace_versions
sweep-match new c s h = ground (arith, h)

abbrev tail_of : Text → Text
tail_of [] = []
tail_of (c ∷ s) = s

abbrev pub head_of : Text → ℕ
head_of [] = 0
head_of (c ∷ s) = c

pub name_at-Match :
    (new : Text) (c : ℕ) (s : Text) {v rest : Text}
    → name_at (c ∷ s) ≡ some (v, rest)
    → Match new c s v rest
name_at-Match new c s {v} {rest} h =
    let (name, text, version, other) = name_at-Named (c ∷ s) h in
    let behind : behind_version v ≡ some rest = version_at-behind v v version in
    let (number, parts, _) = behind_version-parts v behind in
    let own : Text = codes "orejack:" ++ name in
    let tail : s ≡ own ++ v = ap tail_of text in
    let front : s ≡ (own ++ number) ++ rest =
      tail ∙ ap (λ (t : Text). own ++ t) parts ∙ sym (append_assoc own number rest) in
    let skipped = drop-taken c s (own ++ number) rest front in
    let named : consumed (c ∷ s) v ≡ codes "corejack:" ++ name =
      ap (λ (t : Text). consumed t v) text ∙ take-prefix (codes "corejack:" ++ name) v in
    let later : replace_versions new (taken (c ∷ s) rest - 1) s ≡ sweep new rest =
      replace-skip new (taken (c ∷ s) rest - 1) s ∙ ap (sweep new) skipped in
    record {
      name = name;
      text = text;
      skipped = skipped;
      version = behind;
      other = other;
      swept =
          sweep-match new c s h
          ∙ ap (λ (t : Text). consumed (c ∷ s) v ++ (new ++ t)) later
          ∙ ap (λ (t : Text). t ++ (new ++ sweep new rest)) named;
    }

pub sweep-kept :
    (new : Text) (c : ℕ) (s : Text) → name_at (c ∷ s) ≡ none → sweep new (c ∷ s) ≡ c ∷ sweep new s
unfolding replace_versions
sweep-kept new c s h = ground (arith, h)

abbrev pub lift : (Text → Text) → Option Text → Option Text
lift f none = none
lift f (some a) = some (f a)

-- A character that begins no name is the first of the swept text just when it was the first before.
pub strip-sweep :
    (new : Text) (x : ℕ) (p s : Text)
    → x ≢ b'c'
    → ((t : Text) → strip_prefix p (sweep new t) ≡ lift (sweep new) (strip_prefix p t))
    → strip_prefix (x ∷ p) (sweep new s) ≡ lift (sweep new) (strip_prefix (x ∷ p) s)
unfolding strip_prefix
strip-sweep new x p [] h below = unfold replace_versions in refl
strip-sweep new x p (c ∷ s) h below = elim (Option-cases (name_at (c ∷ s))) [
  | inl nowhere ↦ rw (sweep-kept new c s nowhere) (ground (arith, below s))
  | inr ((v, rest), found) ↦
      let m = name_at-Match new c s found in
      let first : c ≡ b'c' = ap head_of m.text in rw (m.swept, first) (ground (arith, h))
]
