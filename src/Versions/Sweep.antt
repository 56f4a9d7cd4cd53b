-- ===== src/Versions/Sweep.antt =====
-- The sweep of bin/bump_version.py keeps each character outside of the versions, so that what was no
-- name of CoreJack before it is none behind it.
use corejack.Prelude.{
  ℕ, zero, Bool, true, false, [], ◌∷◌, ◌++◌, Option, none, some, ◌≡◌, ◌≢◌, refl, sym, ap, ◌∙◌,
  arith, ◌==◌, length, drop, inl, inr, Bool-cases, Option-cases, ◌&&◌,
}
use corejack.Text.{Text, codes, is_key_char, strip_prefix, take_while, is_alnum}
use corejack.Rtl.{is_digit}
use corejack.Splice.{digits_then, behind_version}
use corejack.Versions.{Found, version_at, name_segments, name_at, replace_versions}

abbrev pub sweep : Text → Text → Text
sweep new = replace_versions new zero

abbrev lift {ℓ} : {A : Type ℓ} → (A → A) → Option A → Option A
lift f none = none
lift f (some a) = some (f a)

-- A name begins with a `c`.
pub name_at-first : (c : ℕ) (s : Text) → c ≢ b'c' → name_at (c ∷ s) ≡ none
unfolding name_at strip_prefix
name_at-first c s h = ground (arith, h)

pub sweep-first : (new : Text) (c : ℕ) (s : Text) → c ≢ b'c' → sweep new (c ∷ s) ≡ c ∷ sweep new s
unfolding replace_versions
sweep-first new c s h = ground (arith, name_at-first c s h)

strip_prefix-some : (p s : Text) {t : Text} → strip_prefix p s ≡ some t → s ≡ p ++ t
unfolding strip_prefix
strip_prefix-some [] s h = ground (arith, h)
strip_prefix-some (a ∷ p) [] h = cc
strip_prefix-some (a ∷ p) (b ∷ s) {t} h = ground (arith, h, strip_prefix-some p s {t = t})

-- What a name at a place is: the word, and a version behind its name_segments.
pub name_at-some :
    (s : Text) {f : Text × Text}
    → name_at s ≡ some f
    → (t : Text) × (s ≡ codes "corejack:" ++ t) × (name_segments false t ≡ some f)
unfolding name_at
name_at-some s {f} h = elim (Option-cases (strip_prefix (codes "corejack:") s)) [
  | inl other ↦ absurd (ground (arith, other, h))
  | inr (t, begins) ↦ (t, strip_prefix-some (codes "corejack:") s begins, ground (arith, begins, h))
]

digit-key : (c : ℕ) → is_digit c ≡ true → is_key_char c ≡ true
unfolding is_key_char is_alnum
digit-key c h = ground arith

dot-first : (c : ℕ) (s : Text) {r : Text} → strip_prefix (codes ".") (c ∷ s) ≡ some r → c ≡ b'.'
unfolding strip_prefix
dot-first c s h = ground (arith, h)

dot_key : is_key_char b'.' ≡ false
unfolding is_key_char is_alnum
dot_key = refl

-- Digits and a dot are no segment.
digits-no_segment :
    (read : Bool) (y : Text) {r : Text}
    → strip_prefix (codes ".") (drop (length (take_while is_digit y)) y) ≡ some r
    → name_segments read y ≡ none
unfolding take_while name_segments
digits-no_segment read [] h = refl
digits-no_segment read (c ∷ s) {r} h = elim (Bool-cases (is_digit c)) [
  | inl digit ↦
      let inside : name_segments true s ≡ none =
        digits-no_segment true s {r = r} (ground (arith, h, digit)) in
      ground (arith, digit-key c digit, inside)
  | inr other ↦
      let dot : c ≡ b'.' = dot-first c s {r = r} (ground (arith, h, other)) in
      rw dot (ground (arith, dot_key))
]

version-no_segment :
    (y : Text) {r : Text} → behind_version y ≡ some r → name_segments false y ≡ none
unfolding behind_version digits_then
version-no_segment y h =
    elim (Option-cases (strip_prefix (codes ".") (drop (length (take_while is_digit y)) y))) [
      | inl no_dot ↦ absurd (ground (arith, h, no_dot))
      | inr (r, dot) ↦ digits-no_segment false y dot
    ]

version_at-same : (s : Text) {v rest : Text} → version_at s ≡ some (v, rest) → s ≡ v
version_at-same s h = elim (Option-cases (behind_version s)) [
  | inl bad ↦ absurd (ground (arith, h, bad))
  | inr (r, good) ↦ ground (arith, h, good)
]

pub version_at-behind :
    (s v : Text) {rest : Text} → version_at v ≡ some (s, rest) → behind_version v ≡ some rest
version_at-behind s v h = elim (Option-cases (behind_version v)) [
  | inl bad ↦ absurd (ground (arith, h, bad))
  | inr (r, good) ↦ ground (arith, h, good)
]

-- The name in a match, and that another version behind it is found instead.
abbrev pub Named : (Text → Found) → Text → Text → Text → Type 0
Named reads s v rest =
    (name : Text) × (s ≡ name ++ v)
    × (version_at v ≡ some (v, rest))
    × ((y z : Text) → behind_version y ≡ some z → reads (name ++ y) ≡ some (y, z))

name_segments-Named :
    (read : Bool) (s : Text) {v rest : Text}
    → name_segments read s ≡ some (v, rest)
    → Named (name_segments read) s v rest
unfolding name_segments
name_segments-Named read [] h = absurd (ground (arith, h))
name_segments-Named read (c ∷ s) {v} {rest} h = elim (Bool-cases (is_key_char c)) [
  | inl key ↦
      let (name, same, found, other) =
        name_segments-Named true s {v = v} {rest = rest} (ground (arith, h, key)) in
      (c ∷ name, ap (λ (t : Text). c ∷ t) same, found, λ y z e. ground (arith, key, other y z e))
  | inr no_key ↦ elim (Bool-cases (read && c == b':')) [
    | inr nowhere ↦ absurd (ground (arith, h, no_key, nowhere))
    | inl colon ↦ elim (Option-cases (name_segments false s)) [
      | inr ((v', rest'), longer) ↦
          let (name, same, found, other) =
            name_segments-Named false s {v = v} {rest = rest}
              (ground (arith, h, no_key, colon, longer)) in
          (
            c ∷ name,
            ap (λ (t : Text). c ∷ t) same,
            found,
            λ y z e. ground (arith, no_key, colon, other y z e),
          )
      | inl last ↦
          let here : version_at s ≡ some (v, rest) = ground (arith, h, no_key, colon, last) in
          let same : s ≡ v = version_at-same s here in
          (
            c ∷ [],
            ap (λ (t : Text). c ∷ t) same,
            ap version_at (sym same) ∙ here,
            λ y z e. ground (arith, no_key, colon, version-no_segment y e, e),
          )
    ]
  ]
]

name_at-segments : (t : Text) → name_at (codes "corejack:" ++ t) ≡ name_segments false t
unfolding name_at strip_prefix
name_at-segments t = refl

pub name_at-Named :
    (s : Text) {v rest : Text}
    → name_at s ≡ some (v, rest)
    → (name : Text) × (s ≡ (codes "corejack:" ++ name) ++ v)
      × (version_at v ≡ some (v, rest))
      × ((y z : Text)
          → behind_version y ≡ some z
          → name_at ((codes "corejack:" ++ name) ++ y) ≡ some (y, z))
name_at-Named s {v} {rest} h =
    let (t, begins, found) = name_at-some s h in
    let (name, same, version, other) = name_segments-Named false t {v = v} {rest = rest} found in
    (
      name,
      begins ∙ ap (λ (u : Text). codes "corejack:" ++ u) same,
      version,
      λ y z e. name_at-segments (name ++ y) ∙ other y z e,
    )
