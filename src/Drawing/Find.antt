-- ===== src/Drawing/Find.antt =====
-- Where `text.find` meets the next `light-dark(`.
use corejack.Prelude.{
  ℕ, true, not, [], ◌∷◌, ◌++◌, Option, none, some, ◌==◌, all, ◌≡◌, refl, ap, ◌∙◌, arith, Bool-cases,
  Option-cases, inl, inr,
}
use corejack.Text.{Text, codes, strip_prefix, has_infix}
use corejack.Drawing.{needle, find, behind_char, here_or}

-- A text without the needle's first character in its rest does not begin before it.
strip_prefix-longer :
    (p s t : Text)
    → all (λ c. not (c == b'l')) p ≡ true
    → strip_prefix p s ≡ none
    → strip_prefix p (s ++ b'l' ∷ t) ≡ none
unfolding strip_prefix
strip_prefix-longer [] s t h e = ground (arith, e)
strip_prefix-longer (a ∷ p) [] t h e = ground (arith, h)
strip_prefix-longer (a ∷ p) (c ∷ s) t h e = elim (Bool-cases (a == c)) [
  | inl same ↦ rw same (strip_prefix-longer p s t (ground (arith, h)) (ground (arith, same, e)))
  | inr other ↦ rw other refl
]

-- The needle begins with its only `l`.
needle-longer :
    (c : ℕ) (s t : Text)
    → strip_prefix needle (c ∷ s) ≡ none
    → strip_prefix needle (c ∷ (s ++ (needle ++ t))) ≡ none
unfolding strip_prefix
needle-longer c s t e =
    let behind = strip_prefix-longer (codes "ight-dark(") s (codes "ight-dark(" ++ t) refl in
    elim (Bool-cases (b'l' == c)) [
      | inl same ↦ rw same (behind (ground (arith, same, e)))
      | inr other ↦ rw other refl
    ]

no_call :
    (c : ℕ) (s : Text) → not (has_infix needle (c ∷ s)) ≡ true → strip_prefix needle (c ∷ s) ≡ none
unfolding has_infix
no_call c s h = elim (Option-cases (strip_prefix needle (c ∷ s))) [
  | inl e ↦ e
  | inr (a, e) ↦ ground (arith, h, e)
]

find-later :
    (p s : Text) (c : ℕ) {r : Option (Text × Text)}
    → strip_prefix p (c ∷ s) ≡ none
    → find p s ≡ r
    → find p (c ∷ s) ≡ behind_char c r
unfolding find
find-later p s c e later =
    ap (λ o. here_or o (behind_char c (find p s))) e ∙ ap (behind_char c) later

pub find-plain : (s : Text) → not (has_infix needle s) ≡ true → find needle s ≡ none
unfolding has_infix
find-plain [] h = unfold find strip_prefix in refl
find-plain (c ∷ s) h = find-later needle s c (no_call c s h) (find-plain s (ground (arith, h)))

pub find-call :
    (before t : Text)
    → not (has_infix needle before) ≡ true
    → find needle (before ++ (needle ++ t)) ≡ some (before, t)
unfolding has_infix
find-call [] t h = unfold find strip_prefix in refl
find-call (c ∷ s) t h =
    find-later needle (s ++ (needle ++ t)) c (needle-longer c s t (no_call c s h))
      (find-call s t (ground (arith, h)))
