-- ===== src/Versions/Parts.antt =====
-- How the patterns of bin/bump_version.py take a text apart.
use corejack.Prelude.{
  ℕ, ◌-◌, Bool, false, List, [], ◌∷◌, ◌++◌, Option, some, ◌≡◌, refl, sym, ap, ◌∙◌, arith, length,
  drop, take, append_assoc, length-append,
}
use corejack.Text.{Text, codes, strip_prefix, take_while}
use corejack.Rtl.{is_digit}
use corejack.Search.{and_then}
use corejack.Splice.{digits_then, behind_version, dotted, patch, minor}
use corejack.Yaml.Render.{first_is}
use corejack.Yaml.KeyLines.{drop-length}

module _ {ℓ} {A : Type ℓ} where
  take-length : (xs ys : List A) → take (length xs) (xs ++ ys) ≡ xs
  take-length [] ys = refl
  take-length (x ∷ xs) ys = ap (λ (zs : List A). x ∷ zs) (take-length xs ys)

  -- What a match took is what stands in front of the rest.
  pub take-prefix : (xs ys : List A) → take (length (xs ++ ys) - length ys) (xs ++ ys) ≡ xs
  take-prefix xs ys =
      let count : length (xs ++ ys) - length ys ≡ length xs = omega (arith, length-append xs ys) in
      ap (λ (n : ℕ). take n (xs ++ ys)) count ∙ take-length xs ys

  pub drop-prefix : (xs ys : List A) → drop (length (xs ++ ys) - length ys) (xs ++ ys) ≡ ys
  drop-prefix xs ys =
      let count : length (xs ++ ys) - length ys ≡ length xs = omega (arith, length-append xs ys) in
      ap (λ (n : ℕ). drop n (xs ++ ys)) count ∙ drop-length xs ys

module _ (p : ℕ → Bool) where
  -- The longest prefix of a class, and that what follows it begins with another character.
  while-parts :
      (s : Text)
      → (s ≡ take_while p s ++ drop (length (take_while p s)) s)
        × (first_is p (drop (length (take_while p s)) s) ≡ false)
  unfolding take_while
  while-parts [] = (refl, refl)
  while-parts (c ∷ s) = ground (arith, while-parts s)

  while-append :
      (s more : Text)
      → first_is p more ≡ false
      → (take_while p (s ++ more) ≡ take_while p s)
        × (drop (length (take_while p s)) (s ++ more) ≡ drop (length (take_while p s)) s ++ more)
  unfolding take_while
  while-append [] [] h = (refl, refl)
  while-append [] (c ∷ more) h = ground (arith, h)
  while-append (c ∷ s) more h = ground (arith, while-append s more h)

pub digits_then-Splits :
    (f : Text → Option Text) (s : Text) {rest : Text}
    → digits_then f s ≡ some rest
    → (digits t : Text) × (s ≡ digits ++ t) × (first_is is_digit t ≡ false) × (f t ≡ some rest)
unfolding digits_then
digits_then-Splits f s h =
    let digits = take_while is_digit s in
    let (parts, first) = while-parts is_digit s in
    (digits, drop (length digits) s, parts, first, ground (arith, h))

pub digits_then-append :
    (f : Text → Option Text) (s more : Text) {rest : Text}
    → first_is is_digit more ≡ false
    → ((t : Text) → f t ≡ some rest → f (t ++ more) ≡ some (rest ++ more))
    → digits_then f s ≡ some rest
    → digits_then f (s ++ more) ≡ some (rest ++ more)
unfolding digits_then
digits_then-append f s more {rest} first below h =
    let (same, after) = while-append is_digit s more first in
    let inner : f (drop (length (take_while is_digit s)) s) ≡ some rest = ground (arith, h) in
    let outer = below _ inner in rw (same, after) (ground (arith, h, outer))

dot-append :
    (f : Text → Option Text) (s more : Text) {rest : Text}
    → ((t : Text) → f t ≡ some rest → f (t ++ more) ≡ some (rest ++ more))
    → and_then (strip_prefix (codes ".") s) f ≡ some rest
    → and_then (strip_prefix (codes ".") (s ++ more)) f ≡ some (rest ++ more)
unfolding strip_prefix
dot-append f [] more below h = cc
dot-append f (c ∷ s) more below h = ground (arith, h, below s)

-- A version is found in front of any text that begins with no digit.
pub behind_version-append :
    (new more : Text) {rest : Text}
    → first_is is_digit more ≡ false
    → behind_version new ≡ some rest
    → behind_version (new ++ more) ≡ some (rest ++ more)
unfolding behind_version
behind_version-append new more first = digits_then-append _ new more first λ a.
    dot-append _ a more λ b. digits_then-append _ b more first λ c.
      dot-append _ c more
        λ d. digits_then-append (λ e. some e) d more first λ e h. ground (arith, h)

dot-parts :
    (f : Text → Option Text) (s : Text) {rest : Text}
    → and_then (strip_prefix (codes ".") s) f ≡ some rest
    → (t : Text) × (s ≡ codes "." ++ t) × (f t ≡ some rest)
unfolding strip_prefix
dot-parts f [] h = cc
dot-parts f (c ∷ s) h = (s, ground (arith, h), ground (arith, h))

in_front : (d v rest : Text) {s t : Text} → s ≡ d ++ t → t ≡ v ++ rest → s ≡ (d ++ v) ++ rest
in_front d v rest e f = e ∙ ap (λ (t : Text). d ++ t) f ∙ sym (append_assoc d v rest)

-- Behind a version stands no digit.
pub behind_version-parts :
    (s : Text) {rest : Text}
    → behind_version s ≡ some rest
    → (version : Text) × (s ≡ version ++ rest) × (first_is is_digit rest ≡ false)
unfolding behind_version
behind_version-parts s {rest} h =
    let (d1, t1, e1, n1, h1) = digits_then-Splits (dotted minor) s h in
    let (u1, f1, g1) = dot-parts minor t1 h1 in
    let (d2, t2, e2, n2, h2) = digits_then-Splits (dotted patch) u1 g1 in
    let (u2, f2, g2) = dot-parts patch t2 h2 in
    let (d3, t3, e3, first, h3) = digits_then-Splits (λ e. some e) u2 g2 in
    let same : t3 ≡ rest = ground (arith, h3) in
    let tail : u2 ≡ d3 ++ rest = e3 ∙ ap (λ (t : Text). d3 ++ t) same in
    let last : Text = codes "." ++ d3 in
    let middle : u1 ≡ (d2 ++ last) ++ rest =
      in_front d2 last rest e2 (in_front (codes ".") d3 rest f2 tail) in
    let behind : Text = codes "." ++ (d2 ++ last) in
    (
      d1 ++ behind,
      in_front d1 behind rest e1 (in_front (codes ".") (d2 ++ last) rest f1 middle),
      ap (first_is is_digit) (sym same) ∙ first,
    )
