-- ===== src/Yaml/KeyLines.antt =====
-- How the regular expressions read one rendered line.
use mathlib.Core.Bool.{false≢true}
use corejack.Prelude.{
  ℕ, zero, suc, ◌+◌, true, false, List, [], ◌∷◌, ◌++◌, none, some, ◌≡◌, refl, sym, ap, ◌∙◌, arith,
  ◌==◌, length, drop, all,
}
use corejack.Text.{
  Text, is_space, is_key_char, lstrip, lstrip_by, rstrip_by, strip, strip_by, take_while, ends_by,
  strip_prefix,
}
use corejack.Yaml.{key_line, indent_of, skips, scalar_value}
use corejack.Yaml.Render.{spaces, key_text, IsKey, IsPlain, first_is}

pub lstrip-spaces : (d : ℕ) (s : Text) → lstrip (spaces d ++ s) ≡ lstrip s
unfolding lstrip_by is_space
lstrip-spaces zero s = refl
lstrip-spaces (suc d) s = lstrip-spaces d s

pub length-spaces : (d : ℕ) (s : Text) → length (spaces d ++ s) ≡ d + length s
length-spaces zero s = omega arith
length-spaces (suc d) s = omega (arith, length-spaces d s)

-- A key character is no space and no punctuation that the scanners look for.
key_char_facts :
    (c : ℕ)
    → is_key_char c ≡ true
    → (is_space c ≡ false) × ((c == b'#') ≡ false) × ((c == b'-') ≡ false) × ((c == b':') ≡ false)
unfolding is_key_char is_space
key_char_facts c h = ground arith

pub lstrip-no_space : (s : Text) → first_is is_space s ≡ false → lstrip s ≡ s
unfolding lstrip_by
lstrip-no_space [] h = refl
lstrip-no_space (c ∷ s) h = ground arith

pub rstrip-no_space : (s : Text) → ends_by is_space s ≡ false → rstrip_by is_space s ≡ s
unfolding rstrip_by ends_by
rstrip-no_space [] h = refl
rstrip-no_space (c ∷ []) h = ground arith
rstrip-no_space (c ∷ e ∷ s) h = ground (arith, rstrip-no_space (e ∷ s) h)

take_while-key :
    (k rest : Text) → all is_key_char k ≡ true → take_while is_key_char (k ++ (b':' ∷ rest)) ≡ k
unfolding take_while
take_while-key [] rest h = unfold is_key_char in refl
take_while-key (c ∷ k) rest h = ground (arith, take_while-key k rest)

pub drop-length {ℓ} : {A : Type ℓ} (xs ys : List A) → drop (length xs) (xs ++ ys) ≡ ys
drop-length [] ys = refl
drop-length (x ∷ xs) ys = drop-length xs ys

first-key : (k rest : Text) → IsKey k → first_is is_space (k ++ (b':' ∷ rest)) ≡ false
first-key [] rest h = unfold is_space in refl
first-key (c ∷ k) rest h = ground (arith, key_char_facts c)

lstrip-key_text :
    (d : ℕ) (k rest : Text) → IsKey k → lstrip (key_text d k rest) ≡ k ++ (b':' ∷ rest)
lstrip-key_text d k rest h = lstrip-spaces d _ ∙ lstrip-no_space _ (first-key k rest h)

indent_of-key_text : (d : ℕ) (k rest : Text) → IsKey k → indent_of (key_text d k rest) ≡ d
unfolding indent_of
indent_of-key_text d k rest h = rw (lstrip-key_text d k rest h) (omega (arith, length-spaces d _))

pub key_line-key_text :
    (d : ℕ) (k rest : Text)
    → IsKey k
    → key_line (key_text d k rest) ≡ some (record { indent = d; key = k; value = strip rest })
unfolding key_line
key_line-key_text d k rest h =
    rw (lstrip-key_text d k rest h, take_while-key k rest h.chars, drop-length k (b':' ∷ rest))
      (ground (arith, length-spaces d (k ++ (b':' ∷ rest))))

rstrip-cons :
    (c : ℕ) (s : Text) → is_space c ≡ false → rstrip_by is_space (c ∷ s) ≡ c ∷ rstrip_by is_space s
unfolding rstrip_by
rstrip-cons c s h = rw h

-- Such a line is not skipped.
pub skips-key_text : (d : ℕ) (k rest : Text) → IsKey k → skips (key_text d k rest) ≡ false
unfolding skips strip_by strip_prefix
skips-key_text d [] rest h = absurd (false≢true (sym h.some_char))
skips-key_text d (c ∷ k) rest h =
    rw (lstrip-key_text d (c ∷ k) rest h)
      (ground (arith, key_char_facts c, rstrip-cons c (k ++ (b':' ∷ rest))))

pub skips-item : (d : ℕ) (x : Text) → IsPlain x → skips (spaces d ++ (b'-' ∷ b' ' ∷ x)) ≡ true
unfolding skips strip_by strip_prefix
skips-item d [] h = absurd (false≢true (sym h.some_char))
skips-item d (c ∷ x) h =
    let line : Text = b'-' ∷ b' ' ∷ c ∷ x in
    rw (
      lstrip-spaces d line,
      lstrip-no_space line (unfold is_space in refl),
      rstrip-no_space line (unfold ends_by in h.no_space_after),
    )

pub strip-plain : (v : Text) → IsPlain v → strip (b' ' ∷ v) ≡ v
unfolding strip_by
strip-plain v h =
    ap (rstrip_by is_space) (lstrip-spaces 1 v ∙ lstrip-no_space v h.no_space_before)
    ∙ rstrip-no_space v h.no_space_after

pub strip-nil : strip [] ≡ []
unfolding strip_by
strip-nil = refl

pub scalar_value-plain : (v : Text) → IsPlain v → scalar_value v ≡ some v
unfolding scalar_value
scalar_value-plain [] h = absurd (false≢true (sym h.some_char))
scalar_value-plain (c ∷ v) h = ground arith

pub scalar_value-nil : scalar_value [] ≡ none
unfolding scalar_value
scalar_value-nil = refl
