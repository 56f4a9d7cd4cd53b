-- ===== src/Text.antt =====
-- Python's `str`, as the list of its code points, with the methods that the scripts under bin/ call:
-- strip, startswith, endswith, split, join, splitlines, `==` and `in`. Its children hold the laws.
pub mod Laws
pub mod Lines
use Prim.Native.Char.{code}
use Prim.Native.String.{String}
use corejack.Prelude.{
  ℕ, Bool, true, false, not, ◌&&◌, ◌||◌, List, [], ◌∷◌, ◌++◌, Option, none, some, ◌==◌, leb,
  if◌then◌else◌, is_nil, any,
}

abbrev pub Text : Type 0
Text = List ℕ

-- The code points of a literal.
abbrev pub codes : String → Text
codes String.[] = []
codes (String.◌∷◌ c s) = code c ∷ codes s

-- `str.isspace` of one character, which is also what `\s` matches and what `strip` removes.
unfoldable pub is_space : ℕ → Bool
is_space c =
    (leb 9 c && leb c 13)
    || (leb 28 c && leb c 32)
    || c == 133
    || c == 160
    || c == 5760
    || (leb 8192 c && leb c 8202)
    || c == 8232
    || c == 8233
    || c == 8239
    || c == 8287
    || c == 12288

-- `[A-Za-z0-9]` and `[A-Za-z0-9_]`
unfoldable pub is_alnum : ℕ → Bool
is_alnum c = (leb b'A' c && leb c b'Z') || (leb b'a' c && leb c b'z') || (leb b'0' c && leb c b'9')

unfoldable pub is_key_char : ℕ → Bool
unfolding is_alnum
is_key_char c = is_alnum c || c == b'_'

-- `strip` for any class of characters: the default one, or quotes.
module _ (p : ℕ → Bool) where
  unfoldable pub lstrip_by : Text → Text
  lstrip_by [] = []
  lstrip_by (c ∷ s) = if p c then lstrip_by s else c ∷ s

  unfoldable pub rstrip_by : Text → Text
  rstrip_by [] = []
  rstrip_by (c ∷ s) = let r = rstrip_by s in if p c && is_nil r then [] else c ∷ r

  unfoldable pub strip_by : Text → Text
  unfolding lstrip_by rstrip_by
  strip_by s = rstrip_by (lstrip_by s)

  -- The longest prefix of characters in the class, and what follows it.
  unfoldable pub take_while : Text → Text
  take_while [] = []
  take_while (c ∷ s) = if p c then c ∷ take_while s else []

abbrev pub lstrip : Text → Text
lstrip = lstrip_by is_space

abbrev pub strip : Text → Text
strip = strip_by is_space

abbrev pub is_quote : ℕ → Bool
is_quote c = c == b'\'' || c == b'"'

-- `.strip("'\"")`
abbrev pub strip_quotes : Text → Text
strip_quotes = strip_by is_quote

unfoldable pub text_eq : Text → Text → Bool
text_eq [] [] = true
text_eq (a ∷ s) (b ∷ t) = a == b && text_eq s t
text_eq _ _ = false

-- `x in xs` for a list of texts
abbrev pub contains : List Text → Text → Bool
contains xs a = any (λ x. text_eq a x) xs

unfoldable pub texts_eq : List Text → List Text → Bool
texts_eq [] [] = true
texts_eq (a ∷ s) (b ∷ t) = text_eq a b && texts_eq s t
texts_eq _ _ = false

-- What follows the prefix, if the text starts with it.
unfoldable pub strip_prefix : Text → Text → Option Text
strip_prefix [] s = some s
strip_prefix (a ∷ p) [] = none
strip_prefix (a ∷ p) (b ∷ s) = if a == b then strip_prefix p s else none

abbrev pub is_some {ℓ} : {A : Type ℓ} → Option A → Bool
is_some none = false
is_some (some _) = true

-- `s.startswith(p)`; `p in s`
abbrev pub starts_with : Text → Text → Bool
starts_with p s = is_some (strip_prefix p s)

unfoldable pub has_infix : Text → Text → Bool
has_infix p [] = is_nil p
has_infix p (c ∷ s) = starts_with p (c ∷ s) || has_infix p s

-- `s.endswith(c)` for one character of a class
unfoldable pub ends_by : (ℕ → Bool) → Text → Bool
ends_by p [] = false
ends_by p (c ∷ s) = if is_nil s then p c else ends_by p s

-- `s[1:-1]`
unfoldable pub drop_last : Text → Text
drop_last [] = []
drop_last (c ∷ s) = if is_nil s then [] else c ∷ drop_last s

unfoldable pub inner : Text → Text
unfolding drop_last
inner [] = []
inner (c ∷ s) = drop_last s

abbrev pub push_char : ℕ → List Text → List Text
push_char c [] = (c ∷ []) ∷ []
push_char c (l ∷ ls) = (c ∷ l) ∷ ls

-- `s.split(sep)` for one character
unfoldable pub split_on : ℕ → Text → List Text
split_on sep [] = [] ∷ []
split_on sep (c ∷ s) = let rest = split_on sep s in if c == sep then [] ∷ rest else push_char c rest

-- The characters at which `str.splitlines` ends a line.
unfoldable pub is_break : ℕ → Bool
is_break c = (leb 10 c && leb c 13) || (leb 28 c && leb c 30) || c == 133 || c == 8232 || c == 8233

abbrev pub next_is_lf : Text → Bool
next_is_lf [] = false
next_is_lf (c ∷ s) = c == 10

-- A carriage return before a line feed ends no line of its own.
unfoldable pub splitlines : Text → List Text
unfolding is_break
splitlines [] = []
splitlines (c ∷ s) =
    let rest = splitlines s in
    if c == 13 && next_is_lf s then rest else if is_break c then [] ∷ rest else push_char c rest

-- `sep.join(xs)`
unfoldable pub join : Text → List Text → Text
join sep [] = []
join sep (x ∷ xs) = if is_nil xs then x else x ++ (sep ++ join sep xs)
