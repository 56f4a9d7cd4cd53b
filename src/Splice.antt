-- ===== src/Splice.antt =====
-- Replacement in a text, as the scripts that edit the repository do it: `text.replace(a, b, 1)`, the
-- splice around the first match of a regular expression, and the version number of a name.
use corejack.Prelude.{
  ℕ, ◌-◌, Bool, false, not, ◌&&◌, ◌||◌, [], ◌∷◌, ◌++◌, Option, none, some, if◌then◌else◌, is_nil,
  length, drop, take,
}
use corejack.Text.{Text, codes, is_key_char, strip_prefix, take_while}
use corejack.Failure.{Failure, Result, or_fail}
use corejack.Search.{and_then, prefixed, word_boundary, at_line_end, first_at_line_start}
use corejack.Rtl.{is_digit}

-- A match that is replaced: the new text and what follows the match.
abbrev pub Replacer : Type 0
Replacer = Text → Option (Text × Text)

abbrev pub with_char : ℕ → Option Text → Option Text
with_char c none = none
with_char c (some s) = some (c ∷ s)

-- The text with its first match replaced, if there is one.
unfoldable pub replace_first : Replacer → Text → Option Text
replace_first f [] = elim (f []) [ none ↦ none | some (new, rest) ↦ some (new ++ rest) ]
replace_first f (c ∷ s) =
    let later = with_char c (replace_first f s) in
    elim (f (c ∷ s)) [ none ↦ later | some (new, rest) ↦ some (new ++ rest) ]

abbrev pub becomes : Text → Option Text → Option (Text × Text)
becomes new none = none
becomes new (some rest) = some (new, rest)

-- `if marker not in text: fail(message)`, then `text.replace(marker, new, 1)`
unfoldable pub replace_marker : Text → Text → Failure → Text → Result Text
replace_marker marker new message text =
    or_fail (replace_first (λ s. becomes new (strip_prefix marker s)) text) message

-- What a match took of the text.
abbrev pub consumed : Text → Text → Text
consumed s rest = take (length s - length rest) s

-- `re.search(r"\bNAME\b", text)` for a name that begins with a character of a word; the flag says that
-- the character before is one.
unfoldable pub has_word : Text → Bool → Text → Bool
unfolding word_boundary
has_word name before [] = false
has_word name before (c ∷ s) =
    (not before && prefixed name (word_boundary name) (c ∷ s)) || has_word name (is_key_char c) s

-- `\d+`, with the digits of ASCII, and what the rest of the pattern reads behind it.
unfoldable pub digits_then {ℓ} : {A : Type ℓ} → (Text → Option A) → Text → Option A
digits_then f s =
    let digits = take_while is_digit s in if is_nil digits then none else f (drop (length digits) s)

abbrev pub dotted : (Text → Option Text) → Text → Option Text
dotted f s = and_then (strip_prefix (codes ".") s) f

abbrev pub patch : Text → Option Text
patch = digits_then λ s. some s

abbrev pub minor : Text → Option Text
minor = digits_then (dotted patch)

-- What follows `\d+\.\d+\.\d+`
unfoldable pub behind_version : Text → Option Text
unfolding digits_then
behind_version = digits_then (dotted minor)

abbrev at_end : Text → Text → Option Text
at_end version rest = if at_line_end rest then some version else none

-- `name: corejack:corejack:platform:(\d+\.\d+\.\d+)$`
platform_name : Text → Option Text
unfolding behind_version at_line_end
platform_name s =
    and_then (strip_prefix (codes "name: corejack:corejack:platform:") s)
      λ a. and_then (behind_version a) λ rest. at_end (consumed a rest) rest

-- `(?m)^` before that
unfoldable pub find_platform_version : Text → Option Text
unfolding platform_name first_at_line_start
find_platform_version = first_at_line_start platform_name
