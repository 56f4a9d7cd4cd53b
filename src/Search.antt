-- ===== src/Search.antt =====
-- The regular expressions with which bin/validate_target.py looks into the Makefiles, the FuseSoC
-- file and the SystemVerilog sources. A pattern is a test of the text from a place on; repetition
-- tries every count, as the search does. `\b` and `\s` are those of ASCII words and of `is_space`.
use corejack.Prelude.{
  Bool, true, false, not, ◌&&◌, ◌||◌, [], ◌∷◌, ◌++◌, Option, none, some, ◌==◌, if◌then◌else◌,
  is_nil, any,
}
use corejack.Text.{
  Text, codes, is_space, is_key_char, lstrip, strip_prefix, starts_with, text_eq, ends_by,
}
use corejack.Host.{Host}

abbrev pub Test : Type 0
Test = Text → Bool

-- `token` and then the rest of the pattern.
abbrev pub then_prefix : Option Text → Test → Bool
then_prefix none k = false
then_prefix (some rest) k = k rest

abbrev pub prefixed : Text → Test → Test
prefixed token k s = then_prefix (strip_prefix token s) k

-- `\s*` and `\s+`
unfoldable pub many_spaces : Test → Test
many_spaces k [] = k []
many_spaces k (c ∷ s) = k (c ∷ s) || (is_space c && many_spaces k s)

unfoldable pub some_spaces : Test → Test
unfolding many_spaces
some_spaces k [] = false
some_spaces k (c ∷ s) = is_space c && many_spaces k s

-- `\b` between a text and what follows it.
unfoldable pub first_in_word : Text → Bool
first_in_word [] = false
first_in_word (c ∷ s) = is_key_char c

unfoldable pub word_boundary : Text → Test
unfolding first_in_word
word_boundary before s =
    if ends_by is_key_char before then not (first_in_word s) else first_in_word s

-- `^` under `(?m)`: the start of the text and the place behind each line feed.
unfoldable pub behind_breaks : Test → Test
behind_breaks k [] = false
behind_breaks k (c ∷ s) = (c == 10 && k s) || behind_breaks k s

abbrev pub at_line_start : Test → Test
at_line_start k s = k s || behind_breaks k s

-- `$` under `(?m)`
unfoldable pub at_line_end : Test
at_line_end [] = true
at_line_end (c ∷ s) = c == 10

-- `(?m)^\s*module\s+NAME\b`
unfoldable pub defines_module : Text → Text → Bool
unfolding many_spaces some_spaces word_boundary behind_breaks
defines_module name text =
    at_line_start
      (many_spaces (prefixed (codes "module") (some_spaces (prefixed name (word_boundary name)))))
      text

-- `(?m)^TARGET\s*:`
unfoldable pub has_make_target : Text → Text → Bool
unfolding many_spaces behind_breaks
has_make_target target text =
    at_line_start (prefixed target (many_spaces (starts_with (codes ":")))) text

one_space : Test → Test
one_space k [] = false
one_space k (c ∷ s) = is_space c && k s

-- `(?m)^\s{2}TARGET:\s*$`
unfoldable pub has_fusesoc_target : Text → Text → Bool
unfolding many_spaces behind_breaks one_space at_line_end
has_fusesoc_target target text =
    at_line_start (one_space (one_space (prefixed (target ++ codes ":") (many_spaces at_line_end))))
      text

abbrev holds_in : Test → Option Text → Bool
holds_in k none = false
holds_in k (some text) = k text

unfoldable pub ends_with : Text → Text → Bool
ends_with p [] = is_nil p
ends_with p (c ∷ s) = text_eq p (c ∷ s) || ends_with p s

unfoldable pub make_target_exists : Host → Text → Bool
unfolding has_make_target ends_with
make_target_exists host target =
    holds_in (has_make_target target) (host.file (codes "Makefile"))
    || any
        (λ entry.
          ends_with (codes ".mk") entry
          && holds_in (has_make_target target) (host.file (codes "mk/" ++ entry)))
        (host.entries (codes "mk"))

unfoldable pub fusesoc_target_exists : Host → Text → Bool
unfolding has_fusesoc_target
fusesoc_target_exists host target =
    holds_in (has_fusesoc_target target) (host.file (codes "corejack.core"))

-- A token, then what the next part of a pattern reads.
abbrev pub and_then {ℓ} : {A : Type ℓ} → Option Text → (Text → Option A) → Option A
and_then none f = none
and_then (some rest) f = f rest

-- `\s+`, where what follows begins with no space.
unfoldable pub spaces_then {ℓ} : {A : Type ℓ} → (Text → Option A) → Text → Option A
spaces_then f [] = none
spaces_then f (c ∷ s) = if is_space c then f (lstrip s) else none

-- The first place, from the left, where a reader succeeds.
unfoldable pub first_at {ℓ} : {A : Type ℓ} → (Text → Option A) → Text → Option A
first_at f [] = f []
first_at f (c ∷ s) = elim (f (c ∷ s)) [ some a ↦ some a | none ↦ first_at f s ]

unfoldable pub first_behind_break {ℓ} : {A : Type ℓ} → (Text → Option A) → Text → Option A
first_behind_break f [] = none
first_behind_break f (c ∷ s) = elim (if c == 10 then f s else none) [
  | some a ↦ some a
  | none ↦ first_behind_break f s
]

-- `(?m)^`
unfoldable pub first_at_line_start {ℓ} : {A : Type ℓ} → (Text → Option A) → Text → Option A
unfolding first_behind_break
first_at_line_start f s = elim (f s) [ some a ↦ some a | none ↦ first_behind_break f s ]
