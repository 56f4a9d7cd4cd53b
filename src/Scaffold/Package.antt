-- ===== src/Scaffold/Package.antt =====
-- `update_platform_pkg` of bin/create_core.py on the text of the file: the new member of `core_type_e`.
use corejack.Prelude.{
  false, not, [], ◌∷◌, ◌++◌, Option, none, some, ◌==◌, if◌then◌else◌, is_nil, length, drop,
}
use corejack.Text.{Text, codes, is_space, is_alnum, take_while, lstrip, strip_prefix}
use corejack.Failure.{Result, check, or_fail, ◌>>◌, already_there, no_last_member}
use corejack.Number.{show_int}
use corejack.Rtl.{is_digit, expected_core_enum_name}
use corejack.Search.{and_then}
use corejack.Splice.{Replacer, replace_first, consumed, has_word}
use corejack.Scaffold.Request.{Core}

abbrev pub package_path : Text
package_path = codes "rtl/pkg/platform_pkg.sv"

-- White space up to its last line feed, and what follows that.
last_break : Text → Option (Text × Text)
last_break [] = none
last_break (c ∷ s) =
    let here : Option (Text × Text) = if c == 10 then some ([], s) else none in
    elim (last_break s) [ none ↦ here | some (before, after) ↦ some (c ∷ before, after) ]

-- `\}\s*core_type_e\s*;`, and what follows.
enum_end : Text → Option Text
enum_end s = and_then (strip_prefix (codes "}") s) λ a.
    and_then (strip_prefix (codes "core_type_e") (lstrip a))
      λ b. strip_prefix (codes ";") (lstrip b)

-- The text that takes the place of the last member, from the four groups of the match.
new_member : Text → Text → Text → Text → Text → Text
new_member entry indent last trailing close =
    indent ++ (last ++ (codes ",\n" ++ (indent ++ (entry ++ (trailing ++ (codes "\n" ++ close))))))

-- The match behind the groups `indent` and `last`.
behind_member : Text → Text → Text → Text → Option (Text × Text)
unfolding last_break enum_end new_member
behind_member entry indent last s =
    let space = take_while is_space s in
    elim (last_break space) [
      | none ↦ none
      | some (trailing, before) ↦ elim (enum_end (drop (length space) s)) [
        | none ↦ none
        | some rest ↦
            let close = before ++ consumed (drop (length space) s) rest in
            some (new_member entry indent last trailing close, rest)
      ]
    ]

with_digits : Text → Text → Text → Text → Option (Text × Text)
unfolding behind_member
with_digits entry indent member s =
    let digits = take_while is_digit s in
    let rest = drop (length digits) s in
    if is_nil digits then none else behind_member entry indent (consumed member rest) rest

-- The pattern of `update_platform_pkg`. Its repetitions need no second try: what stands behind each of
-- them begins with a character that it does not take.
unfoldable pub last_member : Text → Replacer
unfolding with_digits
last_member entry s =
    let indent = take_while is_space s in
    let member = drop (length indent) s in
    and_then (strip_prefix (codes "Core") member) λ a.
      let tail = take_while is_alnum a in
      if is_nil tail
      then none
      else and_then (strip_prefix (codes "=") (lstrip (drop (length tail) a)))
          λ b. with_digits entry indent member (lstrip b)

unfoldable pub package_with : Core → Text → Result Text
unfolding last_member replace_first has_word
package_with a text = do
  check (not (has_word (expected_core_enum_name a.core) false text))
      (already_there (expected_core_enum_name a.core) package_path)
  or_fail
      (replace_first
        (last_member (expected_core_enum_name a.core ++ (codes " = " ++ show_int a.core_type)))
        text)
      no_last_member
