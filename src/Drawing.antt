-- ===== src/Drawing.antt =====
-- bin/postprocess_drawio_svg.py: the flattening of the `light-dark(A, B)` of an exported drawing.
pub mod Walk
mod Find
pub mod Flat
use corejack.Prelude.{
  ℕ, zero, suc, ◌-◌, Bool, true, false, ◌&&◌, not, List, [], ◌∷◌, ◌++◌, Option, none, some, ◌==◌,
  if◌then◌else◌, length,
}
use corejack.Text.{Text, codes, strip, strip_prefix, is_some}
use corejack.Splice.{consumed, becomes, replace_first}
use corejack.Failure.{Failure, Result, or_fail}

abbrev pub needle : Text
needle = codes "light-dark("

abbrev pub behind_char : ℕ → Option (Text × Text) → Option (Text × Text)
behind_char c none = none
behind_char c (some (before, behind)) = some (c ∷ before, behind)

abbrev pub here_or : Option Text → Option (Text × Text) → Option (Text × Text)
here_or none later = later
here_or (some behind) later = some ([], behind)

-- `text.find(p, i)`: what stands before the first occurrence and what stands behind it.
unfoldable pub find : Text → Text → Option (Text × Text)
find p [] = here_or (strip_prefix p []) none
find p (c ∷ s) = here_or (strip_prefix p (c ∷ s)) (behind_char c (find p s))

-- The depth of the parentheses behind a character.
unfoldable pub depth_after : ℕ → ℕ → ℕ
depth_after depth c = if c == b'(' then suc depth else if c == b')' then depth - 1 else depth

-- The text before the comma of the call, once the walk has met it.
unfoldable pub first_after : ℕ → Text → Option Text → ℕ → Option Text
first_after depth read first c =
    if c == b',' && depth == 1 && not (is_some first) then some read else first

-- The walk through a call: the first argument, if there is a comma, and what follows the closing
-- parenthesis, if there is one.
unfoldable pub walk : ℕ → Text → Option Text → Text → Option Text × Option Text
unfolding depth_after first_after
walk depth read first [] = (first, none)
walk depth read first (c ∷ s) =
    let later = walk (depth_after depth c) (read ++ c ∷ []) (first_after depth read first c) s in
    if c == b')' && depth == 1 then (first, some s) else later

-- What a call becomes, and the rest of the text behind it.
abbrev pub call_text : (Text → Text) → Text → Option Text × Option Text → Text
call_text flatten behind (first, none) = needle ++ behind
call_text flatten behind (none, some rest) = needle ++ (consumed behind rest ++ flatten rest)
call_text flatten behind (some a, some rest) = strip a ++ flatten rest

abbrev pub round : (Text → Text) → Text → Option (Text × Text) → Text
round flatten s none = s
round flatten s (some (before, behind)) = before ++ call_text flatten behind (walk 1 [] none behind)

unfoldable pub flatten_from : ℕ → Text → Text
unfolding find
flatten_from zero s = s
flatten_from (suc fuel) s = round (flatten_from fuel) s (find needle s)

-- Each round takes a `light-dark(` from the text.
unfoldable pub flatten_light_dark : Text → Text
unfolding flatten_from
flatten_light_dark s = flatten_from (length s) s

-- `s.replace(old, new)`, with the length of the text as fuel
unfoldable pub replace_from : Text → Text → ℕ → Text → Text
unfolding find
replace_from old new zero s = s
replace_from old new (suc fuel) s =
    let behind_match = replace_from old new fuel in
    elim (find old s) [ none ↦ s | some (before, behind) ↦ before ++ (new ++ behind_match behind) ]

unfoldable pub replace_all : Text → Text → Text → Text
unfolding replace_from
replace_all old new s = replace_from old new (length s) s

abbrev pub background_rect : Text
background_rect = codes "<rect width=\"100%\" height=\"100%\" fill=\"#ffffff\"/>"

abbrev svg_open : Text
svg_open = codes "<svg xmlns=\"http://www.w3.org/2000/svg\""

-- `_SVG_OPEN_RE` with the rectangle behind it: the tag ends at the first `>`.
unfoldable pub open_tag : Text → Option (Text × Text)
unfolding find
open_tag s = elim (strip_prefix svg_open s) [
  | none ↦ none
  | some t ↦ elim (find (codes ">") t) [
    | none ↦ none
    | some (attributes, behind) ↦ some (svg_open ++ (attributes ++ b'>' ∷ background_rect), behind)
  ]
]

unfoldable pub postprocess : Text → Result Text
unfolding flatten_light_dark replace_all replace_first open_tag
postprocess svg =
    let flat = flatten_light_dark svg in
    let white = replace_all (codes "background: transparent") (codes "background: #ffffff") flat in
    let filled =
      replace_all (codes "background-color: transparent") (codes "background-color: #ffffff")
        white in
    or_fail (replace_first open_tag filled) Failure.no_svg_root
