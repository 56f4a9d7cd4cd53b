-- ===== src/Versions.antt =====
-- bin/bump_version.py: the versions of the names of CoreJack in the FuseSoC files, the check that there is
-- one, and the sweep that writes another one.
pub mod Parts
pub mod Sweep
pub mod Replaced
pub mod Kept
pub mod Agree
pub mod Bump
pub mod Bumped
use corejack.Prelude.{
  ℕ, zero, suc, ◌+◌, ◌-◌, Bool, true, false, not, ◌&&◌, ◌||◌, List, [], ◌∷◌, ◌++◌, map, Option,
  none, some, ◌==◌, ltb, if◌then◌else◌, is_nil, length, drop, take,
}
use corejack.Text.{Text, codes, is_key_char, strip_prefix, text_eq, contains}
use corejack.Search.{and_then, at_line_end}
use corejack.Splice.{behind_version, consumed}

-- A match of `(corejack(?::[A-Za-z0-9_]+)+):(\d+\.\d+\.\d+)`: the text at the version, and the text behind
-- it.
abbrev pub Found : Type 0
Found = Option (Text × Text)

abbrev pub version_at : Text → Found
version_at s = elim (behind_version s) [ none ↦ none | some rest ↦ some (s, rest) ]

-- The name_segments of the name: at a colon behind a segment, the pattern tries one more segment first,
-- and the version only if that fails. The flag says that a character of the segment was read.
unfoldable pub name_segments : Bool → Text → Found
name_segments read [] = none
name_segments read (c ∷ s) =
    let inside = name_segments true s in
    let longer = name_segments false s in
    if is_key_char c
    then inside
    else if read && c == b':'
    then elim longer [ some found ↦ some found | none ↦ version_at s ]
    else none

unfoldable pub name_at : Text → Found
unfolding name_segments
name_at s = and_then (strip_prefix (codes "corejack:") s) (name_segments false)

-- How many characters a match takes.
abbrev pub taken : Text → Text → ℕ
taken s rest = length s - length rest

-- `match.group(2)` for each match of `finditer`; `skip` characters of the last match are left.
unfoldable pub versions : ℕ → Text → List Text
versions skip [] = []
versions (suc skip) (c ∷ s) = versions skip s
versions zero (c ∷ s) = elim (name_at (c ∷ s)) [
  | none ↦ versions zero s
  | some (at_version, rest) ↦ consumed at_version rest ∷ versions (taken (c ∷ s) rest - 1) s
]

-- `VLNV_RE.sub`: the name and the colon stay, and the version is replaced.
unfoldable pub replace_versions : Text → ℕ → Text → Text
replace_versions new skip [] = []
replace_versions new (suc skip) (c ∷ s) = replace_versions new skip s
replace_versions new zero (c ∷ s) = elim (name_at (c ∷ s)) [
  | none ↦ c ∷ replace_versions new zero s
  | some (at_version, rest) ↦
      consumed (c ∷ s) at_version ++ (new ++ replace_versions new (taken (c ∷ s) rest - 1) s)
]
