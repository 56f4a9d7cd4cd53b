-- ===== src/Scaffold.antt =====
-- The edits of bin/create_core.py on the files of the repository: the list of cores of a board, and the
-- core type that a new core gets.
pub mod CoreType
pub mod Request
pub mod Texts
pub mod Package
pub mod CoreFile
pub mod Create
pub mod Safety
pub mod ListItem
pub mod Identifier
pub mod Created
pub mod Outcome
pub mod Readback
use corejack.Prelude.{
  ℕ, zero, suc, ◌+◌, Bool, true, false, not, ◌&&◌, ◌||◌, List, [], ◌∷◌, ◌++◌, map, Option, none,
  some, ◌==◌, leb, if◌then◌else◌, is_nil, all,
}
use corejack.Text.{Text, codes, text_eq, strip, splitlines}
use corejack.Text.Lines.{unlines}
use corejack.Failure.{
  Failure, Result, ok, err, check, or_fail, ◌>>=◌, ◌>>◌, unsupported_characters, no_core_type_enum,
  file_not_found, no_list,
}
use corejack.Edit.{Files}
use corejack.Yaml.{indent_of, key_match}
use corejack.Yaml.Render.{spaces}
use corejack.Rtl.{Member, members, core_type_body}

abbrev pub is_lower : ℕ → Bool
is_lower c = leb b'a' c && leb c b'z'

abbrev pub is_identifier_char : ℕ → Bool
is_identifier_char c = is_lower c || (leb b'0' c && leb c b'9') || c == b'_'

-- `re.fullmatch(r"[a-z][a-z0-9_]*", name)`
unfoldable pub is_identifier : Text → Bool
is_identifier [] = false
is_identifier (c ∷ s) = is_lower c && all is_identifier_char s

unfoldable pub require_identifier : Text → Text → Result (Unit {0})
require_identifier name field = check (is_identifier name) (unsupported_characters field name)

-- `^(\s*)key:\s*$`
unfoldable pub opens : Text → Text → Bool
opens key line = elim (key_match key line) [ none ↦ false | some rest ↦ is_nil rest ]

abbrev pub item_text : Text → Text
item_text item = codes "- " ++ item

-- The indentation of the list that is read behind a line, if one is.
abbrev pub moved : Text → Text → Option ℕ → Option ℕ
moved key line base = if opens key line then some (indent_of line) else base

-- What one line decides, if anything.
abbrev pub found_at : Text → Text → Option ℕ → Text → Option Bool
found_at key item none line = none
found_at key item (some base) line =
    if opens key line
    then none
    else if not (is_nil (strip line)) && leb (indent_of line) base
    then some false
    else if text_eq (strip line) (item_text item)
    then some true
    else none

unfoldable pub contains_item : Text → Text → Option ℕ → List Text → Bool
contains_item key item base [] = false
contains_item key item base (line ∷ lines) =
    let rest = contains_item key item (moved key line base) lines in
    elim (found_at key item base line) [ none ↦ rest | some found ↦ found ]

unfoldable pub yaml_top_list_contains : Text → Text → Text → Bool
yaml_top_list_contains text key item = contains_item key item none (splitlines text)

abbrev pub item_line : ℕ → Text → Text
item_line base item = spaces (base + 2) ++ item_text item

abbrev behind_line : Text → Option (List Text) → Option (List Text)
behind_line line none = none
behind_line line (some lines) = some (line ∷ lines)

-- The indentation of the list that ends before a line.
abbrev pub ends_at : Text → Option ℕ → Text → Option ℕ
ends_at key none line = none
ends_at key (some base) line =
    if opens key line
    then none
    else if is_nil (strip line) || leb (indent_of line) base
    then some base
    else none

-- The lines with the item at the end of the list, if the list is there.
unfoldable pub insert_item : Text → Text → Option ℕ → List Text → Option (List Text)
insert_item key item none [] = none
insert_item key item (some base) [] = some (item_line base item ∷ [])
insert_item key item base (line ∷ lines) =
    let rest = insert_item key item (moved key line base) lines in
    elim (ends_at key base line) [
      | none ↦ behind_line line rest
      | some indent ↦ some (item_line indent item ∷ line ∷ lines)
    ]

unfoldable pub append_yaml_top_list_item : Text → Text → Text → Result Text
append_yaml_top_list_item text key item =
    if yaml_top_list_contains text key item
    then ok text
    else elim (insert_item key item none (splitlines text)) [
      | none ↦ err (no_list key)
      | some lines ↦ ok (unlines lines)
    ]

unfoldable pub existing_core_type_values : Text → Result (List ℕ)
existing_core_type_values text = do
  body ← or_fail (core_type_body text) no_core_type_enum
  ok (map (λ (m : Member). m.value) (members 0 false body))

-- `max(values, default=-1) + 1`
unfoldable pub next_value : List ℕ → ℕ
next_value [] = 0
next_value (v ∷ vs) = let rest = next_value vs in if leb rest v then suc v else rest

unfoldable pub next_core_type : Files → Result ℕ
next_core_type files = do
  text ←
      or_fail (files (codes "rtl/pkg/platform_pkg.sv"))
        (file_not_found (codes "rtl/pkg/platform_pkg.sv"))
  values ← existing_core_type_values text
  ok (next_value values)
