-- ===== src/Yaml.antt =====
-- The line scanners of bin/validate_target.py for the descriptor files: `yaml_path_scalar`,
-- `yaml_top_list` and `yaml_path_list`. Each loop over the lines is a state and a step.
pub mod Render
pub mod KeyLines
pub mod Lookup
pub mod RoundTrip
use corejack.Prelude.{
  ℕ, ◌-◌, Bool, false, not, ◌&&◌, ◌||◌, List, [], ◌∷◌, ◌++◌, map, Option, none, some, ◌==◌, leb,
  ltb, if◌then◌else◌, is_nil, length, drop,
}
use corejack.Text.{
  Text, codes, is_key_char, take_while, lstrip, strip, is_quote, strip_quotes, texts_eq,
  strip_prefix, starts_with, ends_by, inner, split_on, splitlines,
}

-- A line that `^(\s*)([A-Za-z0-9_]+):\s*(.*?)\s*$` matches: the length of the first group, and the
-- other two groups.
pub record KeyLine : Type 0 where
  pub indent : ℕ
  pub key : Text
  pub value : Text

after_key : ℕ → Text → Text → Option KeyLine
after_key indent key [] = none
after_key indent key (c ∷ rest) =
    if c == b':' && not (is_nil key)
    then some (record { indent = indent; key = key; value = strip rest })
    else none

unfoldable pub indent_of : Text → ℕ
indent_of line = length line - length (lstrip line)

unfoldable pub key_line : Text → Option KeyLine
unfolding after_key indent_of
key_line line =
    let body = lstrip line in
    let key = take_while is_key_char body in after_key (indent_of line) key (drop (length key) body)

-- `current_path`, the innermost frame first.
pub record Frame : Type 0 where
  pub indent : ℕ
  pub key : Text

-- `while current_path and current_path[-1][0] >= indent: current_path.pop()`
unfoldable pub pop_frames : ℕ → List Frame → List Frame
pop_frames indent [] = []
pop_frames indent (f ∷ fs) = if leb indent f.indent then pop_frames indent fs else f ∷ fs

-- `tuple(item[1] for item in current_path)`
unfoldable pub keys_of : List Frame → List Text
keys_of [] = []
keys_of (f ∷ fs) = keys_of fs ++ f.key ∷ []

unfoldable pub push_frame : KeyLine → List Frame → List Frame
unfolding pop_frames
push_frame k stack = record { indent = k.indent; key = k.key } ∷ pop_frames k.indent stack

-- Blank lines, comments and list items are skipped.
unfoldable pub skips : Text → Bool
skips line =
    let stripped = strip line in
    is_nil stripped || starts_with (codes "#") stripped || starts_with (codes "- ") stripped

abbrev first_by : (ℕ → Bool) → Text → Bool
first_by p [] = false
first_by p (c ∷ s) = p c

-- The value of the line that was looked for; `None` if it is empty.
unfoldable pub scalar_value : Text → Option Text
unfolding inner ends_by
scalar_value value =
    if is_nil value
    then none
    else if first_by is_quote value && ends_by is_quote value
    then some (inner value)
    else some value

-- One round of a loop goes on with a state, or the function returns.
pub data Round {ℓ κ} (S : Type ℓ) (R : Type κ) : Type (ℓ ⊔ κ) where
  next : S → Round S R
  return : R → Round S R

unfoldable pub match_key : List Text → List Frame → KeyLine → Round (List Frame) (Option Text)
match_key path stack k =
    let stack' = push_frame k stack in
    if texts_eq (keys_of stack') path then return (scalar_value k.value) else next stack'

unfoldable pub scalar_step : List Text → List Frame → Text → Round (List Frame) (Option Text)
unfolding match_key skips key_line push_frame keys_of scalar_value
scalar_step path stack line =
    if skips line
    then next stack
    else elim (key_line line) [ none ↦ next stack | some k ↦ match_key path stack k ]

unfoldable pub scan_scalar : List Text → List Frame → List Text → Option Text
scan_scalar path stack [] = none
scan_scalar path stack (line ∷ lines) = elim (scalar_step path stack line) [
  | next stack' ↦ scan_scalar path stack' lines
  | return r ↦ r
]

unfoldable pub yaml_path_scalar : Text → List Text → Option Text
unfolding scan_scalar scalar_step
yaml_path_scalar text path = scan_scalar path [] (splitlines text)

-- `^\s*-\s*(.+?)\s*$`, with the group stripped. A dash with nothing behind it does not match.
abbrev after_dash : Text → Option Text
after_dash [] = none
after_dash (c ∷ s) = some (strip_quotes (strip (c ∷ s)))

item_of : Text → Option Text
item_of [] = none
item_of (c ∷ s) = if c == b'-' then after_dash s else none

unfoldable pub list_item : Text → Option Text
unfolding item_of
list_item line = item_of (lstrip line)

-- `^(\s*)key:\s*(.*)$` for a key that begins with no space: the rest of the line, stripped.
unfoldable pub key_match : Text → Text → Option Text
key_match key line = elim (strip_prefix (key ++ codes ":") (lstrip line)) [
  | none ↦ none
  | some rest ↦ some (strip rest)
]

-- The values so far, and the indentation of the key while its list is read.
pub record ListState : Type 0 where
  pub values : List Text
  pub base : Option ℕ

flow_items : Text → List Text
flow_items inline =
    let body = strip (inner inline) in
    if is_nil body then [] else map (λ item. strip_quotes (strip item)) (split_on b',' body)

-- What stands behind the key: nothing, a flow list, or one value.
at_key : ListState → ℕ → Text → Round ListState (List Text)
unfolding flow_items
at_key s indent inline =
    if starts_with (codes "[") inline && ends_by (λ c. c == b']') inline
    then return (s.values ++ flow_items inline)
    else if is_nil inline
    then next (record { values = s.values; base = some indent })
    else return (s.values ++ strip_quotes inline ∷ [])

add_item : ListState → Option Text → ListState
add_item s none = s
add_item s (some v) = record s { values = s.values ++ v ∷ [] }

in_list : ListState → Option ℕ → Text → Round ListState (List Text)
unfolding add_item
in_list s none line = next s
in_list s (some base) line =
    if leb (indent_of line) base then return s.values else next (add_item s (list_item line))

unfoldable pub list_step : Text → ListState → Text → Round ListState (List Text)
unfolding at_key in_list indent_of list_item key_match
list_step key s line =
    let stripped = strip line in
    if is_nil stripped || starts_with (codes "#") stripped
    then next s
    else elim (key_match key line) [
      | some inline ↦ at_key s (indent_of line) inline
      | none ↦ in_list s s.base line
    ]

unfoldable pub scan_list : Text → ListState → List Text → List Text
scan_list key s [] = s.values
scan_list key s (line ∷ lines) = elim (list_step key s line) [
  | next s' ↦ scan_list key s' lines
  | return r ↦ r
]

unfoldable pub yaml_top_list : Text → Text → List Text
unfolding scan_list list_step
yaml_top_list text key = scan_list key (record { values = []; base = none }) (splitlines text)

-- The state of `yaml_path_list`: the path, the values, and the key's indentation once it was found.
pub record PathState : Type 0 where
  pub stack : List Frame
  pub values : List Text
  pub list_indent : Option ℕ

find_list : List Text → PathState → KeyLine → PathState
find_list path s k =
    let stack' = push_frame k s.stack in
    record s {
      stack = stack';
      list_indent = if texts_eq (keys_of stack') path then some k.indent else none;
    }

take_item : PathState → ℕ → ℕ → Option Text → Round PathState (List Text)
take_item s base indent none = return s.values
take_item s base indent (some v) =
    if ltb base indent then next (record s { values = s.values ++ v ∷ [] }) else return s.values

path_list_in : List Text → PathState → Option ℕ → Text → Round PathState (List Text)
unfolding find_list take_item
path_list_in path s (some base) line = take_item s base (indent_of line) (list_item line)
path_list_in path s none line = elim (key_line line) [
  | none ↦ next s
  | some k ↦ next (find_list path s k)
]

unfoldable pub path_list_step : List Text → PathState → Text → Round PathState (List Text)
unfolding path_list_in push_frame keys_of key_line list_item indent_of
path_list_step path s line =
    let stripped = strip line in
    if is_nil stripped || starts_with (codes "#") stripped
    then next s
    else path_list_in path s s.list_indent line

unfoldable pub scan_path_list : List Text → PathState → List Text → List Text
scan_path_list path s [] = s.values
scan_path_list path s (line ∷ lines) = elim (path_list_step path s line) [
  | next s' ↦ scan_path_list path s' lines
  | return r ↦ r
]

unfoldable pub yaml_path_list : Text → List Text → List Text
unfolding scan_path_list path_list_step
yaml_path_list text path =
    scan_path_list path (record { stack = []; values = []; list_indent = none }) (splitlines text)
