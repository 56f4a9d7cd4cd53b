-- ===== src/Host.antt =====
-- What bin/validate_target.py reads of the machine: the repository's files, the names in its
-- descriptor directories, and what Python does outside this model.
use corejack.Prelude.{
  ℕ, Bool, true, false, ◌&&◌, ◌||◌, List, [], ◌∷◌, ◌++◌, Option, none, some, ◌==◌, ltb,
  if◌then◌else◌,
}
use corejack.Text.{Text, codes, text_eq}
use corejack.Template.{Arguments, Field}

-- A path is the text that is joined to the repository's root.
pub record Host : Type 0 where
  -- the text of the file at a path, if there is one
  pub file : Text → Option Text
  -- the names in a directory, in the order of the file system
  pub entries : Text → List Text
  -- a replacement field with an attribute, an index, a conversion or a format specification
  pub format_field : Arguments → Field → Option Text
  -- `str((REPO_ROOT / path).resolve())`
  pub resolve : Text → Text

abbrev pub core_dir : Text
core_dir = codes "cfg/cores"

abbrev pub board_dir : Text
board_dir = codes "cfg/boards"

unfoldable pub text_le : Text → Text → Bool
text_le [] t = true
text_le (a ∷ s) [] = false
text_le (a ∷ s) (b ∷ t) = ltb a b || (a == b && text_le s t)

-- `sorted` of texts
unfoldable pub insert : Text → List Text → List Text
unfolding text_le
insert a [] = a ∷ []
insert a (x ∷ xs) = if text_le a x then a ∷ x ∷ xs else x ∷ insert a xs

unfoldable pub sorted : List Text → List Text
unfolding insert
sorted [] = []
sorted (x ∷ xs) = insert x (sorted xs)

-- The stem of a name that ends in `.yaml`. A name that is only the suffix is its own stem.
abbrev pub suffix : Text
suffix = codes ".yaml"

is_suffix : Text → Bool
is_suffix s = text_eq suffix s

with_char : ℕ → Option Text → Option Text
with_char c none = none
with_char c (some s) = some (c ∷ s)

before_suffix : Text → Option Text
unfolding is_suffix with_char text_eq
before_suffix [] = none
before_suffix (c ∷ s) = if is_suffix (c ∷ s) then some [] else with_char c (before_suffix s)

-- The stem of an entry that `glob("*.yaml")` lists.
stem : Text → Option Text
unfolding before_suffix
stem entry = if is_suffix entry then some entry else before_suffix entry

unfoldable pub stems : List Text → List Text
unfolding stem
stems [] = []
stems (e ∷ es) = let rest = stems es in elim (stem e) [ none ↦ rest | some s ↦ s ∷ rest ]

unfoldable pub descriptor_names : Host → Text → List Text
unfolding sorted stems
descriptor_names host dir = sorted (stems (host.entries dir))

unfoldable pub descriptor_path : Text → Text → Text
descriptor_path dir name = dir ++ (b'/' ∷ (name ++ suffix))
