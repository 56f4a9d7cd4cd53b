-- ===== src/Yaml/Render.antt =====
-- A descriptor as a tree, its layout as the files under cfg/ have it, and the lookup of a path.
use corejack.Prelude.{
  ℕ, suc, Bool, true, false, List, [], ◌∷◌, ◌++◌, Option, none, some, ◌≡◌, if◌then◌else◌, is_nil,
  replicate, all, All,
}
use corejack.Text.{Text, is_space, is_key_char, is_quote, texts_eq, ends_by}

-- A mapping: scalars, lists of plain items, and nested mappings, in the order of the file.
pub data Doc : Type 0 where
  end : Doc
  scalar : Text → Text → Doc → Doc
  items : Text → List Text → Doc → Doc
  section : Text → Doc → Doc → Doc

abbrev pub spaces : ℕ → Text
spaces n = replicate n b' '

abbrev pub key_text : ℕ → Text → Text → Text
key_text d k rest = spaces d ++ (k ++ (b':' ∷ rest))

abbrev pub item_lines : ℕ → List Text → List Text
item_lines d [] = []
item_lines d (x ∷ xs) = (spaces d ++ (b'-' ∷ b' ' ∷ x)) ∷ item_lines d xs

-- Nested lines stand two columns further to the right.
abbrev pub render : ℕ → Doc → List Text
render d end = []
render d (scalar k v rest) = key_text d k (b' ' ∷ v) ∷ render d rest
render d (items k xs rest) = key_text d k [] ∷ (item_lines (suc (suc d)) xs ++ render d rest)
render d (section k sub rest) = key_text d k [] ∷ (render (suc (suc d)) sub ++ render d rest)

-- The first entry at a path: `some (some v)` for a scalar, `some none` for a list or a mapping.
abbrev pub Found : Type 0
Found = Option (Option Text)

abbrev pub or_else {ℓ} : {A : Type ℓ} → Option A → Option A → Option A
or_else none o = o
or_else (some a) o = some a

-- `keys` are the keys of the mappings around the document.
abbrev pub find : List Text → List Text → Doc → Found
find keys path end = none
find keys path (scalar k v rest) =
    if texts_eq (keys ++ k ∷ []) path then some (some v) else find keys path rest
find keys path (items k xs rest) =
    if texts_eq (keys ++ k ∷ []) path then some none else find keys path rest
find keys path (section k sub rest) =
    if texts_eq (keys ++ k ∷ []) path
    then some none
    else or_else (find (keys ++ k ∷ []) path sub) (find keys path rest)

-- What may stand as a key and as a plain scalar.
pub record IsKey (k : Text) : Type 0 where
  pub chars : all is_key_char k ≡ true
  pub some_char : is_nil k ≡ false

abbrev pub first_is : (ℕ → Bool) → Text → Bool
first_is p [] = false
first_is p (c ∷ s) = p c

pub record IsPlain (v : Text) : Type 0 where
  pub some_char : is_nil v ≡ false
  pub no_space_before : first_is is_space v ≡ false
  pub no_space_after : ends_by is_space v ≡ false
  pub no_quote_before : first_is is_quote v ≡ false

abbrev pub IsClean : Doc → Type 0
IsClean end = Unit
IsClean (scalar k v rest) = IsKey k × IsPlain v × IsClean rest
IsClean (items k xs rest) = IsKey k × All IsPlain xs × IsClean rest
IsClean (section k sub rest) = IsKey k × IsClean sub × IsClean rest
