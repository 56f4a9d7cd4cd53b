-- ===== src/Template.antt =====
-- Python's format strings: `string.Formatter().parse` and `str.format` with named arguments, as
-- bin/validate_target.py uses them on the templates of the board descriptors and UART banners.
use corejack.Prelude.{
  ℕ, zero, suc, Bool, true, false, not, ◌&&◌, ◌||◌, List, [], ◌∷◌, ◌++◌, Option, none, some, ◌==◌,
  if◌then◌else◌, is_nil, any,
}
use corejack.Text.{Text, text_eq, contains}

pub record Field : Type 0 where
  pub name : Text
  pub conversion : Option ℕ
  pub spec : Text

pub data Piece : Type 0 where
  literal : Text → Piece
  field : Field → Piece

-- Where the parser stands. `open_brace` and `close_brace` hold the literal before a brace whose
-- meaning the next character decides; `spec` holds how many braces are open in a format
-- specification.
pub data Mode : Type 0 where
  literal_text open_brace close_brace name index conversion : Text → Mode
  after_conversion : Text → ℕ → Mode
  spec : Text → Option ℕ → ℕ → Text → Mode

-- A character leads to a mode, with a piece that is then complete, or is refused.
abbrev pub Move : Type 0
Move = Option (Mode × List Piece)

abbrev stay : Mode → Move
stay m = some (m, [])

abbrev emit : Text → Option ℕ → Text → Move
emit n conv s =
    some (literal_text [], field (record { name = n; conversion = conv; spec = s }) ∷ [])

in_name : Text → ℕ → Move
in_name acc c =
    if c == b'{'
    then none
    else if c == b'['
    then stay (index (acc ++ c ∷ []))
    else if c == b'}'
    then emit acc none []
    else if c == b':'
    then stay (spec acc none 0 [])
    else if c == b'!'
    then stay (conversion acc)
    else stay (name (acc ++ c ∷ []))

with_literal : Text → Move → Move
with_literal acc none = none
with_literal acc (some (m, ps)) = some (m, literal acc ∷ ps)

in_spec : Text → Option ℕ → ℕ → Text → ℕ → Move
in_spec n conv zero acc c =
    if c == b'}'
    then emit n conv acc
    else stay (spec n conv (if c == b'{' then 1 else 0) (acc ++ c ∷ []))
in_spec n conv (suc d) acc c = stay (
    spec n conv (if c == b'{' then suc (suc d) else if c == b'}' then d else suc d) (acc ++ c ∷ []))

unfoldable pub move : Mode → ℕ → Move
unfolding in_name with_literal in_spec
move (literal_text acc) c =
    if c == b'{'
    then stay (open_brace acc)
    else if c == b'}'
    then stay (close_brace acc)
    else stay (literal_text (acc ++ c ∷ []))
move (open_brace acc) c =
    if c == b'{' then stay (literal_text (acc ++ c ∷ [])) else with_literal acc (in_name [] c)
move (close_brace acc) c = if c == b'}' then stay (literal_text (acc ++ c ∷ [])) else none
move (name acc) c = in_name acc c
move (index acc) c = if c == b']' then stay (name (acc ++ c ∷ [])) else stay (index (acc ++ c ∷ []))
move (conversion acc) c = stay (after_conversion acc c)
move (after_conversion acc conv) c =
    if c == b'}'
    then emit acc (some conv) []
    else if c == b':'
    then stay (spec acc (some conv) 0 [])
    else none
move (spec n conv depth acc) c = in_spec n conv depth acc c

finish : Mode → Option (List Piece)
finish (literal_text acc) = some (literal acc ∷ [])
finish _ = none

prepend : List Piece → Option (List Piece) → Option (List Piece)
prepend ps none = none
prepend ps (some qs) = some (ps ++ qs)

unfoldable pub run : Mode → Text → Option (List Piece)
unfolding finish prepend
run m [] = finish m
run m (c ∷ s) = elim (move m c) [ none ↦ none | some (m', ps) ↦ prepend ps (run m' s) ]

-- `Formatter().parse`; `none` for the `ValueError` of a malformed template.
unfoldable pub parse : Text → Option (List Piece)
unfolding run move
parse = run (literal_text [])

-- `{field for _, field, _, _ in Formatter().parse(t) if field}`, in the order of the template.
unfoldable pub field_names : List Piece → List Text
field_names [] = []
field_names (literal s ∷ ps) = field_names ps
field_names (field f ∷ ps) =
    let rest = field_names ps in if is_nil f.name then rest else f.name ∷ rest

-- The names that are not in the set.
unfoldable pub unsupported : List Text → List Text → List Text
unsupported names [] = []
unsupported names (x ∷ xs) =
    let rest = unsupported names xs in if contains names x then rest else x ∷ rest

abbrev pub Arguments : Type 0
Arguments = List (Text × Text)

unfoldable pub argument : Text → Arguments → Option Text
argument k [] = none
argument k ((j, v) ∷ args) = if text_eq j k then some v else argument k args

-- A replacement field with nothing but a name: no conversion, specification, attribute or index.
unfoldable pub is_simple : Field → Bool
is_simple f =
    elim f.conversion [ none ↦ true | some _ ↦ false ]
    && is_nil f.spec
    && not (any (λ c. c == b'.' || c == b'[') f.name)

-- What any other field prints is the business of the format mini-language: `format_field`.
module _ (format_field : Arguments → Field → Option Text) (args : Arguments) where
  format_piece : Piece → Option Text
  format_piece (literal s) = some s
  format_piece (field f) = if is_simple f then argument f.name args else format_field args f

  join_text : Option Text → Option Text → Option Text
  join_text none rest = none
  join_text (some s) none = none
  join_text (some s) (some t) = some (s ++ t)

  unfoldable pub format_pieces : List Piece → Option Text
  unfolding format_piece join_text
  format_pieces [] = some []
  format_pieces (p ∷ ps) = join_text (format_piece p) (format_pieces ps)

  format_parsed : Option (List Piece) → Option Text
  format_parsed none = none
  format_parsed (some ps) = format_pieces ps

  -- `t.format(**args)`; `none` for its exceptions: a malformed template, or a field with no argument.
  unfoldable pub format : Text → Option Text
  unfolding format_parsed format_pieces argument is_simple
  format t = format_parsed (parse t)
