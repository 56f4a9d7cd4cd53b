-- ===== src/Scaffold/Identifier.antt =====
-- A name that `require_identifier` lets pass, in the list of cores of a board descriptor.
use corejack.Prelude.{ℕ, ◌+◌, true, false, [], ◌∷◌, ◌++◌, ◌≡◌, refl, ap, ◌∙◌, arith, all, none}
use corejack.Text.{
  Text, codes, is_break, is_space, lstrip, rstrip_by, strip_by, strip_prefix, ends_by,
}
use corejack.Text.Lines.{OneLine}
use corejack.Yaml.{indent_of, key_match}
use corejack.Yaml.KeyLines.{lstrip-spaces, length-spaces, lstrip-no_space, rstrip-no_space}
use corejack.Scaffold.{is_identifier_char, is_identifier, opens, item_text, item_line}
use corejack.Scaffold.ListItem.{ReadsBack}

identifier_char_facts :
    (c : ℕ) → is_identifier_char c ≡ true → (is_break c ≡ false) × (is_space c ≡ false)
unfolding is_break is_space
identifier_char_facts c h = ground arith

all-OneLine : (s : Text) → all is_identifier_char s ≡ true → OneLine s
all-OneLine [] h = tt
all-OneLine (c ∷ s) h =
    ((identifier_char_facts c (ground (arith, h))).0, all-OneLine s (ground (arith, h)))

ends_by-identifier : (s : Text) → all is_identifier_char s ≡ true → ends_by is_space s ≡ false
unfolding ends_by
ends_by-identifier [] h = refl
ends_by-identifier (c ∷ s) h = ground (arith, h, identifier_char_facts c, ends_by-identifier s)

lstrip-item_line : (d : ℕ) (item : Text) → lstrip (item_line d item) ≡ item_text item
lstrip-item_line d item =
    lstrip-spaces (d + 2) (item_text item)
    ∙ lstrip-no_space (item_text item) (unfold is_space in refl)

is_identifier-all : (s : Text) → is_identifier s ≡ true → all is_identifier_char s ≡ true
unfolding is_identifier
is_identifier-all [] h = refl
is_identifier-all (c ∷ s) h = ground (arith, h)

pub is_identifier-OneLine : (s : Text) → is_identifier s ≡ true → OneLine s
is_identifier-OneLine s h = all-OneLine s (is_identifier-all s h)

item_text-ends :
    (item : Text) → is_identifier item ≡ true → ends_by is_space (item_text item) ≡ false
unfolding ends_by is_identifier
item_text-ends [] h = cc
item_text-ends (c ∷ s) h = ends_by-identifier (c ∷ s) (is_identifier-all (c ∷ s) h)

no_key-item : (item : Text) → strip_prefix (codes "compatible_cores:") (item_text item) ≡ none
unfolding strip_prefix
no_key-item item = refl

opens-no_key :
    (key line : Text)
    → strip_prefix (key ++ codes ":") (lstrip line) ≡ none
    → opens key line ≡ false
unfolding opens key_match
opens-no_key key line h = ground (arith, h)

opens-item_line :
    (d : ℕ) (item : Text) → opens (codes "compatible_cores") (item_line d item) ≡ false
opens-item_line d item =
    opens-no_key (codes "compatible_cores") (item_line d item)
      (ap (strip_prefix (codes "compatible_cores:")) (lstrip-item_line d item) ∙ no_key-item item)

pub is_identifier-ReadsBack :
    (item : Text) → is_identifier item ≡ true → ReadsBack (codes "compatible_cores") item
is_identifier-ReadsBack item h = record {
  closed = λ d. opens-item_line d item;
  indented = λ d.
      unfold indent_of in
      rw (lstrip-item_line d item) (omega (arith, length-spaces (d + 2) (item_text item)));
  stripped = λ d.
      unfold strip_by in
      ap (rstrip_by is_space) (lstrip-item_line d item)
      ∙ rstrip-no_space (item_text item) (item_text-ends item h);
}
