-- ===== src/Scaffold/ListItem.antt =====
-- The list edit of bin/create_core.py: what it appends, its own test then finds.
use corejack.Prelude.{
  ℕ, zero, suc, ◌+◌, true, false, ◌&&◌, List, [], ◌∷◌, ◌++◌, Option, none, some, ◌≡◌, refl, arith,
  ◌==◌, All, inl, inr, Bool-cases, Option-cases,
}
use corejack.Text.{Text, is_break, splitlines, strip, push_char, next_is_lf}
use corejack.Text.Laws.{text_eq_refl}
use corejack.Text.Lines.{OneLine, splitlines-unlines}
use corejack.Failure.{ok}
use corejack.Yaml.{indent_of}
use corejack.Yaml.Render.{spaces}
use corejack.Scaffold.{
  opens, item_text, moved, contains_item, yaml_top_list_contains, item_line, ends_at, insert_item,
  append_yaml_top_list_item,
}

-- How the scanners read the appended line: it does not open the list, it stands two columns further
-- to the right, and it is the item.
pub record ReadsBack (key item : Text) : Type 0 where
  pub closed : (d : ℕ) → opens key (item_line d item) ≡ false
  pub indented : (d : ℕ) → indent_of (item_line d item) ≡ d + 2
  pub stripped : (d : ℕ) → strip (item_line d item) ≡ item_text item

contains-item_line :
    (key item : Text) (d : ℕ) (lines : List Text)
    → ReadsBack key item
    → contains_item key item (some d) (item_line d item ∷ lines) ≡ true
unfolding contains_item
contains-item_line key item d lines h =
    ground (arith, h.closed d, h.indented d, h.stripped d, text_eq_refl (item_text item))

insert-contains :
    (key item : Text) (base : Option ℕ) (lines : List Text) {out : List Text}
    → ReadsBack key item
    → contains_item key item base lines ≡ false
    → insert_item key item base lines ≡ some out
    → contains_item key item base out ≡ true
unfolding contains_item insert_item
insert-contains key item none [] h absent made = cc
insert-contains key item (some d) [] h absent made =
    ground (arith, made, contains-item_line key item d [] h)
insert-contains key item none (line ∷ lines) h absent made =
    elim (Option-cases (insert_item key item (moved key line none) lines)) [
      | inl nowhere ↦ absurd (ground (arith, made, nowhere))
      | inr (more, there) ↦
          let found : contains_item key item (moved key line none) more ≡ true =
            insert-contains key item (moved key line none) lines h absent there in
          ground (arith, made, there, found)
    ]
insert-contains key item (some d) (line ∷ lines) h absent made =
    elim (Option-cases (ends_at key (some d) line)) [
      | inr (indent, ends) ↦
          ground (arith, made, ends, contains-item_line key item d (line ∷ lines) h)
      | inl goes_on ↦ elim (Option-cases (insert_item key item (moved key line (some d)) lines)) [
        | inl nowhere ↦ absurd (ground (arith, made, goes_on, nowhere))
        | inr (more, there) ↦
            let rest_absent : contains_item key item (moved key line (some d)) lines ≡ false =
              ground (arith, absent, goes_on) in
            let found : contains_item key item (moved key line (some d)) more ≡ true =
              insert-contains key item (moved key line (some d)) lines h rest_absent there in
            ground (arith, made, goes_on, there, found)
      ]
    ]

push_char-OneLine :
    (c : ℕ) (lines : List Text)
    → is_break c ≡ false
    → All OneLine lines
    → All OneLine (push_char c lines)
push_char-OneLine c [] h hs = ((h, tt), tt)
push_char-OneLine c (l ∷ ls) h (hl, hs) = ((h, hl), hs)

-- The lines of a text hold no line break.
splitlines-OneLine : (text : Text) → All OneLine (splitlines text)
unfolding splitlines
splitlines-OneLine [] = tt
splitlines-OneLine (c ∷ s) =
    let rest : All OneLine (splitlines s) = splitlines-OneLine s in
    elim (Bool-cases (c == 13 && next_is_lf s)) [
      | inl joined ↦ rw joined rest
      | inr apart ↦ elim (Bool-cases (is_break c)) [
        | inl ends ↦ rw (apart, ends) (tt, rest)
        | inr inside ↦ rw (apart, inside) (push_char-OneLine c (splitlines s) inside rest)
      ]
    ]

OneLine-spaces : (d : ℕ) (s : Text) → OneLine s → OneLine (spaces d ++ s)
OneLine-spaces zero s h = h
OneLine-spaces (suc d) s h = (unfold is_break in refl, OneLine-spaces d s h)

OneLine-item_line : (d : ℕ) (item : Text) → OneLine item → OneLine (item_line d item)
OneLine-item_line d item h =
    OneLine-spaces (d + 2) _ (unfold is_break in refl, (unfold is_break in refl, h))

insert-OneLine :
    (key item : Text) (base : Option ℕ) (lines : List Text) {out : List Text}
    → OneLine item
    → All OneLine lines
    → insert_item key item base lines ≡ some out
    → All OneLine out
unfolding insert_item
insert-OneLine key item none [] h hs made = cc
insert-OneLine key item (some d) [] h hs made = ground (arith, made, OneLine-item_line d item h)
insert-OneLine key item none (line ∷ lines) h (hl, hs) made =
    elim (Option-cases (insert_item key item (moved key line none) lines)) [
      | inl nowhere ↦ absurd (ground (arith, made, nowhere))
      | inr (more, there) ↦
          let rest : All OneLine more =
            insert-OneLine key item (moved key line none) lines h hs there in
          ground (arith, made, there, rest, hl)
    ]
insert-OneLine key item (some d) (line ∷ lines) h (hl, hs) made =
    elim (Option-cases (ends_at key (some d) line)) [
      | inr (indent, ends) ↦ ground (arith, made, ends, hl, hs, OneLine-item_line indent item h)
      | inl goes_on ↦ elim (Option-cases (insert_item key item (moved key line (some d)) lines)) [
        | inl nowhere ↦ absurd (ground (arith, made, goes_on, nowhere))
        | inr (more, there) ↦
            let rest : All OneLine more =
              insert-OneLine key item (moved key line (some d)) lines h hs there in
            ground (arith, made, goes_on, there, rest, hl)
      ]
    ]

-- The list that a text has behind a key names an item that was appended to it.
pub append-contains :
    (text key item : Text) {updated : Text}
    → ReadsBack key item
    → OneLine item
    → append_yaml_top_list_item text key item ≡ ok updated
    → yaml_top_list_contains updated key item ≡ true
unfolding append_yaml_top_list_item yaml_top_list_contains
append-contains text key item h one made =
    elim (Bool-cases (contains_item key item none (splitlines text))) [
      | inr absent ↦ elim (Option-cases (insert_item key item none (splitlines text))) [
        | inl nowhere ↦ absurd (ground (arith, made, absent, nowhere))
        | inr (lines, there) ↦ ground (
          arith,
          made,
          absent,
          there,
          splitlines-unlines lines
              (insert-OneLine key item none (splitlines text) one (splitlines-OneLine text) there),
          insert-contains key item none (splitlines text) h absent there,
        )
      ]
      | inl found ↦ ground (arith, made, found)
    ]
