-- ===== src/Members.antt =====
-- Loops that fail, and lists of names, seen through membership.

use corejack.Prelude.{true, false, List, [], ◌∷◌, ◌≡◌, arith, inl, inr, is_nil, Bool-cases}
use corejack.Text.{Text, text_eq, contains}
use corejack.Text.Laws.{text_eq_iff}
use corejack.Failure.{Result, ok, for_each}
use corejack.Template.{unsupported}
use corejack.Descriptor.{excludes}

-- A loop that ends with no failure has none for any member.
pub for_each-contains :
    (f : Text → Result (Unit {0})) (xs : List Text) (a : Text)
    → for_each f xs ≡ ok tt
    → contains xs a ≡ true
    → f a ≡ ok tt
unfolding for_each
for_each-contains f [] a h m = cc
for_each-contains f (x ∷ xs) a h m = elim (Bool-cases (text_eq a x)) [
  | inl same ↦ rw ((text_eq_iff a x).0 same) (ground arith)
  | inr other ↦ for_each-contains f xs a (ground arith) (ground arith)
]

-- Nothing is missing: every member is a name of the set.
pub unsupported-nil :
    (names xs : List Text) (a : Text)
    → is_nil (unsupported names xs) ≡ true
    → contains xs a ≡ true
    → contains names a ≡ true
unfolding unsupported
unsupported-nil names [] a h m = cc
unsupported-nil names (x ∷ xs) a h m = elim (Bool-cases (text_eq a x)) [
  | inl same ↦ rw ((text_eq_iff a x).0 same) (ground arith)
  | inr other ↦ unsupported-nil names xs a (ground arith) (ground arith)
]

-- A list that holds a name excludes it from nothing.
pub contains-excludes : (xs : List Text) (a : Text) → contains xs a ≡ true → excludes xs a ≡ false
contains-excludes xs a h = rw h (ground arith)
