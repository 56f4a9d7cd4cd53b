-- ===== src/Yaml/Lookup.antt =====
-- The lookup of a path in a descriptor tree, key by key, and its agreement with `find`, which
-- carries the keys of the mappings around the document.
use corejack.Prelude.{
  false, ◌&&◌, List, [], ◌∷◌, ◌++◌, none, some, ◌≡◌, ◌≢◌, refl, sym, ◌∙◌, inl, inr, arith,
  if◌then◌else◌, append_assoc, is_nil, Bool-cases,
}
use corejack.Text.{Text, text_eq, texts_eq}
use corejack.Text.Laws.{text_eq_iff, texts_eq_iff, text_eq_refl}
use corejack.Yaml.Render.{Doc, end, scalar, items, section, Found, or_else, find}

abbrev pub lookup : List Text → Doc → Found
lookup [] doc = none
lookup (j ∷ js) end = none
lookup (j ∷ js) (scalar k v rest) =
    let other = lookup (j ∷ js) rest in if text_eq k j && is_nil js then some (some v) else other
lookup (j ∷ js) (items k xs rest) =
    let other = lookup (j ∷ js) rest in if text_eq k j && is_nil js then some none else other
lookup (j ∷ js) (section k sub rest) =
    let other = lookup (j ∷ js) rest in
    let below = lookup js sub in
    if text_eq k j then if is_nil js then some none else or_else below other else other

-- The path does not lead into the mapping.
abbrev Apart : List Text → List Text → Type 0
Apart keys path = (p : List Text) → path ≢ keys ++ p

texts_eq-Apart :
    (keys path : List Text) (k : Text) → Apart keys path → texts_eq (keys ++ k ∷ []) path ≡ false
texts_eq-Apart keys path k h = elim (Bool-cases (texts_eq (keys ++ k ∷ []) path)) [
  | inl same ↦ absurd (h (k ∷ []) (sym ((texts_eq_iff _ path).0 same)))
  | inr differ ↦ differ
]

find-Apart : (keys path : List Text) (doc : Doc) → Apart keys path → find keys path doc ≡ none
find-Apart keys path end h = refl
find-Apart keys path (scalar k v rest) h =
    rw (texts_eq-Apart keys path k h) (find-Apart keys path rest h)
find-Apart keys path (items k xs rest) h =
    rw (texts_eq-Apart keys path k h) (find-Apart keys path rest h)
find-Apart keys path (section k sub rest) h =
    rw
      (
        texts_eq-Apart keys path k h,
        find-Apart (keys ++ k ∷ []) path sub (λ p e. h (k ∷ p) (e ∙ append_assoc keys (k ∷ []) p)),
      )
      (find-Apart keys path rest h)

-- Two ways on from the same keys.
texts_eq-step :
    (keys : List Text) (k j : Text) (js : List Text)
    → texts_eq (keys ++ k ∷ []) (keys ++ j ∷ js) ≡ (text_eq k j && is_nil js)
unfolding texts_eq
texts_eq-step [] k j [] = refl
texts_eq-step [] k j (i ∷ js) = refl
texts_eq-step (i ∷ keys) k j js = rw (text_eq_refl i) (texts_eq-step keys k j js)

Apart-ne :
    (keys : List Text) (k j : Text) (js : List Text)
    → text_eq k j ≡ false
    → Apart (keys ++ k ∷ []) (keys ++ j ∷ js)
Apart-ne [] k j js h p e = ground (arith, text_eq_refl k)
Apart-ne (i ∷ keys) k j js h p e = Apart-ne keys k j js h p (cc)

pub find-lookup :
    (keys : List Text) (j : Text) (js : List Text) (doc : Doc)
    → find keys (keys ++ j ∷ js) doc ≡ lookup (j ∷ js) doc
find-lookup keys j js end = refl
find-lookup keys j js (scalar k v rest) = rw (texts_eq-step keys k j js, find-lookup keys j js rest)
find-lookup keys j js (items k xs rest) = rw (texts_eq-step keys k j js, find-lookup keys j js rest)
find-lookup keys j [] (section k sub rest) = ground (
  arith,
  texts_eq-step keys k j [],
  find-lookup keys j [] rest,
  λ (h : text_eq k j ≡ false). find-Apart _ _ sub (Apart-ne keys k j [] h),
)
find-lookup keys j (i ∷ is) (section k sub rest) = ground (
  arith,
  texts_eq-step keys k j (i ∷ is),
  find-lookup keys j (i ∷ is) rest,
  text_eq_iff k j,
  append_assoc keys (k ∷ []) (i ∷ is),
  find-lookup (keys ++ k ∷ []) i is sub,
  λ (h : text_eq k j ≡ false). find-Apart _ _ sub (Apart-ne keys k j (i ∷ is) h),
)
