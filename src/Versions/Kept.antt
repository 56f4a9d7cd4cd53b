-- ===== src/Versions/Kept.antt =====
-- The sweep of bin/bump_version.py makes no new match: what is a number, a dot or the word of a name
-- behind it was one before.
use corejack.Prelude.{
  ℕ, Bool, true, false, [], ◌∷◌, ◌++◌, Option, none, some, ◌≡◌, ◌≢◌, refl, sym, ap, ◌∙◌, arith,
  ◌==◌, ◌&&◌, length, drop, inl, inr, Bool-cases, Option-cases,
}
use corejack.Text.{Text, codes, is_key_char, is_alnum, strip_prefix, take_while}
use corejack.Rtl.{is_digit}
use corejack.Splice.{digits_then, dotted, patch, minor, behind_version}
use corejack.Yaml.Render.{first_is}
use corejack.Versions.{name_segments, name_at, replace_versions}
use corejack.Versions.Sweep.{sweep, name_at-first, name_at-some}
use corejack.Versions.Replaced.{name_at-Match, sweep-kept, lift, strip-sweep, head_of}

none-some : {f : Text × Text} → none ≢ some f
none-some e = cc

module _ (new : Text) where
  digit-ne : (c : ℕ) → is_digit c ≡ true → c ≢ b'c'
  digit-ne c h e = ground (arith, h, e)

  -- The first character is the same.
  sweep-cons : (c : ℕ) (s : Text) → (t : Text) × (sweep new (c ∷ s) ≡ c ∷ t)
  sweep-cons c s = elim (Option-cases (name_at (c ∷ s))) [
    | inl nowhere ↦ (sweep new s, sweep-kept new c s nowhere)
    | inr ((v, rest), found) ↦
        let m = name_at-Match new c s found in
        let first : c ≡ b'c' = ap head_of m.text in
        let later : Text = codes "orejack:" ++ (m.name ++ (new ++ sweep new rest)) in
        (later, m.swept ∙ ap (λ (x : ℕ). x ∷ later) (sym first))
  ]

  pub first-digit-sweep : (s : Text) → first_is is_digit (sweep new s) ≡ first_is is_digit s
  first-digit-sweep [] = unfold replace_versions in refl
  first-digit-sweep (c ∷ s) = let (t, e) = sweep-cons c s in rw e refl

  sweep-not_c : (c : ℕ) (s : Text) → c ≢ b'c' → sweep new (c ∷ s) ≡ c ∷ sweep new s
  sweep-not_c c s h = sweep-kept new c s (name_at-first c s h)

  while-sweep :
      (s : Text)
      → (take_while is_digit (sweep new s) ≡ take_while is_digit s)
        × (drop (length (take_while is_digit s)) (sweep new s)
            ≡ sweep new (drop (length (take_while is_digit s)) s))
  unfolding take_while
  while-sweep [] = (unfold replace_versions in refl, unfold replace_versions in refl)
  while-sweep (c ∷ s) = elim (Bool-cases (is_digit c)) [
    | inl digit ↦
        let (same, rest) = while-sweep s in
        rw (sweep-not_c c s (digit-ne c digit)) (ground (arith, digit, same, rest))
    | inr other ↦
        let (t, e) = sweep-cons c s in (rw e (ground (arith, other)), ground (arith, other))
  ]

  digits_then-sweep :
      (f : Text → Option Text) (s : Text)
      → ((t : Text) → f (sweep new t) ≡ lift (sweep new) (f t))
      → digits_then f (sweep new s) ≡ lift (sweep new) (digits_then f s)
  unfolding digits_then
  digits_then-sweep f s below =
      let (same, rest) = while-sweep s in
      rw (same, rest) (ground (arith, below (drop (length (take_while is_digit s)) s)))

  dot-sweep :
      (s : Text)
      → strip_prefix (codes ".") (sweep new s) ≡ lift (sweep new) (strip_prefix (codes ".") s)
  dot-sweep s = strip-sweep new b'.' [] s (λ e. ground (arith, e)) λ t. unfold strip_prefix in refl

  dotted-sweep :
      (f : Text → Option Text) (s : Text)
      → ((t : Text) → f (sweep new t) ≡ lift (sweep new) (f t))
      → dotted f (sweep new s) ≡ lift (sweep new) (dotted f s)
  dotted-sweep f s below = elim (Option-cases (strip_prefix (codes ".") s)) [
    | inl e ↦ rw (dot-sweep s, e) refl
    | inr (t, e) ↦ rw (dot-sweep s, e) (below t)
  ]

  behind_version-sweep :
      (s : Text) → behind_version (sweep new s) ≡ lift (sweep new) (behind_version s)
  unfolding behind_version
  behind_version-sweep s = digits_then-sweep (dotted minor) s λ a. dotted-sweep minor a λ b.
      digits_then-sweep (dotted patch) b
        λ c. dotted-sweep patch c λ d. digits_then-sweep (λ e. some e) d λ e. refl

  -- The end of the word: where another word begins, its second character is no `k`.
  end-sweep :
      (s : Text)
      → ((t : Text)
          → strip_prefix (codes "k:") (sweep new t)
            ≡ lift (sweep new) (strip_prefix (codes "k:") t))
      → strip_prefix (codes "ck:") (sweep new s) ≡ lift (sweep new) (strip_prefix (codes "ck:") s)
  unfolding strip_prefix
  end-sweep [] below = unfold replace_versions in refl
  end-sweep (c ∷ s) below = elim (Option-cases (name_at (c ∷ s))) [
    | inl nowhere ↦ rw (sweep-kept new c s nowhere) (ground (arith, below s))
    | inr ((v, rest), found) ↦
        let m = name_at-Match new c s found in
        ap (strip_prefix (codes "ck:")) m.swept
        ∙ sym (ap (λ (t : Text). lift (sweep new) (strip_prefix (codes "ck:") t)) m.text)
  ]

  not_c : (x : ℕ) → (x == b'c') ≡ false → x ≢ b'c'
  not_c x h e = ground (arith, h, e)

  word-sweep :
      (s : Text)
      → strip_prefix (codes "orejack:") (sweep new s)
        ≡ lift (sweep new) (strip_prefix (codes "orejack:") s)
  word-sweep s = strip-sweep new b'o' _ s (not_c _ refl) λ s1.
      strip-sweep new b'r' _ s1 (not_c _ refl) λ s2. strip-sweep new b'e' _ s2 (not_c _ refl) λ s3.
        strip-sweep new b'j' _ s3 (not_c _ refl) λ s4.
          strip-sweep new b'a' _ s4 (not_c _ refl) λ s5. end-sweep s5 λ s6.
            strip-sweep new b'k' _ s6 (not_c _ refl)
              λ s7. strip-sweep new b':' [] s7 (not_c _ refl) λ s8. unfold strip_prefix in refl

  name_segments-word :
      (read : Bool) (t : Text) {f : Text × Text}
      → name_segments false t ≡ some f
      → name_segments read (codes "corejack:" ++ t) ≡ some f
  unfolding name_segments is_key_char is_alnum
  name_segments-word read t h = rw h refl

  name_segments-kept :
      (read : Bool) (s : Text)
      → name_segments read s ≡ none
      → name_segments read (sweep new s) ≡ none
  unfolding name_segments
  name_segments-kept read [] h = unfold replace_versions in refl
  name_segments-kept read (c ∷ s) h = elim (Option-cases (name_at (c ∷ s))) [
    | inr (f, found) ↦
        let (t, begins, inner) = name_at-some (c ∷ s) found in
        absurd
          (none-some (sym h ∙ ap (name_segments read) begins ∙ name_segments-word read t inner))
    | inl nowhere ↦ elim (Bool-cases (is_key_char c)) [
      | inl key ↦
          let inside = name_segments-kept true s (ground (arith, h, key)) in
          rw (sweep-kept new c s nowhere) (ground (arith, key, inside))
      | inr other ↦ elim (Bool-cases (read && c == b':')) [
        | inr nothing ↦ rw (sweep-kept new c s nowhere) (ground (arith, other, nothing))
        | inl colon ↦
            let longer : name_segments false s ≡ none = ground (arith, h, other, colon) in
            let version : behind_version s ≡ none = ground (arith, h, other, colon, longer) in
            let inside = name_segments-kept false s longer in
            let swept : behind_version (sweep new s) ≡ none =
              behind_version-sweep s ∙ ap (lift (sweep new)) version in
            rw (sweep-kept new c s nowhere) (ground (arith, other, colon, inside, swept))
      ]
    ]
  ]

  pub name_at-kept : (c : ℕ) (s : Text) → name_at (c ∷ s) ≡ none → name_at (c ∷ sweep new s) ≡ none
  unfolding name_at strip_prefix
  name_at-kept c s h = elim (Bool-cases (c == b'c')) [
    | inr other ↦ name_at-first c (sweep new s) (not_c c other)
    | inl same ↦ elim (Option-cases (strip_prefix (codes "orejack:") s)) [
      | inl no_word ↦ ground (arith, same, word-sweep s, no_word)
      | inr (t, word) ↦
          let inner : name_segments false t ≡ none = ground (arith, h, same, word) in
          ground (arith, same, word-sweep s, word, name_segments-kept false t inner)
    ]
  ]
