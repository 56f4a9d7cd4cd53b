-- ===== src/Drawing/Walk.antt =====
-- The walk of `flatten_light_dark` through a call with balanced arguments.
use corejack.Prelude.{
  ℕ, suc, ◌≤◌, Bool, true, ◌&&◌, ◌||◌, not, [], ◌∷◌, ◌++◌, Option, none, some, ◌==◌, ◌≡◌, refl, sym,
  ap, ◌∙◌, arith, append_assoc, append-nil,
}
use corejack.Text.{Text, is_some, is_some}
use corejack.Drawing.{depth_after, first_after, walk}

-- A text in which each parenthesis has its partner.
pub data Balanced : Type 0 where
  end : Balanced
  char : ℕ → Balanced → Balanced
  group : Balanced → Balanced → Balanced

abbrev pub show : Balanced → Text
show end = []
show (char c rest) = c ∷ show rest
show (group inside rest) = b'(' ∷ (show inside ++ b')' ∷ show rest)

-- No parenthesis stands alone.
abbrev pub balanced : Balanced → Bool
balanced end = true
balanced (char c rest) = not (c == b'(') && not (c == b')') && balanced rest
balanced (group inside rest) = balanced inside && balanced rest

-- No comma stands outside the parentheses.
abbrev pub one_argument : Balanced → Bool
one_argument end = true
one_argument (char c rest) = not (c == b',') && one_argument rest
one_argument (group inside rest) = one_argument rest

append-char : (read : Text) (c : ℕ) (s : Text) → (read ++ c ∷ []) ++ s ≡ read ++ c ∷ s
append-char read c s = append_assoc read (c ∷ []) s

-- A character that the walk passes without seeing a comma of the call.
abbrev blind : ℕ → Option Text → Bool
blind depth first = not (depth == 1 && not (is_some first))

pass_char :
    (c depth : ℕ) (read : Text) (first : Option Text) (s : Text)
    → not (c == b'(') && not (c == b')') ≡ true
    → not (c == b',') || blind depth first ≡ true
    → walk depth read first (c ∷ s) ≡ walk depth (read ++ c ∷ []) first s
unfolding walk depth_after first_after
pass_char c depth read first s h b = ground arith

pass_close :
    (depth : ℕ) (read : Text) (first : Option Text) (s : Text)
    → 1 ≤ depth
    → walk (suc depth) read first (b')' ∷ s) ≡ walk depth (read ++ b')' ∷ []) first s
unfolding walk depth_after first_after
pass_close depth read first s d = ground arith

deeper_blind : (depth : ℕ) (first : Option Text) → 1 ≤ depth → blind (suc depth) first ≡ true
deeper_blind depth first d = ground arith

walk-group :
    (inside rest : Balanced) (depth : ℕ) (read : Text) (first : Option Text) (s : Text)
    → 1 ≤ depth
    → ((read : Text) (s : Text)
        → walk (suc depth) read first (show inside ++ s)
          ≡ walk (suc depth) (read ++ show inside) first s)
    → ((read : Text)
        → walk depth read first (show rest ++ s) ≡ walk depth (read ++ show rest) first s)
    → walk depth read first (show (group inside rest) ++ s)
      ≡ walk depth (read ++ show (group inside rest)) first s
unfolding walk depth_after first_after
walk-group inside rest depth read first s d in_group behind =
    let i = show inside in
    let r = show rest in
    ap (walk (suc depth) (read ++ b'(' ∷ []) first) (append_assoc i (b')' ∷ r) s)
    ∙ in_group (read ++ b'(' ∷ []) (b')' ∷ (r ++ s))
    ∙ pass_close depth ((read ++ b'(' ∷ []) ++ i) first (r ++ s) d
    ∙ behind (((read ++ b'(' ∷ []) ++ i) ++ b')' ∷ [])
    ∙ ap (λ t. walk depth t first s)
        (append-char ((read ++ b'(' ∷ []) ++ i) b')' r
          ∙ append_assoc (read ++ b'(' ∷ []) i (b')' ∷ r)
          ∙ append-char read b'(' (i ++ b')' ∷ r))

walk-inside :
    (a : Balanced) (depth : ℕ) (read : Text) (first : Option Text) (s : Text)
    → balanced a ≡ true
    → 1 ≤ depth
    → blind depth first ≡ true
    → walk depth read first (show a ++ s) ≡ walk depth (read ++ show a) first s
walk-inside end depth read first s h d b = ap (λ t. walk depth t first s) (sym (append-nil read))
walk-inside (char c rest) depth read first s h d b =
    pass_char c depth read first (show rest ++ s) (ground (arith, h)) (ground (arith, b))
    ∙ walk-inside rest depth (read ++ c ∷ []) first s (ground (arith, h)) d b
    ∙ ap (λ t. walk depth t first s) (append-char read c (show rest))
walk-inside (group inside rest) depth read first s h d b =
    walk-group inside rest depth read first s d
      (λ t u.
        walk-inside inside (suc depth) t first u (ground (arith, h)) (omega arith)
          (deeper_blind depth first d))
      (λ t. walk-inside rest depth t first s (ground (arith, h)) d b)

-- The first argument, in which no comma ends it.
walk-first :
    (a : Balanced) (read s : Text)
    → balanced a ≡ true
    → one_argument a ≡ true
    → walk 1 read none (show a ++ s) ≡ walk 1 (read ++ show a) none s
walk-first end read s h one = ap (λ t. walk 1 t none s) (sym (append-nil read))
walk-first (char c rest) read s h one =
    pass_char c 1 read none (show rest ++ s) (ground (arith, h)) (ground (arith, one))
    ∙ walk-first rest (read ++ c ∷ []) s (ground (arith, h)) (ground (arith, one))
    ∙ ap (λ t. walk 1 t none s) (append-char read c (show rest))
walk-first (group inside rest) read s h one =
    walk-group inside rest 1 read none s (omega arith)
      (λ t u. walk-inside inside 2 t none u (ground (arith, h)) (omega arith) refl)
      (λ t. walk-first rest t s (ground (arith, h)) one)

pub walk-call :
    (light dark : Balanced) (s : Text)
    → balanced light ≡ true
    → one_argument light ≡ true
    → balanced dark ≡ true
    → walk 1 [] none (show light ++ b',' ∷ (show dark ++ b')' ∷ s)) ≡ (some (show light), some s)
unfolding walk depth_after first_after
walk-call light dark s h one h' =
    walk-first light [] (b',' ∷ (show dark ++ b')' ∷ s)) h one
    ∙ walk-inside dark 1 (show light ++ b',' ∷ []) (some (show light)) (b')' ∷ s) h' (omega arith)
        refl
