-- ===== src/Drawing/Flat.antt =====
-- The result of `flatten_light_dark` on a text whose calls have balanced arguments.
use corejack.Prelude.{
  ℕ, zero, suc, ◌≤◌, Bool, true, ◌&&◌, not, [], ◌∷◌, ◌++◌, length, ◌≡◌, refl, ap, ◌∙◌, arith,
}
use corejack.Text.{Text, strip, has_infix}
use corejack.Drawing.{needle, round, call_text, flatten_from, flatten_light_dark}
use corejack.Drawing.Walk.{Balanced, show, balanced, one_argument, walk-call}
use corejack.Drawing.Find.{find-plain, find-call}

-- A text with its calls.
pub data Drawing : Type 0 where
  plain : Text → Drawing
  call : Text → Balanced → Balanced → Drawing → Drawing

abbrev pub drawing_text : Drawing → Text
drawing_text (plain s) = s
drawing_text (call before light dark rest) =
    before ++ (needle ++ (show light ++ b',' ∷ (show dark ++ b')' ∷ drawing_text rest)))

abbrev pub is_drawing : Drawing → Bool
is_drawing (plain s) = not (has_infix needle s)
is_drawing (call before light dark rest) =
    not (has_infix needle before)
    && balanced light
    && one_argument light
    && not (has_infix needle (show light))
    && balanced dark
    && is_drawing rest

-- The text with the first argument in place of each call.
abbrev pub light_text : Drawing → Text
light_text (plain s) = s
light_text (call before light dark rest) = before ++ (strip (show light) ++ light_text rest)

abbrev calls : Drawing → ℕ
calls (plain s) = 0
calls (call before light dark rest) = suc (calls rest)

flatten_from-light :
    (d : Drawing) (fuel : ℕ)
    → is_drawing d ≡ true
    → calls d ≤ fuel
    → flatten_from fuel (drawing_text d) ≡ light_text d
unfolding flatten_from
flatten_from-light (plain s) zero h enough = refl
flatten_from-light (call before light dark rest) zero h enough = ground arith
flatten_from-light (plain s) (suc fuel) h enough = ap (round (flatten_from fuel) s) (find-plain s h)
flatten_from-light (call before light dark rest) (suc fuel) h enough =
    let d = call before light dark rest in
    let behind = show light ++ b',' ∷ (show dark ++ b')' ∷ drawing_text rest) in
    ap (round (flatten_from fuel) (drawing_text d)) (find-call before behind (ground (arith, h)))
    ∙ ap (λ w. before ++ call_text (flatten_from fuel) behind w)
        (walk-call light dark (drawing_text rest) (ground (arith, h)) (ground (arith, h))
          (ground (arith, h)))
    ∙ ap (λ t. before ++ (strip (show light) ++ t))
        (flatten_from-light rest fuel (ground (arith, h)) (omega arith))

length-behind : (s t : Text) → length t ≤ length (s ++ t)
length-behind [] t = omega arith
length-behind (c ∷ s) t = let h = length-behind s t in omega arith

length-drawing_text : (d : Drawing) → calls d ≤ length (drawing_text d)
length-drawing_text (plain s) = omega arith
length-drawing_text (call before light dark rest) =
    let inside = b',' ∷ (show dark ++ b')' ∷ drawing_text rest) in
    let one = length-behind before (needle ++ (show light ++ inside)) in
    let two = length-behind (show light) inside in
    let three = length-behind (show dark) (b')' ∷ drawing_text rest) in
    let later = length-drawing_text rest in omega arith

-- In a text whose calls of `light-dark` have two arguments with balanced parentheses, of which the first
-- has no comma outside its parentheses and no call of its own, each call becomes its first argument
-- without the spaces around it, and the text between the calls stays. The text before a call and the
-- text behind the last one have no other `light-dark(`.
pub flatten_light_dark-light :
    (d : Drawing) → is_drawing d ≡ true → flatten_light_dark (drawing_text d) ≡ light_text d
unfolding flatten_light_dark
flatten_light_dark-light d h =
    flatten_from-light d (length (drawing_text d)) h (length-drawing_text d)
