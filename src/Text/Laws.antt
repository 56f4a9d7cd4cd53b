-- ===== src/Text/Laws.antt =====
-- Equality tests of texts and lists of texts decide equality.
use corejack.Prelude.{◌≡◌, ◌↔◌, true, List, ◌∷◌, refl, arith, false, ◌≢◌}
use corejack.Text.{Text, text_eq, texts_eq}

pub text_eq_iff : (s t : Text) → (text_eq s t ≡ true) ↔ (s ≡ t)
unfolding text_eq
text_eq_iff (a ∷ s) (b ∷ t) = ground (arith, text_eq_iff s t)
text_eq_iff _ _ = ground arith

pub texts_eq_iff : (s t : List Text) → (texts_eq s t ≡ true) ↔ (s ≡ t)
unfolding texts_eq
texts_eq_iff (a ∷ s) (b ∷ t) = ground (arith, texts_eq_iff s t, text_eq_iff a b)
texts_eq_iff _ _ = ground arith

pub text_eq_refl : (s : Text) → text_eq s s ≡ true
text_eq_refl s = (text_eq_iff s s).1 refl

pub text_eq-ne : (s t : Text) → text_eq s t ≡ false → s ≢ t
text_eq-ne s t h same = ground (arith, h, text_eq_iff s t)
