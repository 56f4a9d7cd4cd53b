-- ===== src/Number/Order.antt =====
-- Sums of integers and their order, for the scripts that compute with addresses.
use corejack.Prelude.{ℕ, suc, ◌+◌, ◌-◌, ◌≤◌, ◌<◌, ◌≡◌, Bool, false, arith, ltb, leb, if◌then◌else◌}
use corejack.Number.{ℤ, pos, negsuc}

-- An integer is `above` less `below`, one of which is zero.
abbrev pub above : ℤ → ℕ
above (pos n) = n
above (negsuc n) = 0

abbrev pub below : ℤ → ℕ
below (pos n) = 0
below (negsuc n) = suc n

unfoldable pub ◌+ℤ◌ : ℤ → ℤ → ℤ
a +ℤ b =
    let gain = above a + above b in
    let loss = below a + below b in
    if ltb gain loss then negsuc (loss - suc gain) else pos (gain - loss)

infixl 65 ◌+ℤ◌
infix 50 ◌≤ℤ◌ ◌<ℤ◌
abbrev pub ◌≤ℤ◌ : ℤ → ℤ → Type 0
a ≤ℤ b = above a + below b ≤ above b + below a

abbrev pub ◌<ℤ◌ : ℤ → ℤ → Type 0
a <ℤ b = above a + below b < above b + below a

abbrev pub leb_ℤ : ℤ → ℤ → Bool
leb_ℤ a b = leb (above a + below b) (above b + below a)

abbrev pub ltb_ℤ : ℤ → ℤ → Bool
ltb_ℤ a b = ltb (above a + below b) (above b + below a)

-- A sum with a positive number is larger.
pub +ℤ-positive : (a b : ℤ) → leb_ℤ b (pos 0) ≡ false → a <ℤ a +ℤ b
unfolding ◌+ℤ◌
+ℤ-positive a b h = ground (arith, h)
