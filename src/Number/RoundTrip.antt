-- ===== src/Number/RoundTrip.antt =====
-- `int(str(n), 0)` is `n`.
use corejack.Prelude.{
  ℕ, zero, suc, ◌+◌, ◌*◌, ◌/◌, ◌%◌, ◌≤◌, ◌<◌, Bool, true, false, ◌&&◌, [], ◌∷◌, some, ◌≡◌, refl,
  ◌∙◌, inl, inr, arith, leb, ltb, all, Bool-cases,
}
use corejack.Text.{Text, is_space, strip, strip_by, lstrip_by, rstrip_by}
use corejack.Number.{scan_digits, decimal_onto, decimal, int_literal, signed, pos}

scan_digits-digit :
    (d acc : ℕ) (b : Bool) (out : Text)
    → d < 10
    → scan_digits 10 acc b ((b'0' + d) ∷ out) ≡ scan_digits 10 (acc * 10 + d) true out
unfolding scan_digits
scan_digits-digit d acc b out h = ground arith

-- The digits of `n` are read as `n`, whatever stands behind them.
scan_digits-decimal_onto :
    (f n : ℕ) (out : Text)
    → n < f
    → scan_digits 10 0 false (decimal_onto f n out) ≡ scan_digits 10 n true out
unfolding decimal_onto
scan_digits-decimal_onto zero n out h = elim h [ ]
scan_digits-decimal_onto (suc f) n out h = ground (
  arith,
  scan_digits-digit n 0 false out,
  scan_digits-decimal_onto f (n / 10) ((b'0' + n % 10) ∷ out),
  scan_digits-digit (n % 10) (n / 10) true out,
)

abbrev is_digit : ℕ → Bool
is_digit c = leb b'0' c && leb c b'9'

all-is_digit :
    (f n : ℕ) (out : Text)
    → n < f
    → all is_digit out ≡ true
    → all is_digit (decimal_onto f n out) ≡ true
unfolding decimal_onto
all-is_digit zero n out h k = elim h [ ]
all-is_digit (suc f) n out h k = ground (arith, all-is_digit f (n / 10) ((b'0' + n % 10) ∷ out))

-- The first digit of a positive number is no zero.
abbrev Leads : Text → Type 0
Leads [] = ⊥
Leads (c ∷ s) = (b'1' ≤ c) × (c ≤ b'9')

decimal_onto-Leads : (f n : ℕ) (out : Text) → n < f → 0 < n → Leads (decimal_onto f n out)
unfolding decimal_onto
decimal_onto-Leads zero n out h k = elim h [ ]
decimal_onto-Leads (suc f) n out h k = elim (Bool-cases (ltb n 10)) [
  | inl small ↦ rw small (ground arith)
  | inr large ↦
      rw large (decimal_onto-Leads f (n / 10) ((b'0' + n % 10) ∷ out) (ground arith) (ground arith))
]

rstrip-digits : (s : Text) → all is_digit s ≡ true → rstrip_by is_space s ≡ s
unfolding rstrip_by is_space
rstrip-digits [] h = refl
rstrip-digits (c ∷ s) h = ground (arith, rstrip-digits s)

strip-digits : (s : Text) → all is_digit s ≡ true → strip s ≡ s
unfolding strip_by is_space
strip-digits [] h = refl
strip-digits (c ∷ s) h = ground (arith, rstrip-digits (c ∷ s) h)

signed-digits :
    (s : Text) {n : ℕ} → Leads s → scan_digits 10 0 false s ≡ some n → signed s ≡ some (pos n)
unfolding signed
signed-digits [] h e = elim h [ ]
signed-digits (c ∷ s) h e = ground arith

scan-decimal : (n : ℕ) → scan_digits 10 0 false (decimal n) ≡ some n
unfolding decimal
scan-decimal n = scan_digits-decimal_onto (suc n) n [] (omega arith) ∙ (unfold scan_digits in refl)

decimal-is_digit : (n : ℕ) → all is_digit (decimal n) ≡ true
unfolding decimal
decimal-is_digit n = all-is_digit (suc n) n [] (omega arith) refl

decimal-Leads : (n : ℕ) → 0 < n → Leads (decimal n)
unfolding decimal
decimal-Leads n h = decimal_onto-Leads (suc n) n [] (omega arith) h

-- What `str` prints for a number that is not negative, `int` with base 0 reads back.
pub int_literal-decimal : (n : ℕ) → int_literal (decimal n) ≡ some (pos n)
int_literal-decimal zero = unfold int_literal decimal strip_by lstrip_by rstrip_by is_space in refl
int_literal-decimal (suc n) =
    unfold int_literal in
    rw (strip-digits (decimal (suc n)) (decimal-is_digit (suc n)))
      (signed-digits (decimal (suc n)) (decimal-Leads (suc n) (omega arith)) (scan-decimal (suc n)))
