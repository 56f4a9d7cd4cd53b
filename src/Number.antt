-- ===== src/Number.antt =====
-- Python's `int(value, 0)` and `str(n)`, and `parse_positive_int` and `parse_nonnegative_int` of
-- bin/validate_target.py. Digits and spaces are those of ASCII.
pub mod RoundTrip
pub mod Order
use corejack.Prelude.{
  ℕ, zero, suc, ◌+◌, ◌-◌, ◌*◌, ◌/◌, ◌%◌, Bool, true, false, ◌&&◌, ◌||◌, List, [], ◌∷◌, Option, none,
  some, ◌==◌, leb, ltb, if◌then◌else◌,
}
use corejack.Text.{Text, strip}
use corejack.Failure.{Result, ok, err, Failure, not_an_integer, not_positive, negative}

-- `negsuc n` is -(n + 1).
pub data ℤ : Type 0 where
  pos : ℕ → ℤ
  negsuc : ℕ → ℤ

unfoldable pub negate : ℕ → ℤ
negate zero = pos 0
negate (suc n) = negsuc n

-- `n // 4`, which rounds down.
unfoldable pub quarter : ℤ → ℤ
quarter (pos n) = pos (n / 4)
quarter (negsuc n) = negsuc (n / 4)

abbrev between : ℕ → ℕ → ℕ → Bool
between lo hi c = leb lo c && leb c hi

-- 36 for what is no digit in any base.
unfoldable pub digit_value : ℕ → ℕ
digit_value c =
    if between b'0' b'9' c
    then c - b'0'
    else if between b'a' b'z' c
    then c - 87
    else if between b'A' b'Z' c
    then c - 55
    else 36

-- Digits with single underscores between them; the flag says that a digit was just read.
unfoldable pub scan_digits : ℕ → ℕ → Bool → Text → Option ℕ
unfolding digit_value
scan_digits base acc after_digit [] = if after_digit then some acc else none
scan_digits base acc after_digit (c ∷ s) =
    let skip = scan_digits base acc false s in
    let more = scan_digits base (acc * base + digit_value c) true s in
    if c == b'_'
    then if after_digit then skip else none
    else if ltb (digit_value c) base
    then more
    else none

-- One underscore may stand behind the prefix.
skip_underscore : Text → Text
skip_underscore [] = []
skip_underscore (c ∷ s) = if c == b'_' then s else c ∷ s

-- With no prefix, a leading zero is the number zero.
only_zero : Option ℕ → Option ℕ
only_zero none = none
only_zero (some n) = if n == 0 then some 0 else none

-- The base of the letter behind a leading zero; 10 if that is no base.
base_letter : ℕ → ℕ
base_letter c =
    if c == b'x' || c == b'X'
    then 16
    else if c == b'o' || c == b'O'
    then 8
    else if c == b'b' || c == b'B'
    then 2
    else 10

-- What stands behind a leading zero.
after_zero : Text → Option ℕ
unfolding only_zero base_letter skip_underscore scan_digits
after_zero [] = some 0
after_zero (c ∷ s) =
    if base_letter c == 10
    then only_zero (scan_digits 10 0 true (c ∷ s))
    else scan_digits (base_letter c) 0 false (skip_underscore s)

unfoldable pub magnitude : Text → Option ℕ
unfolding after_zero scan_digits
magnitude [] = none
magnitude (c ∷ s) = if c == b'0' then after_zero s else scan_digits 10 0 false (c ∷ s)

with_sign : (ℕ → ℤ) → Option ℕ → Option ℤ
with_sign f none = none
with_sign f (some n) = some (f n)

signed : Text → Option ℤ
unfolding with_sign magnitude negate
signed [] = none
signed (c ∷ s) =
    if c == b'-'
    then with_sign negate (magnitude s)
    else if c == b'+'
    then with_sign pos (magnitude s)
    else with_sign pos (magnitude (c ∷ s))

-- `int(value, 0)`; `none` for the `ValueError`.
unfoldable pub int_literal : Text → Option ℤ
unfolding signed
int_literal value = signed (strip value)

-- `str(n)`: the digits of `n` before those written so far. One round for each digit; `suc n` rounds
-- are enough.
unfoldable pub decimal_onto : ℕ → ℕ → Text → Text
decimal_onto zero n out = out
decimal_onto (suc f) n out =
    let rest = decimal_onto f (n / 10) ((b'0' + n % 10) ∷ out) in
    if ltb n 10 then (b'0' + n) ∷ out else rest

unfoldable pub decimal : ℕ → Text
unfolding decimal_onto
decimal n = decimal_onto (suc n) n []

unfoldable pub show_int : ℤ → Text
unfolding decimal
show_int (pos n) = decimal n
show_int (negsuc n) = b'-' ∷ decimal (suc n)

positive : Text → Text → Option ℤ → Result ℕ
positive value field none = err (not_an_integer field value)
positive value field (some (negsuc n)) = err (not_positive field value)
positive value field (some (pos n)) = if n == 0 then err (not_positive field value) else ok n

unfoldable pub parse_positive_int : Text → Text → Result ℕ
unfolding positive
parse_positive_int value field = positive value field (int_literal value)

nonnegative : Text → Text → Option ℤ → Result ℕ
nonnegative value field none = err (not_an_integer field value)
nonnegative value field (some (negsuc n)) = err (negative field value)
nonnegative value field (some (pos n)) = ok n

unfoldable pub parse_nonnegative_int : Text → Text → Result ℕ
unfolding nonnegative
parse_nonnegative_int value field = nonnegative value field (int_literal value)
