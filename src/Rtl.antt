-- ===== src/Rtl.antt =====
-- What bin/validate_target.py reads of the SystemVerilog packages: `platform_core_type_values` with
-- `expected_core_enum_name`, and `mem_num_banks`.
use Prim.Native.Nat.{bit_and}
use corejack.Prelude.{
  ℕ, zero, suc, ◌+◌, ◌-◌, ◌*◌, Bool, false, not, ◌&&◌, ◌||◌, List, [], ◌∷◌, ◌++◌, map, Option, none,
  some, ◌==◌, leb, ltb, if◌then◌else◌, is_nil, length, drop,
}
use corejack.Text.{
  Text, codes, is_alnum, is_key_char, take_while, lstrip, strip_prefix, text_eq, push_char, is_some,
}
use corejack.Failure.{
  Result, ok, check, or_fail, ◌>>=◌, ◌>>◌, missing_file, no_core_type_enum, no_num_banks,
  num_banks_not_power, bad_integer,
}
use corejack.Host.{Host}
use corejack.Search.{and_then, spaces_then, first_at, first_at_line_start}

abbrev pub is_digit : ℕ → Bool
is_digit c = leb b'0' c && leb c b'9'

-- `int(digits, 10)` of a text of digits
unfoldable pub decimal_value : ℕ → Text → ℕ
decimal_value n [] = n
decimal_value n (c ∷ s) = decimal_value (n * 10 + (c - b'0')) s

-- `\}\s*core_type_e\s*;`
closes : Text → Bool
closes s = is_some (
    and_then (strip_prefix (codes "}") s) λ a.
      and_then (strip_prefix (codes "core_type_e") (lstrip a))
        λ b. strip_prefix (codes ";") (lstrip b))

with_char : ℕ → Option Text → Option Text
with_char c none = none
with_char c (some s) = some (c ∷ s)

-- `(?P<body>.*?)` up to there
body_from : Text → Option Text
body_from [] = none
body_from (c ∷ s) = let rest = body_from s in if closes (c ∷ s) then some [] else with_char c rest

-- `typedef\s+enum\s+int\s+unsigned\s*\{` and the body
enum_at : Text → Option Text
unfolding body_from spaces_then
enum_at s = and_then (strip_prefix (codes "typedef") s) (
    spaces_then λ a. and_then (strip_prefix (codes "enum") a) (
      spaces_then λ b. and_then (strip_prefix (codes "int") b) (
        spaces_then λ c.
          and_then (strip_prefix (codes "unsigned") c)
            λ d. and_then (strip_prefix (codes "{") (lstrip d)) body_from)))

unfoldable pub core_type_body : Text → Option Text
unfolding enum_at first_at spaces_then closes with_char
core_type_body = first_at enum_at

-- A member: its name, its value and how many characters the match takes.
pub record Member : Type 0 where
  pub name : Text
  pub value : ℕ
  pub taken : ℕ

member_of : ℕ → Text → Text → Text → Option Member
member_of len tail digits rest =
    if is_nil tail || is_nil digits
    then none
    else some (record {
      name = codes "Core" ++ tail;
      value = decimal_value 0 digits;
      taken = len - length rest;
    })

-- `(Core[A-Za-z0-9]+)\s*=\s*([0-9]+)`
member_at : Text → Option Member
unfolding member_of
member_at s = and_then (strip_prefix (codes "Core") s) λ a.
    let tail = take_while is_alnum a in
    and_then (strip_prefix (codes "=") (lstrip (drop (length tail) a))) λ b.
      let digits = take_while is_digit (lstrip b) in
      member_of (length s) tail digits (drop (length digits) (lstrip b))

-- `re.findall` behind `\b`: `skip` characters of the last match are left, and the flag says that
-- the character before is one of a word.
pub members : ℕ → Bool → Text → List Member
unfolding member_at
members skip before [] = []
members (suc skip) before (c ∷ s) = members skip (is_key_char c) s
members zero before (c ∷ s) = elim (if before then none else member_at (c ∷ s)) [
  | none ↦ members zero (is_key_char c) s
  | some m ↦ m ∷ members (m.taken - 1) (is_key_char c) s
]

unfoldable pub platform_core_type_values : Host → Result (List Member)
unfolding members core_type_body
platform_core_type_values host = do
  text ←
      or_fail (host.file (codes "rtl/pkg/platform_pkg.sv"))
        (missing_file (codes "platform package") (codes "rtl/pkg/platform_pkg.sv"))
  body ← or_fail (core_type_body text) no_core_type_enum
  ok (members 0 false body)

-- `values[name]`: the last member of a name.
unfoldable pub enum_value : Text → List Member → Option ℕ
enum_value name [] = none
enum_value name (m ∷ ms) = elim (enum_value name ms) [
  | some v ↦ some v
  | none ↦ if text_eq m.name name then some m.value else none
]

-- `str.lower` and `str.upper` of one character of ASCII
unfoldable pub to_lower : ℕ → ℕ
to_lower c = if leb b'A' c && leb c b'Z' then c + 32 else c

unfoldable pub to_upper : ℕ → ℕ
to_upper c = if leb b'a' c && leb c b'z' then c - 32 else c

-- `re.split(r"[^A-Za-z0-9]+", s)`, with an empty segment between adjacent separators.
unfoldable pub segments : Text → List Text
segments [] = [] ∷ []
segments (c ∷ s) = let rest = segments s in if is_alnum c then push_char c rest else [] ∷ rest

unfoldable pub capitalize : Text → Text
unfolding to_lower to_upper
capitalize [] = []
capitalize (c ∷ s) = to_upper c ∷ map to_lower s

-- `"".join(seg.capitalize() for seg in segments if seg)`
unfoldable pub join_capitalized : List Text → Text
unfolding capitalize
join_capitalized [] = []
join_capitalized (s ∷ ss) = capitalize s ++ join_capitalized ss

unfoldable pub expected_core_enum_name : Text → Text
unfolding segments join_capitalized
expected_core_enum_name core = codes "Core" ++ join_capitalized (segments (map to_lower core))

-- `^\s*localparam\s+int\s+unsigned\s+MemNumBanksDefault\s*=\s*([0-9_]+)\s*;`
abbrev is_digit_or_underscore : ℕ → Bool
is_digit_or_underscore c = is_digit c || c == b'_'

group_of : Text → Option Text → Option Text
group_of digits none = none
group_of digits (some rest) = if is_nil digits then none else some digits

banks_at : Text → Option Text
unfolding group_of
banks_at s = and_then (strip_prefix (codes "localparam") (lstrip s)) (
    spaces_then λ a. and_then (strip_prefix (codes "int") a) (
      spaces_then λ b. and_then (strip_prefix (codes "unsigned") b) (
        spaces_then λ c. and_then (strip_prefix (codes "MemNumBanksDefault") c) λ d.
          and_then (strip_prefix (codes "=") (lstrip d)) λ e.
            let digits = take_while is_digit_or_underscore (lstrip e) in
            group_of digits (strip_prefix (codes ";") (lstrip (drop (length digits) (lstrip e)))))))

unfoldable pub without_underscores : Text → Text
without_underscores [] = []
without_underscores (c ∷ s) =
    let rest = without_underscores s in if c == b'_' then rest else c ∷ rest

-- `banks < 2 or (banks & (banks - 1)) != 0`, negated
unfoldable pub is_bank_count : ℕ → Bool
is_bank_count banks = not (ltb banks 2 || not (bit_and banks (banks - 1) == 0))

unfoldable pub mem_num_banks : Host → Result ℕ
unfolding banks_at first_at_line_start spaces_then without_underscores decimal_value
mem_num_banks host = do
  text ←
      or_fail (host.file (codes "rtl/pkg/mem_ss_pkg.sv"))
        (missing_file (codes "memory subsystem package") (codes "rtl/pkg/mem_ss_pkg.sv"))
  group ← or_fail (first_at_line_start banks_at text) no_num_banks
  let digits = without_underscores group
  check (not (is_nil digits)) (bad_integer group)
  let banks = decimal_value 0 digits
  check (is_bank_count banks) (num_banks_not_power banks)
  ok banks
