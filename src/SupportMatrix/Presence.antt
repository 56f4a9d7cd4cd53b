-- ===== src/SupportMatrix/Presence.antt =====
-- The two readers of scalars find the same fields.
use corejack.Prelude.{
  Bool, true, false, List, [], ◌∷◌, Option, none, some, ◌≡◌, refl, arith, if◌then◌else◌,
}
use corejack.Text.{Text, is_some, texts_eq, splitlines}
use corejack.Yaml.{
  KeyLine, Frame, Round, next, return, key_line, push_frame, keys_of, skips, scalar_value,
  match_key, scalar_step, scan_scalar, yaml_path_scalar,
}
use corejack.SupportMatrix.{bare_value, bare_match, bare_step, scan_bare, path_scalar}

value-presence : (value : Text) → is_some (bare_value value) ≡ is_some (scalar_value value)
unfolding bare_value scalar_value
value-presence [] = refl
value-presence (c ∷ value) = ground arith

-- Both readers go on with the same path, or both return a value, or both none.
Agree : Round (List Frame) (Option Text) → Round (List Frame) (Option Text) → Type 0
Agree (next s) (next t) = s ≡ t
Agree (return a) (return b) = is_some a ≡ is_some b
Agree _ _ = ⊥

if-Agree :
    (b : Bool) (x x' y y' : Round (List Frame) (Option Text))
    → Agree x x'
    → Agree y y'
    → Agree (if b then x else y) (if b then x' else y')
if-Agree true x x' y y' h k = h
if-Agree false x x' y y' h k = k

match-Agree :
    (path : List Text) (stack : List Frame) (k : KeyLine)
    → Agree (bare_match path stack k) (match_key path stack k)
unfolding bare_match match_key Agree
match-Agree path stack k =
    if-Agree (texts_eq (keys_of (push_frame k stack)) path) (return (bare_value k.value))
      (return (scalar_value k.value)) (next (push_frame k stack)) (next (push_frame k stack))
      (value-presence k.value) refl

line-Agree :
    (path : List Text) (stack : List Frame) (o : Option KeyLine)
    → Agree
        (elim o [ none ↦ next stack | some k ↦ bare_match path stack k ])
        (elim o [ none ↦ next stack | some k ↦ match_key path stack k ])
unfolding Agree
line-Agree path stack none = refl
line-Agree path stack (some k) = match-Agree path stack k

step-Agree :
    (path : List Text) (stack : List Frame) (line : Text)
    → Agree (bare_step path stack line) (scalar_step path stack line)
unfolding bare_step scalar_step Agree
step-Agree path stack line =
    if-Agree (skips line) (next stack) (next stack) _ _ refl (line-Agree path stack (key_line line))

scan-presence :
    (path : List Text) (stack : List Frame) (lines : List Text)
    → is_some (scan_bare path stack lines) ≡ is_some (scan_scalar path stack lines)
unfolding scan_bare scan_scalar Agree
scan-presence path stack [] = refl
scan-presence path stack (line ∷ lines) =
    go (bare_step path stack line) (scalar_step path stack line) (step-Agree path stack line)
      (λ t. scan-presence path t lines)
  where
    go :
        (x y : Round (List Frame) (Option Text))
        → Agree x y
        → ((t : List Frame) → is_some (scan_bare path t lines) ≡ is_some (scan_scalar path t lines))
        → is_some (elim x [ next s ↦ scan_bare path s lines | return r ↦ r ])
          ≡ is_some (elim y [ next s ↦ scan_scalar path s lines | return r ↦ r ])
    go (next s) (next t) h again = rw h (again t)
    go (return a) (return b) h again = h
    go (next s) (return b) h again = absurd h
    go (return a) (next t) h again = absurd h

-- The reader of the support matrix finds a scalar at a path just when that of bin/validate_target.py does.
pub path_scalar-presence :
    (text : Text) (path : List Text)
    → is_some (path_scalar text path) ≡ is_some (yaml_path_scalar text path)
unfolding path_scalar yaml_path_scalar
path_scalar-presence text path = scan-presence path [] (splitlines text)
