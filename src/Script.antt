-- ===== src/Script.antt =====
-- A command that prints lines as it goes and then returns or fails: what was printed before a failure
-- stays printed.
use corejack.Prelude.{List, [], ◌∷◌, ◌++◌, ◌≡◌, refl}
use corejack.Text.{Text}
use corejack.Failure.{Result, ok, err}

pub record Script {ℓ} (A : Type ℓ) : Type ℓ where
  pub printed : List Text
  pub result : Result A

module _ {ℓ} {A : Type ℓ} where
  -- A step that prints nothing.
  abbrev pub quietly : Result A → Script A
  quietly r = record { printed = []; result = r }

  abbrev pub behind : List Text → Script A → Script A
  behind lines s = record { printed = lines ++ s.printed; result = s.result }

abbrev pub print : List Text → Script (Unit {0})
print lines = record { printed = lines; result = ok tt }

module _ {ℓ κ} {A : Type ℓ} {B : Type κ} where
  abbrev pub resume : List Text → Result A → (A → Script B) → Script B
  resume lines (ok a) f = behind lines (f a)
  resume lines (err e) f = record { printed = lines; result = err e }

  infixl 5 ◌>>=◌
  abbrev pub ◌>>=◌ : Script A → (A → Script B) → Script B
  m >>= f = resume m.printed m.result f

infixl 5 ◌>>◌
abbrev pub ◌>>◌ {ℓ} : {B : Type ℓ} → Script (Unit {0}) → Script B → Script B
m >> k = m >>= λ _. k

-- `for x in xs: f(x)`
unfoldable pub for_each {ℓ} : {A : Type ℓ} → (A → Script (Unit {0})) → List A → Script (Unit {0})
for_each f [] = print []
for_each f (x ∷ xs) = f x >> for_each f xs

-- A script that returned went through each of its steps.
pub >>=-eq-ok {ℓ κ} :
    {A : Type ℓ} {B : Type κ} (m : Script A) (f : A → Script B) {b : B}
    → (m >>= f).result ≡ ok b
    → (a : A) × (m.result ≡ ok a) × ((f a).result ≡ ok b)
>>=-eq-ok {A = A} {B = B} m f {b} h = go m.result refl h
  where
    go :
        (r : Result A)
        → m.result ≡ r
        → (resume m.printed r f).result ≡ ok b
        → (a : A) × (m.result ≡ ok a) × ((f a).result ≡ ok b)
    go (ok a) e h' = (a, e, h')
    go (err x) e h' = cc
