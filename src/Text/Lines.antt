-- ===== src/Text/Lines.antt =====
-- `splitlines` takes back what joining lines by line feeds wrote.
use corejack.Prelude.{◌≡◌, refl, ap, ◌∙◌, false, List, [], ◌∷◌, ◌++◌, arith, All}
use corejack.Text.{Text, is_break, splitlines}

-- No character ends a line.
abbrev pub OneLine : Text → Type 0
OneLine = All (λ c. is_break c ≡ false)

-- Each line with a line feed behind it.
abbrev pub unlines : List Text → Text
unlines [] = []
unlines (l ∷ ls) = l ++ (10 ∷ unlines ls)

splitlines-line : (l rest : Text) → OneLine l → splitlines (l ++ (10 ∷ rest)) ≡ l ∷ splitlines rest
unfolding splitlines
splitlines-line [] rest h = refl
splitlines-line (c ∷ l) rest (hc, hl) = ground (arith, splitlines-line l rest hl)

pub splitlines-unlines : (ls : List Text) → All OneLine ls → splitlines (unlines ls) ≡ ls
splitlines-unlines [] h = unfold splitlines in refl
splitlines-unlines (l ∷ ls) (h, hs) =
    splitlines-line l (unlines ls) h ∙ ap (λ (r : List Text). l ∷ r) (splitlines-unlines ls hs)
