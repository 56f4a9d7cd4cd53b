-- ===== src/Yaml/RoundTrip.antt =====
-- `yaml_path_scalar` on a rendered descriptor is the lookup of the path in the tree.
use corejack.Prelude.{
  ℕ, suc, ◌≤◌, true, List, [], ◌∷◌, ◌++◌, Option, none, some, ◌≡◌, refl, sym, ap, ◌∙◌, arith,
  if◌then◌else◌, append_assoc, append-nil, All,
}
use corejack.Text.{Text, strip, texts_eq}
use corejack.Text.Lines.{OneLine, unlines, splitlines-unlines}
use corejack.Yaml.{
  Frame, pop_frames, keys_of, skips, scalar_value, scalar_step, scan_scalar, yaml_path_scalar, next,
  return,
}
use corejack.Yaml.Render.{
  Doc, end, scalar, items, section, spaces, key_text, item_lines, render, Found, or_else, find,
  IsKey, IsPlain, IsClean,
}
use corejack.Yaml.Lookup.{lookup, find-lookup}
use corejack.Yaml.KeyLines.{
  key_line-key_text, skips-key_text, skips-item, strip-plain, strip-nil, scalar_value-nil,
  scalar_value-plain,
}

-- What is above an indentation is above every smaller one.
pop-pop : (d e : ℕ) (s : List Frame) → e ≤ d → pop_frames e (pop_frames d s) ≡ pop_frames e s
unfolding pop_frames
pop-pop d e [] h = refl
pop-pop d e (f ∷ fs) h = ground (arith, pop-pop d e fs h)

frame : ℕ → Text → Frame
frame d k = record { indent = d; key = k }

-- One line `key: rest` read behind the frames `base`.
step-key :
    (path : List Text) (d : ℕ) (stack base : List Frame) (k rest : Text)
    → IsKey k
    → pop_frames d stack ≡ base
    → scalar_step path stack (key_text d k rest) ≡ (
        if texts_eq (keys_of base ++ k ∷ []) path
        then return (scalar_value (strip rest))
        else next (record { indent = d; key = k } ∷ base))
unfolding scalar_step
step-key path d stack base k rest h p =
    rw (skips-key_text d k rest h, key_line-key_text d k rest h, p)

scan-key :
    (path : List Text) (d : ℕ) (stack base : List Frame) (k rest : Text) (ls : List Text)
    → IsKey k
    → pop_frames d stack ≡ base
    → scan_scalar path stack (key_text d k rest ∷ ls) ≡ (
        if texts_eq (keys_of base ++ k ∷ []) path
        then scalar_value (strip rest)
        else scan_scalar path (record { indent = d; key = k } ∷ base) ls)
unfolding scan_scalar
scan-key path d stack base k rest ls h p = ground (arith, step-key path d stack base k rest h p)

step-skip :
    (path : List Text) (stack : List Frame) (line : Text)
    → skips line ≡ true
    → scalar_step path stack line ≡ next stack
unfolding scalar_step
step-skip path stack line h = rw h

scan-items :
    (path : List Text) (d : ℕ) (stack : List Frame) (xs more : List Text)
    → All IsPlain xs
    → scan_scalar path stack (item_lines d xs ++ more) ≡ scan_scalar path stack more
unfolding scan_scalar
scan-items path d stack [] more h = refl
scan-items path d stack (x ∷ xs) more (h, hs) = ground (
  arith,
  step-skip path stack (spaces d ++ (b'-' ∷ b' ' ∷ x)) (skips-item d x h),
  scan-items path d stack xs more hs,
)

pop-top :
    (d : ℕ) (k : Text) (stack base : List Frame)
    → pop_frames d stack ≡ base
    → pop_frames d (record { indent = d; key = k } ∷ base) ≡ base
unfolding pop_frames
pop-top d k stack base p = ground (arith, pop-pop d d stack, p)

-- The frames around a key's line are there again behind the block that it opens.
pop-frame :
    (d e : ℕ) (k : Text) (stack base s : List Frame)
    → d ≤ e
    → pop_frames d stack ≡ base
    → pop_frames e s ≡ record { indent = d; key = k } ∷ base
    → pop_frames d s ≡ base
pop-frame d e k stack base s le p q =
    sym (pop-pop e d s le) ∙ ap (pop_frames d) q ∙ pop-top d k stack base p

-- The scan of the lines behind a document goes on only if the path is not in it.
abbrev resume {ℓ} : {A : Type ℓ} → Option A → A → A
resume none x = x
resume (some r) x = r

resume-or_else {ℓ} :
    {A : Type ℓ} (a b : Option A) (x : A) → resume (or_else a b) x ≡ resume a (resume b x)
resume-or_else none b x = refl
resume-or_else (some r) b x = refl

-- `s` is a state from which the scan goes on behind the document.
abbrev Scans : List Text → ℕ → List Frame → List Frame → List Text → Found → List Text → Type 0
Scans path d base stack lines found more =
    (s : List Frame) × (pop_frames d s ≡ base)
    × (scan_scalar path stack (lines ++ more) ≡ resume found (scan_scalar path s more))

pop-inner :
    (d : ℕ) (k : Text) (base : List Frame)
    → pop_frames (suc (suc d)) (record { indent = d; key = k } ∷ base)
      ≡ record { indent = d; key = k } ∷ base
unfolding pop_frames
pop-inner d k base = ground arith

-- No entry at all reads like an empty one.
abbrev pub or_missing : Found → Option Text
or_missing none = none
or_missing (some r) = r

keys_of-cons :
    (d : ℕ) (k : Text) (base : List Frame)
    → keys_of (record { indent = d; key = k } ∷ base) ≡ keys_of base ++ k ∷ []
unfolding keys_of
keys_of-cons d k base = refl

keys_of-nil : keys_of [] ≡ []
unfolding keys_of
keys_of-nil = refl

pop-nil : pop_frames 0 [] ≡ []
unfolding pop_frames
pop-nil = refl

scan-nil : (path : List Text) (s : List Frame) → scan_scalar path s [] ≡ none
unfolding scan_scalar
scan-nil path s = refl

scan-render :
    (path : List Text) (d : ℕ) (base stack : List Frame) (doc : Doc) (more : List Text)
    → IsClean doc
    → pop_frames d stack ≡ base
    → Scans path d base stack (render d doc) (find (keys_of base) path doc) more
scan-render path d base stack end more h p = (stack, p, refl)
scan-render path d base stack (scalar k v rest) more (hk, hv, hr) p =
    let (s, q, e) = scan-render path d base _ rest more hr (pop-top d k stack base p) in
    (
      s,
      q,
      ground (
        arith,
        scan-key path d stack base k (b' ' ∷ v) (render d rest ++ more) hk p,
        e,
        strip-plain v hv,
        scalar_value-plain v hv,
      ),
    )
scan-render path d base stack (items k xs rest) more (hk, hx, hr) p =
    let (s, q, e) = scan-render path d base _ rest more hr (pop-top d k stack base p) in
    let below = item_lines (suc (suc d)) xs in
    (
      s,
      q,
      ground (
        arith,
        scan-key path d stack base k [] (below ++ render d rest ++ more) hk p,
        append_assoc below (render d rest) more,
        scan-items path (suc (suc d)) (record { indent = d; key = k } ∷ base) xs
            (render d rest ++ more) hx,
        e,
        strip-nil,
        scalar_value-nil,
      ),
    )
scan-render path d base stack (section k sub rest) more (hk, hs, hr) p =
    let top : List Frame = record { indent = d; key = k } ∷ base in
    let below = render (suc (suc d)) sub in
    let (s, q, e) =
      scan-render path (suc (suc d)) top top sub (render d rest ++ more) hs (pop-inner d k base) in
    let (s', q', e') =
      scan-render path d base s rest more hr
        (pop-frame d (suc (suc d)) k stack base s (omega arith) p q) in
    (
      s',
      q',
      ground (
        arith,
        scan-key path d stack base k [] (below ++ render d rest ++ more) hk p,
        append_assoc below (render d rest) more,
        keys_of-cons d k base,
        resume-or_else (find (keys_of base ++ k ∷ []) path sub) (find (keys_of base) path rest)
            (scan_scalar path s' more),
        e,
        e',
        strip-nil,
        scalar_value-nil,
      ),
    )

-- What the scripts read from a descriptor file is what its tree holds: the scalar of the first entry
-- at the path, and nothing if there is none or if that entry is a list or a mapping. The path has at
-- least one key, the keys of the tree are words, the scalars are plain, and no line of the layout
-- holds a line break.
pub yaml_path_scalar-render :
    (doc : Doc) (j : Text) (js : List Text)
    → IsClean doc
    → All OneLine (render 0 doc)
    → yaml_path_scalar (unlines (render 0 doc)) (j ∷ js) ≡ or_missing (lookup (j ∷ js) doc)
unfolding yaml_path_scalar
yaml_path_scalar-render doc j js h lines =
    let (s, q, e) = scan-render (j ∷ js) 0 [] [] doc [] h pop-nil in
    rw (splitlines-unlines (render 0 doc) lines) (
      ground (
        arith,
        e,
        append-nil (render 0 doc),
        keys_of-nil,
        find-lookup [] j js doc,
        scan-nil (j ∷ js) s,
      ))
