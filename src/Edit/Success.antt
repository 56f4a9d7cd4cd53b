-- ===== src/Edit/Success.antt =====
-- What a step did that returned.
use corejack.Prelude.{
  List, [], ◌∷◌, none, some, ◌≡◌, refl, ◌∙◌, subst, arith, All, inl, inr, Option-cases, sym, ap,
  ◌≢◌,
}
use corejack.Text.{Text}
use corejack.Failure.{Result, ok, err, Result-cases}
use corejack.Edit.{
  Files, write, Edit, resume, ◌>>=◌, for_each, edit_file, NewFile, refuse_existing, write_new,
}
use corejack.Edit.Stays.{Stays, write-same, write-other, write_new-Leaves}

-- Both parts of a step that returned have returned.
pub >>=-eq-ok {ℓ κ} :
    {A : Type ℓ} {B : Type κ} (m : Edit A) (f : A → Edit B) {b : B} (before : Files) {after : Files}
    → (m >>= f) before ≡ (ok b, after)
    → (a : A) × (mid : Files) × (m before ≡ (ok a, mid)) × (f a mid ≡ (ok b, after))
>>=-eq-ok {A = A} {B = B} m f {b} before {after} h = go (m before).0 (m before).1 refl h
  where
    go :
        (r : Result A) (mid : Files)
        → m before ≡ (r, mid)
        → resume r f mid ≡ (ok b, after)
        → (a : A) × (mid : Files) × (m before ≡ (ok a, mid)) × (f a mid ≡ (ok b, after))
    go (ok a) mid e h' = (a, mid, e, h')
    go (err x) mid e h' = cc

pub edit_file-eq-ok :
    (path : Text) (compute : Text → Result Text) (before : Files) {after : Files}
    → edit_file path compute before ≡ (ok tt, after)
    → (old : Text) × (new : Text) × (before path ≡ some old)
      × (compute old ≡ ok new)
      × (after ≡ write path new before)
unfolding edit_file
edit_file-eq-ok path compute before h = elim (Option-cases (before path)) [
  | inl missing ↦ absurd (ground (arith, missing, h))
  | inr (old, there) ↦ elim (Result-cases (compute old)) [
    | inl (message, failed) ↦ absurd (ground (arith, there, failed, h))
    | inr (new, computed) ↦ (old, new, there, computed, ground (arith, there, computed, h))
  ]
]

abbrev pub IsFresh : Files → NewFile → Type 0
IsFresh files new = files new.0 ≡ none

pub refuse_existing-eq-ok :
    (new : NewFile) (before : Files) {after : Files}
    → refuse_existing new before ≡ (ok tt, after)
    → IsFresh before new × (after ≡ before)
unfolding refuse_existing
refuse_existing-eq-ok (path, content) before h = elim (Option-cases (before path)) [
  | inl fresh ↦ (fresh, ground (arith, fresh, h))
  | inr (old, there) ↦ absurd (ground (arith, there, h))
]

pub refuse_all-eq-ok :
    (new : List NewFile) (before : Files) {after : Files}
    → for_each refuse_existing new before ≡ (ok tt, after)
    → All (IsFresh before) new × (after ≡ before)
unfolding for_each
refuse_all-eq-ok [] before h = (tt, ground (arith, h))
refuse_all-eq-ok (n ∷ ns) before h =
    let (u, mid, first, rest) =
      >>=-eq-ok (refuse_existing n) (λ _. for_each refuse_existing ns) before h in
    let (fresh, same) = refuse_existing-eq-ok n before first in
    let (all_fresh, same') = refuse_all-eq-ok ns mid rest in
    ((fresh, subst (λ s. All (IsFresh s) ns) same all_fresh), same' ∙ same)

pub write_new-eq-ok :
    (new : NewFile) (before : Files) {after : Files}
    → write_new new before ≡ (ok tt, after)
    → after ≡ write new.0 new.1 before
unfolding write_new refuse_existing
write_new-eq-ok (path, content) before h = elim (Option-cases (before path)) [
  | inl fresh ↦ ground (arith, fresh, h)
  | inr (old, there) ↦ absurd (ground (arith, there, h))
]

-- The file at a path held a text, and holds what was computed from that.
pub record Edited (before after : Files) (path : Text) (compute : Text → Result Text) : Type 0 where
  pub old : Text
  pub new : Text
  pub was : before path ≡ some old
  pub computed : compute old ≡ ok new
  pub now : after path ≡ some new

-- There was no file at a path, and there is one with this text.
pub record Added (before after : Files) (path text : Text) : Type 0 where
  pub was : before path ≡ none
  pub now : after path ≡ some text

pub written-same :
    (path new : Text) (from : Files) {to : Files} → to ≡ write path new from → to path ≡ some new
written-same path new from e = ap (λ (s : Files). s path) e ∙ write-same path new from

pub written-other :
    (path other new : Text) (from : Files) {to : Files}
    → to ≡ write other new from
    → other ≢ path
    → to path ≡ from path
written-other path other new from e h =
    ap (λ (s : Files). s path) e ∙ write-other path other new from h

-- A file that was written is there, and what was there stays.
write_new-done :
    (new : NewFile) (before : Files) {after : Files}
    → write_new new before ≡ (ok tt, after)
    → (after new.0 ≡ some new.1) × ((path : Text) → Stays path before after)
write_new-done new before {after} h = (
  ap (λ (files : Files). files new.0) (write_new-eq-ok new before h)
      ∙ write-same new.0 new.1 before,
  λ path.
      subst (Stays path before) (ap (λ (r : Result (Unit {0}) × Files). r.1) h)
        (write_new-Leaves path new before),
)

-- The same for files written in turn.
pub write_all-done :
    (new : List NewFile) (before : Files) {after : Files}
    → for_each write_new new before ≡ (ok tt, after)
    → All (λ (n : NewFile). after n.0 ≡ some n.1) new × ((path : Text) → Stays path before after)
unfolding for_each
write_all-done [] before {after} h =
    (tt, λ path text e. ap (λ (r : Result (Unit {0}) × Files). r.1 path) (sym h) ∙ e)
write_all-done (n ∷ ns) before h =
    let (u, mid, first, rest) = >>=-eq-ok (write_new n) (λ _. for_each write_new ns) before h in
    let (now, keep) = write_new-done n before first in
    let (all_now, keep_all) = write_all-done ns mid rest in
    ((keep_all n.0 n.1 now, all_now), λ path text e. keep_all path text (keep path text e))

-- An edit whose file then stays.
pub Edited-Stays :
    (before mid after : Files) (path : Text) (compute : Text → Result Text)
    → Stays path mid after
    → Edited before mid path compute
    → Edited before after path compute
Edited-Stays before mid after path compute keep e = record {
  old = e.old;
  new = e.new;
  was = e.was;
  computed = e.computed;
  now = keep e.new e.now;
}
