-- ===== src/Edit/Stays.antt =====
-- What a step that may fail leaves of the files, whichever way it ends.
use corejack.Prelude.{ap, Option-cases, List, [], ◌∷◌, some, ◌≡◌, ◌≢◌, arith, inl, inr}
use corejack.Text.{Text}
use corejack.Text.Laws.{text_eq_iff}
use corejack.Failure.{Result, ok, err}
use corejack.Edit.{
  Files, write, Edit, quietly, read_text, write_text, resume, ◌>>=◌, for_each, edit_file, NewFile,
  refuse_existing, write_new,
}

-- The file at a path is still there, with its text.
abbrev pub Stays : Text → Files → Files → Type 0
Stays path before after = (text : Text) → before path ≡ some text → after path ≡ some text

abbrev pub Leaves {ℓ} : {A : Type ℓ} → Text → Edit A → Type 0
Leaves path m = (files : Files) → Stays path files (m files).1

resume-Leaves {ℓ κ} :
    {A : Type ℓ} {B : Type κ} (path : Text) (r : Result A) (f : A → Edit B)
    → ((a : A) → Leaves path (f a))
    → Leaves path (resume r f)
resume-Leaves path (ok a) f h = h a
resume-Leaves path (err e) f h = λ files text same. same

pub >>=-Leaves {ℓ κ} :
    {A : Type ℓ} {B : Type κ} (path : Text) (m : Edit A) (f : A → Edit B)
    → Leaves path m
    → ((a : A) → Leaves path (f a))
    → Leaves path (m >>= f)
>>=-Leaves path m f hm hf files text e =
    resume-Leaves path (m files).0 f hf (m files).1 text (hm files text e)

pub quietly-Leaves {ℓ} : {A : Type ℓ} (path : Text) (r : Result A) → Leaves path (quietly r)
quietly-Leaves path r files text e = e

pub write-other :
    (path other content : Text) (files : Files)
    → other ≢ path
    → write other content files path ≡ files path
unfolding write
write-other path other content files h = ground (arith, text_eq_iff other path)

pub write-same :
    (path content : Text) (files : Files) → write path content files path ≡ some content
unfolding write
write-same path content files = ground (arith, text_eq_iff path path)

pub write_text-Leaves :
    (path other content : Text) → other ≢ path → Leaves path (write_text other content)
write_text-Leaves path other content h files text e =
    ground (arith, write-other path other content files h, e)

pub for_each-Leaves {ℓ} :
    {A : Type ℓ} (path : Text) (f : A → Edit (Unit {0})) (xs : List A)
    → ((a : A) → Leaves path (f a))
    → Leaves path (for_each f xs)
unfolding for_each
for_each-Leaves path f [] h = λ files text same. same
for_each-Leaves path f (x ∷ xs) h =
    >>=-Leaves path (f x) (λ _. for_each f xs) (h x) λ _. for_each-Leaves path f xs h

pub refuse_existing-Leaves : (path : Text) (new : NewFile) → Leaves path (refuse_existing new)
unfolding refuse_existing
refuse_existing-Leaves path (p, content) files text e = e

pub write_new-Leaves : (path : Text) (new : NewFile) → Leaves path (write_new new)
unfolding write_new refuse_existing
write_new-Leaves path (p, content) files text e = elim (Option-cases (files p)) [
  | inl fresh ↦
      let other : p ≢ path = λ same. ground (arith, ap files same, fresh, e) in
      ground (arith, fresh, write-other path p content files other, e)
  | inr (old, there) ↦ ground (arith, there, e)
]

pub edit_file-Leaves :
    (path target : Text) (compute : Text → Result Text)
    → target ≢ path
    → Leaves path (edit_file target compute)
unfolding edit_file
edit_file-Leaves path target compute other =
    >>=-Leaves path (read_text target) _ (λ files text e. e)
      λ text.
        >>=-Leaves path (quietly (compute text)) _ (λ files old e. e)
          λ new. write_text-Leaves path target new other
