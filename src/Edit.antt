-- ===== src/Edit.antt =====
-- The scripts that change the repository: a step reads and writes its files, and what was written
-- before a failure stays written.
pub mod Stays
pub mod Success
use corejack.Prelude.{Bool, not, List, [], ◌∷◌, Option, none, some, if◌then◌else◌}
use corejack.Text.{Text, text_eq, is_some}
use corejack.Failure.{Failure, Result, ok, err, or_fail, check, file_not_found, path_exists}

-- The text of the file at a path below the repository's root, if there is one.
abbrev pub Files : Type 0
Files = Text → Option Text

unfoldable pub write : Text → Text → Files → Files
write path content files p = if text_eq path p then some content else files p

abbrev pub Edit {ℓ} : Type ℓ → Type ℓ
Edit A = Files → Result A × Files

-- A step that changes no file.
abbrev pub quietly {ℓ} : {A : Type ℓ} → Result A → Edit A
quietly r files = (r, files)

-- `path.read_text()` and `path.write_text(content)`
abbrev pub read_text : Text → Edit Text
read_text path files = (or_fail (files path) (file_not_found path), files)

abbrev pub write_text : Text → Text → Edit (Unit {0})
write_text path content files = (ok tt, write path content files)

-- `path.exists()` and `path.is_file()`
abbrev pub exists : Files → Text → Bool
exists files path = is_some (files path)

module _ {ℓ κ} {A : Type ℓ} {B : Type κ} where
  abbrev pub resume : Result A → (A → Edit B) → Edit B
  resume (ok a) f files = f a files
  resume (err e) f files = (err e, files)

  infixl 5 ◌>>=◌
  abbrev pub ◌>>=◌ : Edit A → (A → Edit B) → Edit B
  ◌>>=◌ m f files = resume (m files).0 f (m files).1

infixl 5 ◌>>◌
abbrev pub ◌>>◌ {ℓ} : {B : Type ℓ} → Edit (Unit {0}) → Edit B → Edit B
m >> k = m >>= λ _. k

-- `for x in xs: f(x)`
unfoldable pub for_each {ℓ} : {A : Type ℓ} → (A → Edit (Unit {0})) → List A → Edit (Unit {0})
for_each f [] = quietly (ok tt)
for_each f (x ∷ xs) = f x >> for_each f xs

-- The text of a file is read, and what is computed from it is written back.
unfoldable pub edit_file : Text → (Text → Result Text) → Edit (Unit {0})
edit_file path compute = do
  text ← read_text path
  updated ← quietly (compute text)
  write_text path updated

-- `if test: fail(message)` for a test of the files
abbrev pub guard : (Files → Bool) → Failure → Edit (Unit {0})
guard test message files = (check (not (test files)) message, files)

abbrev pub NewFile : Type 0
NewFile = Text × Text

unfoldable pub refuse_existing : NewFile → Edit (Unit {0})
refuse_existing (path, content) = guard (λ files. exists files path) (path_exists path)

unfoldable pub write_new : NewFile → Edit (Unit {0})
unfolding refuse_existing
write_new (path, content) = refuse_existing (path, content) >> write_text path content
