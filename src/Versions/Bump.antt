-- ===== src/Versions/Bump.antt =====
-- `main` of bin/bump_version.py on the files of the repository: the version they agree on, and the sweep of
-- each of them.
use corejack.Prelude.{
  ℕ, ◌+◌, Bool, false, not, ◌||◌, List, [], ◌∷◌, ◌++◌, Option, none, some, if◌then◌else◌, is_nil,
  length, all, ◌&&◌,
}
use corejack.Text.{Text, codes, text_eq}
use corejack.Failure.{
  Result, ok, err, check, no_core_files, no_names, several_versions, not_semver, option_required,
}
use corejack.Splice.{behind_version}
use corejack.Edit.{Files, Edit, quietly, read_text, write_text, exists, ◌>>=◌, ◌>>◌}
use corejack.Versions.{versions, replace_versions}

abbrev pub versions_of : Option Text → List Text
versions_of none = []
versions_of (some text) = versions 0 text

-- The versions that `find_versions` finds, file by file. It groups the files by them.
unfoldable pub all_versions : Files → List Text → List Text
unfolding versions
all_versions files [] = []
all_versions files (path ∷ paths) = versions_of (files path) ++ all_versions files paths

-- The only key of the groups.
abbrev pub only_version : List Text → Result Text
only_version [] = err no_names
only_version (v ∷ vs) = if all (λ w. text_eq v w) vs then ok v else err several_versions

unfoldable pub detect_current_version : Files → List Text → Result Text
unfolding all_versions
detect_current_version files paths = only_version (all_versions files paths)

-- `p for p in CORE_FILES if p.is_file()`
unfoldable pub collect_files : Files → List Text → List Text
collect_files files [] = []
collect_files files (path ∷ paths) =
    let rest = collect_files files paths in if exists files path then path ∷ rest else rest

-- The new text of a file, which is not written if it is the old one, and the number of its names.
unfoldable pub rewrite_file : Text → Text → Edit ℕ
unfolding versions replace_versions
rewrite_file new path = do
  text ← read_text path
  if not (is_nil (versions 0 text)) && not (text_eq (replace_versions new 0 text) text)
      then write_text path (replace_versions new 0 text)
      else quietly (ok tt)
  quietly (ok (length (versions 0 text)))

unfoldable pub rewrite_all : Text → List Text → Edit ℕ
unfolding rewrite_file
rewrite_all new [] = quietly (ok 0)
rewrite_all new (path ∷ paths) = do
  n ← rewrite_file new path
  rest ← rewrite_all new paths
  quietly (ok (n + rest))

-- `^\d+\.\d+\.\d+$`, where `$` also stands in front of a line feed at the end.
unfoldable pub is_semver : Text → Bool
unfolding behind_version
is_semver s = elim (behind_version s) [
  | none ↦ false
  | some rest ↦ is_nil rest || text_eq rest (codes "\n")
]

-- The sweep to another version; its result is the number of names.
unfoldable pub bump_to : List Text → Text → Text → Edit ℕ
unfolding rewrite_all is_semver
bump_to paths current new = do
  quietly (check (is_semver new) (not_semver new))
  if text_eq new current then quietly (ok 0) else rewrite_all new paths

abbrev given : Option Text → Result Text
given none = err (option_required (codes "--to"))
given (some new) = if is_nil new then err (option_required (codes "--to")) else ok new

-- `main` with the FuseSoC files that the directory lists, `--check` and `--to`.
unfoldable pub bump_main : List Text → Bool → Option Text → Edit ℕ
unfolding collect_files detect_current_version bump_to
bump_main core_files only_check to files =
    let paths = collect_files files core_files in
    (quietly (check (not (is_nil paths)) no_core_files)
        >> (quietly (detect_current_version files paths) >>= λ current.
            if only_check then quietly (ok 0) else (quietly (given to) >>= bump_to paths current)))
      files
