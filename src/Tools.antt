-- ===== src/Tools.antt =====
-- bin/check_tools.py: which tools of a development flow the machine has. What the operating system answers
-- is the record `Machine`.
pub mod Listed
pub mod Main
pub mod Flows
use corejack.Prelude.{
  ℕ, ◌-◌, Bool, true, false, not, ◌&&◌, ◌||◌, List, [], ◌∷◌, ◌++◌, map, Option, none, some, ◌==◌,
  if◌then◌else◌, is_nil, length, replicate, any,
}
use corejack.Text.{Text, codes, strip, splitlines, split_on, has_infix, text_eq, contains, is_some}
use corejack.Number.{ℤ, pos, negsuc}

-- How a command ends: an exception with its text, or an exit code and the output.
pub data Completed : Type 0 where
  raised : Text → Completed
  exited : ℤ → Text → Completed

pub record Machine : Type 0 where
  -- `path.is_file() and os.access(path, os.X_OK)`
  pub executable : Text → Bool
  -- `shutil.which(command)`
  pub which : Text → Option Text
  -- `os.environ.get(name)`
  pub env : Text → Option Text
  -- `subprocess.run(argv, input=text)` with a timeout
  pub run : List Text → Text → Completed
  -- `sys.executable` and `REPO_ROOT`
  pub python : Text
  pub root : Text

pub record Tool : Type 0 where
  pub name : Text
  pub command : Text
  pub version_args : List Text
  pub required_for : List Text
  pub search_paths : List Text
  pub note : Text
  pub expected_version : Text

abbrev pub is_zero : ℤ → Bool
is_zero (pos n) = n == 0
is_zero (negsuc n) = false

abbrev pub first_line : List Text → Text
first_line [] = []
first_line (line ∷ lines) = strip line

abbrev pub text_of : Completed → Bool × Text
text_of (raised message) = (false, message)
text_of (exited code out) = (is_zero code, first_line (splitlines (strip out)))

abbrev pub stripped : List Text → List Text
stripped [] = []
stripped (line ∷ lines) =
    let rest = stripped lines in if is_nil (strip line) then rest else strip line ∷ rest

abbrev pub lines_of : Completed → Bool × List Text
lines_of (raised message) = (false, message ∷ [])
lines_of (exited code out) = (is_zero code, stripped (splitlines out))

unfoldable pub run_text : Machine → List Text → Bool × Text
run_text m argv = text_of (m.run argv [])

unfoldable pub run_lines : Machine → List Text → Bool × List Text
run_lines m argv = lines_of (m.run argv [])

-- `path / name`, where `Path()` is the dot
abbrev pub under : Text → Text → Text
under path name = if text_eq path (codes ".") then name else path ++ (codes "/" ++ name)

unfoldable pub find_command : Machine → Text → List Text → Option Text
find_command m command [] = m.which command
find_command m command (path ∷ paths) =
    let rest = find_command m command paths in
    if m.executable (under path command) then some (under path command) else rest

unfoldable pub flow_requires : Tool → Text → Bool
flow_requires tool flow =
    if text_eq flow (codes "all")
    then not (is_nil tool.required_for)
    else contains tool.required_for (codes "all") || contains tool.required_for flow

-- The first name that the machine has a command for.
unfoldable pub first_which : Machine → List Text → Option Text
first_which m [] = none
first_which m (name ∷ names) =
    let rest = first_which m names in elim (m.which name) [ some path ↦ some path | none ↦ rest ]

-- `os.environ.get(name, "").strip()`, if that is not empty.
abbrev pub override : Machine → Text → List Text
override m name = elim (m.env name) [
  | none ↦ []
  | some value ↦ if is_nil (strip value) then [] else strip value ∷ []
]

abbrev pub compilers : List Text
compilers =
    codes "g++" ∷ codes "c++" ∷ codes "clang++" ∷ codes "cc" ∷ codes "gcc" ∷ codes "clang" ∷ []

unfoldable pub find_c_compiler : Machine → Option Text
unfolding first_which
find_c_compiler m =
    first_which m (override m (codes "CXX") ++ (override m (codes "CC") ++ compilers))

-- `Path(p).name`
abbrev pub last_of : List Text → Text
last_of [] = []
last_of (x ∷ xs) = if is_nil xs then x else last_of xs

abbrev pub base_name : Text → Text
base_name path = last_of (split_on b'/' path)

abbrev pub language_of : Text → Text
language_of compiler =
    if has_infix (codes "++") (base_name compiler) || has_infix (codes "xx") (base_name compiler)
    then codes "c++"
    else codes "c"

-- `{text:n}`
abbrev pub pad : ℕ → Text → Text
pad n s = s ++ replicate (n - length s) b' '

abbrev pub status_of : Bool → Bool → Text
status_of found required =
    if found then codes "OK" else if required then codes "MISSING" else codes "not found"

abbrev pub marker_of : Bool → Bool → Text
marker_of found required = if required && not found then codes "!" else codes " "

abbrev pub detail_line : Text → List Text
detail_line detail =
    if is_nil detail then [] else (codes "  " ++ (pad 22 [] ++ (codes " " ++ detail))) ∷ []

-- What a test prints, and whether it passes.
abbrev pub Report : Type 0
Report = List Text × Bool

abbrev pub status_line : Text → Bool → Bool → Text → Text
status_line name found required detail =
    marker_of found required
    ++ (codes " " ++ (pad 22 name ++ (codes " " ++ (pad 8 (status_of found required) ++ detail))))

-- The compiler's answer: whether it found the header, and the line on it.
abbrev pub probed : Text → Completed → Bool × Text
probed compiler (raised message) = (false, message)
probed compiler (exited code out) =
    if is_zero code then (true, codes "found by " ++ base_name compiler) else (false, [])

unfoldable pub probe_header : Machine → Text → Bool × Text
unfolding find_c_compiler
probe_header m header = elim (find_c_compiler m) [
  | none ↦ (false, [])
  | some compiler ↦ probed compiler (
      m.run (compiler ∷ codes "-fsyntax-only" ∷ codes "-x" ∷ language_of compiler ∷ codes "-" ∷ [])
        (codes "#include <" ++ (header ++ codes ">\n")))
]

-- The fallback to pkg-config.
unfoldable pub or_pkg_config : Machine → Text → Bool × Text → Bool × Text
unfolding run_text
or_pkg_config m pkg_config (found, detail) =
    if not found
      && is_some (m.which (codes "pkg-config"))
      && (run_text m (codes "pkg-config" ∷ codes "--exists" ∷ pkg_config ∷ [])).0
    then (true, codes "found by pkg-config (" ++ (pkg_config ++ codes ")"))
    else (found, detail)

unfoldable pub check_c_header : Machine → Text → Text → Text → Bool → Text → Report
unfolding probe_header or_pkg_config
check_c_header m name header pkg_config required note =
    let (found, detail) = or_pkg_config m pkg_config (probe_header m header) in
    (
      status_line name found required (codes " " ++ header)
          ∷ (detail_line detail ++ detail_line note),
      found || not required,
    )

-- The version of a tool that was found: not another one than the expected one.
unfoldable pub version_fits : Tool → Bool × Text → Bool
version_fits tool (answered, version) = not (
    answered && not (is_nil tool.expected_version) && not (has_infix tool.expected_version version))

abbrev pub expected_line : Tool → Bool → Bool → List Text
expected_line tool fits required =
    if is_nil tool.expected_version
    then []
    else ((if not fits && required then codes "!" else codes " ")
        ++ (codes " "
            ++ (pad 22 (codes "expected")
                ++ (codes " "
                    ++ (pad 8 (if fits then codes "OK" else codes "MISMATCH")
                        ++ (codes " " ++ tool.expected_version))))))
      ∷ []

unfoldable pub check_tool : Machine → Text → Tool → Report
unfolding flow_requires find_command run_text version_fits
check_tool m flow tool =
    let required = flow_requires tool flow in
    elim (find_command m tool.command tool.search_paths) [
      | none ↦ (status_line tool.name false required [] ∷ detail_line tool.note, not required)
      | some exe ↦
          let answer = run_text m (exe ∷ tool.version_args) in
          let fits = version_fits tool answer in
          (
            status_line tool.name true required (codes " " ++ exe)
                ∷ (detail_line (if answer.0 || not (is_nil answer.1) then answer.1 else exe)
                    ++ (expected_line tool fits required ++ detail_line tool.note)),
            fits || not required,
          )
    ]

unfoldable pub check_python_module : Machine → Text → Text → Text → Bool → Report
unfolding run_text
check_python_module m name imported python required =
    let answer = run_text m (
      python
      ∷ codes "-c"
      ∷ (codes "import "
          ++ (imported
              ++ (codes "; print(getattr("
                  ++ (imported ++ codes ", '__version__', 'available'))"))))
      ∷ []) in
    (
      status_line name answer.0 required (codes " " ++ imported)
          ∷ (if answer.0 then detail_line answer.1 else []),
      answer.0 || not required,
    )
