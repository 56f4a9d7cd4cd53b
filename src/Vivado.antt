-- ===== src/Vivado.antt =====
-- bin/check_vivado_warnings.py: the warnings of the Vivado logs, counted by their IDs, and the IDs that
-- the allowlist does not have. The logs are read with their line ends as line feeds.
pub mod Reviewed
use corejack.Prelude.{
  ℕ, zero, suc, ◌+◌, Bool, true, false, not, ◌&&◌, ◌||◌, List, [], ◌∷◌, ◌++◌, map, Option, none,
  some, ◌==◌, ltb, if◌then◌else◌, is_nil, length, drop,
}
use corejack.Text.{
  Text, codes, is_space, rstrip_by, take_while, strip, strip_prefix, split_on, text_eq, contains,
}
use corejack.Number.{decimal}
use corejack.Search.{and_then}
use corejack.Host.{sorted}
use corejack.Edit.{Files}
use corejack.Cdc.{before_hash}

-- The entries of the allowlist: its lines without their comments.
unfoldable pub load_allowlist : List Text → List Text
unfolding before_hash
load_allowlist [] = []
load_allowlist (raw_line ∷ lines) =
    let rest = load_allowlist lines in
    let line = strip (before_hash raw_line) in if is_nil line then rest else line ∷ rest

-- One warning of a log.
pub record Warning : Type 0 where
  pub critical : Bool
  pub msg_id : Text
  pub path : Text
  pub lineno : ℕ
  pub message : Text

abbrev is_id_char : ℕ → Bool
is_id_char c = not (c == b']')

-- `\[([^\]]+)\] (.*)$`
unfoldable pub behind_severity : Bool → Text → ℕ → Text → Option Warning
behind_severity critical path lineno s = and_then (strip_prefix (codes "[") s) λ a.
    let msg_id = take_while is_id_char a in
    if is_nil msg_id
    then none
    else and_then (strip_prefix (codes "] ") (drop (length msg_id) a)) λ message. some (record {
      critical = critical;
      msg_id = msg_id;
      path = path;
      lineno = lineno;
      message = message;
    })

-- `WARNING_RE.match(line.rstrip())`
unfoldable pub warning_of : Text → ℕ → Text → Option Warning
unfolding behind_severity
warning_of path lineno line =
    let s = rstrip_by is_space line in
    elim (strip_prefix (codes "WARNING: ") s) [
      | some rest ↦ behind_severity false path lineno rest
      | none ↦
          and_then (strip_prefix (codes "CRITICAL WARNING: ") s) (behind_severity true path lineno)
    ]

unfoldable pub warnings_of : Text → ℕ → List Text → List Warning
unfolding warning_of
warnings_of path lineno [] = []
warnings_of path lineno (line ∷ lines) =
    let rest = warnings_of path (suc lineno) lines in
    elim (warning_of path lineno line) [ none ↦ rest | some w ↦ w ∷ rest ]

-- The warnings of the logs that exist, in the order in which they are read.
unfoldable pub log_warnings : Files → List Text → List Warning
unfolding warnings_of
log_warnings files [] = []
log_warnings files (path ∷ paths) =
    let rest = log_warnings files paths in
    elim (files path) [ none ↦ rest | some text ↦ warnings_of path 1 (split_on 10 text) ++ rest ]

-- What is kept of the warnings with one ID: at most two of them as examples.
pub record Entry : Type 0 where
  pub msg_id : Text
  pub count : ℕ
  pub critical : Bool
  pub examples : List Warning

abbrev pub counted : Warning → Entry → Entry
counted w e = record e {
  count = e.count + 1;
  critical = e.critical || w.critical;
  examples = if ltb (length e.examples) 2 then e.examples ++ w ∷ [] else e.examples;
}

abbrev pub no_entry : Text → Entry
no_entry msg_id = record { msg_id = msg_id; count = 0; critical = false; examples = [] }

-- One round of the loop, on the entries in the order of their first warnings.
unfoldable pub add_warning : Warning → List Entry → List Entry
add_warning w [] = counted w (no_entry w.msg_id) ∷ []
add_warning w (e ∷ es) =
    let rest = add_warning w es in if text_eq e.msg_id w.msg_id then counted w e ∷ es else e ∷ rest

unfoldable pub add_warnings : List Entry → List Warning → List Entry
unfolding add_warning
add_warnings es [] = es
add_warnings es (w ∷ ws) = add_warnings (add_warning w es) ws

unfoldable pub parse_logs : Files → List Text → List Entry
unfolding log_warnings add_warnings
parse_logs files paths = add_warnings [] (log_warnings files paths)

-- `sorted(msg_id for msg_id in warnings if msg_id not in allowed)`
unfoldable pub missing : List Text → List Entry → List Text
missing allowed [] = []
missing allowed (e ∷ es) =
    let rest = missing allowed es in if contains allowed e.msg_id then rest else e.msg_id ∷ rest

abbrev entry_named : Text → List Entry → Entry
entry_named msg_id [] = no_entry msg_id
entry_named msg_id (e ∷ es) = if text_eq e.msg_id msg_id then e else entry_named msg_id es

abbrev example_line : Warning → Text
example_line w =
    codes "    " ++ (w.path ++ (codes ":" ++ (decimal w.lineno ++ (codes ": " ++ w.message))))

unfoldable pub entry_lines : List Text → Entry → List Text
entry_lines allowed e =
    (codes "  "
      ++ ((if e.critical then codes "CRITICAL WARNING" else codes "WARNING")
          ++ (codes " ["
              ++ (e.msg_id
                  ++ (codes "]: "
                      ++ (decimal e.count
                          ++ (if contains allowed e.msg_id
                              then codes " (reviewed)"
                              else codes " (UNREVIEWED)")))))))
    ∷ map example_line e.examples

unfoldable pub all_lines : List Text → List Entry → List Text → List Text
unfolding entry_lines
all_lines allowed es [] = []
all_lines allowed es (msg_id ∷ ids) =
    entry_lines allowed (entry_named msg_id es) ++ all_lines allowed es ids

abbrev unreviewed_lines : List Text → List Text
unreviewed_lines [] = []
unreviewed_lines (x ∷ xs) =
    [] ∷ codes "Unreviewed Vivado warning IDs:" ∷ map (λ msg_id. codes "  " ++ msg_id) (x ∷ xs)

-- `main`: the lines that it prints, and the exit status.
unfoldable pub check_warnings : List Text → Files → List Text → List Text × ℕ
unfolding load_allowlist parse_logs missing all_lines
check_warnings allowlist files logs =
    let allowed = load_allowlist allowlist in
    let es = parse_logs files logs in
    let unreviewed = sorted (missing allowed es) in
    if is_nil es then (codes "Vivado warning summary:" ∷ codes "  no warnings found" ∷ [], 0) else (
      codes "Vivado warning summary:"
          ∷ (all_lines allowed es (sorted (map (λ (e : Entry). e.msg_id) es))
              ++ unreviewed_lines unreviewed),
      if is_nil unreviewed then 0 else 1,
    )
