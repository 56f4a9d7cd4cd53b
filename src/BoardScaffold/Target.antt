-- ===== src/BoardScaffold/Target.antt =====
-- `replace_in_fpga_target` of bin/create_board.py: the new fileset in corejack.core, and the lines of the
-- target `fpga` that name the board.
use corejack.Prelude.{
  ℕ, Bool, true, false, not, ◌&&◌, ◌||◌, List, [], ◌∷◌, ◌++◌, ◌==◌, if◌then◌else◌, is_nil, length,
  drop,
}
use corejack.Text.{
  Text, codes, is_key_char, take_while, strip_prefix, starts_with, text_eq, has_infix, splitlines,
}
use corejack.Text.Lines.{unlines}
use corejack.Failure.{Result, ok, check, ◌>>=◌, ◌>>◌, already_there, no_marker}
use corejack.Search.{then_prefix}
use corejack.Splice.{replace_marker}
use corejack.Scaffold.CoreFile.{core_file}
use corejack.BoardScaffold.{Board, wrap_name}

abbrev pub flag_of : Board → Text
flag_of a = codes "board_" ++ a.board

abbrev pub fileset_of : Board → Text
fileset_of a = flag_of a ++ codes "_rtl"

abbrev is_name_char : ℕ → Bool
is_name_char c = is_key_char c || c == b'-'

-- `[A-Za-z0-9_-]+:`
named : Text → Bool
named s =
    let name = take_while is_name_char s in
    not (is_nil name) && starts_with (codes ":") (drop (length name) s)

-- A key behind an indentation: `^  [A-Za-z0-9_-]+:`
unfoldable pub is_heading : Text → Text → Bool
unfolding named
is_heading indent line = then_prefix (strip_prefix indent line) named

-- Where the loop stands, and what it has changed.
pub record Scan : Type 0 where
  pub in_fpga : Bool
  pub in_flow_options : Bool
  pub changed_part : Bool
  pub changed_filesets : Bool
  pub changed_top : Bool

abbrev pub start : Scan
start = record {
  in_fpga = false;
  in_flow_options = false;
  changed_part = false;
  changed_filesets = false;
  changed_top = false;
}

-- The first test: the target that a line is in.
unfoldable pub enter_target : Text → Scan → Scan
unfolding is_heading
enter_target line s =
    if text_eq line (codes "  fpga:")
    then record s { in_fpga = true }
    else if s.in_fpga && is_heading (codes "  ") line
    then record s { in_fpga = false; in_flow_options = false }
    else s

-- The second one: the part of the target.
unfoldable pub enter_options : Text → Scan → Scan
unfolding is_heading
enter_options line s =
    if s.in_fpga && text_eq line (codes "    flow_options:")
    then record s { in_flow_options = true }
    else if s.in_fpga && s.in_flow_options && is_heading (codes "    ") line
    then record s { in_flow_options = false }
    else s

abbrev pub is_part : Scan → Text → Bool
is_part s line = s.in_fpga && s.in_flow_options && starts_with (codes "      part: ") line

abbrev pub is_top : Scan → Text → Bool
is_top s line = s.in_fpga && starts_with (codes "    toplevel: ") line

abbrev pub choice : Board → Text → Text
choice a value = codes " " ++ (flag_of a ++ (codes " ? (" ++ (value ++ codes ")")))

abbrev pub fileset_line : Board → Text
fileset_line a = codes "      - " ++ (flag_of a ++ (codes " ? (" ++ (fileset_of a ++ codes ")")))

-- The state in which the two changes are tested.
abbrev pub entered : Text → Scan → Scan
entered line s = enter_options line (enter_target line s)

abbrev pub part_line : Board → Scan → Text → Text
part_line a s line = if is_part s line then line ++ choice a a.part else line

abbrev pub top_lines : Board → Scan → Text → List Text
top_lines a s line =
    if is_top s line
    then if s.changed_filesets
      then (line ++ choice a (wrap_name a)) ∷ []
      else fileset_line a ∷ (line ++ choice a (wrap_name a)) ∷ []
    else line ∷ []

-- What is written for a line, and the state behind it.
unfoldable pub written : Board → Scan → Text → List Text
unfolding enter_target enter_options
written a s line = let t = entered line s in top_lines a t (part_line a t line)

unfoldable pub scanned : Board → Scan → Text → Scan
unfolding enter_target enter_options
scanned a s line =
    let t = entered line s in
    let top = is_top t (part_line a t line) in
    record t {
      changed_part = t.changed_part || is_part t line;
      changed_filesets = t.changed_filesets || top;
      changed_top = t.changed_top || top;
    }

unfoldable pub rewrite : Board → Scan → List Text → List Text × Scan
unfolding written scanned
rewrite a s [] = ([], s)
rewrite a s (line ∷ lines) =
    let (out, end) = rewrite a (scanned a s line) lines in (written a s line ++ out, end)

-- The fileset of the board, in front of the marker.
abbrev pub board_fileset : Board → Text
board_fileset a =
    codes "\n  "
    ++ (fileset_of a
        ++ (codes ":\n    depend:\n      - corejack:boards:"
            ++ (a.board ++ (codes ":" ++ (a.version ++ codes "\n")))))

abbrev pub rtl_marker : Text
rtl_marker = codes "\n  rtl:\n"

-- The text that the loop leaves, if it has made each of its changes.
unfoldable pub finished : List Text × Scan → Result Text
finished (out, end) = do
  check end.changed_part (no_marker (codes "fpga flow_options.part"))
  check end.changed_filesets (no_marker (codes "fpga filesets_append"))
  check end.changed_top (no_marker (codes "fpga toplevel"))
  ok (unlines out)

unfoldable pub replace_in_fpga_target : Board → Text → Result Text
unfolding replace_marker rewrite finished
replace_in_fpga_target a text = do
  check (not (has_infix (codes "  " ++ (fileset_of a ++ codes ":")) text))
      (already_there (fileset_of a) core_file)
  check (not (has_infix (flag_of a ++ codes " ? (") text)) (already_there (flag_of a) core_file)
  with_fileset ←
      replace_marker rtl_marker (board_fileset a ++ rtl_marker) (no_marker rtl_marker) text
  finished (rewrite a start (splitlines with_fileset))
