-- ===== src/Cdc.antt =====
-- bin/check_vivado_cdc.py: every clock-domain crossing of a report has to be covered by an entry of the
-- allowlist. The rows are those of the csv reader, and `fnmatchcase` is a parameter.
pub mod Coverage
use corejack.Prelude.{
  ℕ, zero, suc, ◌+◌, Bool, true, false, not, ◌&&◌, List, [], ◌∷◌, ◌==◌, Option, none, some,
  if◌then◌else◌, is_nil, all, take,
}
use corejack.Text.{Text, is_space, text_eq, strip, split_on, push_char}

pub record Entry : Type 0 where
  pub rule : Text
  pub start_glob : Text
  pub end_glob : Text

pub record Row : Type 0 where
  pub rule : Text
  pub severity : Text
  pub startpoint_clock : Text
  pub endpoint_clock : Text
  pub startpoint : Text
  pub endpoint : Text

-- The pieces between white space.
unfoldable pub pieces : Text → List Text
pieces [] = [] ∷ []
pieces (c ∷ s) = let rest = pieces s in if is_space c then [] ∷ rest else push_char c rest

abbrev pub drop_empty : List Text → List Text
drop_empty [] = []
drop_empty ([] ∷ ws) = drop_empty ws
drop_empty ((c ∷ w) ∷ ws) = (c ∷ w) ∷ drop_empty ws

-- `text.split()`
unfoldable pub split_words : Text → List Text
split_words s = drop_empty (pieces s)

-- `raw_line.split("#", 1)[0]`
unfoldable pub before_hash : Text → Text
before_hash [] = []
before_hash (c ∷ s) = let rest = before_hash s in if c == b'#' then [] else c ∷ rest

-- A line that is neither blank nor an entry stops the script: its number.
pub data Allowlist : Type 0 where
  entries : List Entry → Allowlist
  bad_line : ℕ → Allowlist

abbrev pub add_entry : Entry → Allowlist → Allowlist
add_entry e (entries es) = entries (e ∷ es)
add_entry e (bad_line n) = bad_line n

unfoldable pub entry_of : List Text → Option Entry
entry_of (rule ∷ start ∷ end ∷ []) =
    some (record { rule = rule; start_glob = start; end_glob = end })
entry_of _ = none

unfoldable pub load_lines : ℕ → List Text → Allowlist
load_lines lineno [] = entries []
load_lines lineno (raw ∷ lines) =
    let rest = load_lines (suc lineno) lines in
    let line = strip (before_hash raw) in
    if is_nil line
    then rest
    else elim (entry_of (split_words line)) [ none ↦ bad_line lineno | some e ↦ add_entry e rest ]

unfoldable pub load_allowlist : Text → Allowlist
load_allowlist text = load_lines 1 (split_on 10 text)

-- The entries that cover a row each, and the rows that none covers, in the order of the rows.
pub record Summary : Type 0 where
  pub covered : List Entry
  pub unreviewed : List Row

abbrev pub add_row : Row → Option Entry → Summary → Summary
add_row row none s = record s { unreviewed = row ∷ s.unreviewed }
add_row row (some e) s = record s { covered = e ∷ s.covered }

module _ (fnmatchcase : Text → Text → Bool) where
  -- Every pin of a field matches, and there is one.
  unfoldable pub all_match : Text → Text → Bool
  all_match pins glob =
      let names = split_words pins in
      not (is_nil names) && all (λ name. fnmatchcase name glob) names

  unfoldable pub covers : Row → Entry → Bool
  covers row e =
      text_eq row.rule e.rule
      && all_match row.startpoint e.start_glob
      && all_match row.endpoint e.end_glob

  unfoldable pub reviewed_by : Row → List Entry → Option Entry
  reviewed_by row [] = none
  reviewed_by row (e ∷ es) = let rest = reviewed_by row es in if covers row e then some e else rest

  unfoldable pub summarize : List Entry → List Row → Summary
  summarize es [] = record { covered = []; unreviewed = [] }
  summarize es (row ∷ rows) = add_row row (reviewed_by row es) (summarize es rows)

  -- The rows that are shown, and the exit status.
  unfoldable pub check_cdc : List Entry → List Row → List Row × ℕ
  check_cdc es rows =
      let s = summarize es rows in (take 20 s.unreviewed, if is_nil s.unreviewed then 0 else 1)
