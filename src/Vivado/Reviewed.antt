-- ===== src/Vivado/Reviewed.antt =====
-- The exit status of bin/check_vivado_warnings.py, and what it counts.
use corejack.Prelude.{
  ℕ, ◌+◌, Bool, true, false, ◌&&◌, List, [], ◌∷◌, ◌≡◌, ◌↔◌, refl, ap, arith, is_nil, all, length,
  inl, inr, Bool-cases,
}
use corejack.Text.{Text, text_eq, contains}
use corejack.Text.Laws.{text_eq_iff}
use corejack.Edit.{Files}
use corejack.Host.{insert, sorted}
use corejack.Vivado.{
  Warning, Entry, load_allowlist, log_warnings, add_warning, add_warnings, parse_logs, missing,
  check_warnings,
}

-- The warnings that are counted.
abbrev pub total : List Entry → ℕ
total [] = 0
total (e ∷ es) = e.count + total es

add_warning-total : (w : Warning) (es : List Entry) → total (add_warning w es) ≡ total es + 1
unfolding add_warning
add_warning-total w [] = omega arith
add_warning-total w (e ∷ es) = ground (arith, add_warning-total w es)

add_warnings-total :
    (ws : List Warning) (es : List Entry) → total (add_warnings es ws) ≡ total es + length ws
unfolding add_warnings
add_warnings-total [] es = omega arith
add_warnings-total (w ∷ ws) es =
    omega (arith, add_warning-total w es, add_warnings-total ws (add_warning w es))

-- The counts of the summary add up to the number of warning lines in the logs that exist.
pub parse_logs-total :
    (files : Files) (paths : List Text)
    → total (parse_logs files paths) ≡ length (log_warnings files paths)
unfolding parse_logs
parse_logs-total files paths = omega (arith, add_warnings-total (log_warnings files paths) [])

module _ (p : Text → Bool) where
  abbrev entries_all : List Entry → Bool
  entries_all es = all (λ (e : Entry). p e.msg_id) es

  abbrev warnings_all : List Warning → Bool
  warnings_all ws = all (λ (w : Warning). p w.msg_id) ws

  add_warning-all :
      (w : Warning) (es : List Entry)
      → entries_all (add_warning w es) ≡ (entries_all es && p w.msg_id)
  unfolding add_warning
  add_warning-all w [] = ground arith
  add_warning-all w (e ∷ es) = elim (Bool-cases (text_eq e.msg_id w.msg_id)) [
    | inl same ↦
        let agree : p e.msg_id ≡ p w.msg_id = ap p ((text_eq_iff e.msg_id w.msg_id).0 same) in
        ground (arith, same, agree)
    | inr other ↦ ground (arith, other, add_warning-all w es)
  ]

  add_warnings-all :
      (ws : List Warning) (es : List Entry)
      → entries_all (add_warnings es ws) ≡ (entries_all es && warnings_all ws)
  unfolding add_warnings
  add_warnings-all [] es = ground arith
  add_warnings-all (w ∷ ws) es =
      ground (arith, add_warning-all w es, add_warnings-all ws (add_warning w es))

insert-nil : (a : Text) (xs : List Text) → is_nil (insert a xs) ≡ false
unfolding insert
insert-nil a [] = refl
insert-nil a (x ∷ xs) = ground arith

sorted-nil : (xs : List Text) → is_nil (sorted xs) ≡ is_nil xs
unfolding sorted
sorted-nil [] = refl
sorted-nil (x ∷ xs) = insert-nil x (sorted xs)

missing-nil :
    (allowed : List Text) (es : List Entry)
    → is_nil (missing allowed es) ≡ all (λ (e : Entry). contains allowed e.msg_id) es
unfolding missing
missing-nil allowed [] = refl
missing-nil allowed (e ∷ es) = ground (arith, missing-nil allowed es)

-- The check exits with status 0 just when the allowlist has the ID of every warning line in the logs
-- that exist.
pub check_warnings_iff :
    (allowlist : List Text) (files : Files) (logs : List Text)
    → ((check_warnings allowlist files logs).1 ≡ 0) ↔ (
        all
          (λ (w : Warning). contains (load_allowlist allowlist) w.msg_id)
          (log_warnings files logs)
        ≡ true)
unfolding check_warnings parse_logs
check_warnings_iff allowlist files logs =
    let allowed = load_allowlist allowlist in
    let ws = log_warnings files logs in
    let es = add_warnings [] ws in
    ground (
      arith,
      sorted-nil (missing allowed es),
      missing-nil allowed es,
      add_warnings-all (contains allowed) ws [],
    )
