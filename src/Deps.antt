-- ===== src/Deps.antt =====
-- `run_with_retry` of bin/deps_core.py: a network command is tried again after 2, 4 and 8 seconds.
pub mod Retry
use corejack.Prelude.{ℕ, zero, suc, ◌^◌, List, [], ◌∷◌, Option, none, some, ◌==◌, if◌then◌else◌}

-- The delays that were slept, and the exit code of the last attempt if every attempt failed.
pub record Tried : Type 0 where
  pub delays : List ℕ
  pub failed : Option ℕ

abbrev pub delayed : ℕ → Tried → Tried
delayed seconds t = record t { delays = seconds ∷ t.delays }

abbrev pub after_failure : ℕ → ℕ → ℕ → Tried → Tried
after_failure zero attempt returncode rest = record { delays = []; failed = some returncode }
after_failure (suc left) attempt returncode rest = delayed (2 ^ attempt) rest

-- `returncode` is the exit code of the command at each attempt.
unfoldable pub attempt_from : (ℕ → ℕ) → ℕ → ℕ → Tried
attempt_from returncode zero attempt = record { delays = []; failed = none }
attempt_from returncode (suc left) attempt =
    let rest = attempt_from returncode left (suc attempt) in
    if returncode attempt == 0
    then record { delays = []; failed = none }
    else after_failure left attempt (returncode attempt) rest

unfoldable pub run_with_retry : (ℕ → ℕ) → ℕ → Tried
run_with_retry returncode attempts = attempt_from returncode attempts 1
