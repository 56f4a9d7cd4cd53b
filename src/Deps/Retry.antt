-- ===== src/Deps/Retry.antt =====
-- When a retried command succeeds, and what it waits for.
use corejack.Prelude.{ℕ, zero, suc, true, List, [], ◌∷◌, none, ◌≡◌, ◌↔◌, arith, any, ◌==◌}
use corejack.Deps.{attempt_from, run_with_retry}

-- The exit codes of the attempts from one on.
abbrev pub exit_codes : (ℕ → ℕ) → ℕ → ℕ → List ℕ
exit_codes returncode zero attempt = []
exit_codes returncode (suc left) attempt =
    returncode attempt ∷ exit_codes returncode left (suc attempt)

attempt_from-any :
    (returncode : ℕ → ℕ) (left attempt : ℕ)
    → ((attempt_from returncode (suc left) attempt).failed ≡ none)
      ↔ (any (λ c. c == 0) (exit_codes returncode (suc left) attempt) ≡ true)
unfolding attempt_from
attempt_from-any returncode zero attempt = ground arith
attempt_from-any returncode (suc left) attempt =
    ground (arith, attempt_from-any returncode left (suc attempt))

-- A command that is tried at least once succeeds just when one of its attempts exits with code 0.
pub run_with_retry_iff :
    (returncode : ℕ → ℕ) (left : ℕ)
    → ((run_with_retry returncode (suc left)).failed ≡ none)
      ↔ (any (λ c. c == 0) (exit_codes returncode (suc left) 1) ≡ true)
unfolding run_with_retry
run_with_retry_iff returncode left = attempt_from-any returncode left 1
