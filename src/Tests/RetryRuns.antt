-- ===== src/Tests/RetryRuns.antt =====
-- The theorem on retried commands, with a command that succeeds at its third attempt.
use corejack.Prelude.{ℕ, true, none, ◌≡◌, ◌↔◌, any, ◌==◌, if◌then◌else◌}
use corejack.Deps.{run_with_retry}
use corejack.Deps.Retry.{exit_codes, run_with_retry_iff}

abbrev third : ℕ → ℕ
third attempt = if attempt == 3 then 0 else 128

run_with_retry_iff_example :
    ((run_with_retry third 4).failed ≡ none) ↔ (any (λ c. c == 0) (exit_codes third 4 1) ≡ true)
run_with_retry_iff_example = run_with_retry_iff third 3
