-- ===== src/Tests.antt =====
-- A small repository with one board and one core, runs of the model on it, and an instance of each
-- theorem with hypotheses.
mod Repo
pub mod Runs
mod Checks
mod CoreChecks
mod UartRuns
mod RetryRuns
mod MatrixRuns
mod ScaffoldRuns
mod CoreRuns
mod BoardRuns
mod VersionRuns
mod ToolRuns
mod ReadRuns
mod DrawingRuns
mod CdcRuns
mod Listing
mod MapRuns
