-- ===== src/Runner.antt =====
-- The runner (runner/src): the runs that workers are busy with, and the watchdog over them.
pub mod ActiveRuns
pub mod Watchdog
pub mod Results
pub mod Database
pub mod Claims
pub mod Offer
pub mod Assign
pub mod Candidates
mod Examples
