-- ===== src/Archive.antt =====
-- The archive generator (archive/src): the jobs that generate APT repositories.
pub mod Jobs
mod Examples
