-- ===== src/Publish/Existing.antt =====
-- publish/src/lib.rs: the scan of the merge proposals that already exist (`check_existing` and
-- `check_existing_mp`).
pub mod Types
pub mod Proposals
pub mod Guess
pub mod Runs
pub mod Gather
pub mod Close
pub mod Republish
pub mod Refresh
pub mod Check
pub mod Scan
pub mod Effects
pub mod Refreshed
pub mod Actions
pub mod Once
pub mod Pass
pub mod Limit
pub mod Status
pub mod Orphans
mod Examples
