-- ===== src/Publish.antt =====
-- The publish service (publish/src) and the shared types that it uses (src/publish.rs).
pub mod Mode
pub mod RateLimiter
pub mod Run
pub mod Samples
pub mod Backoff
pub mod Database
pub mod ChangeSets
pub mod Store
pub mod Policy
pub mod Consider
pub mod Pending
pub mod Failure
pub mod Single
pub mod Existing
mod Examples
