-- ===== src/Queue.antt =====
-- src/queue.rs, over the `queue` table of schema/state.sql: the items that wait for a worker. A
-- campaign is a name that its column takes, intervals are microseconds, an offset is the `i64` that
-- it is cast to, and the database answers.
pub mod Buckets
pub mod Rows
pub mod Listing
pub mod Keys
pub mod Add
pub mod Effect
pub mod Selection
pub mod Next
mod Examples
