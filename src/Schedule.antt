-- ===== src/Schedule.antt =====
-- src/schedule.rs: when a run is scheduled, and how its offset in the queue is computed. Floating
-- point numbers are exact fractions here, durations are microseconds and not negative, and a success
-- chance is a multiple of some fixed fraction.
pub mod Estimate
pub mod Offset
pub mod Adding
pub mod Requests
pub mod Bulk
pub mod Bounds
mod Examples
