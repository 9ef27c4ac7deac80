-- ===== src/Counters.antt =====
-- counters.rs: what has been seen lately, and where it was going.
pub mod Flow
pub mod Window
pub mod Sort
pub mod History
pub mod Buckets
pub mod Counted
pub mod Bounded
pub mod Flows
pub mod Sessions
pub mod Listed
mod Tests
