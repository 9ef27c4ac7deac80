-- ===== src/Relays.antt =====
-- relays.rs: what each relay interface is doing, and how well it is being answered.
pub mod Table
pub mod Events
pub mod Valid
pub mod Pending
pub mod Full
pub mod Totals
pub mod Tally
pub mod Gaps
pub mod Rows
pub mod Silence
pub mod Fits
pub mod Fresh
pub mod Mirrors
pub mod Waiting
pub mod Replies
pub mod Answers
mod Tests
