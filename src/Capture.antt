-- ===== src/Capture.antt =====
-- capture.rs: the loop that reads frames, counts them, and says something when it is due.
pub mod Open
pub mod Decide
pub mod Lines
pub mod Suggestions
pub mod Report
pub mod Watch
pub mod Events
pub mod Counted
pub mod Heard
pub mod Due
pub mod Rounds
pub mod Handed
pub mod Judged
pub mod Told
pub mod Remembered
pub mod Returns
pub mod Quiet
pub mod Alert
pub mod Outage
pub mod Adapted
pub mod Verdicts
pub mod Announced
mod Sample
mod Tests
