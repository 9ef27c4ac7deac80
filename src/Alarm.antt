-- ===== src/Alarm.antt =====
-- alarm.rs: deciding whether what was counted is trouble, and when to say so.
pub mod Judge
pub mod Repeats
pub mod Severity
pub mod Said
mod Tests
