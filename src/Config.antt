-- ===== src/Config.antt =====
-- config.rs: the settings, what they must satisfy, and where the file is looked for.
pub mod Settings
pub mod Check
pub mod Sound
pub mod Load
pub mod Loaded
pub mod Relays
mod Tests
