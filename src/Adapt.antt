-- ===== src/Adapt.antt =====
-- adapt.rs: what was watched, turned into a threshold per interface.
pub mod Suggest
pub mod Thresholds
pub mod Json
pub mod Block
pub mod Pasted
mod Tests
