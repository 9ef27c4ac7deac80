-- ===== src/Packet.antt =====
-- packet.rs: reading a captured frame far enough to say what it is.
pub mod Headers
pub mod Classify
pub mod Read
pub mod Direction
pub mod Bounds
pub mod Frame
mod Tests
