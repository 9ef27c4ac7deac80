-- ===== src/Email.antt =====
-- email.rs: the alert as a mail, and the conversation that hands it over.
pub mod Compose
pub mod Data
pub mod Base64
pub mod Decode
pub mod Received
pub mod Conversation
pub mod Send
pub mod Transcript
pub mod Accepted
pub mod Lines
pub mod Alert
mod Tests
