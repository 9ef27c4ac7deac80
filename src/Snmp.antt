-- ===== src/Snmp.antt =====
-- snmp.rs: the datagram of a trap, and a reader of such datagrams.
pub mod Ber
pub mod Trap
pub mod Reader
pub mod Lengths
pub mod Groups
pub mod Integers
pub mod Datagram
pub mod Message
pub mod Send
mod Tests
