-- ===== src/Packet/Frame.antt =====
-- Well-formed frames, described by their fields: what a sender puts on the wire, written from the
-- header formats and not from packet.rs.
pub mod Ethernet
pub mod Ipv4
pub mod Ipv6
pub mod Read
