-- ===== src/Format.antt =====
-- rcp.format (sources/RcpFormat.cpp): messages into rcp packets.
pub mod Defs
pub mod Settings
pub mod Packets
pub mod Dispatch
pub mod Invariant
pub mod Trip
