-- ===== src/Server.antt =====
-- The `rcp.server` object.
pub mod Port
pub mod Rabbithole
pub mod Options
pub mod Expose
pub mod Keeping
pub mod Groups
pub mod Exposed
pub mod Library
pub mod Limits
pub mod Clients
pub mod Reconnect
pub mod Tunnel
pub mod Flapping
pub mod Race
pub mod Triggers
pub mod Pause
pub mod Object
pub mod RawLink
pub mod Registry
pub mod Messages
pub mod Within
pub mod Handled
pub mod SlipLink
pub mod PrefixLink
pub mod Faults
