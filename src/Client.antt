-- ===== src/Client.antt =====
-- The `rcp.client` object.
pub mod Defs
pub mod Reports
pub mod Object
pub mod Late
pub mod Messages
pub mod Stale
pub mod Handled
