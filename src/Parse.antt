-- ===== src/Parse.antt =====
-- The `rcp.parse` object.
pub mod Defs
pub mod Loop
