-- ===== src/Ws.antt =====
-- The objects `ws.server` and `ws.client`.
pub mod Server
pub mod Client
pub mod Echo
