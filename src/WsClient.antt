-- ===== src/WsClient.antt =====
-- The websocket client (websocketClient.cpp).
pub mod Defs
pub mod Single
pub mod Verify
pub mod Destroyed
