-- ===== src/WsServer.antt =====
-- websocketServer.h, WebsocketServerTransporter.cpp and WebsocketServerImpl.cpp.
pub mod Defs
pub mod Sets
pub mod Order
pub mod Fifo
pub mod Drain
pub mod Send
pub mod Service
pub mod Members
