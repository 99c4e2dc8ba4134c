-- ===== src/Slip.antt =====
-- slipencoder and slipdecoder (sources/SlipEncoder.cpp, sources/SlipDecoder.cpp).
pub mod Codec
pub mod Encoder
pub mod Decoder
pub mod Trip
pub mod Stream
