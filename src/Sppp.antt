-- ===== src/Sppp.antt =====
-- sppp, the size-prefix packet parser (sources/SPPParser.cpp), and sizeprefix
-- (sources/SizePrefixer.cpp).
pub mod Parser
pub mod Prefix
pub mod Stream
pub mod Trip
