-- ===== src/Bytes.antt =====
-- The loops that turn a list of atoms into bytes and back. Each object has its own copy of one of
-- them: SlipEncoder.cpp and SPPParser.cpp skip what is no byte, ParameterServerClientBase.cpp skips
-- what is no number and refuses a number that is no byte, and RcpParse.cpp, PdWebsocketServer.cpp and
-- PdWebsocketClient.cpp refuse both. A `char` is its bit pattern, a number below 256.
mod Defs
mod Collect
mod Strict
mod Raw
mod Atoms
mod Transfer
unfoldable pub use Defs.*
pub use Collect.*
pub use Strict.*
pub use Raw.*
pub use Atoms.*
pub use Transfer.*
