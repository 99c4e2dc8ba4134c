-- ===== src/Base/Query.antt =====
-- ParameterServerClientBase.cpp: the questions about a parameter, answered on outlet 3.
mod Defs
pub mod Answers
pub mod Values
unfoldable pub use Defs.*
