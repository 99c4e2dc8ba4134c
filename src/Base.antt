-- ===== src/Base.antt =====
-- ParameterServerClientBase.cpp, what rcp.server and rcp.client share.
pub mod Lookup
pub mod Paths
pub mod Input
pub mod Query
pub mod Output
pub mod Store
pub mod Setting
pub mod Closed
pub mod Within
pub mod Safety
pub mod Messages
pub mod Readable
pub mod Handled
