-- ===== src/Tests.antt =====
-- Concrete data, and the theorems at work on it.
mod Samples
mod Nodes
mod Tree
mod Expose
mod Queue
mod Store
mod Format
mod Bytes
mod Base
mod Messages
mod Server
mod Client
mod Ws
mod Tunnels
mod Sizes
