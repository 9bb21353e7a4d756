-- ===== src/Network.antt =====
-- numtoy-core/src/network.rs: the distribution of tiles to other nodes.
pub mod Ring
pub mod Tiles
pub mod Wire
pub mod Coordinator
pub mod Session
