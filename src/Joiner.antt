-- ===== src/Joiner.antt =====
-- crates/mesh-joiner: the daemon that joins the mesh and moves its packets.
pub mod Peers
pub mod Session
pub mod Sessions
pub mod Commands
pub mod Sync
pub mod HeartbeatLoop
pub mod Packets
pub mod DataPlane
pub mod Fixture
pub mod Tests
pub mod RelayClient
pub mod HolePunch
pub mod TransportTests
