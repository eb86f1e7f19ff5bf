-- ===== src/Relay.antt =====
-- crates/mesh-coordinator/src/relay: the frame codec and the registry of relay connections.
pub mod Frame
pub mod Registry
pub mod Tests
