-- ===== src/Http.antt =====
-- crates/mesh-coordinator/src/http: the live peer stream of a viewer (api/stream.rs) and the relay
-- socket's routing (relay.rs).
pub mod Stream
pub mod Uplink
pub mod Tests
