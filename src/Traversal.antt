-- ===== src/Traversal.antt =====
-- crates/mesh-coordinator/src/nat: hole-punch pairing, per-pair flags and reflexive endpoints.
pub mod Punch
pub mod Flags
pub mod Reflexive
pub mod Tests
