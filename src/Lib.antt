-- ===== src/Lib.antt =====
-- tabbify-service-mesh: the coordinator of the mesh (crates/mesh-coordinator) and the joiner
-- (crates/mesh-joiner), the daemon of each node, modelled from their Rust sources.
--
-- The coordinator admits nodes to the mesh, gives each an overlay address, shows each the peers that
-- the ACL policy lets it see, tells pairs of peers to punch through their NATs, and relays frames for
-- the pairs that cannot. Its state is one record, `Roster.Coordinator`; an operation takes the state
-- and returns the new one with its result. What it publishes to the event log, broadcasts to
-- subscribers and saves is appended to three lists of that record, each in its order.
--
-- The joiner keeps a WireGuard session for each peer that it is shown. Its heartbeat and the stream of
-- events change the table of sessions (`Joiner.Sessions`); its packet loops look sessions up there, send
-- over the relay or the direct path, and write what the peers send to the TUN device. The answer to a
-- heartbeat is the roster that the table follows, and may carry signed commands.
--
-- Files, by the code that they model (paths below crates/mesh-coordinator/src):
--   Policy            policy/model.rs: rules over tags, can_see, validate; Policy/Store is
--                     policy/store.rs: the live policy, its ETag, replace
--   Allocator         roster/allocator.rs: network_slot, allocate, bump_slot_at_least; Allocator/Race
--                     has its compare-exchange loops as steps of many threads
--   Roster            roster/coordinator/mod.rs, roster/events.rs: the state and the events
--   Roster/Apply      roster/apply.rs: apply_peer_joined, apply_peer_heartbeat, apply_peer_left
--   Roster/Identity   roster/identity.rs: stamp_identity
--   Roster/Access, Roster/Addresses, Roster/Registration
--                     roster/coordinator/registration.rs: the checks, the address, register_authenticated
--   Roster/Heartbeat  roster/coordinator/heartbeat.rs: heartbeat, the punches, deregister
--   Roster/Commands   roster/coordinator/command_queue.rs
--   Roster/Sweep      roster/timeout.rs, with stale_peers and reap_stale_resources
--   Roster/Views, Roster/Reports
--                     roster/coordinator/mod.rs: snapshots and connectivity; reports, counters, restore
--   Roster/Topology   roster/coordinator/mod.rs: topology, the machine graph
--   Roster/Filter     roster/filter.rs: visible_peers, can_relay, resync_all_peers
--   Traversal         nat/: Punch is holepunch.rs, Flags direct_flags.rs, Reflexive reflexive.rs
--   Relay             relay/: Frame is frame.rs, Registry registry.rs
--   Http              http/: Stream is api/stream.rs (ViewerFilter), Uplink relay.rs (route_uplink)
--   Joiner            of crates/mesh-joiner/src, in child modules:
--     Peers           peer.rs, coordinator/client/decode.rs: a peer's record and its decoding
--     Session         wg/session/peer_session.rs: a session's path, backoffs and sources
--     Sessions        wg/session/table.rs: the table and its indexes; Sessions/Clocks has its clocks
--     Commands        coordinator/command.rs, command_gate.rs, command_exec.rs
--     Sync            coordinator/peer_sync.rs (apply_event), heartbeat.rs (reconcile_roster)
--     HeartbeatLoop   coordinator/heartbeat.rs: tick_once, the registration after a loss
--     Packets         wg/loops.rs: what is read from a packet
--     DataPlane       wg/loops.rs: send_wire, the two receiving loops; DataPlane/Timers the timer loop
--     RelayClient     relay/client.rs: the list of relays, the walk over it, frames from the relay
--     HolePunch       nat/holepunch.rs: the plan and the burst of a punch
--   Stun              crates/mesh-coordinator/src/nat/stun_server.rs with crates/mesh-joiner/src/nat/stun.rs
--   Hash              the FNV-1a hash of policy/store.rs and roster/allocator.rs
--   Formats           the textual forms of the standard library, `uuid` and `base64`, as an interface
--   Shared            numbers, lists, maps, results, sorting
--
-- Conventions. Texts and keys are lists of bytes, peer ids are 128-bit numbers (printed where the
-- source prints them, except in a punch directive), a clock reading is a number of its unit, and
-- fixed-width counters wrap or saturate as the source writes it. A DashMap is an association list,
-- read in the order of its entries. The microseconds that punching compares are signed, as `i64`.
-- Recursion is structural, so no fuel is needed, except in the loop over the attributes of a STUN
-- answer (`Stun.find_mapped`), which gets as much as the answer has bytes; more changes nothing.
-- The joiner's sessions are shared, so its table keeps them in a store (a function of handles) to
-- which its indexes point; a write through one handle is seen through every index. Times in the
-- joiner are not negative, and a handler is taken to read the clock once.
--
-- Parameters, for code that is not in the repository's own sources: the textual forms (`Formats`), the
-- token validator and the join contract's address rules (`Roster/Access`), the serialiser of a policy
-- (`Policy/Store`), the channels of the relay's connections (`Relay/Registry`), the signature scheme of
-- the commands (`Joiner.Commands.Crypto`), the JSON of events (`Joiner.Sync.Payloads`), the resolver of
-- host names, and boringtun's tunnels, whose answers are arguments (`WgAction`, `Joiner.DataPlane.Timers`).
--
-- Not modelled: the HTTP handlers and the tasks around the peer stream and the relay socket (http/), the
-- validator's HTTP call (auth/validate.rs), the metrics text (roster/coordinator/mod.rs),
-- loading of policy files, start-up; of mesh-joiner the relay client's connection (connect_once of
-- relay/client.rs), configuration, start-up (joiner.rs) and the platform's routes;
-- and the other crates (mesh-fabric, mesh-log). Two calls on the coordinator do not interleave here,
-- except in Allocator/Race, nor do two calls on the joiner's table.
pub mod Shared
pub mod Hash
pub mod Policy
pub mod Allocator
pub mod Formats
pub mod Traversal
pub mod Relay
pub mod Roster
pub mod Http
pub mod Joiner
pub mod Stun
