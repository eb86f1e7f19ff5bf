-- ===== src/Joiner/Tests.antt =====
-- The theorems on crates/mesh-joiner at concrete inputs: a table of two sessions, one of which was
-- made anew for its address.
use tabbify_service_mesh.Joiner.Sessions.{
  session_by_ula, host_remote_app_route, app_ulas_for_host, reconcile_app_routes, new_session,
  upsert, remove_session,
}
use tabbify_service_mesh.Joiner.Sessions.Reachable.{
  new_table, apply_peer, after_left, Reached-Consistent, Routed, session_by_ula-Routed,
}
use tabbify_service_mesh.Joiner.Session.{
  direct_backoff_base_micros, direct_backoff_cap_micros, escalating_backoff, note_direct_rx,
  note_handshake_failure, direct_suppressed, should_rearm_expired, add_allowed_source,
}
use tabbify_service_mesh.Formats.{socket_eq, plain}
use tabbify_service_mesh.Allocator.{addr_eq}
use tabbify_service_mesh.Joiner.DataPlane.Sending.{
  udp_target, relay_after, copy_to, send_wire-exact,
}
use tabbify_service_mesh.Joiner.DataPlane.Timers.{Tunnels, timer_tick}
use tabbify_service_mesh.Joiner.DataPlane.{
  WgAction, send_to_peer, deliver_to_tun, DataPlane, send_wire, process_inbound_datagram,
}
use tabbify_service_mesh.Joiner.Packets.{direct_probe_packet}
use tabbify_service_mesh.Joiner.Commands.Restarts.{Batch, run_batches, run_batches-FreshNonces}
use tabbify_service_mesh.Joiner.HeartbeatLoop.Recovery.{
  run_ticks, run_ticks-acks, registration, run_ticks-stuck,
}
use tabbify_service_mesh.Joiner.DataPlane.RelayOnly.{Silent}
use tabbify_service_mesh.Joiner.HeartbeatLoop.{
  http_transport, register_with_409_fallback, HeartbeatResponse, Tick, heartbeat_request,
}
use tabbify_service_mesh.Joiner.Sync.Removal.{
  unless_of, remove_peer_sessions-exact, apply_peer-stale_id,
}
use tabbify_service_mesh.Joiner.Sync.Refinement.{empty_book, roster_book, reconcile_roster-view}
use tabbify_service_mesh.Joiner.Sync.View.{view}
use tabbify_service_mesh.Joiner.Sync.{remove_peer_sessions, reconcile_roster}
use tabbify_service_mesh.Joiner.Commands.Once.{
  AllAuthorised, FreshNonces, effects_of, after, all_acks, process_commands-Authorised,
}
use tabbify_service_mesh.Joiner.Commands.{NodeCommand, load, Processed, process_commands}
use tabbify_service_mesh.Joiner.Sessions.Consistency.{Consistent}
use tabbify_service_mesh.Joiner.Session.Backoff.{
  escalating_backoff-closed, fail_at, fail_at-suppressed, rearms, Spaced, rearms-Spaced,
}
use tabbify_service_mesh.Joiner.Peers.{RemotePeer}
use tabbify_service_mesh.Joiner.Fixture.{
  host, blank, node, two_sessions, two_sessions-Reached, two_sessions-Consistent, relay_floor,
  node_plane, scheme, command, gate, record_of, no_host, settings, new_life, forgetting, loop_state,
}
use tabbify_service_mesh.Joiner.DataPlane.Filtering.{Received}
use tabbify_service_mesh.Joiner.DataPlane.Delivery.{
  carried_all, delivered_from, process_inbound_datagram-Delivered,
}
use tabbify_service_mesh.Joiner.DataPlane.TimerSilence.{timer_tick-Silent}
use tabbify_service_mesh.Shared.{
  leb, nat_eq, list_eq, option_eq, pair_eq, bytes, lookup, ok, err, ℕ, ◌+◌, ◌*◌, ◌^◌, min, ◌≡◌,
  refl, Bool, true, false, none, some, List, [], ◌∷◌, map, arith,
}

Reached-Consistent_example : Consistent (remove_session two_sessions (host 2)).0
Reached-Consistent_example = Reached-Consistent (after_left (host 2) two_sessions-Reached)

session_by_ula-Routed_example :
    Routed two_sessions (host 101) (session_by_ula two_sessions (host 101))
session_by_ula-Routed_example = session_by_ula-Routed (host 101) two_sessions-Reached

-- The second peer is gone from the roster, and a third has come.
abbrev roster : List RemotePeer
roster = record_of 3 3 1 ∷ record_of 4 4 4 ∷ []

reconcile_roster-view_example :
    view (reconcile_roster plain no_host two_sessions roster) (host 2)
    ≡ roster_book plain no_host roster empty_book (host 2)
reconcile_roster-view_example =
    reconcile_roster-view plain no_host two_sessions roster (host 2) two_sessions-Consistent

-- A command, the same again, and one that has expired.
abbrev commands : List NodeCommand
commands =
    command 1 (bytes "a")
    ∷ command 2 (bytes "a")
    ∷ record (command 3 (bytes "b")) { expiry = 10 }
    ∷ []

abbrev done : Processed
done = process_commands plain scheme commands gate two_sessions 50 (λ n. true)

process_commands-Authorised_example :
    (done.acks ≡ all_acks plain commands)
    × AllAuthorised scheme gate.super_admin_pubkey 50 done.ran
    × FreshNonces gate.nonces.nonces done.ran
    × (done.effects ≡ effects_of done.ran two_sessions)
    × (done.gate.super_admin_pubkey ≡ gate.super_admin_pubkey)
    × (done.gate.nonces.nonces ≡ after done.ran gate.nonces.nonces)
process_commands-Authorised_example =
    process_commands-Authorised plain scheme commands gate two_sessions 50 (λ n. true)

abbrev batch : Bool → Batch
batch restarted = record {
  restarted = restarted;
  commands = commands;
  table = two_sessions;
  now_micros = 50;
}

run_batches-FreshNonces_example :
    FreshNonces gate.nonces.nonces
      (run_batches plain scheme (batch false ∷ batch true ∷ batch false ∷ []) gate)
unfolding load
run_batches-FreshNonces_example =
    run_batches-FreshNonces plain scheme (batch false ∷ batch true ∷ batch false ∷ []) gate refl

-- Packets of the first peer's app and of a stranger, over the direct path.
abbrev queued : List WgAction
queued =
    deliver_to_tun (direct_probe_packet (host 101) (host 5))
    ∷ deliver_to_tun (direct_probe_packet (host 77) (host 5))
    ∷ []

process_inbound_datagram-Delivered_example :
    let after =
      process_inbound_datagram node_plane true 1
        (4 ∷ 0 ∷ 0 ∷ 0 ∷ [])
        (send_to_peer (2 ∷ []))
        queued
        500 in
    (after.tun ≡ delivered_from (two_sessions.heap 1).allowed_ips (carried_all queued))
    × Received true 1 node_plane after
process_inbound_datagram-Delivered_example =
    process_inbound_datagram-Delivered node_plane true 1 (4 ∷ 0 ∷ 0 ∷ 0 ∷ [])
      (send_to_peer (2 ∷ [])) queued 500

abbrev open_plane : DataPlane
open_plane = record node_plane { relay = some (record relay_floor { relay_only = false }) }

send_wire-exact_example :
    let sent = send_wire open_plane 1 (1 ∷ 2 ∷ []) 2000000 in
    (sent.relay ≡ relay_after open_plane.relay (two_sessions.heap 1) (1 ∷ 2 ∷ []))
    × (sent.udp ≡ copy_to (1 ∷ 2 ∷ []) (udp_target open_plane.relay (two_sessions.heap 1) 2000000))
    × (sent.tun ≡ [])
send_wire-exact_example = send_wire-exact open_plane 1 (1 ∷ 2 ∷ []) 2000000

abbrev tunnels : Tunnels
tunnels = record {
  is_expired = λ session. true;
  handshake_init = λ session. send_to_peer (1 ∷ []);
  update_timers = λ session. some (4 ∷ []);
  has_handshake = λ session. true;
  encapsulate = λ session packet. send_to_peer packet;
}

two_sessions-unconfirmed : (k : ℕ) → (two_sessions.heap k).direct_confirmed ≡ false
unfolding apply_peer reconcile_app_routes app_ulas_for_host host_remote_app_route upsert new_table
    add_allowed_source new_session
two_sessions-unconfirmed k = ground arith

timer_tick-Silent_example : Silent node_plane (timer_tick tunnels node_plane (host 5) 700000000)
timer_tick-Silent_example =
    timer_tick-Silent tunnels node_plane (host 5) 700000000 (refl, two_sessions-unconfirmed)

abbrev offline : Tick
offline = forgetting (err (http_transport []))

run_ticks-stuck_example :
    let stuck = run_ticks settings (offline ∷ offline ∷ forgetting (ok new_life) ∷ []) loop_state in
    (stuck.peer_id ≡ 5) × (stuck.register_calls ≡ (registration settings offline).1)
unfolding register_with_409_fallback
run_ticks-stuck_example =
    run_ticks-stuck settings offline (offline ∷ forgetting (ok new_life) ∷ []) loop_state
      (http_transport []) ((λ r. ([], refl)), ((λ r. ([], refl)), ((λ r. ([], refl)), tt))) refl
      refl

-- An answer with commands, then a heartbeat that fails.
abbrev answer : HeartbeatResponse
answer = record { peers = roster; pending_commands = commands }

abbrev answering : Tick
answering = record offline { heartbeat = λ request. ok answer }

abbrev unreachable : Tick
unreachable = record offline { heartbeat = λ request. err (http_transport []) }

run_ticks-acks_example :
    (heartbeat_request settings
      (run_ticks settings (answering ∷ unreachable ∷ []) loop_state)
      90).executed_command_ids
    ≡ map (λ command. plain.print_uuid command.command_id) commands
run_ticks-acks_example =
    run_ticks-acks settings answering (unreachable ∷ []) loop_state answer 90 refl
      ((λ request. (http_transport [], refl, refl)), tt)

apply_peer-stale_id_example :
    let again = apply_peer two_sessions (node 8 2 2) in
    (lookup (host 2) (remove_peer_sessions again 2).by_ula ≡ none)
    × (lookup (host 2) (remove_peer_sessions again 8).by_ula ≡ some 1)
unfolding apply_peer reconcile_app_routes app_ulas_for_host host_remote_app_route
    remove_peer_sessions upsert new_table add_allowed_source new_session
apply_peer-stale_id_example =
    apply_peer-stale_id two_sessions (node 8 2 2) 1 two_sessions-Consistent refl refl (ground arith)

remove_peer_sessions-exact_example :
    lookup (host 2) (remove_peer_sessions two_sessions 2).by_ula
    ≡ unless_of two_sessions.heap 2 (lookup (host 2) two_sessions.by_ula)
remove_peer_sessions-exact_example =
    remove_peer_sessions-exact two_sessions 2 (host 2) two_sessions-Consistent

escalating_backoff-closed_example :
    escalating_backoff 3 direct_backoff_base_micros direct_backoff_cap_micros ≡ 16000000
escalating_backoff-closed_example =
    escalating_backoff-closed 3 direct_backoff_base_micros direct_backoff_cap_micros (ground arith)

fail_at-suppressed_example :
    (direct_suppressed (note_handshake_failure (fail_at blank (10 ∷ 20 ∷ [])) 30) 8000029 ≡ true)
    × (direct_suppressed (note_direct_rx (fail_at blank (10 ∷ 20 ∷ [])) 30) 8000029 ≡ false)
fail_at-suppressed_example =
    fail_at-suppressed blank (10 ∷ 20 ∷ []) 30 8000029 (ground arith) (ground arith)

abbrev asked_at : List ℕ
asked_at = 90000000 ∷ 100000000 ∷ 300000000 ∷ []

rearms-Spaced_example :
    Spaced 90000000 600000000 0 0 (rearms blank 90000000 600000000 asked_at)
    × ((t : ℕ)
        → (should_rearm_expired blank t 90000000 600000000).1
          ≡ leb (0 + min (90000000 * 2 ^ 0) 600000000) t)
rearms-Spaced_example =
    rearms-Spaced blank 90000000 600000000 asked_at (ground arith) (ground arith)
