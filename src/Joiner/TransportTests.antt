-- ===== src/Joiner/TransportTests.antt =====
-- The theorems on the relay client and the hole punch at concrete inputs.
use tabbify_service_mesh.Formats.{socket_eq, plain}
use tabbify_service_mesh.Allocator.{addr_eq}
use tabbify_service_mesh.Joiner.DataPlane.{
  WgAction, send_to_peer, deliver_to_tun, nothing, DataPlane,
}
use tabbify_service_mesh.Roster.Fixture.{key}
use tabbify_service_mesh.Joiner.Packets.{direct_probe_packet}
use tabbify_service_mesh.Traversal.Punch.{HolePunchInitiate}
use tabbify_service_mesh.Joiner.HolePunch.{PunchPlan, on_punch}
use tabbify_service_mesh.Joiner.RelayClient.{disconnected, handle_inbound}
use tabbify_service_mesh.Joiner.RelayClient.Failover.{walk, disconnected-rotates}
use tabbify_service_mesh.Joiner.Fixture.{host, endpoint_of, two_sessions, node_plane}
use tabbify_service_mesh.Joiner.HolePunch.Burst.{
  handshake_frames, Punched, NotPlanned, on_punch-Punched,
}
use tabbify_service_mesh.Shared.{
  nat_eq, list_eq, option_eq, pair_eq, Text, take, values, ℕ, ◌<◌, ◌≡◌, ◌⊎◌, some, List, [], ◌∷◌,
  ◌++◌, Memᴰ, arith,
}

-- The second peer sends, over the relay, a packet of its app.
abbrev first : ℕ → Text → WgAction
first session payload = deliver_to_tun (direct_probe_packet (host 102) (host 5))

abbrev queued : ℕ → Text → List WgAction
queued session payload = []

abbrev relayed : DataPlane
relayed = handle_inbound node_plane (key 2 ++ 4 ∷ 0 ∷ 0 ∷ 0 ∷ []) first queued 500

disconnected-rotates_example :
    ((walk 3 7).current ≡ 1) × ((walk 3 7).current < 3) × ((disconnected 3 (walk 3 7)).0 ≡ 1)
disconnected-rotates_example = disconnected-rotates 3 7 (omega arith)

abbrev event : HolePunchInitiate
event = record {
  initiator_peer_id = 5;
  target_peer_id = 2;
  target_external_endpoint = plain.print_socket (endpoint_of 9);
  timestamp_micros = 0;
}

abbrev tunnel : ℕ → List WgAction
tunnel session = send_to_peer (1 ∷ 0 ∷ []) ∷ nothing ∷ send_to_peer (1 ∷ 1 ∷ []) ∷ []

abbrev punched : DataPlane
punched = on_punch plain node_plane 5 event tunnel

on_punch-Punched_example :
    (NotPlanned plain two_sessions 5 event × (punched ≡ node_plane))
    ⊎ ((plan : PunchPlan) × (event.initiator_peer_id ≡ 5)
        × (plain.parse_socket event.target_external_endpoint ≡ some plan.endpoint)
        × ((two_sessions.heap plan.session).peer_id ≡ event.target_peer_id)
        × Memᴰ plan.session (values two_sessions.by_ula)
        × Punched
            (two_sessions.heap plan.session).direct_confirmed
            plan
            (handshake_frames (take 5 (tunnel plan.session)))
            node_plane
            punched)
on_punch-Punched_example = on_punch-Punched plain node_plane 5 event tunnel
