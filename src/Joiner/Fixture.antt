-- ===== src/Joiner/Fixture.antt =====
-- A joiner with two peers, on which the theorems of the joiner are tried: the first hosts an app.
use tabbify_service_mesh.Formats.{v4, SocketAddr, socket_eq, plain}
use tabbify_service_mesh.Allocator.{Ipv6Addr, addr_eq}
use tabbify_service_mesh.Joiner.DataPlane.{RelayHandle, DataPlane}
use tabbify_service_mesh.Joiner.HeartbeatLoop.{
  JoinerError, http_status, RegisterResponse, LoopState, Settings, Tick,
}
use tabbify_service_mesh.Joiner.Commands.{reset_wg, NodeCommand, Crypto, load, CommandGate}
use tabbify_service_mesh.Joiner.Sessions.Reachable.{
  new_table, apply_peer, Reached, at_start, after_peer, Reached-Consistent,
}
use tabbify_service_mesh.Joiner.Sessions.Consistency.{Consistent}
use tabbify_service_mesh.Joiner.Sessions.{SessionTable}
use tabbify_service_mesh.Joiner.Session.{PeerSession}
use tabbify_service_mesh.Joiner.Peers.{PeerInfo, RemotePeer}
use tabbify_service_mesh.Roster.Fixture.{key}
use tabbify_service_mesh.Shared.{
  ◌==◌, nat_eq, list_eq, option_eq, pair_eq, Text, Result, err, pos, ℕ, ◌+◌, true, false, Option,
  none, some, List, [], ◌∷◌, ◌++◌,
}

abbrev pub host : ℕ → Ipv6Addr
host n = record { s0 = 0xfd5a; s1 = 0x1f00; s2 = 7; s3 = n; s4 = 0; s5 = 0; s6 = 0; s7 = 1 }

abbrev pub endpoint_of : ℕ → SocketAddr
endpoint_of n = record { ip = v4 203 0 113 n; port = 51820 }

abbrev pub blank : PeerSession
blank = record {
  peer_id = 0;
  ula = host 0;
  peer_pubkey = [];
  allowed_ips = [];
  endpoint = none;
  endpoint_learned = false;
  direct_confirmed = false;
  last_direct_rx_micros = 0;
  last_direct_data_tx_micros = 0;
  last_direct_data_rx_micros = 0;
  last_probe_micros = 0;
  failed_handshake_count = 0;
  direct_suppressed_until = 0;
  last_rearm_micros = 0;
  rearm_streak = 0;
  eager_convergence = true;
  last_handshake_rx_micros = 0;
  last_handshake_rx_direct = false;
  handshake_rx_count = 0;
}

abbrev pub node : (id k u : ℕ) → PeerInfo
node id k u = record {
  peer_id = id;
  wg_public_key = key k;
  ula = host u;
  listen_endpoint = some (endpoint_of u);
  display_name = [];
  tags = [];
  hosted_app_ulas = host (u + 100) ∷ [];
  software_version = none;
  mesh_version = none;
  joined_at_micros = pos 0;
}

-- The first peer, then the second, then the first again with a new key.
abbrev pub two_sessions : SessionTable
two_sessions =
    apply_peer (apply_peer (apply_peer (new_table true true blank) (node 1 1 1)) (node 2 2 2))
      (node 3 3 1)

pub two_sessions-Reached : Reached two_sessions
two_sessions-Reached =
    after_peer (node 3 3 1)
      (after_peer (node 2 2 2) (after_peer (node 1 1 1) (at_start true true blank)))

pub two_sessions-Consistent : Consistent two_sessions
two_sessions-Consistent = Reached-Consistent two_sessions-Reached

abbrev pub relay_floor : RelayHandle
relay_floor = record { relay_only = true; tx_hi = []; tx_lo = [] }

abbrev pub node_plane : DataPlane
node_plane = record {
  sessions = two_sessions;
  relay = some relay_floor;
  udp = [];
  tun = [];
  rx_source_denied = 0;
}

-- A scheme in which a signature is the text `good`, 64 long.
abbrev pub signature : Text
signature = key 9 ++ key 8

abbrev pub scheme : Crypto
scheme = record {
  valid_key = λ k. true;
  verifies = λ k message s. s == signature;
  decode_hex = λ s. some s;
  to_json = λ c. c.nonce;
}

abbrev pub command : (id : ℕ) (nonce : Text) → NodeCommand
command id nonce = record {
  command_id = id;
  verb = reset_wg;
  peer_id = 1 ∷ [];
  nonce = nonce;
  issued_at = 0;
  expiry = 100;
  signature = signature;
}

abbrev pub gate : CommandGate
gate = record { super_admin_pubkey = some (key 7); nonces = load none }

abbrev pub record_of : (id k u : ℕ) → RemotePeer
record_of id k u = record {
  peer_id = id;
  wg_public_key = key k;
  ula = plain.print_ipv6 (host u);
  listen_endpoint = none;
  display_name = [];
  tags = [];
  hosted_app_ulas = [];
  software_version = none;
  mesh_version = none;
  joined_at_micros = pos 0;
}

abbrev pub no_host : Text → Option (List SocketAddr)
no_host name = none

abbrev pub settings : Settings
settings = record {
  formats = plain;
  lookup_host = no_host;
  crypto = scheme;
  reregister = record {
    our_public = key 5;
    advertise_endpoint = none;
    display_name = [];
    tags = [];
    join_token = none;
    requested_ula = none;
    strict_requested_ula = false;
    kind = none;
    parent = none;
    app_uuid = none;
    relay_only = false;
  };
  wg_listen_port = 51820;
  hosted_app_ulas = [];
  software_version = none;
  mesh_version = none;
}

abbrev pub new_life : RegisterResponse
new_life = record { peer_id = 9; ula = plain.print_ipv6 (host 5); peers = record_of 2 2 2 ∷ [] }

abbrev pub forgetting : Result JoinerError RegisterResponse → Tick
forgetting answer = record {
  now_micros = 50;
  heartbeat = λ request. err (http_status 404 []);
  registry = λ n call. answer;
  saved = λ nonce. true;
}

abbrev pub loop_state : LoopState
loop_state = record {
  sessions = two_sessions;
  peer_id = 5;
  handling_roster_loss = false;
  command_gate = gate;
  pending_acks = (1 ∷ []) ∷ [];
  register_calls = [];
  effects = [];
}
