-- ===== src/Joiner/Sync.antt =====
-- The two readers of the roster: crates/mesh-joiner/src/coordinator/peer_sync.rs (the event stream) and
-- `reconcile_roster` of coordinator/heartbeat.rs. What parses the events' JSON is an argument.
pub mod View
pub mod Removal
pub mod Refinement
use tabbify_service_mesh.Traversal.Punch.{HolePunchInitiate}
use tabbify_service_mesh.Formats.{SocketAddr, socket_eq, Formats}
use tabbify_service_mesh.Allocator.{Ipv6Addr, addr_eq}
use tabbify_service_mesh.Joiner.Sessions.Reachable.{apply_peer}
use tabbify_service_mesh.Joiner.Sessions.{
  SessionTable, request_convergence_kick, session_by_ula, remove_session, keys,
}
use tabbify_service_mesh.Joiner.Peers.{
  PeerInfo, RemotePeer, PeerEventKind, added, updated, removed, hole_punch, relay_wake, DecodeError,
  remote_to_info,
}
use tabbify_service_mesh.Shared.{
  if◌then◌else◌, ◌==◌, nat_eq, list_eq, option_eq, pair_eq, Text, select, contains, values, Result,
  ok, err, ℕ, Bool, false, Option, none, some, List, [], ◌∷◌, ◌++◌,
}

-- `serde_json::from_str` at the payloads of the events.
pub record Payloads : Type 0 where
  pub remote_peer : Text → Option RemotePeer
  pub peer_removed : Text → Option ℕ
  pub hole_punch_initiate : Text → Option HolePunchInitiate
  pub relay_wake_ula : Text → Option Text

-- The session table, and the punch task's queue if there is one.
pub record Follower : Type 0 where
  pub sessions : SessionTable
  pub has_punch_tx : Bool
  pub punches : List HolePunchInitiate

-- The sessions of a peer that still stand at their address under its id are removed.
abbrev pub still_his : SessionTable → Option ℕ → (peer_id : ℕ) → Bool
still_his t none peer_id = false
still_his t (some live) peer_id = (t.heap live).peer_id == peer_id

abbrev pub remove_candidate : SessionTable → (peer_id session : ℕ) → SessionTable
remove_candidate t peer_id session =
    let ula = (t.heap session).ula in
    if still_his t (session_by_ula t ula) peer_id then (remove_session t ula).0 else t

abbrev pub remove_candidates : SessionTable → (peer_id : ℕ) → (candidates : List ℕ) → SessionTable
remove_candidates t peer_id [] = t
remove_candidates t peer_id (s ∷ more) =
    remove_candidates (remove_candidate t peer_id s) peer_id more

unfoldable pub remove_peer_sessions : SessionTable → (peer_id : ℕ) → SessionTable
remove_peer_sessions t peer_id =
    remove_candidates t peer_id (select (λ h. (t.heap h).peer_id == peer_id) (values t.by_ula))

abbrev pub apply_info : SessionTable → Result DecodeError PeerInfo → SessionTable
apply_info t (err e) = t
apply_info t (ok info) = apply_peer t info

abbrev pub add_ula : Result DecodeError PeerInfo → List Ipv6Addr → List Ipv6Addr
add_ula (err e) ulas = ulas
add_ula (ok info) ulas = info.ula ∷ ulas

-- The sessions whose address the roster does not list are removed.
abbrev pub prune_absent : SessionTable → (remote_ulas ulas : List Ipv6Addr) → SessionTable
prune_absent t remote_ulas [] = t
prune_absent t remote_ulas (ula ∷ ulas) =
    prune_absent (if contains remote_ulas ula then t else (remove_session t ula).0) remote_ulas ulas

module _ (formats : Formats) (lookup_host : Text → Option (List SocketAddr)) where
  unfoldable pub apply_relay_wake : Payloads → SessionTable → (data_text : Text) → SessionTable
  apply_relay_wake payloads t data_text = elim (payloads.relay_wake_ula data_text) [
    | none ↦ t
    | some text ↦ elim (formats.parse_ipv6 text) [
      | none ↦ t
      | some ula ↦ request_convergence_kick t ula
    ]
  ]

  abbrev pub upsert_remote : SessionTable → Option RemotePeer → SessionTable
  upsert_remote t none = t
  upsert_remote t (some r) = apply_info t (remote_to_info formats lookup_host r)

  abbrev pub forward_punch : Follower → Option HolePunchInitiate → Follower
  forward_punch f none = f
  forward_punch f (some p) =
      if f.has_punch_tx then record f { punches = f.punches ++ p ∷ [] } else f

  unfoldable pub apply_event : Payloads → Follower → PeerEventKind → (data_text : Text) → Follower
  apply_event payloads f added d = record f {
    sessions = upsert_remote f.sessions (payloads.remote_peer d);
  }
  apply_event payloads f updated d = record f {
    sessions = upsert_remote f.sessions (payloads.remote_peer d);
  }
  apply_event payloads f removed d = record f {
    sessions = elim (payloads.peer_removed d) [
      | none ↦ f.sessions
      | some peer_id ↦ remove_peer_sessions f.sessions peer_id
    ];
  }
  apply_event payloads f hole_punch d = forward_punch f (payloads.hole_punch_initiate d)
  apply_event payloads f relay_wake d = record f {
    sessions = apply_relay_wake payloads f.sessions d;
  }

  -- The records of a roster in turn; a malformed one is skipped.
  abbrev pub apply_records : SessionTable → List RemotePeer → SessionTable
  apply_records t [] = t
  apply_records t (r ∷ rs) = apply_records (apply_info t (remote_to_info formats lookup_host r)) rs

  abbrev pub remote_ulas : List RemotePeer → List Ipv6Addr
  remote_ulas [] = []
  remote_ulas (r ∷ rs) = add_ula (remote_to_info formats lookup_host r) (remote_ulas rs)

  unfoldable pub reconcile_roster : SessionTable → (remote : List RemotePeer) → SessionTable
  reconcile_roster t remote =
      let applied = apply_records t remote in
      prune_absent applied (remote_ulas remote) (keys applied.by_ula)
