-- ===== src/Roster.antt =====
-- crates/mesh-coordinator/src/roster: the coordinator's state (coordinator/mod.rs), the entries of
-- its roster, and the events it writes (events.rs, http/sse.rs) and reads (http/api/dto.rs).
-- Effects are kept in order: events published, frames broadcast, snapshots saved.
pub mod Identity
pub mod Apply
pub mod Views
pub mod Filter
pub mod Commands
pub mod Heartbeat
pub mod Sweep
pub mod Reports
pub mod Topology
pub mod Fixture
pub mod Tests
pub mod Access
pub mod Addresses
pub mod Registration
use tabbify_service_mesh.Allocator.{Ipv6Addr, addr_eq, AllocError, UlaAllocator, new_allocator}
use tabbify_service_mesh.Formats.{Formats}
use tabbify_service_mesh.Policy.{Policy}
use tabbify_service_mesh.Relay.Registry.{RelayRegistry, new_registry}
use tabbify_service_mesh.Shared.{
  get_or, nat_eq, list_eq, option_eq, pair_eq, Text, Dict, values, ℤ, ℕ, Bool, false, Option, none,
  List, [], ◌∷◌, ◌++◌, map,
}
use tabbify_service_mesh.Traversal.Flags.{DirectPairFlags, new_flags}
use tabbify_service_mesh.Traversal.Punch.{PunchTracker, new_tracker, HolePunchInitiate}

pub record PathEdge : Type 0 where
  pub direct : Bool
  pub last_rx_age_ms : ℕ
  pub last_handshake_direct : Option Bool
  pub last_handshake_age_ms : Option ℕ
  pub handshake_rx_total : ℕ

pub record NodeCommandDto : Type 0 where
  pub command_id : Text
  pub verb : Text
  pub peer_id : Text
  pub nonce : Text
  pub issued_at : ℤ
  pub expiry : ℤ
  pub signature : Text

pub record PeerEntry : Type 0 where
  pub peer_id : ℕ
  pub wg_public_key : List ℕ
  pub ula : Ipv6Addr
  pub peer_index : ℕ
  pub listen_endpoint : Option Text
  pub display_name : Text
  pub network : Text
  pub tags : List Text
  pub hosted_app_ulas : List Text
  pub joined_at_micros : ℕ
  pub last_heartbeat : ℕ
  pub observed_external : Text
  pub endpoint_is_reflexive : Bool
  pub kind : Text
  pub parent : Option Text
  pub app_uuid : Option Text
  pub software_version : Option Text
  pub mesh_version : Option Text
  pub relay_only : Bool
  pub paths : Dict ℕ PathEdge
  pub dataplane_healthy : Bool
  pub pending_commands : List NodeCommandDto

pub record PeerInfo : Type 0 where
  pub peer_id : Text
  pub wg_public_key : Text
  pub ula : Text
  pub listen_endpoint : Option Text
  pub display_name : Text
  pub network : Text
  pub tags : List Text
  pub hosted_app_ulas : List Text
  pub joined_at_micros : ℕ
  pub kind : Text
  pub parent : Option Text
  pub app_uuid : Option Text
  pub software_version : Option Text
  pub mesh_version : Option Text
  pub relay_only : Bool
  pub connectivity : Option Text
  pub connectivity_age_ms : Option ℕ

pub record PeerJoined : Type 0 where
  pub peer_id : Text
  pub wg_public_key : List ℕ
  pub ula : Text
  pub listen_endpoint : Text
  pub display_name : Text
  pub network : Text
  pub tags : List Text
  pub hosted_app_ulas : List Text
  pub joined_at_micros : ℕ
  pub kind : Text
  pub parent : Option Text
  pub app_uuid : Option Text
  pub software_version : Option Text
  pub mesh_version : Option Text
  pub relay_only : Bool

pub record PeerHeartbeat : Type 0 where
  pub peer_id : Text
  pub observed_external : Text
  pub hosted_app_ulas : List Text
  pub software_version : Option Text
  pub mesh_version : Option Text
  pub at_micros : ℕ

pub record PeerLeft : Type 0 where
  pub peer_id : Text
  pub reason : Text
  pub left_at_micros : ℕ

pub record RelayWake : Type 0 where
  pub recipient_peer_id : Text
  pub source_ula : Text
  pub timestamp_micros : ℕ

-- What goes to the event log.
pub data MeshEvent : Type 0 where
  joined : PeerJoined → MeshEvent
  heartbeat_seen : PeerHeartbeat → MeshEvent
  left : PeerLeft → MeshEvent
  punch_initiated : HolePunchInitiate → MeshEvent

-- What goes to the subscribers.
pub data PeerEvent : Type 0 where
  added : PeerInfo → PeerEvent
  updated : PeerInfo → PeerEvent
  removed : Text → List Text → PeerEvent
  hole_punch : HolePunchInitiate → PeerEvent
  relay_wake : RelayWake → PeerEvent

pub record RegisterRequest : Type 0 where
  pub wg_public_key : Text
  pub listen_endpoint : Option Text
  pub wg_listen_port : Option ℕ
  pub display_name : Text
  pub network : Text
  pub tags : List Text
  pub hosted_app_ulas : List Text
  pub kind : Text
  pub parent : Option Text
  pub app_uuid : Option Text
  pub requested_ula : Option Text
  pub software_version : Option Text
  pub mesh_version : Option Text
  pub relay_only : Bool

pub record ValidatedClaims : Type 0 where
  pub valid : Bool
  pub subject : Text
  pub network : Text
  pub tags : List Text
  pub requested_ulas : List Text
  pub kind : Text
  pub exp : ℤ

-- What the call reads: a fresh peer id, unix microseconds, and the monotonic clock.
pub record Clock : Type 0 where
  pub new_id : ℕ
  pub micros : ℕ
  pub instant : ℕ

-- The messages that libraries write into errors are left out.
pub data CoordinatorError : Type 0 where
  invalid_peer_id : CoordinatorError
  invalid_pubkey : ℕ → CoordinatorError
  pubkey_decode : CoordinatorError
  invalid_requested_ula : Text → CoordinatorError
  allocation : AllocError → CoordinatorError
  unknown_peer : ℕ → CoordinatorError
  unauthorized : CoordinatorError
  ula_conflict : Text → CoordinatorError
  ula_network_mismatch : Text → Text → CoordinatorError

pub data RegisterOutcome : Type 0 where
  created existed : RegisterOutcome

pub record PairRelayStat : Type 0 where
  pub bytes_total : ℕ
  pub handshake_frames : ℕ

pub record Coordinator (Sender : Type 0) : Type 0 where
  pub roster : Dict ℕ PeerEntry
  pub by_pubkey : Dict (List ℕ) ℕ
  pub allocator : UlaAllocator
  pub policy : Policy
  pub heartbeat_timeout : ℕ
  pub punch_tracker : PunchTracker
  pub direct_pair_flags : DirectPairFlags
  pub proactive : Bool
  pub relay_forwarded_bytes : ℕ
  pub holepunch_emitted : ℕ
  pub relay_wake_emitted : ℕ
  pub relay_pair_stats : Dict (ℕ × ℕ) PairRelayStat
  pub relay : RelayRegistry Sender
  pub published : List MeshEvent
  pub broadcasts : List PeerEvent
  pub saved : List (List PeerJoined)

unfoldable pub new_coordinator : {Sender : Type 0} → Policy → ℕ → Coordinator Sender
new_coordinator policy heartbeat_timeout = record {
  roster = [];
  by_pubkey = [];
  allocator = new_allocator;
  policy = policy;
  heartbeat_timeout = heartbeat_timeout;
  punch_tracker = new_tracker;
  direct_pair_flags = new_flags;
  proactive = false;
  relay_forwarded_bytes = 0;
  holepunch_emitted = 0;
  relay_wake_emitted = 0;
  relay_pair_stats = [];
  relay = new_registry;
  published = [];
  broadcasts = [];
  saved = [];
}

module _ (fmt : Formats) where
  unfoldable pub to_info_with_connectivity : PeerEntry → Option Text → Option ℕ → PeerInfo
  to_info_with_connectivity e connectivity age = record {
    peer_id = fmt.print_uuid e.peer_id;
    wg_public_key = fmt.encode_base64 e.wg_public_key;
    ula = fmt.print_ipv6 e.ula;
    listen_endpoint = e.listen_endpoint;
    display_name = e.display_name;
    network = e.network;
    tags = e.tags;
    hosted_app_ulas = e.hosted_app_ulas;
    joined_at_micros = e.joined_at_micros;
    kind = e.kind;
    parent = e.parent;
    app_uuid = e.app_uuid;
    software_version = e.software_version;
    mesh_version = e.mesh_version;
    relay_only = e.relay_only;
    connectivity = connectivity;
    connectivity_age_ms = age;
  }

  unfoldable pub to_info : PeerEntry → PeerInfo
  unfolding to_info_with_connectivity
  to_info e = to_info_with_connectivity e none none

  unfoldable pub to_joined_event : PeerEntry → PeerJoined
  to_joined_event e = record {
    peer_id = fmt.print_uuid e.peer_id;
    wg_public_key = e.wg_public_key;
    ula = fmt.print_ipv6 e.ula;
    listen_endpoint = get_or e.listen_endpoint [];
    display_name = e.display_name;
    network = e.network;
    tags = e.tags;
    hosted_app_ulas = e.hosted_app_ulas;
    joined_at_micros = e.joined_at_micros;
    kind = e.kind;
    parent = e.parent;
    app_uuid = e.app_uuid;
    software_version = e.software_version;
    mesh_version = e.mesh_version;
    relay_only = e.relay_only;
  }

  module _ {Sender : Type 0} where
    unfoldable pub persist_roster : Coordinator Sender → Coordinator Sender
    unfolding to_joined_event
    persist_roster c = record c { saved = c.saved ++ map to_joined_event (values c.roster) ∷ [] }

module _ {Sender : Type 0} where
  unfoldable pub publish : Coordinator Sender → MeshEvent → Coordinator Sender
  publish c event = record c { published = c.published ++ event ∷ [] }

  unfoldable pub broadcast : Coordinator Sender → PeerEvent → Coordinator Sender
  broadcast c event = record c { broadcasts = c.broadcasts ++ event ∷ [] }
