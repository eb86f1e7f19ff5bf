-- ===== src/Roster/Apply.antt =====
-- crates/mesh-coordinator/src/roster/apply.rs: the event handlers that change the roster.
pub mod Invariant
pub mod Writes
pub mod Handlers
use tabbify_service_mesh.Allocator.{Ipv6Addr, addr_eq, bump_slot_at_least}
use tabbify_service_mesh.Formats.{Formats}
use tabbify_service_mesh.Relay.Registry.{drop_pubkey}
use tabbify_service_mesh.Roster.{
  PeerEntry, PeerJoined, PeerHeartbeat, PeerLeft, CoordinatorError, invalid_peer_id, ula_conflict,
  Coordinator,
}
use tabbify_service_mesh.Shared.{
  if◌then◌else◌, ◌==◌, nat_eq, list_eq, option_eq, pair_eq, Text, is_empty, any, Dict, values,
  retain, lookup, insert, remove, update, Result, ok, err, ℕ, Bool, true, false, not, ◌&&◌, Option,
  none, some, [],
}
use tabbify_service_mesh.Traversal.Flags.{remove_flags}
use tabbify_service_mesh.Traversal.Punch.{involves, remove_peer}

unfoldable pub joined_entry : PeerJoined → ℕ → Ipv6Addr → ℕ → PeerEntry
joined_entry event peer_id ula now = record {
  peer_id = peer_id;
  wg_public_key = event.wg_public_key;
  ula = ula;
  peer_index = ula.s3;
  listen_endpoint = if is_empty event.listen_endpoint then none else some event.listen_endpoint;
  display_name = event.display_name;
  network = event.network;
  tags = event.tags;
  hosted_app_ulas = event.hosted_app_ulas;
  joined_at_micros = event.joined_at_micros;
  last_heartbeat = now;
  observed_external = [];
  endpoint_is_reflexive = false;
  kind = event.kind;
  parent = event.parent;
  app_uuid = event.app_uuid;
  software_version = event.software_version;
  mesh_version = event.mesh_version;
  relay_only = event.relay_only;
  paths = [];
  dataplane_healthy = true;
  pending_commands = [];
}

-- Whether another peer holds the address.
abbrev pub held_by_other : Dict ℕ PeerEntry → Ipv6Addr → ℕ → Bool
held_by_other roster ula peer_id =
    any (λ existing. (existing.ula == ula) && not (existing.peer_id == peer_id)) (values roster)

-- `clone_from` when the new value is present.
abbrev pub refreshed : Option Text → Option Text → Option Text
refreshed none old = old
refreshed (some new) old = some new

module _ {Sender : Type 0} where
  unfoldable pub admit : Coordinator Sender → PeerEntry → Coordinator Sender
  admit c entry = record c {
    roster = insert entry.peer_id entry c.roster;
    by_pubkey = insert entry.wg_public_key entry.peer_id c.by_pubkey;
    allocator = bump_slot_at_least c.allocator entry.ula.s2 entry.ula.s3;
  }

  -- Everything that is kept under a departed peer goes with it.
  unfoldable pub forget : Coordinator Sender → ℕ → PeerEntry → Coordinator Sender
  forget c peer_id entry = record c {
    roster = remove peer_id c.roster;
    by_pubkey = remove entry.wg_public_key c.by_pubkey;
    relay = drop_pubkey c.relay entry.wg_public_key;
    punch_tracker = (remove_peer c.punch_tracker peer_id).0;
    direct_pair_flags = remove_flags c.direct_pair_flags peer_id;
    relay_pair_stats = retain (λ pair _. not (involves peer_id pair)) c.relay_pair_stats;
  }

  module _ (fmt : Formats) where
    unfoldable pub apply_peer_joined :
        Coordinator Sender → PeerJoined → ℕ → Coordinator Sender × Result CoordinatorError PeerEntry
    unfolding joined_entry admit
    apply_peer_joined c event now = elim (fmt.parse_uuid event.peer_id) [
      | none ↦ (c, err invalid_peer_id)
      | some peer_id ↦ elim (fmt.parse_ipv6 event.ula) [
        | none ↦ (c, err invalid_peer_id)
        | some ula ↦
            let entry = joined_entry event peer_id ula now in
            if held_by_other c.roster ula peer_id
            then (c, err (ula_conflict (fmt.print_ipv6 ula)))
            else (admit c entry, ok entry)
      ]
    ]

    unfoldable pub apply_peer_heartbeat :
        Coordinator Sender → PeerHeartbeat → ℕ → Coordinator Sender
    apply_peer_heartbeat c event now = elim (fmt.parse_uuid event.peer_id) [
      | none ↦ c
      | some peer_id ↦ record c {
        roster =
            update peer_id
              (λ e. record e {
                last_heartbeat = now;
                observed_external = event.observed_external;
                hosted_app_ulas = event.hosted_app_ulas;
                software_version = refreshed event.software_version e.software_version;
                mesh_version = refreshed event.mesh_version e.mesh_version;
              })
              c.roster;
      }
    ]

    unfoldable pub apply_peer_left : Coordinator Sender → PeerLeft → Coordinator Sender
    unfolding forget
    apply_peer_left c event = elim (fmt.parse_uuid event.peer_id) [
      | none ↦ c
      | some peer_id ↦ elim (lookup peer_id c.roster) [
        | none ↦ c
        | some entry ↦ forget c peer_id entry
      ]
    ]
