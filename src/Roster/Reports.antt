-- ===== src/Roster/Reports.antt =====
-- crates/mesh-coordinator/src/roster/coordinator/mod.rs: what peers report with their heartbeats, the
-- counters, and the restoring of a saved roster. Counters are `u64` values and wrap.
pub mod Paths
pub mod Restore
use tabbify_service_mesh.Traversal.Punch.{canonical_pair, PunchTracker, note_confirmed}
use tabbify_service_mesh.Roster.Apply.{apply_peer_joined}
use tabbify_service_mesh.Hash.{u64_mod}
use tabbify_service_mesh.Roster.{PathEdge, PeerJoined, PairRelayStat, Coordinator}
use tabbify_service_mesh.Formats.{Formats}
use tabbify_service_mesh.Allocator.{addr_eq}
use tabbify_service_mesh.Shared.{
  if◌then◌else◌, get_or, nat_eq, list_eq, option_eq, pair_eq, Text, Dict, lookup, insert, update, ℕ,
  ◌+◌, ◌%◌, Bool, Option, none, some, List, [], ◌∷◌,
}

pub record PeerPathDto : Type 0 where
  pub peer_id : Text
  pub direct : Bool
  pub last_rx_age_ms : ℕ
  pub last_handshake_direct : Option Bool
  pub last_handshake_age_ms : Option ℕ
  pub handshake_rx_total : ℕ

abbrev pub edge_from : PeerPathDto → PathEdge
edge_from p = record {
  direct = p.direct;
  last_rx_age_ms = p.last_rx_age_ms;
  last_handshake_direct = p.last_handshake_direct;
  last_handshake_age_ms = p.last_handshake_age_ms;
  handshake_rx_total = p.handshake_rx_total;
}

abbrev pub counted : PairRelayStat → ℕ → Bool → PairRelayStat
counted stat n hi_prio = record {
  bytes_total = (stat.bytes_total + n) % u64_mod;
  handshake_frames = (stat.handshake_frames + (if hi_prio then 1 else 0)) % u64_mod;
}

module _ (fmt : Formats) where
  -- The loop over the reported paths: the edges so far, and the tracker with its confirmed pairs.
  unfoldable pub collect_edges :
      ℕ → Dict ℕ PathEdge → PunchTracker → List PeerPathDto → Dict ℕ PathEdge × PunchTracker
  collect_edges reporter edges tracker [] = (edges, tracker)
  collect_edges reporter edges tracker (p ∷ ps) = elim (fmt.parse_uuid p.peer_id) [
    | none ↦ collect_edges reporter edges tracker ps
    | some target ↦
        collect_edges reporter (insert target (edge_from p) edges)
          (if p.direct then note_confirmed tracker (canonical_pair reporter target) else tracker) ps
  ]

module _ {Sender : Type 0} where
  module _ (fmt : Formats) where
    unfoldable pub record_peer_paths :
        Coordinator Sender → ℕ → List PeerPathDto → Coordinator Sender
    unfolding collect_edges
    record_peer_paths c reporter paths = elim (lookup reporter c.roster) [
      | none ↦ c
      | some e ↦
          let (edges, tracker) = collect_edges fmt reporter [] c.punch_tracker paths in
          record c {
            roster = update reporter (λ e. record e { paths = edges }) c.roster;
            punch_tracker = tracker;
          }
    ]

    -- The loop of `restore` over what was saved; a malformed peer is skipped.
    unfoldable pub restore : Coordinator Sender → List PeerJoined → ℕ → Coordinator Sender
    restore c [] now = c
    restore c (event ∷ events) now = restore (apply_peer_joined fmt c event now).0 events now

  unfoldable pub record_dataplane_health : Coordinator Sender → ℕ → Bool → Coordinator Sender
  record_dataplane_health c reporter healthy = record c {
    roster = update reporter (λ e. record e { dataplane_healthy = healthy }) c.roster;
  }

  unfoldable pub set_proactive : Coordinator Sender → Bool → Coordinator Sender
  set_proactive c on = record c { proactive = on }

  unfoldable pub note_relay_forwarded : Coordinator Sender → ℕ → Coordinator Sender
  note_relay_forwarded c n = record c {
    relay_forwarded_bytes = (c.relay_forwarded_bytes + n) % u64_mod;
  }

  unfoldable pub note_relay_wake_emitted : Coordinator Sender → Coordinator Sender
  note_relay_wake_emitted c = record c { relay_wake_emitted = (c.relay_wake_emitted + 1) % u64_mod }

  unfoldable pub note_relay_pair_forwarded :
      Coordinator Sender → List ℕ → List ℕ → ℕ → Bool → Coordinator Sender
  note_relay_pair_forwarded c src_pubkey dst_pubkey n hi_prio =
      elim (lookup src_pubkey c.by_pubkey) [
        | none ↦ c
        | some src ↦ elim (lookup dst_pubkey c.by_pubkey) [
          | none ↦ c
          | some dst ↦
              let old =
                get_or (lookup (src, dst) c.relay_pair_stats)
                  (record { bytes_total = 0; handshake_frames = 0 }) in
              record c {
                relay_pair_stats = insert (src, dst) (counted old n hi_prio) c.relay_pair_stats;
              }
        ]
      ]
