-- ===== src/Roster/Views.antt =====
-- crates/mesh-coordinator/src/roster/coordinator/mod.rs: what is read from the roster: snapshots
-- with their connectivity, and lookups by key. The roster is read in the order it is stored.
use tabbify_service_mesh.Allocator.{Ipv6Addr, addr_eq}
use tabbify_service_mesh.Formats.{Formats}
use tabbify_service_mesh.Roster.{
  PathEdge, PeerEntry, PeerInfo, Coordinator, to_info_with_connectivity,
}
use tabbify_service_mesh.Shared.{
  if◌then◌else◌, is_some, nat_eq, list_eq, option_eq, pair_eq, Text, bytes, is_empty, any,
  sort_by_key, map_option, Dict, values, lookup, ℕ, min, Bool, not, Option, none, some, List, [],
  ◌∷◌, map,
}

abbrev pub direct_or_relay : Bool → Text
direct_or_relay direct = if direct then bytes "direct" else bytes "relay"

-- `Iterator::min`
abbrev pub least : List ℕ → Option ℕ
least [] = none
least (x ∷ xs) = elim (least xs) [ none ↦ some x | some y ↦ some (min x y) ]

abbrev pub any_direct : Dict ℕ PathEdge → Bool
any_direct paths = any (λ e. e.direct) (values paths)

abbrev pub own_connectivity : PeerEntry → Option Text
own_connectivity e = if is_empty e.paths then none else some (direct_or_relay (any_direct e.paths))

abbrev pub own_connectivity_aged : PeerEntry → Option Text × Option ℕ
own_connectivity_aged e =
    if not e.dataplane_healthy
    then (some (bytes "dead"), none)
    else if is_empty e.paths
    then (none, none)
    else (
      some (direct_or_relay (any_direct e.paths)),
      least (map (λ p. p.last_rx_age_ms) (values e.paths)),
    )

abbrev pub edge_of : PeerEntry → ℕ → Option (Bool × ℕ)
edge_of e target = map_option (λ p. (p.direct, p.last_rx_age_ms)) (lookup target e.paths)

abbrev pub edge_view : Option (Bool × ℕ) → Option Text × Option ℕ
edge_view none = (none, none)
edge_view (some (direct, age)) = (some (direct_or_relay direct), some age)

module _ {Sender : Type 0} where
  unfoldable pub is_registered_pubkey : Coordinator Sender → List ℕ → Bool
  is_registered_pubkey c pk = is_some (lookup pk c.by_pubkey)

  unfoldable pub peer_for_pubkey : Coordinator Sender → List ℕ → Option (ℕ × Ipv6Addr)
  peer_for_pubkey c pk = elim (lookup pk c.by_pubkey) [
    | none ↦ none
    | some peer_id ↦ map_option (λ e. (peer_id, e.ula)) (lookup peer_id c.roster)
  ]

  unfoldable pub edge : Coordinator Sender → ℕ → ℕ → Option (Bool × ℕ)
  edge c vantage target = elim (lookup vantage c.roster) [ none ↦ none | some e ↦ edge_of e target ]

  unfoldable pub self_connectivity : Coordinator Sender → ℕ → Option Text
  self_connectivity c peer_id = elim (lookup peer_id c.roster) [
    | none ↦ none
    | some e ↦ own_connectivity e
  ]

  unfoldable pub self_connectivity_aged : Coordinator Sender → ℕ → Option Text × Option ℕ
  self_connectivity_aged c peer_id = elim (lookup peer_id c.roster) [
    | none ↦ (none, none)
    | some e ↦ own_connectivity_aged e
  ]

  unfoldable pub connectivity_from :
      Coordinator Sender → Option ℕ → PeerEntry → Option Text × Option ℕ
  unfolding self_connectivity_aged edge
  connectivity_from c none e = self_connectivity_aged c e.peer_id
  connectivity_from c (some v) e = edge_view (edge c v e.peer_id)

  module _ (fmt : Formats) where
    unfoldable pub snapshot_with_vantage : Coordinator Sender → Option ℕ → List PeerInfo
    unfolding connectivity_from to_info_with_connectivity
    snapshot_with_vantage c vantage =
        map
          (λ e.
            let (connectivity, age) = connectivity_from c vantage e in
            to_info_with_connectivity fmt e connectivity age)
          (sort_by_key (λ e. e.peer_index) (values c.roster))

    unfoldable pub snapshot : Coordinator Sender → List PeerInfo
    unfolding snapshot_with_vantage
    snapshot c = snapshot_with_vantage c none
