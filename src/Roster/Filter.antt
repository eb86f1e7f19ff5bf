-- ===== src/Roster/Filter.antt =====
-- crates/mesh-coordinator/src/roster/filter.rs: the roster as a peer may see it, and who may use the
-- relay towards whom.
pub mod Visible
use tabbify_service_mesh.Formats.{Formats}
use tabbify_service_mesh.Policy.{can_see}
use tabbify_service_mesh.Roster.{
  PeerEntry, PeerInfo, PeerEvent, updated, Coordinator, to_info, broadcast,
}
use tabbify_service_mesh.Roster.Views.{snapshot}
use tabbify_service_mesh.Shared.{
  ◌==◌, nat_eq, list_eq, option_eq, pair_eq, Text, select, sort_by_key, map_option, values, lookup,
  ℕ, Bool, false, not, ◌&&◌, Option, none, some, List, [], ◌∷◌, map,
}

-- One broadcast after the other.
abbrev pub broadcast_all :
    {Sender : Type 0} → Coordinator Sender → List PeerEvent → Coordinator Sender
broadcast_all c [] = c
broadcast_all c (event ∷ events) = broadcast_all (broadcast c event) events

module _ {Sender : Type 0} where
  unfoldable pub peer_tags : Coordinator Sender → ℕ → Option (List Text)
  peer_tags c peer_id = map_option (λ e. e.tags) (lookup peer_id c.roster)

  unfoldable pub viewer_can_see : Coordinator Sender → List Text → List Text → Bool
  viewer_can_see c viewer_tags peer_tags = can_see c.policy viewer_tags peer_tags

  -- The tags of the peer that a key belongs to.
  abbrev pub tags_of_key : Coordinator Sender → List ℕ → Option (List Text)
  tags_of_key c pk = elim (lookup pk c.by_pubkey) [ none ↦ none | some id ↦ peer_tags c id ]

  unfoldable pub can_relay : Coordinator Sender → List ℕ → List ℕ → Bool
  unfolding peer_tags viewer_can_see
  can_relay c src_pubkey dst_pubkey = elim (tags_of_key c src_pubkey) [
    | none ↦ false
    | some src_tags ↦ elim (tags_of_key c dst_pubkey) [
      | none ↦ false
      | some dst_tags ↦ viewer_can_see c src_tags dst_tags
    ]
  ]

  unfoldable pub visible_entries : Coordinator Sender → ℕ → List Text → List PeerEntry
  visible_entries c viewer_id viewer_tags =
      sort_by_key (λ e. e.peer_index)
        (select (λ e. not (e.peer_id == viewer_id) && can_see c.policy viewer_tags e.tags)
          (values c.roster))

  module _ (fmt : Formats) where
    unfoldable pub visible_peers : Coordinator Sender → ℕ → List Text → List PeerInfo
    unfolding visible_entries
    visible_peers c viewer_id viewer_tags =
        map (to_info fmt) (visible_entries c viewer_id viewer_tags)

    unfoldable pub resync_all_peers : Coordinator Sender → Coordinator Sender
    resync_all_peers c = broadcast_all c (map updated (snapshot fmt c))
