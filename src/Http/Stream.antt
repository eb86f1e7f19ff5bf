-- ===== src/Http/Stream.antt =====
-- crates/mesh-coordinator/src/http/api/stream.rs: the filter between the broadcasts and one viewer. A
-- frame is the event that it is written from.
pub mod Frames
use tabbify_service_mesh.Roster.Filter.{viewer_can_see}
use tabbify_service_mesh.Roster.{
  PeerInfo, PeerEvent, added, updated, removed, hole_punch, relay_wake, Coordinator,
}
use tabbify_service_mesh.Formats.{Formats}
use tabbify_service_mesh.Allocator.{addr_eq}
use tabbify_service_mesh.Shared.{
  if◌then◌else◌, ◌==◌, nat_eq, list_eq, option_eq, pair_eq, Text, select, contains, ℕ, not, Option,
  none, some, List, [], ◌∷◌,
}

pub record ViewerFilter : Type 0 where
  pub viewer_id : ℕ
  pub viewer_tags : List Text
  pub revealed : List Text

-- `HashSet::insert` and `HashSet::remove`; each tells whether the set changed.
abbrev pub set_insert : Text → List Text → List Text
set_insert x set = if contains set x then set else x ∷ set

abbrev pub set_remove : Text → List Text → List Text
set_remove x set = select (λ y. not (y == x)) set

module _ (fmt : Formats) {Sender : Type 0} where
  -- The arm of `Added` and `Updated`.
  unfoldable pub apply_info :
      Coordinator Sender → ViewerFilter → PeerInfo → ViewerFilter × Option PeerEvent
  apply_info c f info =
      if info.peer_id == fmt.print_uuid f.viewer_id
      then (f, none)
      else if viewer_can_see c f.viewer_tags info.tags
      then (
        record f { revealed = set_insert info.peer_id f.revealed },
        some (if contains f.revealed info.peer_id then updated info else added info),
      )
      else if contains f.revealed info.peer_id
      then (
        record f { revealed = set_remove info.peer_id f.revealed },
        some (removed info.peer_id info.tags),
      )
      else (f, none)

  unfoldable pub apply :
      Coordinator Sender → ViewerFilter → PeerEvent → ViewerFilter × Option PeerEvent
  unfolding apply_info
  apply c f (added info) = apply_info c f info
  apply c f (updated info) = apply_info c f info
  apply c f (removed peer_id tags) =
      if contains f.revealed peer_id
      then (record f { revealed = set_remove peer_id f.revealed }, some (removed peer_id tags))
      else (f, none)
  apply c f (hole_punch hp) =
      (f, if hp.initiator_peer_id == f.viewer_id then some (hole_punch hp) else none)
  apply c f (relay_wake rw_) = (
    f,
    if rw_.recipient_peer_id == fmt.print_uuid f.viewer_id then some (relay_wake rw_) else none,
  )

  -- The events of a broadcast, one after the other, under one state of the coordinator.
  unfoldable pub apply_all : Coordinator Sender → ViewerFilter → List PeerEvent → ViewerFilter
  unfolding apply
  apply_all c f [] = f
  apply_all c f (event ∷ events) = apply_all c (apply c f event).0 events
