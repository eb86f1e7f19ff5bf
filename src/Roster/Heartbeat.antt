-- ===== src/Roster/Heartbeat.antt =====
-- crates/mesh-coordinator/src/roster/coordinator/heartbeat.rs: a peer's heartbeat, the endpoint that
-- follows its address, the punches it sets off, and its departure.
pub mod Emission
pub mod Effect
use tabbify_service_mesh.Traversal.Punch.{PunchPeer, HolePunchInitiate, try_emit_pair}
use tabbify_service_mesh.Traversal.Flags.{is_direct, is_pinned_to_relay}
use tabbify_service_mesh.Roster.Filter.{peer_tags}
use tabbify_service_mesh.Roster.Apply.{apply_peer_heartbeat, apply_peer_left}
use tabbify_service_mesh.Allocator.{addr_eq}
use tabbify_service_mesh.Formats.{SocketAddr, Formats}
use tabbify_service_mesh.Roster.{
  PeerEntry, PeerHeartbeat, PeerLeft, heartbeat_seen, left, punch_initiated, updated, removed,
  hole_punch, Clock, CoordinatorError, unknown_peer, Coordinator, to_info, persist_roster, publish,
  broadcast,
}
use tabbify_service_mesh.Shared.{
  if◌then◌else◌, get_or, ◌==◌, nat_eq, list_eq, option_eq, pair_eq, Text, is_empty, select,
  map_option, values, lookup, update, Result, ok, err, ℕ, ◌+◌, ◌%◌, ◌^◌, Bool, true, false, not,
  ◌&&◌, Option, none, some, List, [], ◌∷◌,
}
use tabbify_service_mesh.Traversal.Reflexive.{
  non_empty, is_sticky_explicit_endpoint, resolve_listen_endpoint,
}

-- What a heartbeat request carries.
pub record Beat : Type 0 where
  pub observed_external : Text
  pub wg_listen_port : Option ℕ
  pub hosted_app_ulas : List Text
  pub software_version : Option Text
  pub mesh_version : Option Text
  pub relay_only : Bool

module _ (fmt : Formats) where
  unfoldable pub has_sticky_explicit : PeerEntry → Bool
  has_sticky_explicit e =
      not e.endpoint_is_reflexive
      && get_or (map_option is_sticky_explicit_endpoint e.listen_endpoint) false

  unfoldable pub rolled_over : SocketAddr → Option ℕ → PeerEntry → PeerEntry
  unfolding has_sticky_explicit
  rolled_over observed wg_listen_port e =
      let resolved = resolve_listen_endpoint fmt none (some observed) wg_listen_port false in
      if has_sticky_explicit e
      then e
      else if resolved.reflexive && not (resolved.endpoint == e.listen_endpoint)
      then record e { listen_endpoint = resolved.endpoint; endpoint_is_reflexive = true }
      else e

  module _ {Sender : Type 0} where
    unfoldable pub refresh_reflexive_endpoint :
        Coordinator Sender → ℕ → Text → Option ℕ → Bool → Coordinator Sender
    unfolding rolled_over
    refresh_reflexive_endpoint c peer_id observed_external wg_listen_port relay_only =
        if relay_only then c else elim (fmt.parse_socket observed_external) [
          | none ↦ c
          | some observed ↦ record c {
            roster = update peer_id (rolled_over observed wg_listen_port) c.roster;
          }
        ]

  unfoldable pub beat_event : ℕ → Beat → Clock → PeerHeartbeat
  beat_event peer_id b clock = record {
    peer_id = fmt.print_uuid peer_id;
    observed_external = b.observed_external;
    hosted_app_ulas = b.hosted_app_ulas;
    software_version = b.software_version;
    mesh_version = b.mesh_version;
    at_micros = clock.micros;
  }

  module _ {Sender : Type 0} where
    -- The first end that has nothing to dial, or must not be dialled, suppresses the pair.
    unfoldable pub punch_peer_for_pair : Coordinator Sender → PeerEntry → ℕ → Option PunchPeer
    punch_peer_for_pair c e other =
        if is_empty e.observed_external
        then none
        else if e.relay_only
        then none
        else if is_pinned_to_relay c.direct_pair_flags e.peer_id other
        then none
        else if not c.proactive && not (is_direct c.direct_pair_flags e.peer_id other)
        then none
        else map_option (λ dial. record { peer_id = e.peer_id; dial_endpoint = dial })
            (non_empty e.listen_endpoint)

    abbrev pub announce_punches : Coordinator Sender → List HolePunchInitiate → Coordinator Sender
    announce_punches c [] = c
    announce_punches c (d ∷ ds) =
        announce_punches (broadcast (publish c (punch_initiated d)) (hole_punch d)) ds

    unfoldable pub note_holepunch_emitted : Coordinator Sender → Coordinator Sender
    note_holepunch_emitted c = record c { holepunch_emitted = (c.holepunch_emitted + 1) % 2 ^ 64 }

    unfoldable pub emit_between :
        Coordinator Sender → PunchPeer → PunchPeer → ℕ → Coordinator Sender
    unfolding note_holepunch_emitted
    emit_between c pa pb now =
        let (tracker, directives, emitted) = try_emit_pair c.punch_tracker pa pb now in
        let c' = announce_punches (record c { punch_tracker = tracker }) directives in
        if emitted then note_holepunch_emitted c' else c'

    unfoldable pub emit_pairs :
        Coordinator Sender → PeerEntry → List PeerEntry → ℕ → Coordinator Sender
    unfolding punch_peer_for_pair emit_between
    emit_pairs c beaten [] now = c
    emit_pairs c beaten (b ∷ candidates) now = elim (punch_peer_for_pair c beaten b.peer_id) [
      | none ↦ emit_pairs c beaten candidates now
      | some pa ↦ elim (punch_peer_for_pair c b beaten.peer_id) [
        | none ↦ emit_pairs c beaten candidates now
        | some pb ↦ emit_pairs (emit_between c pa pb now) beaten candidates now
      ]
    ]

    unfoldable pub try_emit_holepunch_pairs :
        Coordinator Sender → PeerEntry → Clock → Coordinator Sender
    unfolding emit_pairs
    try_emit_holepunch_pairs c beaten clock =
        emit_pairs c beaten (select (λ e. not (e.peer_id == beaten.peer_id)) (values c.roster))
          clock.micros

    -- The event, its application, and the flag of the request.
    unfoldable pub stamped : Coordinator Sender → ℕ → Beat → Clock → Coordinator Sender
    unfolding beat_event
    stamped c peer_id b clock =
        let event = beat_event peer_id b clock in
        let applied =
          apply_peer_heartbeat fmt (publish c (heartbeat_seen event)) event clock.instant in
        record applied {
          roster = update peer_id (λ e. record e { relay_only = b.relay_only }) applied.roster;
        }

    -- What a heartbeat writes before its entry is read again.
    unfoldable pub beat_applied : Coordinator Sender → ℕ → Beat → Clock → Coordinator Sender
    unfolding stamped refresh_reflexive_endpoint
    beat_applied c peer_id b clock =
        refresh_reflexive_endpoint (stamped c peer_id b clock) peer_id b.observed_external
          b.wg_listen_port b.relay_only

    unfoldable pub heartbeat :
        Coordinator Sender
        → ℕ
        → Beat
        → Clock
        → Coordinator Sender × Result CoordinatorError PeerEntry
    unfolding beat_applied try_emit_holepunch_pairs
    heartbeat c peer_id b clock = elim (lookup peer_id c.roster) [
      | none ↦ (c, err (unknown_peer peer_id))
      | some prior ↦
          let c' = beat_applied c peer_id b clock in
          elim (lookup peer_id c'.roster) [
            | none ↦ (c', err (unknown_peer peer_id))
            | some entry ↦ (
              try_emit_holepunch_pairs (broadcast c' (updated (to_info fmt entry))) entry clock,
              ok entry,
            )
          ]
    ]

    unfoldable pub deregister : Coordinator Sender → ℕ → Text → Clock → Coordinator Sender × Bool
    deregister c peer_id reason clock = elim (peer_tags c peer_id) [
      | none ↦ (c, false)
      | some tags ↦
          let event : PeerLeft = record {
            peer_id = fmt.print_uuid peer_id;
            reason = reason;
            left_at_micros = clock.micros;
          } in
          let gone = apply_peer_left fmt (publish c (left event)) event in
          (persist_roster fmt (broadcast gone (removed (fmt.print_uuid peer_id) tags)), true)
    ]
