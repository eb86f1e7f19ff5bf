-- ===== src/Roster/Registration.antt =====
-- crates/mesh-coordinator/src/roster/coordinator/registration.rs: joining and re-joining the mesh.
-- One call runs to its end before the next, as `registration_lock` makes it.
pub mod Consistency
use tabbify_service_mesh.Allocator.{Ipv6Addr, addr_eq}
use tabbify_service_mesh.Formats.{SocketAddr, Formats}
use tabbify_service_mesh.Roster.{
  PeerEntry, PeerJoined, joined, added, updated, removed, RegisterRequest, ValidatedClaims, Clock,
  CoordinatorError, unknown_peer, RegisterOutcome, created, existed, Coordinator, to_info,
  persist_roster, publish, broadcast,
}
use tabbify_service_mesh.Roster.Identity.{NodeIdentity, stamp_identity}
use tabbify_service_mesh.Roster.Access.{Contract, Validator, checked_request}
use tabbify_service_mesh.Roster.Addresses.{resolve_ula, evict_stale_ula_holder, reallocate}
use tabbify_service_mesh.Roster.Apply.{refreshed, apply_peer_joined}
use tabbify_service_mesh.Shared.{
  get_or, is_some, ◌==◌, nat_eq, list_eq, option_eq, pair_eq, Text, lookup, update, Result, ok, err,
  ℕ, Bool, true, false, not, ◌&&◌, Option, none, some, List, [],
}
use tabbify_service_mesh.Traversal.Reflexive.{ResolvedEndpoint, resolve_listen_endpoint}

abbrev pub moved : Option (ℕ × Ipv6Addr) → Text → PeerEntry → PeerEntry
moved none network e = e
moved (some (new_index, new_ula)) network e = record e {
  network = network;
  ula = new_ula;
  peer_index = new_index;
}

module _ (fmt : Formats) where
  abbrev pub observed_text : Option SocketAddr → Text → Text
  observed_text none old = old
  observed_text (some obs) old = fmt.print_socket obs

  unfoldable pub refreshed_entry :
      RegisterRequest
      → NodeIdentity
      → ResolvedEndpoint
      → Option SocketAddr
      → Option (ℕ × Ipv6Addr)
      → Clock
      → PeerEntry
      → PeerEntry
  refreshed_entry req identity resolved observed realloc clock e =
      moved realloc identity.network (record e {
        listen_endpoint = resolved.endpoint;
        endpoint_is_reflexive = resolved.reflexive;
        display_name = req.display_name;
        tags = identity.tags;
        hosted_app_ulas = req.hosted_app_ulas;
        kind = req.kind;
        parent = req.parent;
        app_uuid = req.app_uuid;
        software_version = refreshed req.software_version e.software_version;
        mesh_version = refreshed req.mesh_version e.mesh_version;
        relay_only = req.relay_only;
        last_heartbeat = clock.instant;
        observed_external = observed_text observed e.observed_external;
      })

  unfoldable pub joined_event :
      RegisterRequest → NodeIdentity → ResolvedEndpoint → List ℕ → Ipv6Addr → Clock → PeerJoined
  joined_event req identity resolved pubkey ula clock = record {
    peer_id = fmt.print_uuid clock.new_id;
    wg_public_key = pubkey;
    ula = fmt.print_ipv6 ula;
    listen_endpoint = get_or resolved.endpoint [];
    display_name = req.display_name;
    network = identity.network;
    tags = identity.tags;
    hosted_app_ulas = req.hosted_app_ulas;
    joined_at_micros = clock.micros;
    kind = req.kind;
    parent = req.parent;
    app_uuid = req.app_uuid;
    software_version = req.software_version;
    mesh_version = req.mesh_version;
    relay_only = req.relay_only;
  }

  module _ (contract : Contract) where
    module _ {Sender : Type 0} where
      -- The frames and the snapshot that follow the write.
      unfoldable pub announce_refresh :
          Coordinator Sender → ℕ → Bool → List Text → PeerEntry → Coordinator Sender
      announce_refresh c peer_id true old_tags entry = persist_roster fmt (
          broadcast (broadcast c (removed (fmt.print_uuid peer_id) old_tags))
            (added (to_info fmt entry)))
      announce_refresh c peer_id false old_tags entry = broadcast c (updated (to_info fmt entry))

      unfoldable pub refresh_existing :
          Coordinator Sender
          → ℕ
          → RegisterRequest
          → Option ValidatedClaims
          → ResolvedEndpoint
          → Option SocketAddr
          → Clock
          → Coordinator Sender × Result CoordinatorError PeerEntry
      unfolding refreshed_entry announce_refresh
      refresh_existing c peer_id req claims resolved observed clock =
          let identity = stamp_identity req claims in
          elim (lookup peer_id c.roster) [
            | none ↦ (c, err (unknown_peer peer_id))
            | some old ↦
                let rehome = is_some claims && not (identity.network == old.network) in
                let (c', realloc) = reallocate fmt contract c peer_id identity.network rehome in
                elim realloc [
                  | err e ↦ (c', err e)
                  | ok new ↦
                      let write = refreshed_entry req identity resolved observed new clock in
                      let c'' : Coordinator Sender = record c' {
                        roster = update peer_id write c'.roster;
                      } in
                      (announce_refresh c'' peer_id rehome old.tags (write old), ok (write old))
                ]
          ]

      -- What follows a successful apply: the endpoint's flags, the broadcast and the snapshot.
      unfoldable pub finish_join :
          Coordinator Sender
          → PeerEntry
          → ResolvedEndpoint
          → Option SocketAddr
          → Clock
          → Coordinator Sender × Result CoordinatorError (PeerEntry × RegisterOutcome)
      finish_join c entry resolved observed clock =
          let stamp = λ (e : PeerEntry). record e {
            endpoint_is_reflexive = resolved.reflexive;
            observed_external = observed_text observed entry.observed_external;
          } in
          let c' : Coordinator Sender = record c { roster = update clock.new_id stamp c.roster } in
          (
            persist_roster fmt (broadcast c' (added (to_info fmt (stamp entry)))),
            ok (stamp entry, created),
          )

      unfoldable pub register_new :
          Coordinator Sender
          → RegisterRequest
          → Option ValidatedClaims
          → ResolvedEndpoint
          → Option SocketAddr
          → List ℕ
          → Clock
          → Coordinator Sender × Result CoordinatorError (PeerEntry × RegisterOutcome)
      unfolding joined_event finish_join
      register_new c req claims resolved observed pubkey clock =
          let identity = stamp_identity req claims in
          let c1 = evict_stale_ula_holder fmt contract c req.requested_ula clock in
          let (c2, r) = resolve_ula fmt contract c1 identity.network req.requested_ula in
          elim r [
            | err e ↦ (c2, err e)
            | ok (peer_index, ula) ↦
                let event = joined_event req identity resolved pubkey ula clock in
                let (c3, applied) =
                  apply_peer_joined fmt (publish c2 (joined event)) event clock.instant in
                elim applied [
                  | err e ↦ (c3, err e)
                  | ok entry ↦ finish_join c3 entry resolved observed clock
                ]
          ]

      abbrev pub with_outcome :
          Coordinator Sender × Result CoordinatorError PeerEntry
          → Coordinator Sender × Result CoordinatorError (PeerEntry × RegisterOutcome)
      with_outcome (c, ok entry) = (c, ok (entry, existed))
      with_outcome (c, err e) = (c, err e)

      unfoldable pub admit_request :
          Coordinator Sender
          → RegisterRequest
          → Option ValidatedClaims
          → Option SocketAddr
          → List ℕ
          → Clock
          → Coordinator Sender × Result CoordinatorError (PeerEntry × RegisterOutcome)
      admit_request c req claims observed pubkey clock =
          let resolved =
            resolve_listen_endpoint fmt req.listen_endpoint observed req.wg_listen_port
              req.relay_only in
          elim (lookup pubkey c.by_pubkey) [
            | some existing_id ↦
                with_outcome (refresh_existing c existing_id req claims resolved observed clock)
            | none ↦ register_new c req claims resolved observed pubkey clock
          ]

      unfoldable pub register_authenticated :
          Option Validator
          → Coordinator Sender
          → RegisterRequest
          → Option Text
          → Option SocketAddr
          → Clock
          → Coordinator Sender × Result CoordinatorError (PeerEntry × RegisterOutcome)
      unfolding admit_request
      register_authenticated validator c req bearer observed clock =
          elim (checked_request fmt contract validator req bearer) [
            | err e ↦ (c, err e)
            | ok (claims, pubkey) ↦ admit_request c req claims observed pubkey clock
          ]
