-- ===== src/Roster/Registration/Consistency.antt =====
-- A registration, new or repeated, keeps the roster's invariant on every branch.
use tabbify_service_mesh.Roster.Addresses.Absence.{Absent, evict_stale-Absent}
use tabbify_service_mesh.Roster.Apply.{joined_entry, apply_peer_joined}
use tabbify_service_mesh.Allocator.{Ipv6Addr, addr_eq}
use tabbify_service_mesh.Formats.{SocketAddr, Formats}
use tabbify_service_mesh.Roster.{
  PeerEntry, joined, RegisterRequest, ValidatedClaims, Clock, CoordinatorError, Coordinator,
  persist_roster, publish, broadcast,
}
use tabbify_service_mesh.Roster.Access.{Contract, Validator, checked_request}
use tabbify_service_mesh.Roster.Identity.{stamp_identity}
use tabbify_service_mesh.Roster.Addresses.{resolve_ula, evict_stale_ula_holder, reallocate}
use tabbify_service_mesh.Roster.Addresses.Consistency.{
  resolve_ula-Resolved, evict_stale-Consistent, Rehomed, reallocate-Rehomed,
}
use tabbify_service_mesh.Roster.Apply.Handlers.{touch-Consistent, apply_peer_joined-Consistent}
use tabbify_service_mesh.Roster.Apply.Invariant.{Consistent}
use tabbify_service_mesh.Roster.Apply.Writes.{same-Consistent, update-Consistent}
use tabbify_service_mesh.Roster.Registration.{
  refreshed_entry, joined_event, announce_refresh, refresh_existing, finish_join, register_new,
  with_outcome, admit_request, register_authenticated,
}
use tabbify_service_mesh.Traversal.Reflexive.{ResolvedEndpoint, resolve_listen_endpoint}
use tabbify_service_mesh.Shared.{
  is_some, Option-cases, ◌==◌, nat_eq, list_eq, option_eq, pair_eq, Text, lookup, update, Result,
  ok, err, Result-cases, ℕ, ◌≡◌, refl, subst, inl, inr, Bool, true, false, not, ◌&&◌, Option, none,
  some, List,
}

module _ (fmt : Formats) (contract : Contract) {Sender : Type 0} where
  announce-Consistent :
      (c : Coordinator Sender) (peer_id : ℕ) (rehome : Bool) (old_tags : List Text)
      (entry : PeerEntry)
      → Consistent c
      → Consistent (announce_refresh fmt contract c peer_id rehome old_tags entry)
  unfolding announce_refresh broadcast persist_roster
  announce-Consistent c peer_id true old_tags entry = same-Consistent c _ refl refl (λ a h. h)
  announce-Consistent c peer_id false old_tags entry = same-Consistent c _ refl refl (λ a h. h)

  module _ (req : RegisterRequest) (claims : Option ValidatedClaims) (resolved : ResolvedEndpoint)
      (observed : Option SocketAddr) (clock : Clock) where
    -- The write of a refresh, on the coordinator that a re-home left.
    written-Consistent :
        (c c' : Coordinator Sender) (peer_id : ℕ) (new : Option (ℕ × Ipv6Addr))
        → Consistent c'
        → c'.roster ≡ c.roster
        → Rehomed fmt contract c c'.allocator (ok new)
        → Consistent (record c' {
          roster =
              update peer_id
                (refreshed_entry fmt req (stamp_identity req claims) resolved observed new clock)
                c'.roster;
        })
    unfolding refreshed_entry
    written-Consistent c c' peer_id none v same gets =
        touch-Consistent c' peer_id
          (refreshed_entry fmt req (stamp_identity req claims) resolved observed none clock)
          (λ e. (refl, refl, refl)) v
    written-Consistent c c' peer_id (some (idx, addr)) v same (free, past, at) =
        update-Consistent c' peer_id
          (refreshed_entry fmt req (stamp_identity req claims) resolved observed (some (idx, addr))
            clock)
          v (λ old there. (refl, refl, past, λ j f look s. absurd (free j f (rw (← same) look) s)))

    refresh_existing-Consistent :
        (c : Coordinator Sender) (peer_id : ℕ)
        → Consistent c
        → Consistent (refresh_existing fmt contract c peer_id req claims resolved observed clock).0
    unfolding refresh_existing
    refresh_existing-Consistent c peer_id v = elim (Option-cases (lookup peer_id c.roster)) [
      | inl gone ↦ rw (refresh_existing, gone) v
      | inr (old, there) ↦
          let network = (stamp_identity req claims).network in
          let rehome = is_some claims && not (network == old.network) in
          let (v', same, gets) = reallocate-Rehomed fmt contract c peer_id network rehome v in
          elim (Result-cases (reallocate fmt contract c peer_id network rehome).1) [
            | inl (e, at) ↦ rw (refresh_existing, there, at) v'
            | inr (new, at) ↦
                let c' = (reallocate fmt contract c peer_id network rehome).0 in
                let written : Consistent (record c' {
                  roster =
                      update peer_id
                        (refreshed_entry fmt req (stamp_identity req claims) resolved observed new
                          clock)
                        c'.roster;
                }) =
                  written-Consistent c c' peer_id new v' same
                    (subst (Rehomed fmt contract c c'.allocator) at gets) in
                rw (refresh_existing, there, at)
                  (announce-Consistent _ peer_id rehome old.tags
                    (refreshed_entry fmt req (stamp_identity req claims) resolved observed new clock
                      old)
                    written)
          ]
    ]

    finish_join-Consistent :
        (c : Coordinator Sender) (entry : PeerEntry)
        → Consistent c
        → Consistent (finish_join fmt contract c entry resolved observed clock).0
    unfolding finish_join broadcast persist_roster
    finish_join-Consistent c entry v =
        same-Consistent _ _ refl refl (λ a h. h)
          (touch-Consistent c clock.new_id _ (λ e. (refl, refl, refl)) v)

    -- The join proper, once the address is resolved.
    joined-Consistent :
        (c : Coordinator Sender) (pubkey : List ℕ) (ula : Ipv6Addr)
        → Absent fmt contract c clock.new_id pubkey
        → Consistent c
        → Consistent
            (apply_peer_joined fmt
              (publish c (
                joined
                  (joined_event fmt req (stamp_identity req claims) resolved pubkey ula clock)))
              (joined_event fmt req (stamp_identity req claims) resolved pubkey ula clock)
              clock.instant).0
    unfolding joined_event joined_entry publish
    joined-Consistent c pubkey ula absent v =
        apply_peer_joined-Consistent fmt _ _ clock.instant clock.new_id ula
          (fmt.parse-print_uuid clock.new_id) (fmt.parse-print_ipv6 ula) (inl absent)
          (same-Consistent c _ refl refl (λ a h. h) v)

    register_new-Consistent :
        (c : Coordinator Sender) (pubkey : List ℕ)
        → Absent fmt contract c clock.new_id pubkey
        → Consistent c
        → Consistent (register_new fmt contract c req claims resolved observed pubkey clock).0
    unfolding register_new
    register_new-Consistent c pubkey absent v =
        let identity = stamp_identity req claims in
        let c1 = evict_stale_ula_holder fmt contract c req.requested_ula clock in
        let v1 = evict_stale-Consistent fmt contract c req.requested_ula clock v in
        let absent1 =
          evict_stale-Absent fmt contract c req.requested_ula clock clock.new_id pubkey absent in
        let ((r, b, gets), v2) =
          resolve_ula-Resolved fmt contract c1 identity.network req.requested_ula v1 in
        elim (Result-cases (resolve_ula fmt contract c1 identity.network req.requested_ula).1) [
          | inl (e, at) ↦ rw (register_new, at) v2
          | inr ((idx, ula), at) ↦
              let c2 = (resolve_ula fmt contract c1 identity.network req.requested_ula).0 in
              let absent2 : Absent fmt contract c2 clock.new_id pubkey = rw (r, b) absent1 in
              let v3 = joined-Consistent c2 pubkey ula absent2 v2 in
              let event = joined_event fmt req identity resolved pubkey ula clock in
              elim (Result-cases
                (apply_peer_joined fmt (publish c2 (joined event)) event clock.instant).1) [
                  | inl (e, failed) ↦ rw (register_new, at, failed) v3
                  | inr (entry, applied) ↦
                      rw (register_new, at, applied) (finish_join-Consistent _ entry v3)
                ]
        ]

  outcome_state :
      (p : Coordinator Sender × Result CoordinatorError PeerEntry)
      → (with_outcome fmt contract p).0 ≡ p.0
  outcome_state (c, ok entry) = refl
  outcome_state (c, err e) = refl

  -- A registration keeps the roster's invariant, whether it is refused, refreshes a known key or
  -- adds a peer, given that the new peer id is unused: no two peers get one address, every address is
  -- one the allocator has passed, and the index by public key finds exactly the peers of the roster.
  pub register_authenticated-Consistent :
      (validator : Option Validator) (c : Coordinator Sender) (req : RegisterRequest)
      (bearer : Option Text) (observed : Option SocketAddr) (clock : Clock)
      → Consistent c
      → lookup clock.new_id c.roster ≡ none
      → Consistent (register_authenticated fmt contract validator c req bearer observed clock).0
  unfolding register_authenticated admit_request
  register_authenticated-Consistent validator c req bearer observed clock v new =
      elim (Result-cases (checked_request fmt contract validator req bearer)) [
        | inl (e, at) ↦ rw (register_authenticated, at) v
        | inr ((claims, pubkey), at) ↦ rw (register_authenticated, at) (admitted claims pubkey)
      ]
    where
      resolved : ResolvedEndpoint
      resolved =
          resolve_listen_endpoint fmt req.listen_endpoint observed req.wg_listen_port req.relay_only

      admitted :
          (claims : Option ValidatedClaims) (pubkey : List ℕ)
          → Consistent (admit_request fmt contract c req claims observed pubkey clock).0
      admitted claims pubkey = elim (Option-cases (lookup pubkey c.by_pubkey)) [
        | inl unknown ↦
            rw (admit_request, unknown)
              (register_new-Consistent req claims resolved observed clock c pubkey (new, unknown) v)
        | inr (id, known) ↦
            rw (admit_request, known, outcome_state _)
              (refresh_existing-Consistent req claims resolved observed clock c id v)
      ]
