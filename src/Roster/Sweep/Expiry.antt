-- ===== src/Roster/Sweep/Expiry.antt =====
-- A sweep drops exactly the peers that have been silent for too long.
use tabbify_service_mesh.Roster.Sweep.{
  stale_peers, reap_stale_resources, deregister_all, sweep_once,
}
use tabbify_service_mesh.Relay.Registry.{Frame, Sent}
use tabbify_service_mesh.Roster.Heartbeat.{deregister}
use tabbify_service_mesh.Roster.Filter.{peer_tags}
use tabbify_service_mesh.Roster.Apply.Handlers.{persist-Consistent, apply_peer_left-Consistent}
use tabbify_service_mesh.Roster.Apply.Writes.{same-Consistent}
use tabbify_service_mesh.Roster.Apply.Invariant.{Consistent}
use tabbify_service_mesh.Roster.Apply.{forget, apply_peer_left}
use tabbify_service_mesh.Roster.{PeerEntry, Clock, Coordinator, persist_roster, publish, broadcast}
use tabbify_service_mesh.Formats.{Formats}
use tabbify_service_mesh.Allocator.{addr_eq}
use tabbify_service_mesh.Shared.{
  ltb, leb, if◌then◌else◌, Option-cases, ◌==◌, nat_eq, list_eq, option_eq, pair_eq, Text, bytes,
  select, contains, Dict, lookup, lookup-remove, Distinct, kept, ℕ, ◌-◌, ◌≡◌, refl, inl, inr, Bool,
  false, Option, none, some, List, [], ◌∷◌, map, arith,
}

module _ (fmt : Formats) {Sender Net : Type 0} (try_send : Net → Sender → Frame → Net × Sent)
    (is_closed : Net → Sender → Bool) where
  pub lookup-deregister :
      (c : Coordinator Sender) (peer_id id : ℕ) (reason : Text) (clock : Clock)
      → lookup id (deregister fmt c peer_id reason clock).0.roster
        ≡ (if peer_id == id then none else lookup id c.roster)
  unfolding deregister peer_tags apply_peer_left forget publish broadcast persist_roster
  lookup-deregister c peer_id id reason clock = elim (Option-cases (lookup peer_id c.roster)) [
    | inl gone ↦ ground (arith, gone)
    | inr (e, there) ↦
        rw (deregister, there, apply_peer_left, fmt.parse-print_uuid peer_id, there)
          (lookup-remove peer_id id c.roster)
  ]

  pub deregister-Consistent :
      (c : Coordinator Sender) (peer_id : ℕ) (reason : Text) (clock : Clock)
      → Consistent c
      → Consistent (deregister fmt c peer_id reason clock).0
  unfolding deregister peer_tags publish broadcast
  deregister-Consistent c peer_id reason clock v = elim (Option-cases (lookup peer_id c.roster)) [
    | inl gone ↦ rw (deregister, gone) v
    | inr (e, there) ↦
        rw (deregister, there)
          (persist-Consistent fmt _ (
            same-Consistent _ _ refl refl (λ a h. h)
              (apply_peer_left-Consistent fmt _ _ (same-Consistent c _ refl refl (λ a h. h) v))))
  ]

  pub lookup-deregister_all :
      (ids : List ℕ) (c : Coordinator Sender) (id : ℕ) (clock : Clock)
      → lookup id (deregister_all try_send is_closed fmt c ids clock).roster
        ≡ (if contains ids id then none else lookup id c.roster)
  lookup-deregister_all [] c id clock = refl
  lookup-deregister_all (x ∷ xs) c id clock = ground (
    arith,
    lookup-deregister_all xs (deregister fmt c x (bytes "heartbeat_timeout") clock).0 id clock,
    lookup-deregister c x id (bytes "heartbeat_timeout") clock,
  )

  deregister_all-Consistent :
      (ids : List ℕ) (c : Coordinator Sender) (clock : Clock)
      → Consistent c
      → Consistent (deregister_all try_send is_closed fmt c ids clock)
  deregister_all-Consistent [] c clock v = v
  deregister_all-Consistent (x ∷ xs) c clock v =
      deregister_all-Consistent xs _ clock
        (deregister-Consistent c x (bytes "heartbeat_timeout") clock v)

  abbrev silent : Coordinator Sender → ℕ → PeerEntry → Bool
  silent c now e = ltb c.heartbeat_timeout (now - e.last_heartbeat)

  abbrev holds : (PeerEntry → Bool) → Option PeerEntry → Bool
  holds p none = false
  holds p (some e) = p e

  absent_id :
      (p : PeerEntry → Bool) (m : Dict ℕ PeerEntry) (id : ℕ)
      → lookup id m ≡ none
      → contains (map (λ kv. kv.0) (select (λ kv. p kv.1) m)) id ≡ false
  absent_id p [] id h = refl
  absent_id p ((k, e) ∷ m) id h = ground (arith, absent_id p m id)

  contains-silent :
      (p : PeerEntry → Bool) (m : Dict ℕ PeerEntry) (id : ℕ)
      → Distinct m
      → contains (map (λ kv. kv.0) (select (λ kv. p kv.1) m)) id ≡ holds p (lookup id m)
  contains-silent p [] id d = refl
  contains-silent p ((k, e) ∷ m) id d = ground (arith, contains-silent p m id d.1, absent_id p m id)

  -- After a sweep the roster holds exactly those peers that it held before and whose last heartbeat
  -- is no further back than the timeout, each with its entry unchanged, and the roster's invariant
  -- still holds. The roster's ids are distinct, as those of a map are.
  pub sweep_once-exact :
      (net : Net) (c : Coordinator Sender) (clock : Clock)
      → Distinct c.roster
      → Consistent c
      → let c' = sweep_once try_send is_closed fmt net c clock in
        ((id : ℕ)
          → lookup id c'.roster
            ≡ kept
                (λ _ e. leb (clock.instant - e.last_heartbeat) c.heartbeat_timeout)
                id
                (lookup id c.roster))
        × Consistent c'
  unfolding sweep_once reap_stale_resources stale_peers
  sweep_once-exact net c clock d v = (
    (λ id. ground (
      arith,
      lookup-deregister_all (stale_peers c clock.instant)
          (reap_stale_resources try_send is_closed net c clock) id clock,
      contains-silent (silent c clock.instant) c.roster id d,
    )),
    deregister_all-Consistent (stale_peers c clock.instant) _ clock
        (same-Consistent c _ refl refl (λ a h. h) v),
  )
