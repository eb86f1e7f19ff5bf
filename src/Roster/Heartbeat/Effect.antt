-- ===== src/Roster/Heartbeat/Effect.antt =====
-- What a heartbeat leaves of its peer and of the roster.
use tabbify_service_mesh.Roster.Apply.Writes.{same-Consistent}
use tabbify_service_mesh.Allocator.Sequence.{Covered}
use tabbify_service_mesh.Traversal.Reflexive.{resolve_listen_endpoint}
use tabbify_service_mesh.Roster.Apply.Handlers.{touch-Consistent, apply_peer_heartbeat-Consistent}
use tabbify_service_mesh.Roster.Apply.Invariant.{Consistent}
use tabbify_service_mesh.Roster.Apply.{apply_peer_heartbeat}
use tabbify_service_mesh.Traversal.Punch.{PunchPeer, PunchTracker, HolePunchInitiate, try_emit_pair}
use tabbify_service_mesh.Roster.Heartbeat.{
  Beat, has_sticky_explicit, rolled_over, refresh_reflexive_endpoint, beat_event,
  punch_peer_for_pair, announce_punches, note_holepunch_emitted, emit_between, emit_pairs,
  try_emit_holepunch_pairs, stamped, beat_applied, heartbeat,
}
use tabbify_service_mesh.Roster.{
  PeerEntry, punch_initiated, updated, hole_punch, Clock, unknown_peer, Coordinator, to_info,
  publish, broadcast,
}
use tabbify_service_mesh.Formats.{SocketAddr, Formats}
use tabbify_service_mesh.Allocator.{addr_eq}
use tabbify_service_mesh.Shared.{
  if◌then◌else◌, Bool-cases, Option-cases, ◌==◌, nat_eq, list_eq, option_eq, pair_eq, Text, select,
  values, lookup, lookup-update_self, ok, err, ℕ, ◌≡◌, refl, sym, ap, subst, ◌∙◌, ◌⊎◌, inl, inr,
  Bool, true, false, not, ◌&&◌, Option, none, some, List, [], ◌∷◌,
}

module _ {Sender : Type 0} where
  -- The roster, its index and the allocator are the same.
  abbrev pub SameBook : Coordinator Sender → Coordinator Sender → Type 0
  SameBook c c' =
      (c'.roster ≡ c.roster) × (c'.by_pubkey ≡ c.by_pubkey) × (c'.allocator ≡ c.allocator)

  announce_punches-SameBook :
      (fmt : Formats) (c : Coordinator Sender) (ds : List HolePunchInitiate)
      → SameBook c (announce_punches fmt c ds)
  unfolding publish broadcast
  announce_punches-SameBook fmt c [] = (refl, refl, refl)
  announce_punches-SameBook fmt c (d ∷ ds) =
      announce_punches-SameBook fmt (broadcast (publish c (punch_initiated d)) (hole_punch d)) ds

module _ (fmt : Formats) {Sender : Type 0} where
  emit_between-SameBook :
      (c : Coordinator Sender) (pa pb : PunchPeer) (now : ℕ)
      → SameBook c (emit_between fmt c pa pb now)
  unfolding emit_between note_holepunch_emitted
  emit_between-SameBook c pa pb now = counted_too (try_emit_pair c.punch_tracker pa pb now)
    where
      counted_too :
          (out : PunchTracker × List HolePunchInitiate × Bool)
          → let (tracker, directives, emitted) = out in
            let c' = announce_punches fmt (record c { punch_tracker = tracker }) directives in
            SameBook c (if emitted then note_holepunch_emitted fmt c' else c')
      counted_too (tracker, directives, true) =
          announce_punches-SameBook fmt (record c { punch_tracker = tracker }) directives
      counted_too (tracker, directives, false) =
          announce_punches-SameBook fmt (record c { punch_tracker = tracker }) directives

  emit_pairs-SameBook :
      (c : Coordinator Sender) (e : PeerEntry) (candidates : List PeerEntry) (now : ℕ)
      → SameBook c (emit_pairs fmt c e candidates now)
  unfolding emit_pairs
  emit_pairs-SameBook c e [] now = (refl, refl, refl)
  emit_pairs-SameBook c e (b ∷ bs) now =
      elim (Option-cases (punch_peer_for_pair fmt c e b.peer_id)) [
        | inl shut ↦ rw (emit_pairs, shut) (emit_pairs-SameBook c e bs now)
        | inr (pa, open_) ↦ elim (Option-cases (punch_peer_for_pair fmt c b e.peer_id)) [
          | inl shut ↦ rw (emit_pairs, open_, shut) (emit_pairs-SameBook c e bs now)
          | inr (pb, both) ↦
              let (r, p, q) = emit_between-SameBook c pa pb now in
              let (r', p', q') = emit_pairs-SameBook (emit_between fmt c pa pb now) e bs now in
              rw (emit_pairs, open_, both) (r' ∙ r, p' ∙ p, q' ∙ q)
        ]
      ]

-- The fields that a heartbeat refreshes, and those it leaves.
abbrev pub Beaten : PeerEntry → PeerEntry → Beat → Clock → Type 0
Beaten e e' b clock =
    (e'.last_heartbeat ≡ clock.instant)
    × (e'.relay_only ≡ b.relay_only)
    × (e'.hosted_app_ulas ≡ b.hosted_app_ulas)
    × (e'.observed_external ≡ b.observed_external)
    × (e'.ula ≡ e.ula)
    × (e'.wg_public_key ≡ e.wg_public_key)
    × (e'.peer_id ≡ e.peer_id)
    × (e'.tags ≡ e.tags)

module _ (fmt : Formats) where
  rolled_over-Beaten :
      (e e' : PeerEntry) (b : Beat) (clock : Clock) (observed : SocketAddr) (port : Option ℕ)
      → Beaten e e' b clock
      → Beaten e (rolled_over fmt observed port e') b clock
  unfolding rolled_over
  rolled_over-Beaten e e' b clock observed port h =
      let resolved = resolve_listen_endpoint fmt none (some observed) port false in
      elim (Bool-cases (has_sticky_explicit fmt e')) [
        | inl sticky ↦ rw (rolled_over, sticky) h
        | inr loose ↦
            elim (Bool-cases
              (resolved.reflexive && not (resolved.endpoint == e'.listen_endpoint))) [
                | inl new ↦ rw (rolled_over, loose, new) h
                | inr old ↦ rw (rolled_over, loose, old) h
              ]
      ]

  module _ {Sender : Type 0} where
    refresh-Beaten :
        (c : Coordinator Sender) (peer_id : ℕ) (e e' : PeerEntry) (b : Beat) (clock : Clock)
        (relay_only : Bool)
        → lookup peer_id c.roster ≡ some e'
        → Beaten e e' b clock
        → (e'' : PeerEntry) × (lookup peer_id
              (refresh_reflexive_endpoint fmt c peer_id b.observed_external b.wg_listen_port
                relay_only).roster
            ≡ some e'')
          × Beaten e e'' b clock
    unfolding refresh_reflexive_endpoint
    refresh-Beaten c peer_id e e' b clock true look h = (e', look, h)
    refresh-Beaten c peer_id e e' b clock false look h =
        elim (Option-cases (fmt.parse_socket b.observed_external)) [
          | inl bad ↦ rw (refresh_reflexive_endpoint, bad) (e', look, h)
          | inr (observed, at) ↦
              rw (refresh_reflexive_endpoint, at)
                (
                  rolled_over fmt observed b.wg_listen_port e',
                  lookup-update_self peer_id (rolled_over fmt observed b.wg_listen_port) c.roster
                      look,
                  rolled_over-Beaten e e' b clock observed b.wg_listen_port h,
                )
        ]

    stamped-Beaten :
        (c : Coordinator Sender) (peer_id : ℕ) (e : PeerEntry) (b : Beat) (clock : Clock)
        → lookup peer_id c.roster ≡ some e
        → (e' : PeerEntry) × (lookup peer_id (stamped fmt c peer_id b clock).roster ≡ some e')
          × Beaten e e' b clock
    unfolding stamped beat_event publish apply_peer_heartbeat
    stamped-Beaten c peer_id e b clock look =
        rw (stamped, apply_peer_heartbeat, fmt.parse-print_uuid peer_id)
          (
            _,
            lookup-update_self peer_id _ _ (lookup-update_self peer_id _ c.roster look),
            (refl, refl, refl, refl, refl, refl, refl, refl),
          )

    stamped-Consistent :
        (c : Coordinator Sender) (peer_id : ℕ) (b : Beat) (clock : Clock)
        → Consistent c
        → Consistent (stamped fmt c peer_id b clock)
    unfolding stamped publish
    stamped-Consistent c peer_id b clock v =
        touch-Consistent _ peer_id _ (λ e. (refl, refl, refl))
          (apply_peer_heartbeat-Consistent fmt _ _ clock.instant
            (same-Consistent c _ refl refl (λ a h. h) v))

    refresh-Consistent :
        (c : Coordinator Sender) (peer_id : ℕ) (observed : Text) (port : Option ℕ)
        (relay_only : Bool)
        → Consistent c
        → Consistent (refresh_reflexive_endpoint fmt c peer_id observed port relay_only)
    unfolding refresh_reflexive_endpoint
    refresh-Consistent c peer_id observed port true v = v
    refresh-Consistent c peer_id observed port false v =
        elim (Option-cases (fmt.parse_socket observed)) [
          | inl bad ↦ rw (refresh_reflexive_endpoint, bad) v
          | inr (obs, at) ↦
              rw (refresh_reflexive_endpoint, at)
                (touch-Consistent c peer_id (rolled_over fmt obs port) (keeps obs) v)
        ]
      where
        keeps :
            (obs : SocketAddr) (e : PeerEntry)
            → let e' = rolled_over fmt obs port e in
              (e'.peer_id ≡ e.peer_id) × (e'.wg_public_key ≡ e.wg_public_key) × (e'.ula ≡ e.ula)
        keeps obs e =
            let beat : Beat = record {
              observed_external = e.observed_external;
              wg_listen_port = none;
              hosted_app_ulas = e.hosted_app_ulas;
              software_version = none;
              mesh_version = none;
              relay_only = e.relay_only;
            } in
            let clock : Clock = record { new_id = 0; micros = 0; instant = e.last_heartbeat } in
            let (a, b, c, d, ula, key, id, tags) =
              rolled_over-Beaten e e beat clock obs port
                (refl, refl, refl, refl, refl, refl, refl, refl) in
            (id, key, ula)

    book-Consistent : (c c' : Coordinator Sender) → SameBook c c' → Consistent c → Consistent c'
    book-Consistent c c' (r, p, q) v =
        same-Consistent c c' r p (λ a h. subst (λ z. Covered z a) (sym q) h) v

    -- Where the roster's invariant holds, a known peer's heartbeat succeeds. The entry that it
    -- returns is the one in the roster from then on: seen now, with the flag, the hosted addresses
    -- and the observed source of the request, and with the key, the address and the tags it had;
    -- the roster's invariant still holds. An unknown peer's heartbeat is refused and changes
    -- nothing.
    pub heartbeat-Beaten :
        (c : Coordinator Sender) (peer_id : ℕ) (b : Beat) (clock : Clock)
        → Consistent c
        → ((lookup peer_id c.roster ≡ none)
            × (heartbeat fmt c peer_id b clock ≡ (c, err (unknown_peer peer_id))))
          ⊎ ((e e' : PeerEntry) × (lookup peer_id c.roster ≡ some e)
              × ((heartbeat fmt c peer_id b clock).1 ≡ ok e')
              × (lookup peer_id (heartbeat fmt c peer_id b clock).0.roster ≡ some e')
              × Beaten e e' b clock
              × Consistent (heartbeat fmt c peer_id b clock).0)
    unfolding heartbeat beat_applied broadcast try_emit_holepunch_pairs
    heartbeat-Beaten c peer_id b clock v = elim (Option-cases (lookup peer_id c.roster)) [
      | inl unknown ↦ inl (unknown, rw (heartbeat, unknown) refl)
      | inr (e, look) ↦
          let (e1, look1, h1) = stamped-Beaten c peer_id e b clock look in
          let (e2, look2, h2) =
            refresh-Beaten (stamped fmt c peer_id b clock) peer_id e e1 b clock b.relay_only look1
              h1 in
          let c2 = beat_applied fmt c peer_id b clock in
          let v2 : Consistent c2 =
            refresh-Consistent _ peer_id b.observed_external b.wg_listen_port b.relay_only
              (stamped-Consistent c peer_id b clock v) in
          let c3 = broadcast c2 (updated (to_info fmt e2)) in
          let others = select (λ x. not (x.peer_id == e2.peer_id)) (values c3.roster) in
          let (r, p, q) = emit_pairs-SameBook fmt c3 e2 others clock.micros in
          inr (
            e,
            e2,
            look,
            rw (heartbeat, look, look2) refl,
            rw (heartbeat, look, look2) (ap (lookup peer_id) r ∙ look2),
            h2,
            rw (heartbeat, look, look2) (book-Consistent c2 _ (r, p, q) v2),
          )
    ]
