-- ===== src/Roster/Apply/Handlers.antt =====
-- The event handlers of roster/apply.rs keep the roster's invariant, also on a replay of the log.
use tabbify_service_mesh.Allocator.{Ipv6Addr, addr_eq}
use tabbify_service_mesh.Formats.{Formats}
use tabbify_service_mesh.Roster.{
  PeerEntry, PeerJoined, PeerHeartbeat, PeerLeft, Coordinator, persist_roster,
}
use tabbify_service_mesh.Roster.Apply.{
  joined_entry, held_by_other, apply_peer_joined, apply_peer_heartbeat, apply_peer_left,
}
use tabbify_service_mesh.Allocator.Sequence.{Covered}
use tabbify_service_mesh.Roster.Apply.Invariant.{
  Consistent, not_held, Joins, admit-Consistent, forget-Consistent,
}
use tabbify_service_mesh.Roster.Apply.Writes.{same-Consistent, update-Consistent}
use tabbify_service_mesh.Shared.{
  Bool-cases, Option-cases, nat_eq, list_eq, option_eq, pair_eq, lookup, update, ℕ, ◌≡◌, refl, sym,
  subst, ◌∙◌, inl, inr, some,
}

module _ {Sender : Type 0} where
  -- A write to one entry that leaves its id, its key and its address alone.
  pub touch-Consistent :
      (c : Coordinator Sender) (id : ℕ) (write : PeerEntry → PeerEntry)
      → ((e : PeerEntry)
          → ((write e).peer_id ≡ e.peer_id)
            × ((write e).wg_public_key ≡ e.wg_public_key)
            × ((write e).ula ≡ e.ula))
      → Consistent c
      → Consistent (record c { roster = update id write c.roster })
  touch-Consistent c id write keeps v = update-Consistent c id write v λ old there.
      let (own, key, addr) = keeps old in
      (
        own,
        key,
        subst (Covered c.allocator) (sym addr) (v.covered id old there),
        λ j f look s. v.unique j id f old look there (s ∙ addr),
      )

  module _ (fmt : Formats) where
    pub persist-Consistent :
        (c : Coordinator Sender) → Consistent c → Consistent (persist_roster fmt c)
    unfolding persist_roster
    persist-Consistent c = same-Consistent c (persist_roster fmt c) refl refl (λ a h. h)

    pub apply_peer_joined-Consistent :
        (c : Coordinator Sender) (event : PeerJoined) (now peer_id : ℕ) (ula : Ipv6Addr)
        → fmt.parse_uuid event.peer_id ≡ some peer_id
        → fmt.parse_ipv6 event.ula ≡ some ula
        → Joins c (joined_entry event peer_id ula now)
        → Consistent c
        → Consistent (apply_peer_joined fmt c event now).0
    unfolding apply_peer_joined
    apply_peer_joined-Consistent c event now peer_id ula p q joins v =
        rw (apply_peer_joined, p, q)
          (elim (Bool-cases (held_by_other c.roster ula peer_id)) [
            | inl held ↦ rw held v
            | inr free ↦ rw free (
                admit-Consistent c (joined_entry event peer_id ula now) v joins
                  (λ j f look s. not_held c.roster ula peer_id j f free look (v.keyed j f look) s))
          ])

    pub apply_peer_heartbeat-Consistent :
        (c : Coordinator Sender) (event : PeerHeartbeat) (now : ℕ)
        → Consistent c
        → Consistent (apply_peer_heartbeat fmt c event now)
    unfolding apply_peer_heartbeat
    apply_peer_heartbeat-Consistent c event now v =
        elim (Option-cases (fmt.parse_uuid event.peer_id)) [
          | inl bad ↦ rw (apply_peer_heartbeat, bad) v
          | inr (id, at) ↦
              rw (apply_peer_heartbeat, at) (touch-Consistent c id _ (λ e. (refl, refl, refl)) v)
        ]

    pub apply_peer_left-Consistent :
        (c : Coordinator Sender) (event : PeerLeft)
        → Consistent c
        → Consistent (apply_peer_left fmt c event)
    unfolding apply_peer_left
    apply_peer_left-Consistent c event v = elim (Option-cases (fmt.parse_uuid event.peer_id)) [
      | inl bad ↦ rw (apply_peer_left, bad) v
      | inr (id, at) ↦ elim (Option-cases (lookup id c.roster)) [
        | inl gone ↦ rw (apply_peer_left, at, gone) v
        | inr (e, there) ↦ rw (apply_peer_left, at, there) (forget-Consistent c id e v there)
      ]
    ]
