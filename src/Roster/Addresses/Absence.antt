-- ===== src/Roster/Addresses/Absence.antt =====
-- An eviction before a join brings no id and no key into use.
use tabbify_service_mesh.Roster.Apply.{forget, apply_peer_left}
use tabbify_service_mesh.Allocator.{Ipv6Addr, addr_eq}
use tabbify_service_mesh.Formats.{Formats}
use tabbify_service_mesh.Roster.{
  PeerEntry, PeerLeft, Clock, Coordinator, persist_roster, publish, broadcast,
}
use tabbify_service_mesh.Roster.Access.{Contract}
use tabbify_service_mesh.Roster.Addresses.{evict, is_stale, evict_holder_of, evict_stale_ula_holder}
use tabbify_service_mesh.Shared.{
  Bool-cases, Option-cases, ◌==◌, nat_eq, list_eq, option_eq, pair_eq, Text, find_first, values,
  lookup, lookup-remove, ℕ, ◌≡◌, inl, inr, Option, none, some, List, arith,
}

module _ {Sender : Type 0} where
  module _ (fmt : Formats) (contract : Contract) where
    -- Neither the id nor the key is in use.
    abbrev pub Absent : Coordinator Sender → ℕ → List ℕ → Type 0
    Absent c id pk = (lookup id c.roster ≡ none) × (lookup pk c.by_pubkey ≡ none)

    apply_peer_left-Absent :
        (c : Coordinator Sender) (event : PeerLeft) (id : ℕ) (pk : List ℕ)
        → Absent c id pk
        → Absent (apply_peer_left fmt c event) id pk
    unfolding apply_peer_left forget
    apply_peer_left-Absent c event id pk h = elim (Option-cases (fmt.parse_uuid event.peer_id)) [
      | inl bad ↦ rw (apply_peer_left, bad) h
      | inr (gone, at) ↦ elim (Option-cases (lookup gone c.roster)) [
        | inl no_such ↦ rw (apply_peer_left, at, no_such) h
        | inr (e, there) ↦
            rw (apply_peer_left, at, there)
              (
                ground (arith, lookup-remove gone id c.roster),
                ground (arith, lookup-remove e.wg_public_key pk c.by_pubkey),
              )
      ]
    ]

    evict-Absent :
        (c : Coordinator Sender) (holder_id : ℕ) (tags : List Text) (clock : Clock) (id : ℕ)
        (pk : List ℕ)
        → Absent c id pk
        → Absent (evict fmt contract c holder_id tags clock) id pk
    unfolding evict publish broadcast persist_roster
    evict-Absent c holder_id tags clock id pk h = apply_peer_left-Absent _ _ id pk h

    pub evict_stale-Absent :
        (c : Coordinator Sender) (requested : Option Text) (clock : Clock) (id : ℕ) (pk : List ℕ)
        → Absent c id pk
        → Absent (evict_stale_ula_holder fmt contract c requested clock) id pk
    unfolding evict_stale_ula_holder
    evict_stale-Absent c none clock id pk h = h
    evict_stale-Absent c (some raw) clock id pk h = elim (Option-cases (fmt.parse_ipv6 raw)) [
      | inl bad ↦ rw (evict_stale_ula_holder, bad) h
      | inr (addr, at) ↦ rw (evict_stale_ula_holder, at) (of_holder addr)
    ]
      where
        holder_of : Ipv6Addr → Option PeerEntry
        holder_of addr = find_first (λ e. e.ula == addr) (values c.roster)

        of_holder : (addr : Ipv6Addr) → Absent (evict_holder_of fmt contract c addr clock) id pk
        of_holder addr = elim (Option-cases (holder_of addr)) [
          | inl nobody ↦ rw (evict_holder_of, nobody) h
          | inr (holder, held) ↦ elim (Bool-cases (is_stale fmt contract c holder.peer_id clock)) [
            | inl stale ↦
                rw (evict_holder_of, held, stale) (evict-Absent c holder.peer_id _ clock id pk h)
            | inr live ↦ rw (evict_holder_of, held, live) h
          ]
        ]
