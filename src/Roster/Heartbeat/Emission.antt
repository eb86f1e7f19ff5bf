-- ===== src/Roster/Heartbeat/Emission.antt =====
-- When a heartbeat sets off punches, and what it leaves of its peer.
use tabbify_service_mesh.Traversal.Reflexive.{non_empty}
use tabbify_service_mesh.Traversal.Punch.{PunchPeer}
use tabbify_service_mesh.Traversal.Flags.{is_direct, is_pinned_to_relay}
use tabbify_service_mesh.Roster.Heartbeat.{
  punch_peer_for_pair, emit_pairs, try_emit_holepunch_pairs,
}
use tabbify_service_mesh.Roster.{PeerEntry, Clock, Coordinator}
use tabbify_service_mesh.Formats.{Formats}
use tabbify_service_mesh.Allocator.{addr_eq}
use tabbify_service_mesh.Shared.{
  nat_eq, list_eq, option_eq, pair_eq, is_empty, ℕ, ◌≡◌, refl, ◌↔◌, ◌⊎◌, inl, inr, true, false,
  ◌||◌, none, some, List, [], ◌∷◌, arith,
}

module _ {Sender : Type 0} (fmt : Formats) where
  -- An end of a pair can be punched exactly when it has been observed, declares a direct plane, is
  -- not pinned to the relay towards the other, has the gate open or the pair's own flag, and has an
  -- endpoint to dial, which is the one dialled.
  pub punch_peer_for_pair-some :
      (c : Coordinator Sender) (e : PeerEntry) (other : ℕ) (p : PunchPeer)
      → (punch_peer_for_pair fmt c e other ≡ some p) ↔ (
          (is_empty e.observed_external ≡ false)
          × (e.relay_only ≡ false)
          × (is_pinned_to_relay c.direct_pair_flags e.peer_id other ≡ false)
          × ((c.proactive || is_direct c.direct_pair_flags e.peer_id other) ≡ true)
          × (non_empty e.listen_endpoint ≡ some p.dial_endpoint)
          × (p.peer_id ≡ e.peer_id))
  unfolding punch_peer_for_pair
  punch_peer_for_pair-some c e other p = (λ h. ground arith, λ h. ground arith)

  abbrev pub Suppressed : Coordinator Sender → PeerEntry → Type 0
  Suppressed c e =
      (e.relay_only ≡ true)
      ⊎ ((c.proactive ≡ false)
          × ((other : ℕ) → is_direct c.direct_pair_flags e.peer_id other ≡ false))

  Suppressed-end :
      (c : Coordinator Sender) (e : PeerEntry) (other : ℕ)
      → Suppressed c e
      → punch_peer_for_pair fmt c e other ≡ none
  unfolding punch_peer_for_pair
  Suppressed-end c e other (inl only) = ground arith
  Suppressed-end c e other (inr (off, none_direct)) = ground (arith, none_direct other)

  emit_pairs-Suppressed :
      (c : Coordinator Sender) (e : PeerEntry) (candidates : List PeerEntry) (now : ℕ)
      → Suppressed c e
      → emit_pairs fmt c e candidates now ≡ c
  unfolding emit_pairs
  emit_pairs-Suppressed c e [] now s = refl
  emit_pairs-Suppressed c e (b ∷ bs) now s =
      rw (emit_pairs, Suppressed-end c e b.peer_id s) (emit_pairs-Suppressed c e bs now s)

  -- Nothing is emitted, and nothing changes, for a relay-only peer, nor while the gate is shut for a
  -- peer that has no direct pair.
  pub try_emit_holepunch_pairs-Suppressed :
      (c : Coordinator Sender) (e : PeerEntry) (clock : Clock)
      → Suppressed c e
      → try_emit_holepunch_pairs fmt c e clock ≡ c
  unfolding try_emit_holepunch_pairs
  try_emit_holepunch_pairs-Suppressed c e clock s = emit_pairs-Suppressed c e _ clock.micros s
