-- ===== src/Roster/Filter/Visible.antt =====
-- What a viewer is shown, and that the relay opens nothing that is not shown.
use tabbify_service_mesh.Roster.Views.{is_registered_pubkey}
use tabbify_service_mesh.Policy.{can_see}
use tabbify_service_mesh.Policy.Isolation.{can_see_comm}
use tabbify_service_mesh.Roster.{PeerEntry, Coordinator}
use tabbify_service_mesh.Roster.Apply.Invariant.{Consistent}
use tabbify_service_mesh.Roster.Filter.{
  peer_tags, viewer_can_see, tags_of_key, can_relay, visible_entries,
}
use tabbify_service_mesh.Shared.{
  ◌==◌, nat_eq, list_eq, option_eq, pair_eq, Text, select, select-mem, mem-select, Ascending,
  sort_by_key-Ascending, mem-sort, sort-mem, values, lookup, lookup-mem, ℕ, ◌≡◌, refl, sym, ◌∙◌,
  ◌≢◌, ◌↔◌, Bool, true, not, ◌&&◌, some, List, Memᴰ, arith,
}

module _ {Sender : Type 0} (c : Coordinator Sender) (viewer_id : ℕ) (viewer_tags : List Text) where
  abbrev permitted : PeerEntry → Bool
  permitted e = not (e.peer_id == viewer_id) && can_see c.policy viewer_tags e.tags

  -- A viewer is shown exactly the entries of other peers that the policy lets it see, in the order
  -- of their peer index.
  pub visible_entries-exact :
      (e : PeerEntry)
      → (Memᴰ e (visible_entries c viewer_id viewer_tags) ↔ (
          Memᴰ e (values c.roster)
          × (e.peer_id ≢ viewer_id)
          × (can_see c.policy viewer_tags e.tags ≡ true)))
        × Ascending (λ p. p.peer_index) 0 (visible_entries c viewer_id viewer_tags)
  unfolding visible_entries
  visible_entries-exact e = (
    (
      λ m.
          let (there, holds) =
            select-mem permitted (values c.roster) (sort-mem (λ p. p.peer_index) _ m) in
          (there, ground arith, ground arith),
      λ (there, other, seen).
          mem-sort (λ p. p.peer_index) (mem-select permitted there (ground arith)),
    ),
    sort_by_key-Ascending {A = PeerEntry} (λ p. p.peer_index) (select permitted (values c.roster)),
  )

module _ {Sender : Type 0} (c : Coordinator Sender) (v : Consistent c) where
  tags_of_key_lem :
      (i : ℕ) (e : PeerEntry)
      → lookup i c.roster ≡ some e
      → tags_of_key c e.wg_public_key ≡ some e.tags
  unfolding peer_tags
  tags_of_key_lem i e look = ground (arith, v.listed i e look)

  can_relay_lem :
      (i j : ℕ) (e f : PeerEntry)
      → lookup i c.roster ≡ some e
      → lookup j c.roster ≡ some f
      → can_relay c e.wg_public_key f.wg_public_key ≡ can_see c.policy e.tags f.tags
  unfolding can_relay viewer_can_see
  can_relay_lem i j e f look look' =
      rw (can_relay, tags_of_key_lem i e look, tags_of_key_lem j f look') refl

  -- The relay is no way around the policy. Where the roster's invariant holds, of two different
  -- peers, one may relay to the other exactly when it is shown the other, and then the other may
  -- relay back.
  pub can_relay-visible :
      (i j : ℕ) (e f : PeerEntry)
      → lookup i c.roster ≡ some e
      → lookup j c.roster ≡ some f
      → i ≢ j
      → ((can_relay c e.wg_public_key f.wg_public_key ≡ true) ↔ Memᴰ f (visible_entries c i e.tags))
        × (can_relay c e.wg_public_key f.wg_public_key
            ≡ can_relay c f.wg_public_key e.wg_public_key)
  can_relay-visible i j e f look look' apart =
      let exact = visible_entries-exact c i e.tags f in
      let there = lookup-mem j c.roster look' in
      let other : f.peer_id ≢ i = λ s. apart (sym s ∙ v.keyed j f look') in
      rw (can_relay_lem i j e f look look', can_relay_lem j i f e look' look)
        (
          (λ seen. exact.0.1 (there, other, seen), λ m. let (a, b, seen) = exact.0.0 m in seen),
          can_see_comm c.policy e.tags f.tags,
        )

-- A relayed frame needs two registered keys.
pub can_relay-registered :
    {Sender : Type 0} (c : Coordinator Sender) (src dst : List ℕ)
    → can_relay c src dst ≡ true
    → (is_registered_pubkey c src ≡ true) × (is_registered_pubkey c dst ≡ true)
unfolding can_relay is_registered_pubkey
can_relay-registered c src dst h = ground arith
