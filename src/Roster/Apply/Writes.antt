-- ===== src/Roster/Apply/Writes.antt =====
-- Writes to the coordinator that keep the invariant of its roster.
use tabbify_service_mesh.Allocator.{Ipv6Addr, addr_eq}
use tabbify_service_mesh.Allocator.Sequence.{Covered}
use tabbify_service_mesh.Roster.{PeerEntry, Coordinator}
use tabbify_service_mesh.Roster.Apply.Invariant.{Consistent}
use tabbify_service_mesh.Shared.{
  Bool-cases, Option-cases, ◌==◌, nat_eq, list_eq, option_eq, pair_eq, lookup, update,
  lookup-update, ℕ, ◌≡◌, sym, ap, subst, ◌∙◌, ◌⊎◌, inl, inr, some, List, arith,
}

-- A write that leaves the roster and its index as they are, and forgets no issued address.
pub same-Consistent :
    {Sender : Type 0} (c c' : Coordinator Sender)
    → c'.roster ≡ c.roster
    → c'.by_pubkey ≡ c.by_pubkey
    → ((a : Ipv6Addr) → Covered c.allocator a → Covered c'.allocator a)
    → Consistent c
    → Consistent c'
same-Consistent c c' r b grows v = record {
  keyed = λ id e h. v.keyed id e (rw (← r) h);
  unique = λ i j e f h k s. v.unique i j e f (rw (← r) h) (rw (← r) k) s;
  covered = λ id e h. grows e.ula (v.covered id e (rw (← r) h));
  indexed = λ pk id h. rw r (v.indexed pk id (rw (← b) h));
  listed = λ id e h. rw b (v.listed id e (rw (← r) h));
}

module _ {Sender : Type 0} (c : Coordinator Sender) (id : ℕ) (write : PeerEntry → PeerEntry) where
  -- The write keeps the entry's id and key, and its address is its own or that of nobody.
  abbrev pub Rewrites : PeerEntry → Type 0
  Rewrites old =
      ((write old).peer_id ≡ old.peer_id)
      × ((write old).wg_public_key ≡ old.wg_public_key)
      × Covered c.allocator (write old).ula
      × ((j : ℕ) (f : PeerEntry) → lookup j c.roster ≡ some f → f.ula ≡ (write old).ula → j ≡ id)

  module _ (v : Consistent c)
      (writes : (old : PeerEntry) → lookup id c.roster ≡ some old → Rewrites old) where
    -- A peer of the new roster: the rewritten one, or one that stood there.
    after :
        (j : ℕ) (e : PeerEntry)
        → lookup j (update id write c.roster) ≡ some e
        → ((old : PeerEntry) × (j ≡ id) × (lookup id c.roster ≡ some old) × (e ≡ write old))
          ⊎ ((¬ j ≡ id) × (lookup j c.roster ≡ some e))
    after j e h = elim (Option-cases (lookup id c.roster)) [
      | inl gone ↦ inr (
        ground (arith, lookup-update id j write c.roster, gone),
        ground (arith, lookup-update id j write c.roster, gone),
      )
      | inr (old, there) ↦ elim (Bool-cases (id == j)) [
        | inl same ↦
            inl (old, ground arith, there, ground (arith, lookup-update id j write c.roster, there))
        | inr ne ↦ inr (ground arith, ground (arith, lookup-update id j write c.roster))
      ]
    ]

    apart :
        (old : PeerEntry)
        → lookup id c.roster ≡ some old
        → (j : ℕ) (f : PeerEntry) → lookup j c.roster ≡ some f
        → f.ula ≡ (write old).ula
        → j ≡ id
    apart old there = let (own, key, past, free) = writes old there in free

    update_keyed :
        (j : ℕ) (e : PeerEntry) → lookup j (update id write c.roster) ≡ some e → e.peer_id ≡ j
    update_keyed j e h = elim (after j e h) [
      | inl (old, here, there, is) ↦
          ap (λ z. z.peer_id) is ∙ (writes old there).0 ∙ v.keyed id old there ∙ sym here
      | inr (away, there) ↦ v.keyed j e there
    ]

    update_unique :
        (i j : ℕ) (e f : PeerEntry)
        → lookup i (update id write c.roster) ≡ some e
        → lookup j (update id write c.roster) ≡ some f
        → e.ula ≡ f.ula
        → i ≡ j
    update_unique i j e f h k s = elim (after i e h) [
      | inl (old, here, there, is) ↦ elim (after j f k) [
        | inl (old', here', there', is') ↦ here ∙ sym here'
        | inr (away, there') ↦ here ∙ sym (apart old there j f there' (sym s ∙ ap (λ z. z.ula) is))
      ]
      | inr (away, there) ↦ elim (after j f k) [
        | inl (old', here', there', is') ↦
            apart old' there' i e there (s ∙ ap (λ z. z.ula) is') ∙ sym here'
        | inr (away', there') ↦ v.unique i j e f there there' s
      ]
    ]

    update-Covered :
        (j : ℕ) (e : PeerEntry)
        → lookup j (update id write c.roster) ≡ some e
        → Covered c.allocator e.ula
    update-Covered j e h = elim (after j e h) [
      | inl (old, here, there, is) ↦
          let (own, key, past, free) = writes old there in
          subst (λ z. Covered c.allocator z.ula) (sym is) past
      | inr (away, there) ↦ v.covered j e there
    ]

    update_indexed :
        (pk : List ℕ) (j : ℕ)
        → lookup pk c.by_pubkey ≡ some j
        → (e : PeerEntry) × (lookup j (update id write c.roster) ≡ some e) × (e.wg_public_key ≡ pk)
    update_indexed pk j h =
        let (e, look, key) = v.indexed pk j h in
        let found = lookup-update id j write c.roster in
        elim (Bool-cases (id == j)) [
          | inl same ↦
              let here : lookup id c.roster ≡ some e = ground (arith, look) in
              let (own, kept_key, past, free) = writes e here in
              (write e, ground (arith, found, look), kept_key ∙ key)
          | inr ne ↦ (e, ground (arith, found, look), key)
        ]

    update_listed :
        (j : ℕ) (e : PeerEntry)
        → lookup j (update id write c.roster) ≡ some e
        → lookup e.wg_public_key c.by_pubkey ≡ some j
    update_listed j e h = elim (after j e h) [
      | inl (old, here, there, is) ↦
          let (own, key, past, free) = writes old there in
          ap (λ z. lookup z c.by_pubkey) (ap (λ z. z.wg_public_key) is ∙ key)
          ∙ v.listed id old there
          ∙ ap some (sym here)
      | inr (away, there) ↦ v.listed j e there
    ]

    pub update-Consistent : Consistent (record c { roster = update id write c.roster })
    update-Consistent = record {
      keyed = update_keyed;
      unique = update_unique;
      covered = update-Covered;
      indexed = update_indexed;
      listed = update_listed;
    }
