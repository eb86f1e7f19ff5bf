-- ===== src/Roster/Apply/Invariant.antt =====
-- The roster's invariant, and the event handlers of roster/apply.rs that keep it.
use Prim.Native.Nat.{max}
use tabbify_service_mesh.Allocator.{
  Ipv6Addr, addr_beq_iff, addr_eq, UlaAllocator, issued_in, bump_slot_at_least,
}
use tabbify_service_mesh.Allocator.Sequence.{Covered}
use tabbify_service_mesh.Roster.{PeerEntry, Coordinator}
use tabbify_service_mesh.Roster.Apply.{held_by_other, admit, forget}
use tabbify_service_mesh.Shared.{
  Bool-cases, ◌==◌, nat_eq, list_beq_iff, list_eq, option_eq, pair_eq, Dict, lookup, any-values,
  lookup-insert, lookup-remove, ℕ, ◌≡◌, subst, ◌≢◌, ◌⊎◌, inl, inr, false, not, ◌&&◌, none, some,
  List, arith,
}

-- Entries stand under their own id, hold distinct addresses that the allocator has passed, and
-- `by_pubkey` is the index of the roster by public key, both ways.
pub record Consistent {Sender : Type 0} (c : Coordinator Sender) : Type 0 where
  pub keyed : (id : ℕ) (e : PeerEntry) → lookup id c.roster ≡ some e → e.peer_id ≡ id
  pub unique :
      (i j : ℕ) (e f : PeerEntry)
      → lookup i c.roster ≡ some e
      → lookup j c.roster ≡ some f
      → e.ula ≡ f.ula
      → i ≡ j
  pub covered : (id : ℕ) (e : PeerEntry) → lookup id c.roster ≡ some e → Covered c.allocator e.ula
  pub indexed :
      (pk : List ℕ) (id : ℕ)
      → lookup pk c.by_pubkey ≡ some id
      → (e : PeerEntry) × (lookup id c.roster ≡ some e) × (e.wg_public_key ≡ pk)
  pub listed :
      (id : ℕ) (e : PeerEntry)
      → lookup id c.roster ≡ some e
      → lookup e.wg_public_key c.by_pubkey ≡ some id

pub not_held :
    (roster : Dict ℕ PeerEntry) (ula : Ipv6Addr) (id j : ℕ) (f : PeerEntry)
    → held_by_other roster ula id ≡ false
    → lookup j roster ≡ some f
    → f.peer_id ≡ j
    → f.ula ≡ ula
    → j ≡ id
not_held roster ula id j f h look key same = elim (Bool-cases (j == id)) [
  | inl e ↦ ground arith
  | inr ne ↦ absurd (
      ground (
        arith,
        addr_beq_iff f.ula ula,
        any-values (λ e. (e.ula == ula) && not (e.peer_id == id)) j f roster look,
      ))
]

-- A bump covers its own address and uncovers none.
pub Covered-bump :
    (a : UlaAllocator) (slot idx : ℕ) (addr : Ipv6Addr)
    → Covered a addr
    → Covered (bump_slot_at_least a slot idx) addr
unfolding bump_slot_at_least
Covered-bump a slot idx addr h =
    ground (arith, lookup-insert slot addr.s2 (max (issued_in a slot) idx) a.per_network)

pub Covered-bump_self :
    (a : UlaAllocator) (addr : Ipv6Addr) → Covered (bump_slot_at_least a addr.s2 addr.s3) addr
unfolding bump_slot_at_least
Covered-bump_self a addr =
    ground (arith, lookup-insert addr.s2 addr.s2 (max (issued_in a addr.s2) addr.s3) a.per_network)

module _ {Sender : Type 0} (c : Coordinator Sender) (entry : PeerEntry) where
  -- The id and the key are both new, or both belong to one entry already.
  abbrev pub Joins : Type 0
  Joins =
      ((lookup entry.peer_id c.roster ≡ none) × (lookup entry.wg_public_key c.by_pubkey ≡ none))
      ⊎ ((old : PeerEntry) × (lookup entry.peer_id c.roster ≡ some old)
          × (old.wg_public_key ≡ entry.wg_public_key))

  module _ (v : Consistent c) (joins : Joins)
      (free : (j : ℕ) (f : PeerEntry)
        → lookup j c.roster ≡ some f
        → f.ula ≡ entry.ula
        → j ≡ entry.peer_id) where
    admit_keyed :
        (id : ℕ) (e : PeerEntry) → lookup id (admit c entry).roster ≡ some e → e.peer_id ≡ id
    unfolding admit
    admit_keyed id e h = ground (arith, lookup-insert entry.peer_id id entry c.roster, v.keyed id e)

    admit_unique :
        (i j : ℕ) (e f : PeerEntry)
        → lookup i (admit c entry).roster ≡ some e
        → lookup j (admit c entry).roster ≡ some f
        → e.ula ≡ f.ula
        → i ≡ j
    unfolding admit
    admit_unique i j e f h k s = ground (
      arith,
      lookup-insert entry.peer_id i entry c.roster,
      lookup-insert entry.peer_id j entry c.roster,
      v.unique i j e f,
      free i e,
      free j f,
    )

    admit-Covered :
        (id : ℕ) (e : PeerEntry)
        → lookup id (admit c entry).roster ≡ some e
        → Covered (admit c entry).allocator e.ula
    unfolding admit
    admit-Covered id e h = elim (Bool-cases (entry.peer_id == id)) [
      | inl same ↦
          let here : entry ≡ e = ground (arith, lookup-insert entry.peer_id id entry c.roster) in
          subst (λ z. Covered (bump_slot_at_least c.allocator entry.ula.s2 entry.ula.s3) z.ula) here
            (Covered-bump_self c.allocator entry.ula)
      | inr ne ↦
          Covered-bump c.allocator entry.ula.s2 entry.ula.s3 e.ula
            (v.covered id e (ground (arith, lookup-insert entry.peer_id id entry c.roster)))
    ]

    admit_listed :
        (id : ℕ) (e : PeerEntry)
        → lookup id (admit c entry).roster ≡ some e
        → lookup e.wg_public_key (admit c entry).by_pubkey ≡ some id
    unfolding admit
    admit_listed id e h = ground (
      arith,
      lookup-insert entry.peer_id id entry c.roster,
      lookup-insert entry.wg_public_key e.wg_public_key entry.peer_id c.by_pubkey,
      list_beq_iff entry.wg_public_key e.wg_public_key,
      joins,
      held,
      v.listed id e,
    )
      where
        held :
            (old : PeerEntry) × (lookup entry.peer_id c.roster ≡ some old)
              × (old.wg_public_key ≡ entry.wg_public_key)
            → lookup entry.wg_public_key c.by_pubkey ≡ some entry.peer_id
        held (old, look, key) = rw (← key) (v.listed entry.peer_id old look)

    admit_indexed :
        (pk : List ℕ) (id : ℕ)
        → lookup pk (admit c entry).by_pubkey ≡ some id
        → (e : PeerEntry) × (lookup id (admit c entry).roster ≡ some e) × (e.wg_public_key ≡ pk)
    unfolding admit
    admit_indexed pk id h = elim (Bool-cases (entry.wg_public_key == pk)) [
      | inl same ↦
          let key = (list_beq_iff entry.wg_public_key pk).0 same in
          let found = lookup-insert entry.wg_public_key pk entry.peer_id c.by_pubkey in
          (entry, ground (arith, found, lookup-insert entry.peer_id id entry c.roster), key)
      | inr ne ↦
          let found = lookup-insert entry.wg_public_key pk entry.peer_id c.by_pubkey in
          let (e, look, key) = v.indexed pk id (ground arith) in
          let apart : entry.peer_id ≢ id = λ same. elim joins [
            | inl new ↦ ground (arith, new.0, look)
            | inr (old, there, old_key) ↦
                ground (arith, there, look, list_beq_iff entry.wg_public_key pk)
          ] in
          (e, ground (arith, lookup-insert entry.peer_id id entry c.roster), key)
    ]

    pub admit-Consistent : Consistent (admit c entry)
    admit-Consistent = record {
      keyed = admit_keyed;
      unique = admit_unique;
      covered = admit-Covered;
      indexed = admit_indexed;
      listed = admit_listed;
    }

module _ {Sender : Type 0} (c : Coordinator Sender) (peer_id : ℕ) (entry : PeerEntry) where
  -- Dropping a peer that is there keeps the invariant.
  pub forget-Consistent :
      Consistent c → lookup peer_id c.roster ≡ some entry → Consistent (forget c peer_id entry)
  unfolding forget
  forget-Consistent v there = record {
    keyed = λ id e h. ground (arith, lookup-remove peer_id id c.roster, v.keyed id e);
    unique = λ i j e f h k s. ground (
      arith,
      lookup-remove peer_id i c.roster,
      lookup-remove peer_id j c.roster,
      v.unique i j e f,
    );
    covered = λ id e h. v.covered id e (ground (arith, lookup-remove peer_id id c.roster));
    indexed = λ pk id h.
        let gone = lookup-remove entry.wg_public_key pk c.by_pubkey in
        let (e, look, key) = v.indexed pk id (ground (arith, gone)) in
        (
          e,
          ground
              (arith, gone, lookup-remove peer_id id c.roster, list_beq_iff entry.wg_public_key pk),
          key,
        );
    listed = λ id e h.
        let kept_ = lookup-remove peer_id id c.roster in
        let back = v.listed id e (ground (arith, kept_)) in
        let own = v.listed peer_id entry there in
        ground (
          arith,
          kept_,
          lookup-remove entry.wg_public_key e.wg_public_key c.by_pubkey,
          list_beq_iff entry.wg_public_key e.wg_public_key,
        );
  }
