-- ===== src/Roster/Addresses/Consistency.antt =====
-- The addresses that a request gets are free, and the steps around them keep the invariant.
use tabbify_service_mesh.Roster.Apply.Handlers.{persist-Consistent, apply_peer_left-Consistent}
use tabbify_service_mesh.Roster.Apply.{held_by_other}
use tabbify_service_mesh.Allocator.{
  Ipv6Addr, addr_beq_iff, addr_eq, network_slot, AllocError, UlaAllocator, issued_in, address_for,
  allocate,
}
use tabbify_service_mesh.Allocator.Sequence.{
  Covered, allocates, call_allocator, Covered-call_allocator,
}
use tabbify_service_mesh.Formats.{Formats}
use tabbify_service_mesh.Roster.{
  PeerEntry, Clock, CoordinatorError, Coordinator, publish, broadcast,
}
use tabbify_service_mesh.Roster.Access.{Contract}
use tabbify_service_mesh.Roster.Addresses.{
  is_ula, lift_alloc, wrong_block, resolve_requested, resolve_ula, evict, is_stale, evict_holder_of,
  evict_stale_ula_holder, reallocate,
}
use tabbify_service_mesh.Roster.Apply.Invariant.{Consistent, Covered-bump, Covered-bump_self}
use tabbify_service_mesh.Roster.Apply.Writes.{same-Consistent}
use tabbify_service_mesh.Shared.{
  Bool-cases, Option-cases, ◌==◌, nat_eq, list_eq, option_eq, pair_eq, Text, any, find_first,
  values, lookup, any-values, lookup-insert, Result, ok, err, Result-cases, ℕ, ◌+◌, ◌≡◌, refl,
  subst, ◌≢◌, inl, inr, Bool, true, false, Option, none, some, List, arith,
}

-- No peer of the roster holds the address.
abbrev pub Free : {Sender : Type 0} → Coordinator Sender → Ipv6Addr → Type 0
Free c addr = (j : ℕ) (f : PeerEntry) → lookup j c.roster ≡ some f → f.ula ≢ addr

-- An address that the allocator hands out has not been covered before, and is covered from then on.
pub allocate-Fresh :
    (a : UlaAllocator) (network : Text) (idx : ℕ) (addr : Ipv6Addr)
    → (allocate a network).1 ≡ ok (idx, addr)
    → (¬ Covered a addr) × Covered (allocate a network).0 addr × (idx ≡ addr.s3)
unfolding allocate address_for
allocate-Fresh a network idx addr h =
    let slot = network_slot network in
    ground (arith, lookup-insert slot slot (issued_in a slot + 1) a.per_network)

pub Covered-allocate :
    (a : UlaAllocator) (network : Text) (addr : Ipv6Addr)
    → Covered a addr
    → Covered (allocate a network).0 addr
unfolding call_allocator
Covered-allocate a network addr h = Covered-call_allocator a (allocates network) addr h

module _ {Sender : Type 0} where
  pub Fresh-Free :
      (c : Coordinator Sender) (addr : Ipv6Addr)
      → Consistent c
      → ¬ Covered c.allocator addr
      → Free c addr
  Fresh-Free c addr v new j f look s = new (subst (Covered c.allocator) s (v.covered j f look))

  pub allocate-Consistent :
      (c : Coordinator Sender) (network : Text)
      → Consistent c
      → Consistent (record c { allocator = (allocate c.allocator network).0 })
  allocate-Consistent c network =
      same-Consistent c (record c { allocator = (allocate c.allocator network).0 }) refl refl
        (Covered-allocate c.allocator network)

  -- What a resolved address promises.
  abbrev pub Gets :
      Coordinator Sender → UlaAllocator → Result CoordinatorError (ℕ × Ipv6Addr) → Type 0
  Gets c a (ok (idx, addr)) = Free c addr × Covered a addr × (idx ≡ addr.s3)
  Gets c a (err e) = Unit {0}

  abbrev pub Resolved :
      Coordinator Sender → Coordinator Sender × Result CoordinatorError (ℕ × Ipv6Addr) → Type 0
  Resolved c (c', r) = (c'.roster ≡ c.roster) × (c'.by_pubkey ≡ c.by_pubkey) × Gets c c'.allocator r

  module _ (fmt : Formats) (contract : Contract) where
    lift-Resolved :
        (c : Coordinator Sender) (network : Text) (r : Result AllocError (ℕ × Ipv6Addr))
        → Consistent c
        → (allocate c.allocator network).1 ≡ r
        → Resolved c (record c { allocator = (allocate c.allocator network).0 }, lift_alloc r)
    lift-Resolved c network (err e) v h = (refl, refl, tt)
    lift-Resolved c network (ok (idx, addr)) v h =
        let (new, past, at) = allocate-Fresh c.allocator network idx addr h in
        (refl, refl, (Fresh-Free c addr v new, past, at))

    requested-Resolved :
        (c : Coordinator Sender) (network raw : Text) (addr : Ipv6Addr)
        → Resolved c (resolve_requested fmt contract c network raw addr)
          × (Consistent c → Consistent (resolve_requested fmt contract c network raw addr).0)
    unfolding resolve_requested
    requested-Resolved c network raw addr = elim (Bool-cases (is_ula addr)) [
      | inr outside ↦ rw outside ((refl, refl, tt), λ v. v)
      | inl inside ↦ elim (Bool-cases (wrong_block fmt contract addr network)) [
        | inl wrong ↦ rw (inside, wrong) ((refl, refl, tt), λ v. v)
        | inr right ↦ elim (Bool-cases (any (λ e. e.ula == addr) (values c.roster))) [
          | inl held ↦ rw (inside, right, held) ((refl, refl, tt), λ v. v)
          | inr free ↦
              rw (inside, right, free)
                (
                  (
                    refl,
                    refl,
                    (
                      λ j f look s. ground (
                        arith,
                        addr_beq_iff f.ula addr,
                        any-values (λ e. e.ula == addr) j f c.roster look,
                      ),
                      Covered-bump_self c.allocator addr,
                      refl,
                    ),
                  ),
                  same-Consistent c _ refl refl (Covered-bump c.allocator addr.s2 addr.s3),
                )
        ]
      ]
    ]

    -- An address that `resolve_ula` gives is held by nobody and issued; it changes no peer.
    pub resolve_ula-Resolved :
        (c : Coordinator Sender) (network : Text) (requested : Option Text)
        → Consistent c
        → Resolved c (resolve_ula fmt contract c network requested)
          × Consistent (resolve_ula fmt contract c network requested).0
    unfolding resolve_ula
    resolve_ula-Resolved c network none v = (
      lift-Resolved c network (allocate c.allocator network).1 v refl,
      allocate-Consistent c network v,
    )
    resolve_ula-Resolved c network (some raw) v = elim (Option-cases (fmt.parse_ipv6 raw)) [
      | inl bad ↦ rw (resolve_ula, bad) ((refl, refl, tt), v)
      | inr (addr, at) ↦
          let (gets, keeps) = requested-Resolved c network raw addr in
          rw (resolve_ula, at) (gets, keeps v)
    ]

    pub evict-Consistent :
        (c : Coordinator Sender) (holder_id : ℕ) (tags : List Text) (clock : Clock)
        → Consistent c
        → Consistent (evict fmt contract c holder_id tags clock)
    unfolding evict publish broadcast
    evict-Consistent c holder_id tags clock v =
        persist-Consistent fmt _
          (apply_peer_left-Consistent fmt _ _ (same-Consistent c _ refl refl (λ a h. h) v))

    pub evict_stale-Consistent :
        (c : Coordinator Sender) (requested : Option Text) (clock : Clock)
        → Consistent c
        → Consistent (evict_stale_ula_holder fmt contract c requested clock)
    unfolding evict_stale_ula_holder
    evict_stale-Consistent c none clock v = v
    evict_stale-Consistent c (some raw) clock v = elim (Option-cases (fmt.parse_ipv6 raw)) [
      | inl bad ↦ rw (evict_stale_ula_holder, bad) v
      | inr (addr, at) ↦ rw (evict_stale_ula_holder, at) (of_holder addr)
    ]
      where
        holder_of : Ipv6Addr → Option PeerEntry
        holder_of addr = find_first (λ e. e.ula == addr) (values c.roster)

        of_holder : (addr : Ipv6Addr) → Consistent (evict_holder_of fmt contract c addr clock)
        of_holder addr = elim (Option-cases (holder_of addr)) [
          | inl nobody ↦ rw (evict_holder_of, nobody) v
          | inr (holder, held) ↦ elim (Bool-cases (is_stale fmt contract c holder.peer_id clock)) [
            | inl stale ↦
                rw (evict_holder_of, held, stale) (evict-Consistent c holder.peer_id _ clock v)
            | inr live ↦ rw (evict_holder_of, held, live) v
          ]
        ]

    abbrev pub Rehomed :
        Coordinator Sender → UlaAllocator → Result CoordinatorError (Option (ℕ × Ipv6Addr)) → Type 0
    Rehomed c a (ok none) = Unit {0}
    Rehomed c a (ok (some (idx, addr))) = Free c addr × Covered a addr × (idx ≡ addr.s3)
    Rehomed c a (err e) = Unit {0}

    -- A re-home's address is new, or none is taken; the roster stays as it is.
    pub reallocate-Rehomed :
        (c : Coordinator Sender) (peer_id : ℕ) (network : Text) (rehome : Bool)
        → Consistent c
        → let (c', r) = reallocate fmt contract c peer_id network rehome in
          Consistent c' × (c'.roster ≡ c.roster) × Rehomed c c'.allocator r
    unfolding reallocate
    reallocate-Rehomed c peer_id network false v = (v, refl, tt)
    reallocate-Rehomed c peer_id network true v =
        elim (Result-cases (allocate c.allocator network).1) [
          | inl (spent, at) ↦ rw (reallocate, at) (allocate-Consistent c network v, refl, tt)
          | inr ((idx, addr), at) ↦
              let (new, past, same) = allocate-Fresh c.allocator network idx addr at in
              elim (Bool-cases (held_by_other c.roster addr peer_id)) [
                | inl held ↦ rw (reallocate, at, held) (allocate-Consistent c network v, refl, tt)
                | inr unheld ↦
                    rw (reallocate, at, unheld)
                      (allocate-Consistent c network v, refl, (Fresh-Free c addr v new, past, same))
              ]
        ]
