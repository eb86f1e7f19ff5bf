-- ===== src/Allocator/Sequence.antt =====
-- Runs of the allocator of roster/allocator.rs: no address is handed out twice.
use tabbify_service_mesh.Shared.{
  nat_beq_iff, nat_eq, list_eq, option_eq, pair_eq, Text, lookup-insert, Result, ok, err, ℕ, ◌+◌,
  ◌≤◌, ◌≡◌, subst, ◌≢◌, ◌↔◌, Option, none, some, List, [], ◌∷◌, arith,
}
use tabbify_service_mesh.Allocator.{
  Ipv6Addr, u16_max, network_slot, AllocError, exhausted, UlaAllocator, issued_in, address_for,
  allocate, issued, bump_slot_at_least,
}
use Prim.Native.Nat.{max}

abbrev pub Covered : UlaAllocator → Ipv6Addr → Type 0
Covered a addr = addr.s3 ≤ issued_in a addr.s2

-- A call of the allocator; the addresses that a run hands out, in order.
pub data AllocCall : Type 0 where
  allocates : Text → AllocCall
  bumps : ℕ → ℕ → AllocCall

abbrev pub handed : Result AllocError (ℕ × Ipv6Addr) → Option Ipv6Addr
handed (ok (idx, addr)) = some addr
handed (err e) = none

abbrev pub with_handed : Option Ipv6Addr → List Ipv6Addr → List Ipv6Addr
with_handed none rest = rest
with_handed (some addr) rest = addr ∷ rest

unfoldable pub call_allocator : UlaAllocator → AllocCall → UlaAllocator × Option Ipv6Addr
call_allocator a (allocates network) = let (a', r) = allocate a network in (a', handed r)
call_allocator a (bumps slot idx) = (bump_slot_at_least a slot idx, none)

unfoldable pub run_allocator : UlaAllocator → List AllocCall → List Ipv6Addr
run_allocator a [] = []
run_allocator a (c ∷ cs) =
    let (a', out) = call_allocator a c in with_handed out (run_allocator a' cs)

-- An index counts as issued from the moment it is handed out or bumped past, and stays so.
pub Covered-call_allocator :
    (a : UlaAllocator) (c : AllocCall) (addr : Ipv6Addr)
    → Covered a addr
    → Covered (call_allocator a c).0 addr
unfolding call_allocator allocate bump_slot_at_least
Covered-call_allocator a (allocates network) addr h =
    let slot = network_slot network in
    ground (
      arith,
      lookup-insert slot addr.s2 (issued_in a slot + 1) a.per_network,
      lookup-insert slot addr.s2 (issued_in a slot) a.per_network,
    )
Covered-call_allocator a (bumps slot idx) addr h =
    ground (arith, lookup-insert slot addr.s2 (max (issued_in a slot) idx) a.per_network)

-- What a call hands out was not issued before it, and is afterwards.
abbrev pub Fresh : UlaAllocator → UlaAllocator → Option Ipv6Addr → Type 0
Fresh a a' none = Unit {0}
Fresh a a' (some x) = (¬ Covered a x) × Covered a' x

call_allocator-Fresh :
    (a : UlaAllocator) (c : AllocCall) → Fresh a (call_allocator a c).0 (call_allocator a c).1
unfolding call_allocator allocate address_for
call_allocator-Fresh a (allocates network) =
    let slot = network_slot network in
    ground (arith, lookup-insert slot slot (issued_in a slot + 1) a.per_network)
call_allocator-Fresh a (bumps slot idx) = tt

Covered-back :
    (a : UlaAllocator) (c : AllocCall) (addr : Ipv6Addr)
    → ¬ Covered (call_allocator a c).0 addr
    → ¬ Covered a addr
Covered-back a c addr h k = h (Covered-call_allocator a c addr k)

-- Every address of the list differs from `x`; no address of the list stands twice.
abbrev pub Avoids : Ipv6Addr → List Ipv6Addr → Type 0
Avoids x [] = Unit {0}
Avoids x (y ∷ ys) = (x ≢ y) × Avoids x ys

abbrev pub NoRepeat : List Ipv6Addr → Type 0
NoRepeat [] = Unit {0}
NoRepeat (x ∷ xs) = Avoids x xs × NoRepeat xs

Avoids-with_handed :
    (a a' : UlaAllocator) (x : Ipv6Addr) (out : Option Ipv6Addr) (rest : List Ipv6Addr)
    → Covered a x
    → Fresh a a' out
    → Avoids x rest
    → Avoids x (with_handed out rest)
Avoids-with_handed a a' x none rest h f k = k
Avoids-with_handed a a' x (some y) rest h f k = (λ e. f.0 (subst (Covered a) e h), k)

run_allocator-Avoids :
    (x : Ipv6Addr) (a : UlaAllocator) (cs : List AllocCall)
    → Covered a x
    → Avoids x (run_allocator a cs)
unfolding run_allocator
run_allocator-Avoids x a [] h = tt
run_allocator-Avoids x a (c ∷ cs) h =
    Avoids-with_handed a (call_allocator a c).0 x (call_allocator a c).1 _ h
      (call_allocator-Fresh a c)
      (run_allocator-Avoids x (call_allocator a c).0 cs (Covered-call_allocator a c x h))

NoRepeat-with_handed :
    (a a' : UlaAllocator) (out : Option Ipv6Addr) (cs : List AllocCall)
    → Fresh a a' out
    → NoRepeat (run_allocator a' cs)
    → NoRepeat (with_handed out (run_allocator a' cs))
NoRepeat-with_handed a a' none cs f k = k
NoRepeat-with_handed a a' (some y) cs f k = (run_allocator-Avoids y a' cs f.1, k)

-- However calls of `allocate` and `bump_slot_at_least` follow one another, over any networks, no
-- address is handed out twice, and none whose index was issued or bumped past before the run.
pub run_allocator-NoRepeat :
    (a : UlaAllocator) (cs : List AllocCall)
    → NoRepeat (run_allocator a cs)
      × ((old : Ipv6Addr) → Covered a old → Avoids old (run_allocator a cs))
unfolding run_allocator
run_allocator-NoRepeat a cs = (no_repeat a cs, λ old h. run_allocator-Avoids old a cs h)
  where
    no_repeat : (a : UlaAllocator) (cs : List AllocCall) → NoRepeat (run_allocator a cs)
    no_repeat a [] = tt
    no_repeat a (c ∷ cs) =
        NoRepeat-with_handed a (call_allocator a c).0 (call_allocator a c).1 cs
          (call_allocator-Fresh a c) (no_repeat (call_allocator a c).0 cs)

-- The refusal: a network runs out exactly when its block's counter stands at `u16::MAX`, and then
-- no counter moves.
pub allocate-exhausted :
    (a : UlaAllocator) (network other : Text)
    → (((allocate a network).1 ≡ err exhausted) ↔ (u16_max ≤ issued a network))
      × ((allocate a network).1 ≡ err exhausted
          → issued (allocate a network).0 other ≡ issued a other)
unfolding allocate issued
allocate-exhausted a network other =
    let slot = network_slot network in
    let read = lookup-insert slot (network_slot other) (issued_in a slot) a.per_network in
    let same = nat_beq_iff slot (network_slot other) in
    ((λ h. ground arith, λ h. ground arith), λ h. ground (arith, read, same))
