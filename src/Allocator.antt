-- ===== src/Allocator.antt =====
-- crates/mesh-coordinator/src/roster/allocator.rs: the per-network allocator of overlay addresses.
-- Indices and slots are `u16` values, kept as numbers below 2^16.
pub mod Slots
pub mod Sequence
pub mod Race
pub mod Tests
use Prim.Native.Nat.{bit_xor, max}
use tabbify_service_mesh.Hash.{fnv1a64}
use tabbify_service_mesh.Shared.{
  ltb, if◌then◌else◌, get_or, PartialEq, ◌==◌, nat_eq, list_eq, option_eq, pair_eq, Text, is_empty,
  Dict, lookup, insert, Result, ok, err, ℕ, ◌+◌, ◌/◌, ◌%◌, ◌^◌, ◌≡◌, ◌↔◌, Bool, true, ◌&&◌, List,
  [], ◌∷◌, arith,
}

-- `std::net::Ipv6Addr`, by its eight segments.
pub record Ipv6Addr : Type 0 where
  pub s0 : ℕ
  pub s1 : ℕ
  pub s2 : ℕ
  pub s3 : ℕ
  pub s4 : ℕ
  pub s5 : ℕ
  pub s6 : ℕ
  pub s7 : ℕ

abbrev pub segments : Ipv6Addr → List ℕ
segments a = a.s0 ∷ a.s1 ∷ a.s2 ∷ a.s3 ∷ a.s4 ∷ a.s5 ∷ a.s6 ∷ a.s7 ∷ []

abbrev pub addr_beq : Ipv6Addr → Ipv6Addr → Bool
addr_beq a b =
    (a.s0 == b.s0)
    && ((a.s1 == b.s1)
        && ((a.s2 == b.s2)
            && ((a.s3 == b.s3)
                && ((a.s4 == b.s4) && ((a.s5 == b.s5) && ((a.s6 == b.s6) && (a.s7 == b.s7)))))))

pub addr_beq_iff : (a b : Ipv6Addr) → (addr_beq a b ≡ true) ↔ (a ≡ b)
addr_beq_iff a b = ground arith

instance abbrev pub addr_eq : PartialEq Ipv6Addr
addr_eq = record { beq = addr_beq; beq_iff = addr_beq_iff }

abbrev pub default_network_slot : ℕ
default_network_slot = 0

abbrev pub u16_max : ℕ
u16_max = 65535

unfoldable pub network_slot : Text → ℕ
network_slot network =
    if is_empty network
    then default_network_slot
    else let h = fnv1a64 network in
      let folded = bit_xor (bit_xor (bit_xor (h / 2 ^ 48) (h / 2 ^ 32)) (h / 2 ^ 16)) h % 2 ^ 16 in
      if folded == default_network_slot then 1 else folded

pub data AllocError : Type 0 where
  exhausted : AllocError

pub record UlaAllocator : Type 0 where
  pub per_network : Dict ℕ ℕ

unfoldable pub new_allocator : UlaAllocator
new_allocator = record { per_network = [] }

-- The value of a slot's counter; an absent one counts as 0, as `or_insert_with` makes it.
abbrev pub issued_in : UlaAllocator → ℕ → ℕ
issued_in a slot = get_or (lookup slot a.per_network) 0

-- fd5a:1f00:<slot>:<idx>::1
unfoldable pub address_for : ℕ → ℕ → Ipv6Addr
address_for slot peer_index = record {
  s0 = 0xfd5a;
  s1 = 0x1f00;
  s2 = slot;
  s3 = peer_index;
  s4 = 0;
  s5 = 0;
  s6 = 0;
  s7 = 1;
}

-- One pass of the compare-exchange loop; `checked_add` fails at `u16::MAX`.
unfoldable pub allocate_in_slot : UlaAllocator → ℕ → UlaAllocator × Result AllocError (ℕ × Ipv6Addr)
allocate_in_slot a slot =
    let current = issued_in a slot in
    let next = current + 1 in
    if ltb current u16_max
    then (record { per_network = insert slot next a.per_network }, ok (next, address_for slot next))
    else (record { per_network = insert slot current a.per_network }, err exhausted)

unfoldable pub allocate : UlaAllocator → Text → UlaAllocator × Result AllocError (ℕ × Ipv6Addr)
unfolding allocate_in_slot
allocate a network = allocate_in_slot a (network_slot network)

unfoldable pub issued : UlaAllocator → Text → ℕ
issued a network = issued_in a (network_slot network)

unfoldable pub bump_slot_at_least : UlaAllocator → ℕ → ℕ → UlaAllocator
bump_slot_at_least a slot idx = record {
  per_network = insert slot (max (issued_in a slot) idx) a.per_network;
}
