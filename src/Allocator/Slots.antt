-- ===== src/Allocator/Slots.antt =====
-- Network names and address blocks of roster/allocator.rs.
use tabbify_service_mesh.Shared.{
  nat_eq, list_eq, option_eq, pair_eq, Text, ℕ, ◌^◌, ◌<◌, ◌≡◌, ◌↔◌, [], ◌∷◌, arith,
}
use tabbify_service_mesh.Allocator.{default_network_slot, network_slot, address_for}

-- A block selector is a 16-bit value, and 0 is kept for the unnamed network: a named network is
-- never put into the default block.
pub network_slot_range :
    (network : Text)
    → (network_slot network < 2 ^ 16)
      × ((network_slot network ≡ default_network_slot) ↔ (network ≡ []))
unfolding network_slot
network_slot_range [] = ground arith
network_slot_range (c ∷ cs) = ground arith

-- An address determines its block and its index, so blocks are disjoint.
pub address_for_inj : (s i t j : ℕ) → address_for s i ≡ address_for t j → (s ≡ t) × (i ≡ j)
unfolding address_for
address_for_inj s i t j e = ground arith
