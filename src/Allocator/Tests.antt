-- ===== src/Allocator/Tests.antt =====
-- Tests of roster/allocator.rs, and its theorems at concrete inputs.
use tabbify_service_mesh.Hash.{fnv1a64}
use tabbify_service_mesh.Shared.{
  nat_eq, list_eq, option_eq, pair_eq, bytes, ◌≡◌, refl, [], ◌∷◌, arith,
}
use tabbify_service_mesh.Allocator.{
  Ipv6Addr, addr_eq, network_slot, new_allocator, address_for, allocate, bump_slot_at_least,
}
use tabbify_service_mesh.Allocator.Sequence.{
  Covered, allocates, bumps, call_allocator, run_allocator, Avoids, NoRepeat,
  run_allocator-NoRepeat,
}
use tabbify_service_mesh.Allocator.Race.{
  start, loaded, returned, Race, set_thread, load, exchange, here, next, Exclusive, Reach-Exclusive,
}

alice_slot : network_slot (bytes "alice") ≡ 9879
unfolding network_slot fnv1a64
alice_slot = refl

-- Two names can share one block; their addresses differ all the same.
shared_slot : network_slot (bytes "n12") ≡ network_slot (bytes "n96")
unfolding network_slot fnv1a64
shared_slot = refl

first_two :
    run_allocator new_allocator (allocates [] ∷ bumps 0 7 ∷ allocates [] ∷ [])
    ≡ address_for 0 1 ∷ address_for 0 8 ∷ []
unfolding run_allocator call_allocator allocate bump_slot_at_least new_allocator network_slot
first_two = refl

run_allocator-NoRepeat_example :
    NoRepeat (run_allocator new_allocator (allocates [] ∷ allocates [] ∷ []))
    × ((old : Ipv6Addr)
        → Covered new_allocator old
        → Avoids old (run_allocator new_allocator (allocates [] ∷ allocates [] ∷ [])))
run_allocator-NoRepeat_example =
    run_allocator-NoRepeat new_allocator (allocates [] ∷ allocates [] ∷ [])

abbrev idle : Race
idle = record { counter = 3; threads = λ i. start }

abbrev one_loaded : Race
one_loaded = set_thread idle 0 (loaded 3)

abbrev one_done : Race
one_done = set_thread (record one_loaded { counter = 4 }) 0 (returned 4)

Reach-Exclusive_example : Exclusive one_done
Reach-Exclusive_example =
    Reach-Exclusive {s = idle} (λ i. refl)
      (next (next here (load idle 0 refl)) (exchange one_loaded 0 3 refl (omega arith) refl))
