-- ===== src/Roster/Addresses.antt =====
-- crates/mesh-coordinator/src/roster/coordinator/registration.rs: which overlay address a request gets.
pub mod Absence
pub mod Consistency
use tabbify_service_mesh.Allocator.{
  Ipv6Addr, addr_eq, network_slot, AllocError, allocate, bump_slot_at_least,
}
use tabbify_service_mesh.Formats.{Formats}
use tabbify_service_mesh.Roster.{
  PeerLeft, left, removed, Clock, CoordinatorError, invalid_requested_ula, allocation, ula_conflict,
  ula_network_mismatch, Coordinator, persist_roster, publish, broadcast,
}
use tabbify_service_mesh.Roster.Access.{Contract}
use tabbify_service_mesh.Roster.Apply.{held_by_other, apply_peer_left}
use tabbify_service_mesh.Shared.{
  ltb, if◌then◌else◌, get_or, ◌==◌, nat_eq, list_eq, option_eq, pair_eq, Text, bytes, any,
  find_first, map_option, values, lookup, Result, ok, err, ℕ, ◌-◌, ◌/◌, ◌^◌, Bool, true, false, not,
  ◌&&◌, Option, none, some, List, [],
}

-- `addr.segments()[0] & 0xfe00 == 0xfc00`
abbrev pub is_ula : Ipv6Addr → Bool
is_ula addr = addr.s0 / 2 ^ 9 == 0xfc00 / 2 ^ 9

abbrev pub lift_alloc : Result AllocError (ℕ × Ipv6Addr) → Result CoordinatorError (ℕ × Ipv6Addr)
lift_alloc (ok a) = ok a
lift_alloc (err e) = err (allocation e)

module _ (fmt : Formats) (contract : Contract) where
  abbrev pub wrong_block : Ipv6Addr → Text → Bool
  wrong_block addr network =
      (addr.s1 == contract.host_ula_slot)
      && (not (contract.is_fixed_infra_ula addr) && not (addr.s2 == network_slot network))

  module _ {Sender : Type 0} where
    unfoldable pub resolve_requested :
        Coordinator Sender
        → Text
        → Text
        → Ipv6Addr
        → Coordinator Sender × Result CoordinatorError (ℕ × Ipv6Addr)
    resolve_requested c network raw addr =
        if not (is_ula addr)
        then (c, err (invalid_requested_ula raw))
        else if wrong_block addr network
        then (c, err (ula_network_mismatch raw network))
        else if any (λ e. e.ula == addr) (values c.roster)
        then (c, err (ula_conflict raw))
        else (
          record c { allocator = bump_slot_at_least c.allocator addr.s2 addr.s3 },
          ok (addr.s3, addr),
        )

    unfoldable pub resolve_ula :
        Coordinator Sender
        → Text
        → Option Text
        → Coordinator Sender × Result CoordinatorError (ℕ × Ipv6Addr)
    unfolding resolve_requested
    resolve_ula c network none =
        let (a, r) = allocate c.allocator network in (record c { allocator = a }, lift_alloc r)
    resolve_ula c network (some raw) = elim (fmt.parse_ipv6 raw) [
      | none ↦ (c, err (invalid_requested_ula raw))
      | some addr ↦ resolve_requested c network raw addr
    ]

    unfoldable pub evict : Coordinator Sender → ℕ → List Text → Clock → Coordinator Sender
    evict c holder_id tags clock =
        let event : PeerLeft = record {
          peer_id = fmt.print_uuid holder_id;
          reason = bytes "evicted_stale_ula_holder";
          left_at_micros = clock.micros;
        } in
        persist_roster fmt (
          apply_peer_left fmt
            (broadcast (publish c (left event)) (removed (fmt.print_uuid holder_id) tags)) event)

    abbrev pub is_stale : Coordinator Sender → ℕ → Clock → Bool
    is_stale c id clock = elim (lookup id c.roster) [
      | none ↦ false
      | some e ↦ ltb c.heartbeat_timeout (clock.instant - e.last_heartbeat)
    ]

    unfoldable pub evict_holder_of : Coordinator Sender → Ipv6Addr → Clock → Coordinator Sender
    unfolding evict
    evict_holder_of c addr clock = elim (find_first (λ e. e.ula == addr) (values c.roster)) [
      | none ↦ c
      | some holder ↦
          if is_stale c holder.peer_id clock
          then evict c holder.peer_id
              (get_or (map_option (λ e. e.tags) (lookup holder.peer_id c.roster)) []) clock
          else c
    ]

    unfoldable pub evict_stale_ula_holder :
        Coordinator Sender → Option Text → Clock → Coordinator Sender
    unfolding evict_holder_of
    evict_stale_ula_holder c none clock = c
    evict_stale_ula_holder c (some raw) clock = elim (fmt.parse_ipv6 raw) [
      | none ↦ c
      | some addr ↦ evict_holder_of c addr clock
    ]

    -- A re-home's fresh address, kept apart from the write of the entry: `ok none` is no re-home.
    unfoldable pub reallocate :
        Coordinator Sender
        → ℕ
        → Text
        → Bool
        → Coordinator Sender × Result CoordinatorError (Option (ℕ × Ipv6Addr))
    reallocate c peer_id network false = (c, ok none)
    reallocate c peer_id network true =
        let (a, r) = allocate c.allocator network in
        let c' : Coordinator Sender = record c { allocator = a } in
        elim r [
          | err e ↦ (c', err (allocation e))
          | ok (new_index, new_ula) ↦
              if held_by_other c.roster new_ula peer_id
              then (c', err (ula_conflict (fmt.print_ipv6 new_ula)))
              else (c', ok (some (new_index, new_ula)))
        ]
