-- ===== src/Roster/Commands/Delivery.antt =====
-- The order of the queued commands, and how often each is handed over.
use tabbify_service_mesh.Roster.Commands.{enqueue_command, drain_commands, ack_commands}
use tabbify_service_mesh.Roster.{NodeCommandDto, PeerEntry, Coordinator}
use tabbify_service_mesh.Allocator.{addr_eq}
use tabbify_service_mesh.Shared.{
  nat_eq, eq_refl, list_eq, option_eq, pair_eq, Text, select, contains, lookup, lookup-update, ℕ,
  ◌≡◌, refl, sym, true, not, some, List, [], ◌∷◌, ◌++◌,
}

select_all : {A : Type 0} (xs : List A) → select (λ x. true) xs ≡ xs
select_all [] = refl
select_all (x ∷ xs) = rw (select_all xs) refl

module _ {Sender : Type 0} where
  -- For a peer of the roster: what is queued is handed over once, in order, after what was queued
  -- before it; a second drain finds nothing; an acknowledged command is not handed over, and every
  -- other one still is.
  pub drain-enqueue :
      (c : Coordinator Sender) (peer_id : ℕ) (e : PeerEntry) (command : NodeCommandDto)
      (acked : List Text)
      → lookup peer_id c.roster ≡ some e
      → ((drain_commands (enqueue_command c peer_id command) peer_id).1
          ≡ (drain_commands c peer_id).1 ++ command ∷ [])
        × ((drain_commands (drain_commands c peer_id).0 peer_id).1 ≡ [])
        × ((drain_commands (ack_commands c peer_id acked) peer_id).1
            ≡ select (λ x. not (contains acked x.command_id)) (drain_commands c peer_id).1)
  unfolding drain_commands enqueue_command ack_commands
  drain-enqueue c peer_id e command acked look = (
    rw
        (
          lookup-update peer_id peer_id
              (λ e. record e { pending_commands = e.pending_commands ++ command ∷ [] }) c.roster,
          eq_refl peer_id,
          look,
        )
        refl,
    rw
        (
          lookup-update peer_id peer_id (λ e. record e { pending_commands = [] }) c.roster,
          eq_refl peer_id,
          look,
        )
        refl,
    after_ack acked,
  )
    where
      after_ack :
          (acked : List Text)
          → (drain_commands (ack_commands c peer_id acked) peer_id).1
            ≡ select (λ x. not (contains acked x.command_id)) (drain_commands c peer_id).1
      after_ack [] = sym (select_all (drain_commands c peer_id).1)
      after_ack (a ∷ rest) =
          rw
            (
              lookup-update peer_id peer_id
                  (λ e. record e {
                    pending_commands =
                        select (λ x. not (contains (a ∷ rest) x.command_id)) e.pending_commands;
                  })
                  c.roster,
              eq_refl peer_id,
              look,
            )
            refl
