-- ===== src/Roster/Commands.antt =====
-- crates/mesh-coordinator/src/roster/coordinator/command_queue.rs: the signed commands that wait for a
-- peer's next heartbeat.
pub mod Delivery
use tabbify_service_mesh.Roster.{NodeCommandDto, Coordinator}
use tabbify_service_mesh.Shared.{
  if◌then◌else◌, get_or, nat_eq, list_eq, option_eq, pair_eq, Text, is_empty, select, contains,
  map_option, lookup, update, ℕ, not, List, [], ◌∷◌, ◌++◌, map,
}

module _ {Sender : Type 0} where
  unfoldable pub enqueue_command : Coordinator Sender → ℕ → NodeCommandDto → Coordinator Sender
  enqueue_command c peer_id command = record c {
    roster =
        update peer_id (λ e. record e { pending_commands = e.pending_commands ++ command ∷ [] })
          c.roster;
  }

  -- `mem::take`
  unfoldable pub drain_commands : Coordinator Sender → ℕ → Coordinator Sender × List NodeCommandDto
  drain_commands c peer_id = (
    record c { roster = update peer_id (λ e. record e { pending_commands = [] }) c.roster },
    get_or (map_option (λ e. e.pending_commands) (lookup peer_id c.roster)) [],
  )

  unfoldable pub ack_commands : Coordinator Sender → ℕ → List Text → Coordinator Sender
  ack_commands c peer_id acked = if is_empty acked then c else record c {
    roster =
        update peer_id
          (λ e. record e {
            pending_commands = select (λ x. not (contains acked x.command_id)) e.pending_commands;
          })
          c.roster;
  }

  unfoldable pub pending_command_ids : Coordinator Sender → ℕ → List Text
  pending_command_ids c peer_id =
      get_or
        (map_option (λ e. map (λ x. x.command_id) e.pending_commands) (lookup peer_id c.roster)) []
