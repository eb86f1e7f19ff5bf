-- ===== src/Roster/Sweep.antt =====
-- crates/mesh-coordinator/src/roster/timeout.rs, with `stale_peers` and `reap_stale_resources` of
-- coordinator/mod.rs: the periodic sweep. Times of the monotonic clock are numbers.
pub mod Expiry
use Prim.Native.Nat.{max}
use tabbify_service_mesh.Traversal.Punch.{punch_pair_ttl_micros, reap_older_than}
use tabbify_service_mesh.Roster.Heartbeat.{deregister}
use tabbify_service_mesh.Roster.{Clock, Coordinator}
use tabbify_service_mesh.Relay.Registry.{Frame, Sent, reap_expired_spool, reap_closed}
use tabbify_service_mesh.Formats.{Formats}
use tabbify_service_mesh.Allocator.{addr_eq}
use tabbify_service_mesh.Shared.{
  ltb, nat_eq, list_eq, option_eq, pair_eq, bytes, select, sub_ℕ, ℕ, ◌-◌, ◌/◌, min, Bool, List, [],
  ◌∷◌, map,
}

unfoldable pub sweep_interval : ℕ → ℕ
sweep_interval timeout = min (max (timeout / 4) 1_000_000_000) 60_000_000_000

module _ {Sender : Type 0} where
  unfoldable pub stale_peers : Coordinator Sender → ℕ → List ℕ
  stale_peers c now =
      map (λ kv. kv.0) (select (λ kv. ltb c.heartbeat_timeout (now - kv.1.last_heartbeat)) c.roster)

  module _ {Net : Type 0} (try_send : Net → Sender → Frame → Net × Sent)
      (is_closed : Net → Sender → Bool) where
    unfoldable pub reap_stale_resources : Net → Coordinator Sender → Clock → Coordinator Sender
    reap_stale_resources net c clock =
        let relay = (reap_closed try_send is_closed net c.relay).0 in
        let relay' = (reap_expired_spool relay clock.instant).0 in
        let cutoff = sub_ℕ clock.micros punch_pair_ttl_micros in
        record c { relay = relay'; punch_tracker = (reap_older_than c.punch_tracker cutoff).0 }

    module _ (fmt : Formats) where
      abbrev pub deregister_all : Coordinator Sender → List ℕ → Clock → Coordinator Sender
      deregister_all c [] clock = c
      deregister_all c (peer_id ∷ ids) clock =
          deregister_all (deregister fmt c peer_id (bytes "heartbeat_timeout") clock).0 ids clock

      unfoldable pub sweep_once : Net → Coordinator Sender → Clock → Coordinator Sender
      unfolding reap_stale_resources stale_peers
      sweep_once net c clock =
          let c' = reap_stale_resources net c clock in
          deregister_all c' (stale_peers c' clock.instant) clock
