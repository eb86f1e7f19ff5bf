-- ===== src/Joiner/HolePunch.antt =====
-- crates/mesh-joiner/src/nat/holepunch.rs: the joiner's side of a hole punch. The ids of the event are
-- numbers, as in the coordinator's directive. What the tunnel gives for a handshake is an argument.
pub mod Burst
use tabbify_service_mesh.Formats.{SocketAddr, socket_eq, Formats}
use tabbify_service_mesh.Allocator.{addr_eq}
use tabbify_service_mesh.Joiner.DataPlane.{
  WgAction, send_to_peer, DataPlane, send_udp, relay_if_some,
}
use tabbify_service_mesh.Joiner.Sessions.{SessionTable}
use tabbify_service_mesh.Traversal.Punch.{HolePunchInitiate}
use tabbify_service_mesh.Shared.{
  if◌then◌else◌, ◌==◌, nat_eq, list_eq, option_eq, pair_eq, Text, bytes, take, values, ℕ, Bool, not,
  Option, none, some, List, [], ◌∷◌,
}

pub record PunchPlan : Type 0 where
  pub session : ℕ
  pub endpoint : SocketAddr

abbrev pub find_session : SessionTable → (peer_id : ℕ) → List ℕ → Option ℕ
find_session t peer_id [] = none
find_session t peer_id (session ∷ others) =
    let later = find_session t peer_id others in
    if (t.heap session).peer_id == peer_id then some session else later

abbrev pub plan_for : Option SocketAddr → Option ℕ → Option PunchPlan
plan_for none found = none
plan_for (some endpoint) none = none
plan_for (some endpoint) (some session) = some (record { session = session; endpoint = endpoint })

unfoldable pub plan_punch :
    Formats → SessionTable → (my_peer_id : ℕ) → HolePunchInitiate → Option PunchPlan
plan_punch formats sessions my_peer_id event =
    if not (event.initiator_peer_id == my_peer_id)
    then none
    else plan_for (formats.parse_socket event.target_external_endpoint)
        (find_session sessions event.target_peer_id (values sessions.by_ula))

abbrev pub punch_burst : ℕ
punch_burst = 5

abbrev pub relay_copy : (confirmed : Bool) → DataPlane → (pubkey bytes : Text) → DataPlane
relay_copy confirmed d pubkey bytes = if confirmed then d else relay_if_some d d.relay pubkey bytes

abbrev pub fire : (confirmed : Bool) → PunchPlan → DataPlane → WgAction → DataPlane
fire confirmed plan d (send_to_peer bytes) =
    relay_copy confirmed (send_udp d bytes plan.endpoint) (d.sessions.heap plan.session).peer_pubkey
      bytes
fire confirmed plan d other = d

abbrev pub fire_all : (confirmed : Bool) → PunchPlan → DataPlane → List WgAction → DataPlane
fire_all confirmed plan d [] = d
fire_all confirmed plan d (action ∷ actions) =
    fire_all confirmed plan (fire confirmed plan d action) actions

-- `handshakes` is what the tunnel gives in the rounds of the burst.
unfoldable pub execute_punch : DataPlane → PunchPlan → (handshakes : List WgAction) → DataPlane
execute_punch d plan handshakes =
    fire_all (d.sessions.heap plan.session).direct_confirmed plan d handshakes

abbrev pub punch_as : DataPlane → (tunnel : ℕ → List WgAction) → Option PunchPlan → DataPlane
punch_as d tunnel none = d
punch_as d tunnel (some plan) = execute_punch d plan (take punch_burst (tunnel plan.session))

-- One event of the queue.
unfoldable pub on_punch :
    Formats
    → DataPlane
    → (my_peer_id : ℕ) → HolePunchInitiate
    → (tunnel : ℕ → List WgAction) → DataPlane
on_punch formats d my_peer_id event tunnel =
    punch_as d tunnel (plan_punch formats d.sessions my_peer_id event)
