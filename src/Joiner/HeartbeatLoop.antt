-- ===== src/Joiner/HeartbeatLoop.antt =====
-- crates/mesh-joiner/src/coordinator/heartbeat.rs: one heartbeat and what follows from its answer, with
-- the registration's fallback after a conflict, and `peer_paths_from_sessions` of joiner.rs. The
-- coordinator's answers, and the clock's readings, are arguments.
pub mod Recovery
use tabbify_service_mesh.Formats.{SocketAddr, socket_eq, Formats}
use tabbify_service_mesh.Allocator.{addr_eq}
use tabbify_service_mesh.Joiner.Sync.{reconcile_roster}
use tabbify_service_mesh.Joiner.Commands.{
  NodeCommand, Crypto, CommandGate, Effect, process_commands,
}
use tabbify_service_mesh.Joiner.Sessions.Clocks.{
  dataplane_rx_silence_threshold_micros, dataplane_healthy,
}
use tabbify_service_mesh.Joiner.Sessions.{SessionTable}
use tabbify_service_mesh.Joiner.Session.{PeerSession, path_status, handshake_status}
use tabbify_service_mesh.Joiner.Peers.{RemotePeer}
use tabbify_service_mesh.Shared.{
  if◌then◌else◌, ◌==◌, nat_eq, list_eq, option_eq, pair_eq, Text, map_option, values, Result, ok,
  err, ℤ, pos, negsuc, ℕ, ◌/◌, Bool, true, false, not, ◌&&◌, Option, none, List, [], ◌∷◌, ◌++◌, map,
}

pub data JoinerError : Type 0 where
  http_status : (status : ℕ) (body : Text) → JoinerError
  http_transport : Text → JoinerError
  json_codec : Text → JoinerError

pub record ReregisterInputs : Type 0 where
  pub our_public : Text
  pub advertise_endpoint : Option Text
  pub display_name : Text
  pub tags : List Text
  pub join_token : Option Text
  pub requested_ula : Option Text
  pub strict_requested_ula : Bool
  pub kind : Option Text
  pub parent : Option Text
  pub app_uuid : Option Text
  pub relay_only : Bool

-- One call of `CoordinatorClient::register`.
pub record RegisterCall : Type 0 where
  pub inputs : ReregisterInputs
  pub wg_listen_port : ℕ
  pub software_version : Option Text
  pub mesh_version : Option Text
  pub requested_ula : Option Text

pub record RegisterResponse : Type 0 where
  pub peer_id : ℕ
  pub ula : Text
  pub peers : List RemotePeer

-- The coordinator's answer to the n-th call.
abbrev pub Registry : Type 0
Registry = (call_number : ℕ) → RegisterCall → Result JoinerError RegisterResponse

unfoldable pub register_attempt :
    ReregisterInputs
    → (wg_listen_port : ℕ) (software_version mesh_version requested_ula : Option Text)
    → RegisterCall
register_attempt inputs wg_listen_port software_version mesh_version requested_ula = record {
  inputs = inputs;
  wg_listen_port = wg_listen_port;
  software_version = software_version;
  mesh_version = mesh_version;
  requested_ula = requested_ula;
}

abbrev pub is_status : ℕ → JoinerError → Bool
is_status n (http_status status body) = status == n
is_status n (http_transport e) = false
is_status n (json_codec e) = false

abbrev pub after_first :
    Registry
    → (first : RegisterCall) → Result JoinerError RegisterResponse
    → Result JoinerError RegisterResponse × List RegisterCall
after_first registry first (ok resp) = (ok resp, first ∷ [])
after_first registry first (err e) =
    let free = register_attempt first.inputs first.wg_listen_port none none none in
    if is_status 409 e && not first.inputs.strict_requested_ula
    then (registry 1 free, first ∷ free ∷ [])
    else (err e, first ∷ [])

-- The answer, and the calls made for it.
unfoldable pub register_with_409_fallback :
    Registry
    → ReregisterInputs
    → (wg_listen_port : ℕ) (software_version mesh_version requested_ula : Option Text)
    → Result JoinerError RegisterResponse × List RegisterCall
register_with_409_fallback registry inputs wg_listen_port software_version mesh_version
      requested_ula =
    let first =
      register_attempt inputs wg_listen_port software_version mesh_version requested_ula in
    after_first registry first (registry 0 first)

pub record PeerPath : Type 0 where
  pub peer_id : ℕ
  pub direct : Bool
  pub last_rx_age_ms : ℕ
  pub last_handshake_direct : Option Bool
  pub last_handshake_age_ms : Option ℕ
  pub handshake_rx_total : ℕ

-- `(age / 1_000).max(0) as u64`
abbrev pub millis : ℤ → ℕ
millis (pos n) = n / 1000
millis (negsuc n) = 0

abbrev pub path_of : (now_micros : ℕ) → PeerSession → PeerPath
path_of now_micros s =
    let path = path_status s now_micros in
    let handshake = handshake_status s now_micros in
    record {
      peer_id = s.peer_id;
      direct = path.0;
      last_rx_age_ms = millis path.1;
      last_handshake_direct = map_option (λ (p : Bool × ℤ). p.0) handshake.1;
      last_handshake_age_ms = map_option (λ (p : Bool × ℤ). millis p.1) handshake.1;
      handshake_rx_total = handshake.0;
    }

unfoldable pub peer_paths_from_sessions : SessionTable → (now_micros : ℕ) → List PeerPath
peer_paths_from_sessions t now_micros = map (λ h. path_of now_micros (t.heap h)) (values t.by_ula)

pub record HeartbeatRequest : Type 0 where
  pub peer_id : ℕ
  pub wg_listen_port : ℕ
  pub hosted_app_ulas : List Text
  pub software_version : Option Text
  pub mesh_version : Option Text
  pub relay_only : Bool
  pub peer_paths : List PeerPath
  pub dataplane_healthy : Bool
  pub executed_command_ids : List Text

pub record HeartbeatResponse : Type 0 where
  pub peers : List RemotePeer
  pub pending_commands : List NodeCommand

-- What the loop keeps, with the register calls that it made and the effects of the commands.
pub record LoopState : Type 0 where
  pub sessions : SessionTable
  pub peer_id : ℕ
  pub handling_roster_loss : Bool
  pub command_gate : CommandGate
  pub pending_acks : List Text
  pub register_calls : List RegisterCall
  pub effects : List Effect

-- What does not change from tick to tick: the formats, the resolver, the signature scheme, the inputs
-- of a registration, the listening port, and what the heartbeat advertises.
pub record Settings : Type 0 where
  pub formats : Formats
  pub lookup_host : Text → Option (List SocketAddr)
  pub crypto : Crypto
  pub reregister : ReregisterInputs
  pub wg_listen_port : ℕ
  pub hosted_app_ulas : List Text
  pub software_version : Option Text
  pub mesh_version : Option Text

-- The outside world during one tick.
pub record Tick : Type 0 where
  pub now_micros : ℕ
  pub heartbeat : HeartbeatRequest → Result JoinerError HeartbeatResponse
  pub registry : Registry
  pub saved : Text → Bool

unfoldable pub heartbeat_request : Settings → LoopState → (now_micros : ℕ) → HeartbeatRequest
heartbeat_request c s now_micros = record {
  peer_id = s.peer_id;
  wg_listen_port = c.wg_listen_port;
  hosted_app_ulas = c.hosted_app_ulas;
  software_version = c.software_version;
  mesh_version = c.mesh_version;
  relay_only = c.reregister.relay_only;
  peer_paths = peer_paths_from_sessions s.sessions now_micros;
  dataplane_healthy = dataplane_healthy s.sessions now_micros dataplane_rx_silence_threshold_micros;
  executed_command_ids = s.pending_acks;
}

abbrev pub adopt : Settings → LoopState → Result JoinerError RegisterResponse → LoopState
adopt c s (err e) = s
adopt c s (ok resp) = record s {
  peer_id = resp.peer_id;
  sessions = reconcile_roster c.formats c.lookup_host s.sessions resp.peers;
}

unfoldable pub reregister_after_roster_loss : Settings → Tick → LoopState → LoopState
reregister_after_roster_loss c tick s =
    let out =
      register_with_409_fallback tick.registry c.reregister c.wg_listen_port none none
        c.reregister.requested_ula in
    adopt c (record s { register_calls = s.register_calls ++ out.1 }) out.0

-- A 404: a re-registration, unless one is under way (`guard`).
abbrev pub on_forgotten : Settings → Tick → LoopState → (guard : Bool) → LoopState
on_forgotten c tick s true = s
on_forgotten c tick s false =
    reregister_after_roster_loss c tick (record s { handling_roster_loss = true })

abbrev pub on_answer :
    Settings → Tick → LoopState → Result JoinerError HeartbeatResponse → LoopState
on_answer c tick s (ok resp) =
    let sessions = reconcile_roster c.formats c.lookup_host s.sessions resp.peers in
    let done =
      process_commands c.formats c.crypto resp.pending_commands s.command_gate sessions
        tick.now_micros tick.saved in
    record s {
      handling_roster_loss = false;
      sessions = sessions;
      command_gate = done.gate;
      effects = s.effects ++ done.effects;
      pending_acks = done.acks;
    }
on_answer c tick s (err e) =
    if is_status 404 e
    then on_forgotten c tick (record s { pending_acks = [] }) s.handling_roster_loss
    else s

-- The acknowledgements are taken out before the heartbeat is sent, and put back if it fails otherwise
-- than with a 404; a response without commands leaves none.
unfoldable pub tick_once : Settings → Tick → LoopState → LoopState
tick_once c tick s = on_answer c tick s (tick.heartbeat (heartbeat_request c s tick.now_micros))
