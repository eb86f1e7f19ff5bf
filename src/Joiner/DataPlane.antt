-- ===== src/Joiner/DataPlane.antt =====
-- crates/mesh-joiner/src/wg/loops.rs: what the packet loops do with one frame, packet or timer tick,
-- and the queues of relay/client.rs (`RelayHandle`). boringtun's `Tunn` is outside the model: what it
-- makes of a frame is an argument, a `WgAction` (`classify_tunn_result` of wg/session/mod.rs), and so
-- is the time, which a handler is taken to read once.
pub mod Timers
pub mod Sending
pub mod Receiving
pub mod Filtering
pub mod Delivery
pub mod RelayOnly
pub mod TimerSilence
use tabbify_service_mesh.Formats.{SocketAddr, socket_eq}
use tabbify_service_mesh.Allocator.{Ipv6Addr, addr_eq}
use tabbify_service_mesh.Joiner.Packets.{
  first_byte, is_wg_keepalive, is_wg_data_frame, is_handshake_type, is_wg_handshake_frame,
  ipv6_destination, ipv6_source,
}
use tabbify_service_mesh.Joiner.Sessions.Clocks.{note_inbound_data_frame, note_send_attempt}
use tabbify_service_mesh.Joiner.Sessions.{
  SessionTable, write_session, session_by_ula, session_by_endpoint, learn_endpoint,
}
use tabbify_service_mesh.Joiner.Session.{
  PeerSession, note_direct_rx, confirm_direct, note_handshake_rx, note_direct_tx,
  note_handshake_failure, should_probe_direct, direct_suppressed, is_allowed_source,
}
use tabbify_service_mesh.Shared.{
  if◌then◌else◌, ◌==◌, nat_eq, list_eq, option_eq, pair_eq, Text, bytes, values, ℕ, ◌+◌, ◌%◌, ◌^◌,
  Bool, true, false, not, ◌&&◌, Option, none, some, List, [], ◌∷◌, ◌++◌,
}

abbrev pub direct_probe_interval_micros : ℕ
direct_probe_interval_micros = 1000000

pub data WgAction : Type 0 where
  send_to_peer : Text → WgAction
  deliver_to_tun : Text → WgAction
  nothing : WgAction
  error : Text → WgAction

pub record RelayOutbound : Type 0 where
  pub dst_pubkey : Text
  pub payload : Text

pub record RelayHandle : Type 0 where
  pub relay_only : Bool
  pub tx_hi : List RelayOutbound
  pub tx_lo : List RelayOutbound

-- The handshake frames take the high lane.
unfoldable pub try_relay : RelayHandle → (dst_pubkey payload : Text) → RelayHandle
try_relay r dst_pubkey payload =
    let out : RelayOutbound = record { dst_pubkey = dst_pubkey; payload = payload } in
    let hi = is_handshake_type (first_byte payload) in
    record r {
      tx_hi = if hi then r.tx_hi ++ out ∷ [] else r.tx_hi;
      tx_lo = if hi then r.tx_lo else r.tx_lo ++ out ∷ [];
    }

-- The table, the relay if there is one, what was sent over UDP, what was written to the TUN device,
-- and the count of refused inner packets.
pub record DataPlane : Type 0 where
  pub sessions : SessionTable
  pub relay : Option RelayHandle
  pub udp : List (Text × SocketAddr)
  pub tun : List Text
  pub rx_source_denied : ℕ

abbrev pub edit : DataPlane → (session : ℕ) → (PeerSession → PeerSession) → DataPlane
edit d session f = record d { sessions = write_session d.sessions session f }

abbrev pub send_udp : DataPlane → Text → SocketAddr → DataPlane
send_udp d bytes endpoint = record d { udp = d.udp ++ (bytes, endpoint) ∷ [] }

abbrev pub stamp_send : DataPlane → (bytes : Text) (now_micros : ℕ) → DataPlane
stamp_send d bytes now_micros =
    if is_wg_keepalive bytes
    then d
    else record d { sessions = note_send_attempt d.sessions now_micros }

-- The direct path, once it is confirmed.
abbrev pub send_direct :
    DataPlane → (session : ℕ) (bytes : Text) (now_micros : ℕ) → SocketAddr → DataPlane
send_direct d session bytes now_micros endpoint =
    send_udp
      (if is_wg_data_frame bytes then edit d session (λ s. note_direct_tx s now_micros) else d)
      bytes endpoint

-- The relay carries the frame, and a copy may probe the direct path.
abbrev pub send_floor :
    DataPlane
    → RelayHandle
    → (session : ℕ) (bytes : Text) (now_micros : ℕ) → Option SocketAddr
    → DataPlane
send_floor d relay session bytes now_micros none = record d {
  relay = some (try_relay relay (d.sessions.heap session).peer_pubkey bytes);
}
send_floor d relay session bytes now_micros (some endpoint) =
    let s = d.sessions.heap session in
    let claimed = should_probe_direct s now_micros direct_probe_interval_micros in
    let probe = not relay.relay_only && (not (direct_suppressed s now_micros) && claimed.1) in
    let probed =
      send_udp
        (edit d session (λ u.
          note_handshake_failure (should_probe_direct u now_micros direct_probe_interval_micros).0
            now_micros))
        bytes endpoint in
    let sent = if probe then probed else d in
    record sent { relay = some (try_relay relay s.peer_pubkey bytes) }

abbrev pub send_bare : DataPlane → (bytes : Text) → Option SocketAddr → DataPlane
send_bare d bytes none = d
send_bare d bytes (some endpoint) = send_udp d bytes endpoint

abbrev pub send_unconfirmed :
    DataPlane → Option RelayHandle → (session : ℕ) (bytes : Text) (now_micros : ℕ) → DataPlane
send_unconfirmed d none session bytes now_micros =
    send_bare d bytes (d.sessions.heap session).endpoint
send_unconfirmed d (some relay) session bytes now_micros =
    send_floor d relay session bytes now_micros (d.sessions.heap session).endpoint

abbrev pub confirmed_endpoint : PeerSession → Option SocketAddr
confirmed_endpoint s = if s.direct_confirmed then s.endpoint else none

abbrev pub send_by :
    DataPlane
    → (confirmed : Option SocketAddr) (session : ℕ) (bytes : Text) (now_micros : ℕ) → DataPlane
send_by d none session bytes now_micros = send_unconfirmed d d.relay session bytes now_micros
send_by d (some endpoint) session bytes now_micros = send_direct d session bytes now_micros endpoint

abbrev pub send_stamped : DataPlane → (session : ℕ) (bytes : Text) (now_micros : ℕ) → DataPlane
send_stamped d session bytes now_micros =
    send_by d (confirmed_endpoint (d.sessions.heap session)) session bytes now_micros

unfoldable pub send_wire : DataPlane → (session : ℕ) (bytes : Text) (now_micros : ℕ) → DataPlane
send_wire d session bytes now_micros =
    send_stamped (stamp_send d bytes now_micros) session bytes now_micros

abbrev pub relay_if_some : DataPlane → Option RelayHandle → (pubkey bytes : Text) → DataPlane
relay_if_some d none pubkey bytes = d
relay_if_some d (some relay) pubkey bytes = record d { relay = some (try_relay relay pubkey bytes) }

unfoldable pub send_wire_relay_floored :
    DataPlane → (session : ℕ) (bytes : Text) (now_micros : ℕ) → DataPlane
send_wire_relay_floored d session bytes now_micros =
    relay_if_some (stamp_send d bytes now_micros) d.relay (d.sessions.heap session).peer_pubkey
      bytes

abbrev pub source_allowed : PeerSession → Option Ipv6Addr → Bool
source_allowed s none = false
source_allowed s (some source) = is_allowed_source s source

unfoldable pub inner_source_allowed : PeerSession → (packet : Text) → Bool
inner_source_allowed s packet = source_allowed s (ipv6_source packet)

unfoldable pub apply_wg_action :
    DataPlane → (via_direct : Bool) (session : ℕ) → WgAction → (now_micros : ℕ) → DataPlane
apply_wg_action d via_direct session nothing now_micros = d
apply_wg_action d via_direct session (error e) now_micros = d
apply_wg_action d via_direct session (send_to_peer bytes) now_micros =
    send_wire d session bytes now_micros
apply_wg_action d via_direct session (deliver_to_tun bytes) now_micros =
    let heard = record d {
      sessions = note_inbound_data_frame d.sessions now_micros;
      tun = d.tun ++ bytes ∷ [];
    } in
    if inner_source_allowed (d.sessions.heap session) bytes
    then (if via_direct then edit heard session (λ s. confirm_direct s now_micros) else heard)
    else record d { rx_source_denied = (d.rx_source_denied + 1) % 2 ^ 64 }

-- The frames that the tunnel still has, up to the first `nothing`.
abbrev pub drain :
    DataPlane → (via_direct : Bool) (session : ℕ) → List WgAction → (now_micros : ℕ) → DataPlane
drain d via_direct session [] now_micros = d
drain d via_direct session (nothing ∷ more) now_micros = d
drain d via_direct session (action ∷ more) now_micros =
    drain (apply_wg_action d via_direct session action now_micros) via_direct session more
      now_micros

abbrev pub is_error : WgAction → Bool
is_error (error e) = true
is_error other = false

-- `first` is what the tunnel makes of the datagram, `queued` what it gives afterwards.
unfoldable pub process_inbound_datagram :
    DataPlane
    → (via_direct : Bool) (session : ℕ) (datagram : Text)
    → (first : WgAction) (queued : List WgAction) → (now_micros : ℕ) → DataPlane
process_inbound_datagram d via_direct session datagram first queued now_micros =
    let rx =
      if via_direct && not (is_error first)
      then edit d session (λ s. note_direct_rx s now_micros)
      else d in
    let noted =
      if is_wg_handshake_frame datagram && not (is_error first)
      then edit rx session (λ s. note_handshake_rx s via_direct now_micros)
      else rx in
    drain (apply_wg_action noted via_direct session first now_micros) via_direct session queued
      now_micros

-- A packet read from the TUN device; `encapsulated` is what the tunnel makes of it.
abbrev pub send_action : DataPlane → (session : ℕ) → WgAction → (now_micros : ℕ) → DataPlane
send_action d session (send_to_peer bytes) now_micros = send_wire d session bytes now_micros
send_action d session other now_micros = d

unfoldable pub tun_read :
    DataPlane
    → (my_ula : Ipv6Addr) (packet : Text) → (encapsulated : (session : ℕ) → WgAction)
    → (now_micros : ℕ) → DataPlane
tun_read d my_ula packet encapsulated now_micros = elim (ipv6_destination packet) [
  | none ↦ d
  | some dst ↦ if dst == my_ula then d else elim (session_by_ula d.sessions dst) [
    | none ↦ d
    | some session ↦ send_action d session (encapsulated session) now_micros
  ]
]

-- A tunnel that makes nothing of a datagram, or refuses it.
abbrev pub declines : WgAction → Bool
declines nothing = true
declines (error e) = true
declines other = false

-- A datagram from an unknown source: the first session whose tunnel takes it learns the source.
abbrev pub try_sessions :
    DataPlane
    → (peer_addr : SocketAddr) (datagram : Text)
    → (decapsulated : (session : ℕ) → WgAction) (queued : (session : ℕ) → List WgAction)
    → (now_micros : ℕ) → List ℕ
    → DataPlane
try_sessions d peer_addr datagram decapsulated queued now_micros [] = d
try_sessions d peer_addr datagram decapsulated queued now_micros (session ∷ others) =
    let next = try_sessions d peer_addr datagram decapsulated queued now_micros others in
    let learned = record d { sessions = learn_endpoint d.sessions session peer_addr } in
    let taken =
      process_inbound_datagram learned true session datagram (decapsulated session) (queued session)
        now_micros in
    if declines (decapsulated session) then next else taken

unfoldable pub udp_recv :
    DataPlane
    → (peer_addr : SocketAddr) (datagram : Text)
    → (decapsulated : (session : ℕ) → WgAction) (queued : (session : ℕ) → List WgAction)
    → (now_micros : ℕ) → DataPlane
udp_recv d peer_addr datagram decapsulated queued now_micros =
    elim (session_by_endpoint d.sessions peer_addr) [
      | some session ↦
          process_inbound_datagram d true session datagram (decapsulated session) (queued session)
            now_micros
      | none ↦
          try_sessions d peer_addr datagram decapsulated queued now_micros
            (values d.sessions.by_ula)
    ]
