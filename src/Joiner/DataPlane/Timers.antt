-- ===== src/Joiner/DataPlane/Timers.antt =====
-- The timer loop of crates/mesh-joiner/src/wg/loops.rs: what a tick does for each session and for the
-- node, and the convergence kick.
use tabbify_service_mesh.Formats.{SocketAddr, socket_eq}
use tabbify_service_mesh.Allocator.{Ipv6Addr, segments, addr_eq}
use tabbify_service_mesh.Joiner.DataPlane.{
  direct_probe_interval_micros, WgAction, send_to_peer, RelayHandle, DataPlane, edit, send_udp,
  send_wire, send_wire_relay_floored, send_action,
}
use tabbify_service_mesh.Joiner.Packets.{direct_probe_packet}
use tabbify_service_mesh.Joiner.Sessions.Clocks.{
  idle_probe_after_micros, note_inbound_data_frame, should_emit_idle_probe,
}
use tabbify_service_mesh.Joiner.Sessions.{SessionTable}
use tabbify_service_mesh.Joiner.Session.{
  direct_path_ttl_micros, direct_tx_blackhole_ttl_micros, expired_rearm_backoff_micros,
  expired_rearm_backoff_cap_micros, convergence_rearm_backoff_micros, PeerSession,
  note_handshake_failure, downgrade_direct_if_tx_blackholed, downgrade_direct_if_stale,
  should_probe_direct, direct_suppressed, should_rearm_expired,
}
use tabbify_service_mesh.Shared.{
  ltb, if◌then◌else◌, is_some, ◌==◌, nat_eq, list_eq, option_eq, pair_eq, Text, bytes, is_empty,
  any, values, ℕ, Bool, true, false, not, ◌&&◌, ◌||◌, Option, none, some, List, [], ◌∷◌,
}

-- What the tunnels of the sessions answer during a tick: `is_expired`, an empty packet encapsulated,
-- `update_timers`, whether a handshake was ever made, and a packet encapsulated.
pub record Tunnels : Type 0 where
  pub is_expired : (session : ℕ) → Bool
  pub handshake_init : (session : ℕ) → WgAction
  pub update_timers : (session : ℕ) → Option Text
  pub has_handshake : (session : ℕ) → Bool
  pub encapsulate : (session : ℕ) → Text → WgAction

unfoldable pub rearm_base_micros : (eager : Bool) → ℕ
rearm_base_micros eager =
    if eager then convergence_rearm_backoff_micros else expired_rearm_backoff_micros

abbrev pub floor_action : DataPlane → (session : ℕ) → WgAction → (now_micros : ℕ) → DataPlane
floor_action d session (send_to_peer bytes) now_micros =
    send_wire_relay_floored d session bytes now_micros
floor_action d session other now_micros = d

unfoldable pub maybe_rearm_expired_session :
    Tunnels → DataPlane → (session now_micros : ℕ) → DataPlane × Bool
maybe_rearm_expired_session tunnels d session now_micros =
    let s = d.sessions.heap session in
    let base = rearm_base_micros s.eager_convergence in
    let asked = should_rearm_expired s now_micros base expired_rearm_backoff_cap_micros in
    let claimed =
      edit d session
        (λ u. (should_rearm_expired u now_micros base expired_rearm_backoff_cap_micros).0) in
    if tunnels.is_expired session && (is_some d.relay && asked.1)
    then (floor_action claimed session (tunnels.handshake_init session) now_micros, true)
    else (d, false)

-- The probe itself, which is a failure until an answer comes.
abbrev pub emit_probe :
    DataPlane → (session : ℕ) → SocketAddr → WgAction → (now_micros : ℕ) → DataPlane
emit_probe d session endpoint (send_to_peer bytes) now_micros =
    edit (send_udp d bytes endpoint) session (λ s. note_handshake_failure s now_micros)
emit_probe d session endpoint other now_micros = d

abbrev pub may_probe : Option RelayHandle → PeerSession → (now_micros : ℕ) → Bool
may_probe none s now_micros = false
may_probe (some relay) s now_micros =
    not relay.relay_only && (not s.direct_confirmed && not (direct_suppressed s now_micros))

abbrev pub data_probe_to :
    Tunnels
    → DataPlane
    → (session : ℕ) (my_ula : Ipv6Addr) (now_micros : ℕ) → Option SocketAddr
    → DataPlane
data_probe_to tunnels d session my_ula now_micros none = d
data_probe_to tunnels d session my_ula now_micros (some endpoint) =
    let s = d.sessions.heap session in
    let asked = should_probe_direct s now_micros direct_probe_interval_micros in
    let claimed =
      edit d session (λ u. (should_probe_direct u now_micros direct_probe_interval_micros).0) in
    let packet = direct_probe_packet my_ula s.ula in
    let probed =
      emit_probe claimed session endpoint (tunnels.encapsulate session packet) now_micros in
    if asked.1 then (if tunnels.has_handshake session then probed else claimed) else d

unfoldable pub maybe_direct_data_probe :
    Tunnels → DataPlane → (session : ℕ) (my_ula : Ipv6Addr) (now_micros : ℕ) → DataPlane
maybe_direct_data_probe tunnels d session my_ula now_micros =
    let s = d.sessions.heap session in
    let probed = data_probe_to tunnels d session my_ula now_micros s.endpoint in
    if may_probe d.relay s now_micros then probed else d

abbrev pub send_outbound : DataPlane → (session : ℕ) → Option Text → (now_micros : ℕ) → DataPlane
send_outbound d session none now_micros = d
send_outbound d session (some bytes) now_micros = send_wire d session bytes now_micros

-- One session's part of a tick.
unfoldable pub timer_session :
    Tunnels → (my_ula : Ipv6Addr) (now_micros : ℕ) → DataPlane → (session : ℕ) → DataPlane
timer_session tunnels my_ula now_micros d session =
    let fresh =
      edit d session (λ s. downgrade_direct_if_stale s now_micros direct_path_ttl_micros) in
    let heard =
      edit fresh session
        (λ s. (downgrade_direct_if_tx_blackholed s now_micros direct_tx_blackhole_ttl_micros).0) in
    let rearmed = maybe_rearm_expired_session tunnels heard session now_micros in
    let sent = send_outbound heard session (tunnels.update_timers session) now_micros in
    if rearmed.1 then rearmed.0 else maybe_direct_data_probe tunnels sent session my_ula now_micros

abbrev pub timer_sessions :
    Tunnels → (my_ula : Ipv6Addr) (now_micros : ℕ) → DataPlane → List ℕ → DataPlane
timer_sessions tunnels my_ula now_micros d [] = d
timer_sessions tunnels my_ula now_micros d (session ∷ others) =
    timer_sessions tunnels my_ula now_micros (timer_session tunnels my_ula now_micros d session)
      others

-- The clock of received data starts when there is a first peer.
abbrev pub seed_rx_clock : DataPlane → (now_micros : ℕ) → DataPlane
seed_rx_clock d now_micros =
    if not (is_empty d.sessions.by_ula) && (d.sessions.last_inbound_data_frame_ts == 0)
    then record d { sessions = note_inbound_data_frame d.sessions now_micros }
    else d

-- Addresses compare by their segments.
abbrev pub segments_lt : List ℕ → List ℕ → Bool
segments_lt [] [] = false
segments_lt [] (y ∷ ys) = true
segments_lt (x ∷ xs) [] = false
segments_lt (x ∷ xs) (y ∷ ys) = ltb x y || ((x == y) && segments_lt xs ys)

abbrev pub better : SessionTable → ℕ → Option ℕ → Bool
better t session none = true
better t session (some current) =
    segments_lt (segments (t.heap session).ula) (segments (t.heap current).ula)

abbrev pub probe_targets :
    SessionTable → (relay_anchored any : Option ℕ) → List ℕ → Option ℕ × Option ℕ
probe_targets t relay_anchored any [] = (relay_anchored, any)
probe_targets t relay_anchored any (session ∷ others) =
    let anchored = not (t.heap session).direct_confirmed && better t session relay_anchored in
    probe_targets t (if anchored then some session else relay_anchored)
      (if better t session any then some session else any) others

abbrev pub or_else : Option ℕ → Option ℕ → Option ℕ
or_else none other = other
or_else (some h) other = some h

unfoldable pub idle_probe_target : SessionTable → Option ℕ
idle_probe_target t =
    let found = probe_targets t none none (values t.by_ula) in or_else found.0 found.1

abbrev pub probe_session :
    Tunnels → DataPlane → (my_ula : Ipv6Addr) (now_micros : ℕ) → Option ℕ → DataPlane
probe_session tunnels d my_ula now_micros none = d
probe_session tunnels d my_ula now_micros (some session) =
    let packet = direct_probe_packet my_ula (d.sessions.heap session).ula in
    let action =
      if tunnels.has_handshake session
      then tunnels.encapsulate session packet
      else tunnels.handshake_init session in
    send_action d session action now_micros

unfoldable pub maybe_idle_probe :
    Tunnels → DataPlane → (my_ula : Ipv6Addr) (now_micros : ℕ) → DataPlane
maybe_idle_probe tunnels d my_ula now_micros =
    let asked = should_emit_idle_probe d.sessions now_micros idle_probe_after_micros in
    let claimed = record d { sessions = asked.0 } in
    if asked.1
    then probe_session tunnels claimed my_ula now_micros (idle_probe_target asked.0)
    else claimed

unfoldable pub timer_tick : Tunnels → DataPlane → (my_ula : Ipv6Addr) (now_micros : ℕ) → DataPlane
timer_tick tunnels d my_ula now_micros =
    let all = timer_sessions tunnels my_ula now_micros d (values d.sessions.by_ula) in
    maybe_idle_probe tunnels (seed_rx_clock all now_micros) my_ula now_micros

unfoldable pub kick_convergence_handshake :
    Tunnels → DataPlane → (session now_micros : ℕ) → DataPlane
kick_convergence_handshake tunnels d session now_micros =
    floor_action d session (tunnels.handshake_init session) now_micros
