-- ===== src/Joiner/DataPlane/TimerSilence.antt =====
-- The timer of crates/mesh-joiner/src/wg/loops.rs on a node that is to use only the relay.
use tabbify_service_mesh.Joiner.Sessions.Liveness.{should_emit_idle_probe-heap}
use tabbify_service_mesh.Formats.{socket_eq}
use tabbify_service_mesh.Allocator.{Ipv6Addr, addr_eq}
use tabbify_service_mesh.Joiner.DataPlane.Timers.{
  Tunnels, rearm_base_micros, floor_action, maybe_rearm_expired_session, may_probe,
  maybe_direct_data_probe, send_outbound, timer_session, timer_sessions, seed_rx_clock,
  idle_probe_target, probe_session, maybe_idle_probe, timer_tick,
}
use tabbify_service_mesh.Joiner.DataPlane.{
  WgAction, send_to_peer, deliver_to_tun, nothing, error, RelayHandle, try_relay, DataPlane, edit,
  stamp_send, relay_if_some, send_wire_relay_floored, send_action,
}
use tabbify_service_mesh.Joiner.Packets.{is_wg_keepalive, direct_probe_packet}
use tabbify_service_mesh.Joiner.DataPlane.RelayOnly.{
  FloorOnly, Floored, Silent, Silent-trans, Silent-either, send_wire-Silent, edit-Silent,
}
use tabbify_service_mesh.Joiner.Sessions.Clocks.{
  idle_probe_after_micros, note_inbound_data_frame, note_send_attempt, should_emit_idle_probe,
}
use tabbify_service_mesh.Joiner.Session.{
  direct_path_ttl_micros, direct_tx_blackhole_ttl_micros, expired_rearm_backoff_cap_micros,
  PeerSession, downgrade_direct_if_tx_blackholed, downgrade_direct_if_stale, should_rearm_expired,
}
use tabbify_service_mesh.Shared.{
  if◌then◌else◌, is_some, Bool-cases, ◌==◌, nat_eq, list_eq, option_eq, pair_eq, Text, is_empty,
  values, ℕ, ◌≡◌, refl, ap, ◌∙◌, inl, inr, Bool, true, false, not, ◌&&◌, Option, none, some, List,
  [], ◌∷◌, arith,
}

stale_check :
    (now ttl : ℕ) (s : PeerSession)
    → s.direct_confirmed ≡ false
    → (downgrade_direct_if_stale s now ttl).direct_confirmed ≡ false
unfolding downgrade_direct_if_stale
stale_check now ttl s c = rw (downgrade_direct_if_stale, c) refl

blackhole_check :
    (now ttl : ℕ) (s : PeerSession)
    → s.direct_confirmed ≡ false
    → (downgrade_direct_if_tx_blackholed s now ttl).0.direct_confirmed ≡ false
unfolding downgrade_direct_if_tx_blackholed
blackhole_check now ttl s c = rw (downgrade_direct_if_tx_blackholed, c) refl

rearm_check :
    (now base cap : ℕ) (s : PeerSession)
    → s.direct_confirmed ≡ false
    → (should_rearm_expired s now base cap).0.direct_confirmed ≡ false
unfolding should_rearm_expired
rearm_check now base cap s c = ground (arith, c)

stamp-Silent :
    (d : DataPlane) (frame : Text) (now : ℕ) → Floored d → Silent d (stamp_send d frame now)
unfolding note_send_attempt
stamp-Silent d frame now w = elim (Bool-cases (is_wg_keepalive frame)) [
  | inl keepalive ↦ rw (stamp_send, keepalive) (refl, w)
  | inr other ↦ rw (stamp_send, other) (refl, w)
]

relay_if_some-Silent :
    (d : DataPlane) (r : Option RelayHandle) (pubkey frame : Text)
    → FloorOnly r
    → Floored d
    → Silent d (relay_if_some d r pubkey frame)
unfolding try_relay
relay_if_some-Silent d none pubkey frame o w = (refl, w)
relay_if_some-Silent d (some relay) pubkey frame o w = (refl, (o, w.1))

floor_action-Silent :
    (d : DataPlane) (session : ℕ) (action : WgAction) (now : ℕ)
    → Floored d
    → Silent d (floor_action d session action now)
unfolding send_wire_relay_floored
floor_action-Silent d session nothing now w = (refl, w)
floor_action-Silent d session (error e) now w = (refl, w)
floor_action-Silent d session (deliver_to_tun p) now w = (refl, w)
floor_action-Silent d session (send_to_peer frame) now w =
    let stamped = stamp_send d frame now in
    let s = stamp-Silent d frame now w in
    Silent-trans d stamped
      (relay_if_some stamped d.relay (d.sessions.heap session).peer_pubkey frame) s
      (relay_if_some-Silent stamped d.relay (d.sessions.heap session).peer_pubkey frame w.0 s.1)

abbrev when : Bool → (acted idle : DataPlane) → DataPlane × Bool
when b acted idle = if b then (acted, true) else (idle, false)

maybe_rearm-Silent :
    (tunnels : Tunnels) (d : DataPlane) (session now : ℕ)
    → Floored d
    → Silent d (maybe_rearm_expired_session tunnels d session now).0
unfolding maybe_rearm_expired_session
maybe_rearm-Silent tunnels d session now w =
    let s = d.sessions.heap session in
    let base = rearm_base_micros s.eager_convergence in
    let cap = expired_rearm_backoff_cap_micros in
    let claim = λ (u : PeerSession). (should_rearm_expired u now base cap).0 in
    let claimed = edit d session claim in
    let c = edit-Silent d session claim (rearm_check now base cap) w in
    by_due
      (tunnels.is_expired session && (is_some d.relay && (should_rearm_expired s now base cap).1))
      claimed
      (Silent-trans d claimed (floor_action claimed session (tunnels.handshake_init session) now) c
        (floor_action-Silent claimed session (tunnels.handshake_init session) now c.1))
  where
    by_due :
        (b : Bool) (claimed : DataPlane)
        → Silent d (floor_action claimed session (tunnels.handshake_init session) now)
        → Silent d (when b (floor_action claimed session (tunnels.handshake_init session) now) d).0
    by_due true claimed h = h
    by_due false claimed h = (refl, w)

no_probe :
    (r : Option RelayHandle) (s : PeerSession) (now : ℕ) → FloorOnly r → may_probe r s now ≡ false
no_probe none s now o = absurd o
no_probe (some relay) s now o = rw (may_probe, o) refl

data_probe-Silent :
    (tunnels : Tunnels) (d : DataPlane) (session : ℕ) (my_ula : Ipv6Addr) (now : ℕ)
    → Floored d
    → Silent d (maybe_direct_data_probe tunnels d session my_ula now)
unfolding maybe_direct_data_probe
data_probe-Silent tunnels d session my_ula now w =
    rw (maybe_direct_data_probe, no_probe d.relay (d.sessions.heap session) now w.0) (refl, w)

send_outbound-Silent :
    (d : DataPlane) (session : ℕ) (o : Option Text) (now : ℕ)
    → Floored d
    → Silent d (send_outbound d session o now)
send_outbound-Silent d session none now w = (refl, w)
send_outbound-Silent d session (some frame) now w = send_wire-Silent d session frame now w

-- One session's part of a tick.
timer_session-Silent :
    (tunnels : Tunnels) (my_ula : Ipv6Addr) (now : ℕ) (d : DataPlane) (session : ℕ)
    → Floored d
    → Silent d (timer_session tunnels my_ula now d session)
unfolding timer_session
timer_session-Silent tunnels my_ula now d session w =
    let stale = λ (s : PeerSession). downgrade_direct_if_stale s now direct_path_ttl_micros in
    let hole = λ (s : PeerSession).
      (downgrade_direct_if_tx_blackholed s now direct_tx_blackhole_ttl_micros).0 in
    let fresh = edit d session stale in
    let heard = edit fresh session hole in
    let a = edit-Silent d session stale (stale_check now direct_path_ttl_micros) w in
    let b =
      edit-Silent fresh session hole (blackhole_check now direct_tx_blackhole_ttl_micros) a.1 in
    let to_heard = Silent-trans d fresh heard a b in
    let rearmed = maybe_rearm_expired_session tunnels heard session now in
    let r = maybe_rearm-Silent tunnels heard session now b.1 in
    let sent = send_outbound heard session (tunnels.update_timers session) now in
    let s = send_outbound-Silent heard session (tunnels.update_timers session) now b.1 in
    let probed = maybe_direct_data_probe tunnels sent session my_ula now in
    let p = data_probe-Silent tunnels sent session my_ula now s.1 in
    Silent-either d rearmed.1 rearmed.0 probed (Silent-trans d heard rearmed.0 to_heard r)
      (Silent-trans d heard probed to_heard (Silent-trans heard sent probed s p))

timer_sessions-Silent :
    (tunnels : Tunnels) (my_ula : Ipv6Addr) (now : ℕ) (d : DataPlane) (sessions : List ℕ)
    → Floored d
    → Silent d (timer_sessions tunnels my_ula now d sessions)
timer_sessions-Silent tunnels my_ula now d [] w = (refl, w)
timer_sessions-Silent tunnels my_ula now d (session ∷ others) w =
    let next = timer_session tunnels my_ula now d session in
    let one = timer_session-Silent tunnels my_ula now d session w in
    Silent-trans d next (timer_sessions tunnels my_ula now next others) one
      (timer_sessions-Silent tunnels my_ula now next others one.1)

seed-Silent : (d : DataPlane) (now : ℕ) → Floored d → Silent d (seed_rx_clock d now)
unfolding note_inbound_data_frame
seed-Silent d now w =
    elim (Bool-cases
      (not (is_empty d.sessions.by_ula) && (d.sessions.last_inbound_data_frame_ts == 0))) [
        | inl first ↦ rw (seed_rx_clock, first) (refl, w)
        | inr running ↦ rw (seed_rx_clock, running) (refl, w)
      ]

send_action-Silent :
    (d : DataPlane) (session : ℕ) (action : WgAction) (now : ℕ)
    → Floored d
    → Silent d (send_action d session action now)
send_action-Silent d session nothing now w = (refl, w)
send_action-Silent d session (error e) now w = (refl, w)
send_action-Silent d session (deliver_to_tun p) now w = (refl, w)
send_action-Silent d session (send_to_peer frame) now w = send_wire-Silent d session frame now w

probe_session-Silent :
    (tunnels : Tunnels) (d : DataPlane) (my_ula : Ipv6Addr) (now : ℕ) (o : Option ℕ)
    → Floored d
    → Silent d (probe_session tunnels d my_ula now o)
probe_session-Silent tunnels d my_ula now none w = (refl, w)
probe_session-Silent tunnels d my_ula now (some session) w =
    send_action-Silent d session
      (if tunnels.has_handshake session
        then tunnels.encapsulate session (direct_probe_packet my_ula (d.sessions.heap session).ula)
        else tunnels.handshake_init session)
      now w

idle_probe-Silent :
    (tunnels : Tunnels) (d : DataPlane) (my_ula : Ipv6Addr) (now : ℕ)
    → Floored d
    → Silent d (maybe_idle_probe tunnels d my_ula now)
unfolding maybe_idle_probe
idle_probe-Silent tunnels d my_ula now w =
    let asked = should_emit_idle_probe d.sessions now idle_probe_after_micros in
    let claimed = record d { sessions = asked.0 } in
    let heap = should_emit_idle_probe-heap d.sessions now idle_probe_after_micros in
    let still : (k : ℕ) → (asked.0.heap k).direct_confirmed ≡ false =
      λ k. ap (λ (h : ℕ → PeerSession). (h k).direct_confirmed) heap ∙ w.1 k in
    let c : Silent d claimed = (refl, (w.0, still)) in
    Silent-either d asked.1 (probe_session tunnels claimed my_ula now (idle_probe_target asked.0))
      claimed
      (Silent-trans d claimed (probe_session tunnels claimed my_ula now (idle_probe_target asked.0))
        c (probe_session-Silent tunnels claimed my_ula now (idle_probe_target asked.0) c.1))
      c

-- On a node that has a relay and is to use it only, and while no session in memory has a confirmed
-- direct path, a whole tick of the timer sends nothing over UDP, neither a re-handshake nor a keepalive
-- nor a probe, whatever frames the tunnels answer with; and it leaves the node in that condition.
pub timer_tick-Silent :
    (tunnels : Tunnels) (d : DataPlane) (my_ula : Ipv6Addr) (now : ℕ)
    → Floored d
    → Silent d (timer_tick tunnels d my_ula now)
unfolding timer_tick
timer_tick-Silent tunnels d my_ula now w =
    let all = timer_sessions tunnels my_ula now d (values d.sessions.by_ula) in
    let a = timer_sessions-Silent tunnels my_ula now d (values d.sessions.by_ula) w in
    let seeded = seed_rx_clock all now in
    let s = seed-Silent all now a.1 in
    Silent-trans d seeded (maybe_idle_probe tunnels seeded my_ula now)
      (Silent-trans d all seeded a s) (idle_probe-Silent tunnels seeded my_ula now s.1)
