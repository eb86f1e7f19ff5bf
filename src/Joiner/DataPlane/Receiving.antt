-- ===== src/Joiner/DataPlane/Receiving.antt =====
-- What crates/mesh-joiner/src/wg/loops.rs lets into the node: which packets reach the TUN device, and
-- which frames confirm a direct path.
use tabbify_service_mesh.Formats.{SocketAddr, socket_eq}
use tabbify_service_mesh.Allocator.{addr_eq}
use tabbify_service_mesh.Joiner.DataPlane.{
  direct_probe_interval_micros, RelayHandle, DataPlane, stamp_send, send_direct, send_floor,
  send_bare, send_unconfirmed, confirmed_endpoint, send_by, send_stamped, send_wire,
}
use tabbify_service_mesh.Joiner.Packets.{is_wg_keepalive, is_wg_data_frame}
use tabbify_service_mesh.Joiner.Commands.Once.{after}
use tabbify_service_mesh.Joiner.Sessions.Clocks.{note_send_attempt}
use tabbify_service_mesh.Joiner.Sessions.{SessionTable, write_session}
use tabbify_service_mesh.Joiner.Session.{
  PeerSession, clear_handshake_backoff, note_direct_rx, note_handshake_rx, note_direct_tx,
  note_handshake_failure, should_probe_direct, direct_suppressed,
}
use tabbify_service_mesh.Shared.{
  Bool-cases, ◌==◌, nat_eq, list_eq, option_eq, pair_eq, Text, bytes, pos, sub_ℕ, leb_ℤ, ℕ, ◌≡◌,
  refl, ◌∙◌, inl, inr, Bool, not, ◌&&◌, Option, none, some,
}

-- Sessions keep their sources, and whether their path is confirmed.
abbrev pub Kept : (before after : SessionTable) → Type 0
Kept before after =
    (k : ℕ)
    → ((after.heap k).allowed_ips ≡ (before.heap k).allowed_ips)
      × ((after.heap k).direct_confirmed ≡ (before.heap k).direct_confirmed)

abbrev pub Quiet : (PeerSession → PeerSession) → Type 0
Quiet f =
    (s : PeerSession)
    → ((f s).allowed_ips ≡ s.allowed_ips) × ((f s).direct_confirmed ≡ s.direct_confirmed)

pub edit-Kept :
    (t : SessionTable) (session : ℕ) (f : PeerSession → PeerSession)
    → Quiet f
    → Kept t (write_session t session f)
edit-Kept t session f q k = elim (Bool-cases (k == session)) [
  | inl same ↦ rw same (q (t.heap k))
  | inr other ↦ rw other (refl, refl)
]

Kept-trans : (t u v : SessionTable) → Kept t u → Kept u v → Kept t v
Kept-trans t u v p q k = ((q k).0 ∙ (p k).0, (q k).1 ∙ (p k).1)

direct_tx-Quiet : (now : ℕ) → Quiet (λ s. note_direct_tx s now)
unfolding note_direct_tx
direct_tx-Quiet now s = (refl, refl)

pub direct_rx-Quiet : (now : ℕ) → Quiet (λ s. note_direct_rx s now)
unfolding note_direct_rx clear_handshake_backoff
direct_rx-Quiet now s = (refl, refl)

pub handshake_rx-Quiet : (direct : Bool) (now : ℕ) → Quiet (λ s. note_handshake_rx s direct now)
unfolding note_handshake_rx
handshake_rx-Quiet direct now s = (refl, refl)

probed-Quiet :
    (now interval : ℕ)
    → Quiet (λ s. note_handshake_failure (should_probe_direct s now interval).0 now)
unfolding note_handshake_failure should_probe_direct
probed-Quiet now interval s =
    elim (Bool-cases (leb_ℤ (pos interval) (sub_ℕ now s.last_probe_micros))) [
      | inl due ↦ rw due (refl, refl)
      | inr early ↦ rw early (refl, refl)
    ]

stamp-Kept :
    (d : DataPlane) (bytes : Text) (now : ℕ) → Kept d.sessions (stamp_send d bytes now).sessions
unfolding note_send_attempt
stamp-Kept d bytes now k = elim (Bool-cases (is_wg_keepalive bytes)) [
  | inl keepalive ↦ rw (stamp_send, keepalive) (refl, refl)
  | inr other ↦ rw (stamp_send, other) (refl, refl)
]

send_direct-Kept :
    (d : DataPlane) (session : ℕ) (bytes : Text) (now : ℕ) (e : SocketAddr)
    → Kept d.sessions (send_direct d session bytes now e).sessions
send_direct-Kept d session bytes now e k = elim (Bool-cases (is_wg_data_frame bytes)) [
  | inl payload ↦
      rw (send_direct, payload)
        (edit-Kept d.sessions session (λ s. note_direct_tx s now) (direct_tx-Quiet now) k)
  | inr other ↦ rw (send_direct, other) (refl, refl)
]

send_floor-Kept :
    (d : DataPlane) (relay : RelayHandle) (session : ℕ) (bytes : Text) (now : ℕ)
    (o : Option SocketAddr)
    → Kept d.sessions (send_floor d relay session bytes now o).sessions
send_floor-Kept d relay session bytes now none k = (refl, refl)
send_floor-Kept d relay session bytes now (some e) k =
    let s = d.sessions.heap session in
    let claim = (should_probe_direct s now direct_probe_interval_micros).1 in
    elim (Bool-cases (not relay.relay_only && (not (direct_suppressed s now) && claim))) [
      | inl probe ↦
          rw (send_floor, probe)
            (edit-Kept d.sessions session
              (λ u.
                note_handshake_failure (should_probe_direct u now direct_probe_interval_micros).0
                  now)
              (probed-Quiet now direct_probe_interval_micros) k)
      | inr held ↦ rw (send_floor, held) (refl, refl)
    ]

send_bare-Kept :
    (d : DataPlane) (bytes : Text) (o : Option SocketAddr)
    → Kept d.sessions (send_bare d bytes o).sessions
send_bare-Kept d bytes none k = (refl, refl)
send_bare-Kept d bytes (some e) k = (refl, refl)

send_unconfirmed-Kept :
    (d : DataPlane) (r : Option RelayHandle) (session : ℕ) (bytes : Text) (now : ℕ)
    → Kept d.sessions (send_unconfirmed d r session bytes now).sessions
send_unconfirmed-Kept d none session bytes now =
    send_bare-Kept d bytes (d.sessions.heap session).endpoint
send_unconfirmed-Kept d (some relay) session bytes now =
    send_floor-Kept d relay session bytes now (d.sessions.heap session).endpoint

send_by-Kept :
    (d : DataPlane) (o : Option SocketAddr) (session : ℕ) (bytes : Text) (now : ℕ)
    → Kept d.sessions (send_by d o session bytes now).sessions
send_by-Kept d none session bytes now = send_unconfirmed-Kept d d.relay session bytes now
send_by-Kept d (some e) session bytes now = send_direct-Kept d session bytes now e

pub send_wire-Kept :
    (d : DataPlane) (session : ℕ) (bytes : Text) (now : ℕ)
    → Kept d.sessions (send_wire d session bytes now).sessions
unfolding send_wire
send_wire-Kept d session bytes now =
    let stamped = stamp_send d bytes now in
    Kept-trans d.sessions stamped.sessions (send_stamped stamped session bytes now).sessions
      (stamp-Kept d bytes now)
      (send_by-Kept stamped (confirmed_endpoint (stamped.sessions.heap session)) session bytes now)
