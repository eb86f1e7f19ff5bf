-- ===== src/Joiner/DataPlane/Sending.antt =====
-- Where crates/mesh-joiner/src/wg/loops.rs sends a frame.
use tabbify_service_mesh.Joiner.Commands.Once.{after}
use tabbify_service_mesh.Formats.{SocketAddr, socket_eq}
use tabbify_service_mesh.Allocator.{addr_eq}
use tabbify_service_mesh.Joiner.DataPlane.{
  direct_probe_interval_micros, RelayOutbound, RelayHandle, try_relay, DataPlane, stamp_send,
  send_direct, send_floor, send_bare, send_unconfirmed, confirmed_endpoint, send_by, send_stamped,
  send_wire, relay_if_some, send_wire_relay_floored,
}
use tabbify_service_mesh.Joiner.Packets.{
  first_byte, is_wg_keepalive, is_wg_data_frame, is_handshake_type,
}
use tabbify_service_mesh.Joiner.Sessions.Clocks.{note_send_attempt}
use tabbify_service_mesh.Joiner.Session.{PeerSession, should_probe_direct, direct_suppressed}
use tabbify_service_mesh.Shared.{
  ltb, if◌then◌else◌, is_some, Bool-cases, Option-cases, ◌==◌, nat_eq, list_eq, option_eq, pair_eq,
  Text, bytes, append-nil, map_option, ℕ, ◌+◌, ◌≡◌, refl, sym, ap, ◌∙◌, inl, inr, Bool, true, false,
  not, ◌&&◌, ◌||◌, Option, none, some, List, [], ◌∷◌, ◌++◌, arith,
}

-- The address that a frame is sent to over UDP: that of a confirmed path; without a relay, the one
-- that is known; with a relay, the same as a probe, if the relay is not to be the only way, the direct
-- path is not held back, and the last probe is a second old.
abbrev pub udp_target : Option RelayHandle → PeerSession → (now_micros : ℕ) → Option SocketAddr
udp_target none s now = s.endpoint
udp_target (some relay) s now =
    if s.direct_confirmed && is_some s.endpoint
    then s.endpoint
    else if relay.relay_only
        || (ltb now s.direct_suppressed_until
            || ltb now (s.last_probe_micros + direct_probe_interval_micros))
    then none
    else s.endpoint

-- The relay's queues with one frame more, a handshake or cookie frame (its first byte is 1, 2 or 3) in
-- the high lane, any other in the low one.
abbrev pub in_lane : (is_high : Bool) → RelayHandle → RelayOutbound → RelayHandle
in_lane true relay out = record relay { tx_hi = relay.tx_hi ++ out ∷ [] }
in_lane false relay out = record relay { tx_lo = relay.tx_lo ++ out ∷ [] }

abbrev pub is_high_frame : Text → Bool
is_high_frame [] = false
is_high_frame (b ∷ bs) = (b == 1) || ((b == 2) || (b == 3))

abbrev pub queued_for : RelayHandle → (pubkey bytes : Text) → RelayHandle
queued_for relay pubkey bytes =
    in_lane (is_high_frame bytes) relay (record { dst_pubkey = pubkey; payload = bytes })

pub try_relay_lem :
    (relay : RelayHandle) (pubkey bytes : Text)
    → try_relay relay pubkey bytes ≡ queued_for relay pubkey bytes
unfolding try_relay
try_relay_lem relay pubkey bytes =
    let out : RelayOutbound = record { dst_pubkey = pubkey; payload = bytes } in
    lanes (is_handshake_type (first_byte bytes)) relay out
    ∙ ap (λ high. in_lane high relay out) (same_kind bytes)
  where
    lanes :
        (high : Bool) (relay : RelayHandle) (out : RelayOutbound)
        → record relay {
          tx_hi = if high then relay.tx_hi ++ out ∷ [] else relay.tx_hi;
          tx_lo = if high then relay.tx_lo else relay.tx_lo ++ out ∷ [];
        }
          ≡ in_lane high relay out
    lanes true relay out = refl
    lanes false relay out = refl

    same_kind : (frame : Text) → is_handshake_type (first_byte frame) ≡ is_high_frame frame
    same_kind [] = refl
    same_kind (b ∷ bs) = ground arith

abbrev pub relay_after : Option RelayHandle → PeerSession → (bytes : Text) → Option RelayHandle
relay_after none s bytes = none
relay_after (some relay) s bytes =
    if s.direct_confirmed && is_some s.endpoint
    then some relay
    else some (queued_for relay s.peer_pubkey bytes)

abbrev relay_call : Option RelayHandle → PeerSession → (bytes : Text) → Option RelayHandle
relay_call none s bytes = none
relay_call (some relay) s bytes =
    if s.direct_confirmed && is_some s.endpoint
    then some relay
    else some (try_relay relay s.peer_pubkey bytes)

relay_call_lem :
    (r : Option RelayHandle) (s : PeerSession) (bytes : Text)
    → relay_call r s bytes ≡ relay_after r s bytes
relay_call_lem none s bytes = refl
relay_call_lem (some relay) s bytes =
    ap (λ queues. if s.direct_confirmed && is_some s.endpoint then some relay else some queues)
      (try_relay_lem relay s.peer_pubkey bytes)

abbrev pub copy_to : (bytes : Text) → Option SocketAddr → List (Text × SocketAddr)
copy_to bytes none = []
copy_to bytes (some endpoint) = (bytes, endpoint) ∷ []

stamp-frame :
    (d : DataPlane) (bytes : Text) (now : ℕ)
    → ((stamp_send d bytes now).udp ≡ d.udp)
      × ((stamp_send d bytes now).relay ≡ d.relay)
      × ((stamp_send d bytes now).tun ≡ d.tun)
      × ((stamp_send d bytes now).sessions.heap ≡ d.sessions.heap)
unfolding note_send_attempt
stamp-frame d bytes now = elim (Bool-cases (is_wg_keepalive bytes)) [
  | inl keepalive ↦ rw (stamp_send, keepalive) (refl, refl, refl, refl)
  | inr other ↦ rw (stamp_send, other) (refl, refl, refl, refl)
]

-- What a send over `r` leaves of the relay's queues, of the UDP socket and of the TUN device.
abbrev Sent :
    (before : DataPlane) (r : Option RelayHandle) (s : PeerSession) (bytes : Text) (now : ℕ)
    → (after : DataPlane) → Type 0
Sent before r s bytes now after =
    (after.relay ≡ relay_call r s bytes)
    × (after.udp ≡ before.udp ++ copy_to bytes (udp_target r s now))
    × (after.tun ≡ before.tun)

direct_exact :
    (d : DataPlane) (session : ℕ) (bytes : Text) (now : ℕ) (endpoint : SocketAddr)
    → ((send_direct d session bytes now endpoint).relay ≡ d.relay)
      × ((send_direct d session bytes now endpoint).udp ≡ d.udp ++ (bytes, endpoint) ∷ [])
      × ((send_direct d session bytes now endpoint).tun ≡ d.tun)
direct_exact d session bytes now endpoint = elim (Bool-cases (is_wg_data_frame bytes)) [
  | inl payload ↦ rw (send_direct, payload) (refl, refl, refl)
  | inr other ↦ rw (send_direct, other) (refl, refl, refl)
]

-- The endpoint, unless a probe is held back.
abbrev probe_target : RelayHandle → PeerSession → (now : ℕ) → Option SocketAddr → Option SocketAddr
probe_target relay s now e =
    if relay.relay_only
      || (ltb now s.direct_suppressed_until
          || ltb now (s.last_probe_micros + direct_probe_interval_micros))
    then none
    else e

claimed :
    (s : PeerSession) (now interval : ℕ)
    → (should_probe_direct s now interval).1 ≡ not (ltb now (s.last_probe_micros + interval))
unfolding should_probe_direct
claimed s now interval = ground arith

held_back :
    (s : PeerSession) (now : ℕ) → direct_suppressed s now ≡ ltb now s.direct_suppressed_until
unfolding direct_suppressed
held_back s now = refl

nowhere : (bytes : Text) (b : Bool) → copy_to bytes (if b then none else none) ≡ []
nowhere bytes true = refl
nowhere bytes false = refl

floor_exact :
    (d : DataPlane) (relay : RelayHandle) (session : ℕ) (bytes : Text) (now : ℕ)
    (e : Option SocketAddr)
    → ((send_floor d relay session bytes now e).relay
        ≡ some (try_relay relay (d.sessions.heap session).peer_pubkey bytes))
      × ((send_floor d relay session bytes now e).udp
          ≡ d.udp ++ copy_to bytes (probe_target relay (d.sessions.heap session) now e))
      × ((send_floor d relay session bytes now e).tun ≡ d.tun)
floor_exact d relay session bytes now none =
    let s = d.sessions.heap session in
    let held =
      relay.relay_only
      || (ltb now s.direct_suppressed_until
          || ltb now (s.last_probe_micros + direct_probe_interval_micros)) in
    let no_copy : copy_to bytes (if held then none else none) ≡ [] = nowhere bytes held in
    (refl, sym (append-nil d.udp) ∙ ap (λ c. d.udp ++ c) (sym no_copy), refl)
floor_exact d relay session bytes now (some endpoint) =
    let s = d.sessions.heap session in
    let asked = claimed s now direct_probe_interval_micros in
    let held =
      relay.relay_only
      || (ltb now s.direct_suppressed_until
          || ltb now (s.last_probe_micros + direct_probe_interval_micros)) in
    elim (Bool-cases held) [
      | inl back ↦
          let no_probe : (not relay.relay_only
                && (not (direct_suppressed s now)
                    && (should_probe_direct s now direct_probe_interval_micros).1))
              ≡ false =
            ground (arith, back, asked, held_back s now) in
          rw (send_floor, no_probe, probe_target, back) (refl, sym (append-nil d.udp), refl)
      | inr free ↦
          let probe : (not relay.relay_only
                && (not (direct_suppressed s now)
                    && (should_probe_direct s now direct_probe_interval_micros).1))
              ≡ true =
            ground (arith, free, asked, held_back s now) in
          rw (send_floor, probe, probe_target, free) (refl, refl, refl)
    ]

bare_exact :
    (d : DataPlane) (bytes : Text) (e : Option SocketAddr)
    → ((send_bare d bytes e).relay ≡ d.relay)
      × ((send_bare d bytes e).udp ≡ d.udp ++ copy_to bytes e)
      × ((send_bare d bytes e).tun ≡ d.tun)
bare_exact d bytes none = (refl, sym (append-nil d.udp), refl)
bare_exact d bytes (some endpoint) = (refl, refl, refl)

confirmed_no :
    (s : PeerSession)
    → confirmed_endpoint s ≡ none
    → (s.direct_confirmed && is_some s.endpoint) ≡ false
confirmed_no s h = elim (Option-cases s.endpoint) [
  | inl nowhere_known ↦ ground (arith, nowhere_known)
  | inr (e, known) ↦ ground (arith, known)
]

confirmed_yes :
    (s : PeerSession) (e : SocketAddr)
    → confirmed_endpoint s ≡ some e
    → ((s.direct_confirmed && is_some s.endpoint) ≡ true) × (s.endpoint ≡ some e)
confirmed_yes s e h = (ground (arith, h), ground (arith, h))

unconfirmed_exact :
    (d : DataPlane) (r : Option RelayHandle) (session : ℕ) (bytes : Text) (now : ℕ)
    → d.relay ≡ r
    → confirmed_endpoint (d.sessions.heap session) ≡ none
    → Sent d r (d.sessions.heap session) bytes now (send_unconfirmed d r session bytes now)
unconfirmed_exact d none session bytes now e c =
    let b = bare_exact d bytes (d.sessions.heap session).endpoint in (b.0 ∙ e, b.1, b.2)
unconfirmed_exact d (some relay) session bytes now e c =
    let s = d.sessions.heap session in
    let f = floor_exact d relay session bytes now s.endpoint in
    let no = confirmed_no s c in
    (f.0 ∙ ground (arith, no), f.1 ∙ ap (λ t. d.udp ++ copy_to bytes t) (ground (arith, no)), f.2)

confirmed_exact :
    (d : DataPlane) (r : Option RelayHandle) (session : ℕ) (bytes : Text) (now : ℕ) (e : SocketAddr)
    → d.relay ≡ r
    → confirmed_endpoint (d.sessions.heap session) ≡ some e
    → Sent d r (d.sessions.heap session) bytes now (send_direct d session bytes now e)
confirmed_exact d r session bytes now e same c =
    let s = d.sessions.heap session in
    let yes_path = confirmed_yes s e c in
    let x = direct_exact d session bytes now e in
    (x.0 ∙ (same ∙ kept r), x.1 ∙ ap (λ t. d.udp ++ copy_to bytes t) (sym (target r)), x.2)
  where
    kept : (r : Option RelayHandle) → r ≡ relay_call r (d.sessions.heap session) bytes
    kept none = refl
    kept (some relay) = ground (arith, (confirmed_yes (d.sessions.heap session) e c).0)

    target : (r : Option RelayHandle) → udp_target r (d.sessions.heap session) now ≡ some e
    target none = (confirmed_yes (d.sessions.heap session) e c).1
    target (some relay) =
        let y = confirmed_yes (d.sessions.heap session) e c in ground (arith, y.0, y.1)

stamped_exact :
    (d : DataPlane) (session : ℕ) (bytes : Text) (now : ℕ)
    → Sent d d.relay (d.sessions.heap session) bytes now (send_stamped d session bytes now)
stamped_exact d session bytes now = by_path (confirmed_endpoint (d.sessions.heap session)) refl
  where
    by_path :
        (o : Option SocketAddr)
        → confirmed_endpoint (d.sessions.heap session) ≡ o
        → Sent d d.relay (d.sessions.heap session) bytes now (send_by d o session bytes now)
    by_path none c = unconfirmed_exact d d.relay session bytes now refl c
    by_path (some e) c = confirmed_exact d d.relay session bytes now e refl c

-- Every frame is sent exactly so: it is queued for the relay under its peer's key, handshake and cookie
-- frames in the high lane and all others in the low one, if there is a relay and no direct path
-- with an address is confirmed; and one copy goes over UDP to the target, if there is one. Nothing else
-- is queued, sent, or written to the TUN device.
pub send_wire-exact :
    (d : DataPlane) (session : ℕ) (bytes : Text) (now : ℕ)
    → ((send_wire d session bytes now).relay ≡ relay_after d.relay (d.sessions.heap session) bytes)
      × ((send_wire d session bytes now).udp
          ≡ d.udp ++ copy_to bytes (udp_target d.relay (d.sessions.heap session) now))
      × ((send_wire d session bytes now).tun ≡ d.tun)
unfolding send_wire
send_wire-exact d session bytes now =
    let stamped = stamp_send d bytes now in
    let f = stamp-frame d bytes now in
    let x = stamped_exact stamped session bytes now in
    (
      x.0
          ∙ (ap (λ r. relay_call r (stamped.sessions.heap session) bytes) f.1
              ∙ ap (λ (heap : ℕ → PeerSession). relay_call d.relay (heap session) bytes) f.3
              ∙ relay_call_lem d.relay (d.sessions.heap session) bytes),
      x.1
          ∙ (ap
                (λ u.
                  u ++ copy_to bytes (udp_target stamped.relay (stamped.sessions.heap session) now))
                f.0
              ∙ (ap (λ r. d.udp ++ copy_to bytes (udp_target r (stamped.sessions.heap session) now))
                    f.1
                  ∙ ap
                      (λ (heap : ℕ → PeerSession).
                        d.udp ++ copy_to bytes (udp_target d.relay (heap session) now))
                      f.3)),
      x.2 ∙ f.2,
    )

-- A relay-floored send never touches the UDP socket; it is carried by the relay if there is one.
pub send_wire_relay_floored-exact :
    (d : DataPlane) (session : ℕ) (bytes : Text) (now : ℕ)
    → ((send_wire_relay_floored d session bytes now).udp ≡ d.udp)
      × ((send_wire_relay_floored d session bytes now).relay
          ≡ map_option (λ r. try_relay r (d.sessions.heap session).peer_pubkey bytes) d.relay)
unfolding send_wire_relay_floored
send_wire_relay_floored-exact d session bytes now =
    let f = stamp-frame d bytes now in by_relay d.relay refl
  where
    by_relay :
        (r : Option RelayHandle)
        → d.relay ≡ r
        → ((relay_if_some
              (stamp_send d bytes now)
              r
              (d.sessions.heap session).peer_pubkey
              bytes).udp
            ≡ d.udp)
          × ((relay_if_some
                (stamp_send d bytes now)
                r
                (d.sessions.heap session).peer_pubkey
                bytes).relay
              ≡ map_option (λ s. try_relay s (d.sessions.heap session).peer_pubkey bytes) r)
    by_relay none e = ((stamp-frame d bytes now).0, (stamp-frame d bytes now).1 ∙ e)
    by_relay (some relay) e = ((stamp-frame d bytes now).0, refl)
