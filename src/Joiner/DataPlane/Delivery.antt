-- ===== src/Joiner/DataPlane/Delivery.antt =====
-- Which packets crates/mesh-joiner/src/wg/loops.rs delivers for a datagram, and in which order.
use tabbify_service_mesh.Joiner.DataPlane.Receiving.{direct_rx-Quiet, handshake_rx-Quiet}
use tabbify_service_mesh.Formats.{socket_eq}
use tabbify_service_mesh.Allocator.{Ipv6Addr, addr_eq}
use tabbify_service_mesh.Joiner.DataPlane.Sending.{send_wire-exact}
use tabbify_service_mesh.Joiner.DataPlane.{
  WgAction, send_to_peer, deliver_to_tun, nothing, error, DataPlane, edit, source_allowed,
  inner_source_allowed, apply_wg_action, drain, is_error, process_inbound_datagram,
}
use tabbify_service_mesh.Joiner.Sessions.Clocks.{note_inbound_data_frame}
use tabbify_service_mesh.Joiner.Session.{
  PeerSession, note_direct_rx, confirm_direct, note_handshake_rx, is_allowed_source,
}
use tabbify_service_mesh.Joiner.DataPlane.Filtering.{
  Received, apply_wg_action-Received, edit_if-Received, process_inbound_datagram-Received,
}
use tabbify_service_mesh.Joiner.Packets.{is_wg_handshake_frame, ipv6_source}
use tabbify_service_mesh.Shared.{
  if◌then◌else◌, Bool-cases, nat_eq, list_eq, option_eq, pair_eq, Text, select, append-nil,
  append_assoc, contains, ℕ, ◌+◌, ◌%◌, ◌^◌, ◌≡◌, refl, sym, ap, ◌∙◌, inl, inr, Bool, true, false,
  not, ◌&&◌, Option, none, some, List, [], ◌∷◌, ◌++◌,
}

abbrev pub source_among : (sources : List Ipv6Addr) → Option Ipv6Addr → Bool
source_among sources none = false
source_among sources (some a) = contains sources a

-- The packets of the tunnel's answers: that of the first, and of the later ones up to the first
-- `nothing`.
abbrev pub carried : WgAction → List Text
carried (deliver_to_tun packet) = packet ∷ []
carried (send_to_peer frame) = []
carried nothing = []
carried (error e) = []

abbrev pub carried_all : List WgAction → List Text
carried_all [] = []
carried_all (nothing ∷ more) = []
carried_all (error e ∷ more) = carried_all more
carried_all (send_to_peer frame ∷ more) = carried_all more
carried_all (deliver_to_tun packet ∷ more) = packet ∷ carried_all more

-- Those that one of the sources sent, in their order.
abbrev pub delivered_from : (sources : List Ipv6Addr) → List Text → List Text
delivered_from sources packets = select (λ p. source_among sources (ipv6_source p)) packets

delivered-append :
    (sources : List Ipv6Addr) (ps qs : List Text)
    → delivered_from sources (ps ++ qs) ≡ delivered_from sources ps ++ delivered_from sources qs
delivered-append sources [] qs = refl
delivered-append sources (p ∷ ps) qs = elim (Bool-cases (source_among sources (ipv6_source p))) [
  | inl taken ↦ rw taken (ap (λ us. p ∷ us) (delivered-append sources ps qs))
  | inr refused ↦ rw refused (delivered-append sources ps qs)
]

allowed_among :
    (s : PeerSession) (o : Option Ipv6Addr) → source_allowed s o ≡ source_among s.allowed_ips o
unfolding is_allowed_source
allowed_among s none = refl
allowed_among s (some a) = refl

tun_if :
    (b v : Bool) (d : DataPlane) (session : ℕ) (f : PeerSession → PeerSession) (packet : Text)
    (now : ℕ)
    → let taken = record d {
      sessions = note_inbound_data_frame d.sessions now;
      tun = d.tun ++ packet ∷ [];
    } in
      (if b
        then if v then edit taken session f else taken
        else record d { rx_source_denied = (d.rx_source_denied + 1) % 2 ^ 64 }).tun
      ≡ d.tun ++ (if b then packet ∷ [] else [])
tun_if true true d session f packet now = refl
tun_if true false d session f packet now = refl
tun_if false v d session f packet now = sym (append-nil d.tun)

apply_wg_action-delivers :
    (d : DataPlane) (via_direct : Bool) (session : ℕ) (action : WgAction) (now : ℕ)
    → (apply_wg_action d via_direct session action now).tun
      ≡ d.tun ++ delivered_from (d.sessions.heap session).allowed_ips (carried action)
unfolding apply_wg_action inner_source_allowed
apply_wg_action-delivers d via_direct session nothing now = sym (append-nil d.tun)
apply_wg_action-delivers d via_direct session (error e) now = sym (append-nil d.tun)
apply_wg_action-delivers d via_direct session (send_to_peer frame) now =
    (send_wire-exact d session frame now).2 ∙ sym (append-nil d.tun)
apply_wg_action-delivers d via_direct session (deliver_to_tun packet) now =
    let s = d.sessions.heap session in
    tun_if (source_allowed s (ipv6_source packet)) via_direct d session (λ s. confirm_direct s now)
      packet now
    ∙ ap (λ b. d.tun ++ (if b then packet ∷ [] else [])) (allowed_among s (ipv6_source packet))

-- One action, then what the rest delivers.
then_rest :
    (d : DataPlane) (via_direct : Bool) (session : ℕ) (action : WgAction) (now : ℕ)
    (tun_after packets : List Text)
    → let next = apply_wg_action d via_direct session action now in
      tun_after ≡ next.tun ++ delivered_from (next.sessions.heap session).allowed_ips packets
      → tun_after
        ≡ d.tun ++ delivered_from (d.sessions.heap session).allowed_ips (carried action ++ packets)
then_rest d via_direct session action now tun_after packets h =
    let next = apply_wg_action d via_direct session action now in
    let sources = (d.sessions.heap session).allowed_ips in
    let same = ((apply_wg_action-Received d via_direct session action now).3 session).0 in
    h
    ∙ ap (λ ips. next.tun ++ delivered_from ips packets) same
    ∙ ap (λ tun. tun ++ delivered_from sources packets)
        (apply_wg_action-delivers d via_direct session action now)
    ∙ append_assoc d.tun (delivered_from sources (carried action)) (delivered_from sources packets)
    ∙ ap (λ us. d.tun ++ us) (sym (delivered-append sources (carried action) packets))

drain-delivers :
    (d : DataPlane) (via_direct : Bool) (session : ℕ) (queued : List WgAction) (now : ℕ)
    → (drain d via_direct session queued now).tun
      ≡ d.tun ++ delivered_from (d.sessions.heap session).allowed_ips (carried_all queued)
drain-delivers d via_direct session [] now = sym (append-nil d.tun)
drain-delivers d via_direct session (nothing ∷ more) now = sym (append-nil d.tun)
drain-delivers d via_direct session (error e ∷ more) now =
    then_rest d via_direct session (error e) now _ (carried_all more) (
      drain-delivers (apply_wg_action d via_direct session (error e) now) via_direct session more
        now)
drain-delivers d via_direct session (send_to_peer frame ∷ more) now =
    then_rest d via_direct session (send_to_peer frame) now _ (carried_all more) (
      drain-delivers (apply_wg_action d via_direct session (send_to_peer frame) now) via_direct
        session more now)
drain-delivers d via_direct session (deliver_to_tun packet ∷ more) now =
    then_rest d via_direct session (deliver_to_tun packet) now _ (carried_all more) (
      drain-delivers (apply_wg_action d via_direct session (deliver_to_tun packet) now) via_direct
        session more now)

edit_if-tun :
    (b : Bool) (d : DataPlane) (session : ℕ) (f : PeerSession → PeerSession)
    → (if b then edit d session f else d).tun ≡ d.tun
edit_if-tun true d session f = refl
edit_if-tun false d session f = refl

-- Whatever a datagram brings, and whatever the tunnel gives after it, exactly those of its packets
-- reach the TUN device whose IPv6 source the session may use, in the order in which the tunnel gave
-- them, the datagram's own first, up to where the tunnel has nothing more. No session's sources change;
-- and the only path that is confirmed is that session's, when the datagram came over it and a packet
-- was delivered. A datagram from the relay confirms nothing.
pub process_inbound_datagram-Delivered :
    (d : DataPlane) (via_direct : Bool) (session : ℕ) (datagram : Text) (first : WgAction)
    (queued : List WgAction) (now : ℕ)
    → let after = process_inbound_datagram d via_direct session datagram first queued now in
      (after.tun
        ≡ d.tun
          ++ delivered_from
              (d.sessions.heap session).allowed_ips
              (carried first ++ carried_all queued))
      × Received via_direct session d after
unfolding process_inbound_datagram
process_inbound_datagram-Delivered d via_direct session datagram first queued now =
    let direct = via_direct && not (is_error first) in
    let handshake = is_wg_handshake_frame datagram && not (is_error first) in
    let rx = if direct then edit d session (λ s. note_direct_rx s now) else d in
    let noted =
      if handshake then edit rx session (λ s. note_handshake_rx s via_direct now) else rx in
    let acted = apply_wg_action noted via_direct session first now in
    let packets = carried first ++ carried_all queued in
    let same_tun : noted.tun ≡ d.tun =
      edit_if-tun handshake rx session (λ s. note_handshake_rx s via_direct now)
      ∙ edit_if-tun direct d session (λ s. note_direct_rx s now) in
    let to_rx : Received via_direct session d rx =
      edit_if-Received direct d via_direct session (λ s. note_direct_rx s now)
        (direct_rx-Quiet now) in
    let to_noted : Received via_direct session rx noted =
      edit_if-Received handshake rx via_direct session (λ s. note_handshake_rx s via_direct now)
        (handshake_rx-Quiet via_direct now) in
    let same_sources = (to_noted.3 session).0 ∙ (to_rx.3 session).0 in
    (
      then_rest noted via_direct session first now (drain acted via_direct session queued now).tun
            (carried_all queued) (drain-delivers acted via_direct session queued now)
          ∙ ap (λ tun. tun ++ delivered_from (noted.sessions.heap session).allowed_ips packets)
              same_tun
          ∙ ap (λ ips. d.tun ++ delivered_from ips packets) same_sources,
      process_inbound_datagram-Received d via_direct session datagram first queued now,
    )
