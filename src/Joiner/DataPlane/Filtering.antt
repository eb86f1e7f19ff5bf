-- ===== src/Joiner/DataPlane/Filtering.antt =====
-- The source check of crates/mesh-joiner/src/wg/loops.rs on all that a datagram brings.
use tabbify_service_mesh.Joiner.DataPlane.Sending.{send_wire-exact}
use tabbify_service_mesh.Joiner.Sessions.Clocks.{note_inbound_data_frame}
use tabbify_service_mesh.Joiner.Session.{
  PeerSession, note_direct_rx, confirm_direct, note_handshake_rx, is_allowed_source,
}
use tabbify_service_mesh.Formats.{socket_eq}
use tabbify_service_mesh.Allocator.{Ipv6Addr, addr_eq}
use tabbify_service_mesh.Joiner.DataPlane.Receiving.{
  Kept, Quiet, edit-Kept, direct_rx-Quiet, handshake_rx-Quiet, send_wire-Kept,
}
use tabbify_service_mesh.Joiner.DataPlane.{
  WgAction, send_to_peer, deliver_to_tun, nothing, error, DataPlane, edit, send_wire,
  source_allowed, inner_source_allowed, apply_wg_action, drain, is_error, process_inbound_datagram,
}
use tabbify_service_mesh.Joiner.Packets.{is_wg_handshake_frame, ipv6_source}
use tabbify_service_mesh.Joiner.Commands.Once.{after}
use tabbify_service_mesh.Shared.{
  if◌then◌else◌, Bool-cases, ◌==◌, nat_eq, list_eq, option_eq, pair_eq, Text, is_empty, append-nil,
  append_assoc, contains, kept, ℕ, ◌+◌, ◌%◌, ◌^◌, ◌≡◌, refl, sym, ap, subst, ◌∙◌, inl, inr, Bool,
  true, false, not, ◌&&◌, ◌||◌, Option, none, some, List, [], ◌∷◌, ◌++◌, arith,
}

-- IPv6 packets whose source is among these addresses.
abbrev pub AllFrom : (sources : List Ipv6Addr) → List Text → Type 0
AllFrom sources [] = Unit
AllFrom sources (p ∷ ps) =
    ((a : Ipv6Addr) × (ipv6_source p ≡ some a) × (contains sources a ≡ true)) × AllFrom sources ps

-- What a frame for `session` may do: write packets from its sources to the TUN device, change no
-- session's sources, and confirm that session's direct path if the frame came over it and brought a
-- packet.
abbrev pub Received : (via_direct : Bool) (session : ℕ) (before after : DataPlane) → Type 0
Received via_direct session before after =
    (delivered : List Text) × (after.tun ≡ before.tun ++ delivered)
    × AllFrom (before.sessions.heap session).allowed_ips delivered
    × ((k : ℕ)
        → ((after.sessions.heap k).allowed_ips ≡ (before.sessions.heap k).allowed_ips)
          × ((after.sessions.heap k).direct_confirmed ≡ (
              (before.sessions.heap k).direct_confirmed
              || (via_direct && ((k == session) && not (is_empty delivered))))))

or_nothing : (c v s : Bool) → c ≡ (c || (v && (s && false)))
or_nothing c v s = ground arith

quiet-Received :
    (via_direct : Bool) (session : ℕ) (d e : DataPlane)
    → e.tun ≡ d.tun
    → Kept d.sessions e.sessions
    → Received via_direct session d e
quiet-Received via_direct session d e same kept = (
  [],
  same ∙ sym (append-nil d.tun),
  _,
  λ k. (
    (kept k).0,
    (kept k).1 ∙ or_nothing (d.sessions.heap k).direct_confirmed via_direct (k == session),
  ),
)

AllFrom-append :
    (sources : List Ipv6Addr) (ps qs : List Text)
    → AllFrom sources ps
    → AllFrom sources qs
    → AllFrom sources (ps ++ qs)
AllFrom-append sources [] qs a b = b
AllFrom-append sources (p ∷ ps) qs a b = (a.0, AllFrom-append sources ps qs a.1 b)

either_delivered :
    (c v s : Bool) (ps qs : List Text)
    → ((c || (v && (s && not (is_empty ps)))) || (v && (s && not (is_empty qs))))
      ≡ (c || (v && (s && not (is_empty (ps ++ qs)))))
either_delivered c v s [] qs = ground arith
either_delivered c v s (p ∷ ps) qs = ground arith

Received-trans :
    (via_direct : Bool) (session : ℕ) (d e f : DataPlane)
    → Received via_direct session d e
    → Received via_direct session e f
    → Received via_direct session d f
Received-trans via_direct session d e f (ps, p, a, k) (qs, q, b, l) = (
  ps ++ qs,
  q ∙ (ap (λ us. us ++ qs) p ∙ append_assoc d.tun ps qs),
  AllFrom-append (d.sessions.heap session).allowed_ips ps qs a
      (subst (λ sources. AllFrom sources qs) (k session).0 b),
  λ j. (
    (l j).0 ∙ (k j).0,
    (l j).1
        ∙ (ap (λ c. c || (via_direct && ((j == session) && not (is_empty qs)))) (k j).1
            ∙ either_delivered (d.sessions.heap j).direct_confirmed via_direct (j == session) ps
                qs),
  ),
)

allowed_source :
    (s : PeerSession) (o : Option Ipv6Addr)
    → source_allowed s o ≡ true
    → (a : Ipv6Addr) × (o ≡ some a) × (contains s.allowed_ips a ≡ true)
unfolding is_allowed_source
allowed_source s none h = absurd (ground (arith, h))
allowed_source s (some a) h = (a, refl, h)

abbrev heard : DataPlane → (packet : Text) (now : ℕ) → DataPlane
heard d packet now = record d {
  sessions = note_inbound_data_frame d.sessions now;
  tun = d.tun ++ packet ∷ [];
}

taken-Received :
    (d : DataPlane) (via_direct : Bool) (session : ℕ) (packet : Text) (now : ℕ)
    → (a : Ipv6Addr) × (ipv6_source packet ≡ some a)
      × (contains (d.sessions.heap session).allowed_ips a ≡ true)
    → Received via_direct session d (
        if via_direct
        then edit (heard d packet now) session (λ s. confirm_direct s now)
        else heard d packet now)
unfolding note_inbound_data_frame confirm_direct
taken-Received d false session packet now from =
    (packet ∷ [], refl, (from, _), λ k. (refl, ground arith))
taken-Received d true session packet now from = (
  packet ∷ [],
  refl,
  (from, _),
  λ k. elim (Bool-cases (k == session)) [
    | inl same ↦ rw same (refl, ground arith)
    | inr other ↦ rw other (refl, ground arith)
  ],
)

pub apply_wg_action-Received :
    (d : DataPlane) (via_direct : Bool) (session : ℕ) (action : WgAction) (now : ℕ)
    → Received via_direct session d (apply_wg_action d via_direct session action now)
unfolding apply_wg_action inner_source_allowed
apply_wg_action-Received d via_direct session nothing now =
    quiet-Received via_direct session d d refl (λ k. (refl, refl))
apply_wg_action-Received d via_direct session (error e) now =
    quiet-Received via_direct session d d refl (λ k. (refl, refl))
apply_wg_action-Received d via_direct session (send_to_peer frame) now =
    quiet-Received via_direct session d (send_wire d session frame now)
      (send_wire-exact d session frame now).2 (send_wire-Kept d session frame now)
apply_wg_action-Received d via_direct session (deliver_to_tun packet) now =
    elim (Bool-cases (source_allowed (d.sessions.heap session) (ipv6_source packet))) [
      | inr refused ↦
          rw (apply_wg_action, inner_source_allowed, refused)
            (quiet-Received via_direct session d
              (record d { rx_source_denied = (d.rx_source_denied + 1) % 2 ^ 64 }) refl
              (λ k. (refl, refl)))
      | inl taken ↦
          let from = allowed_source (d.sessions.heap session) (ipv6_source packet) taken in
          rw (apply_wg_action, inner_source_allowed, taken)
            (taken-Received d via_direct session packet now from)
    ]

drain-Received :
    (d : DataPlane) (via_direct : Bool) (session : ℕ) (queued : List WgAction) (now : ℕ)
    → Received via_direct session d (drain d via_direct session queued now)
drain-Received d via_direct session [] now =
    quiet-Received via_direct session d d refl (λ k. (refl, refl))
drain-Received d via_direct session (nothing ∷ more) now =
    quiet-Received via_direct session d d refl (λ k. (refl, refl))
drain-Received d via_direct session (error e ∷ more) now =
    let next = apply_wg_action d via_direct session (error e) now in
    Received-trans via_direct session d next (drain next via_direct session more now)
      (apply_wg_action-Received d via_direct session (error e) now)
      (drain-Received next via_direct session more now)
drain-Received d via_direct session (send_to_peer frame ∷ more) now =
    let next = apply_wg_action d via_direct session (send_to_peer frame) now in
    Received-trans via_direct session d next (drain next via_direct session more now)
      (apply_wg_action-Received d via_direct session (send_to_peer frame) now)
      (drain-Received next via_direct session more now)
drain-Received d via_direct session (deliver_to_tun packet ∷ more) now =
    let next = apply_wg_action d via_direct session (deliver_to_tun packet) now in
    Received-trans via_direct session d next (drain next via_direct session more now)
      (apply_wg_action-Received d via_direct session (deliver_to_tun packet) now)
      (drain-Received next via_direct session more now)

pub edit_if-Received :
    (b : Bool) (d : DataPlane) (via_direct : Bool) (session : ℕ) (f : PeerSession → PeerSession)
    → Quiet f
    → Received via_direct session d (if b then edit d session f else d)
edit_if-Received true d via_direct session f q =
    quiet-Received via_direct session d (edit d session f) refl (edit-Kept d.sessions session f q)
edit_if-Received false d via_direct session f q =
    quiet-Received via_direct session d d refl (λ k. (refl, refl))

-- Whatever a datagram brings, and whatever the tunnel gives after it, only IPv6 packets whose
-- source the session may use reach the TUN device; no session's sources change; and the only path
-- that it confirms is that session's, when the datagram came over it and a packet was delivered. A
-- datagram from the relay confirms nothing.
pub process_inbound_datagram-Received :
    (d : DataPlane) (via_direct : Bool) (session : ℕ) (datagram : Text) (first : WgAction)
    (queued : List WgAction) (now : ℕ)
    → Received via_direct session d
        (process_inbound_datagram d via_direct session datagram first queued now)
unfolding process_inbound_datagram
process_inbound_datagram-Received d via_direct session datagram first queued now =
    let direct = via_direct && not (is_error first) in
    let handshake = is_wg_handshake_frame datagram && not (is_error first) in
    let rx = if direct then edit d session (λ s. note_direct_rx s now) else d in
    let noted =
      if handshake then edit rx session (λ s. note_handshake_rx s via_direct now) else rx in
    let acted = apply_wg_action noted via_direct session first now in
    let to_rx : Received via_direct session d rx =
      edit_if-Received direct d via_direct session (λ s. note_direct_rx s now)
        (direct_rx-Quiet now) in
    let to_noted : Received via_direct session rx noted =
      edit_if-Received handshake rx via_direct session (λ s. note_handshake_rx s via_direct now)
        (handshake_rx-Quiet via_direct now) in
    Received-trans via_direct session d acted (drain acted via_direct session queued now)
      (Received-trans via_direct session d noted acted
        (Received-trans via_direct session d rx noted to_rx to_noted)
        (apply_wg_action-Received noted via_direct session first now))
      (drain-Received acted via_direct session queued now)
