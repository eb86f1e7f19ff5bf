-- ===== src/Joiner/DataPlane/RelayOnly.antt =====
-- A node that is to use only the relay (crates/mesh-joiner/src/wg/loops.rs): its timer sends nothing
-- over UDP for a session whose direct path no peer has confirmed.
use tabbify_service_mesh.Formats.{socket_eq}
use tabbify_service_mesh.Allocator.{addr_eq}
use tabbify_service_mesh.Joiner.DataPlane.Receiving.{send_wire-Kept}
use tabbify_service_mesh.Joiner.DataPlane.Sending.{
  udp_target, in_lane, is_high_frame, relay_after, copy_to, send_wire-exact,
}
use tabbify_service_mesh.Joiner.DataPlane.{
  RelayOutbound, RelayHandle, try_relay, DataPlane, edit, send_wire,
}
use tabbify_service_mesh.Joiner.Commands.Once.{after}
use tabbify_service_mesh.Joiner.Session.{PeerSession}
use tabbify_service_mesh.Shared.{
  if◌then◌else◌, Bool-cases, ◌==◌, nat_eq, list_eq, option_eq, pair_eq, Text, append-nil, ℕ, ◌≡◌,
  refl, sym, ap, subst, ◌∙◌, inl, inr, Bool, true, false, Option, none, some, ◌++◌,
}

-- The relay is there, and the only way.
abbrev pub FloorOnly : Option RelayHandle → Type 0
FloorOnly none = ⊥
FloorOnly (some relay) = relay.relay_only ≡ true

-- The relay is the only way, and no session's direct path is confirmed.
abbrev pub Floored : DataPlane → Type 0
Floored d = FloorOnly d.relay × ((k : ℕ) → (d.sessions.heap k).direct_confirmed ≡ false)

-- Nothing went over UDP, and that stays so.
abbrev pub Silent : (before after : DataPlane) → Type 0
Silent before after = (after.udp ≡ before.udp) × Floored after

pub Silent-trans : (d e f : DataPlane) → Silent d e → Silent e f → Silent d f
Silent-trans d e f p q = (q.0 ∙ p.0, q.1)

pub Silent-either :
    (d : DataPlane) (b : Bool) (x y : DataPlane)
    → Silent d x
    → Silent d y
    → Silent d (if b then x else y)
Silent-either d true x y h k = h
Silent-either d false x y h k = k

in_lane-relay_only :
    (is_high : Bool) (relay : RelayHandle) (out : RelayOutbound)
    → (in_lane is_high relay out).relay_only ≡ relay.relay_only
in_lane-relay_only true relay out = refl
in_lane-relay_only false relay out = refl

relay_after-FloorOnly :
    (r : Option RelayHandle) (s : PeerSession) (frame : Text)
    → s.direct_confirmed ≡ false
    → FloorOnly r
    → FloorOnly (relay_after r s frame)
unfolding try_relay
relay_after-FloorOnly none s frame c o = o
relay_after-FloorOnly (some relay) s frame c o =
    rw (relay_after, c) (in_lane-relay_only (is_high_frame frame) relay _ ∙ o)

target-FloorOnly :
    (r : Option RelayHandle) (s : PeerSession) (now : ℕ)
    → s.direct_confirmed ≡ false
    → FloorOnly r
    → udp_target r s now ≡ none
target-FloorOnly none s now c o = absurd o
target-FloorOnly (some relay) s now c o = rw (udp_target, c, o) refl

pub send_wire-Silent :
    (d : DataPlane) (session : ℕ) (frame : Text) (now : ℕ)
    → Floored d
    → Silent d (send_wire d session frame now)
send_wire-Silent d session frame now (o, c) =
    let x = send_wire-exact d session frame now in
    let s = d.sessions.heap session in
    (
      x.1
          ∙ (ap (λ t. d.udp ++ copy_to frame t) (target-FloorOnly d.relay s now (c session) o)
              ∙ append-nil d.udp),
      (
        subst FloorOnly (sym x.0) (relay_after-FloorOnly d.relay s frame (c session) o),
        λ k. (send_wire-Kept d session frame now k).1 ∙ c k,
      ),
    )

pub edit-Silent :
    (d : DataPlane) (session : ℕ) (f : PeerSession → PeerSession)
    → ((s : PeerSession) → s.direct_confirmed ≡ false → (f s).direct_confirmed ≡ false)
    → Floored d
    → Silent d (edit d session f)
edit-Silent d session f q (o, c) = (
  refl,
  (
    o,
    λ k. elim (Bool-cases (k == session)) [
      | inl same ↦ rw same (q (d.sessions.heap k) (c k))
      | inr other ↦ rw other (c k)
    ],
  ),
)
