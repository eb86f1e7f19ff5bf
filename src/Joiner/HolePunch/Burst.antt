-- ===== src/Joiner/HolePunch/Burst.antt =====
-- What a punch of crates/mesh-joiner/src/nat/holepunch.rs sends, and for whom.
use mathlib.Core.List.Memᴰ
use tabbify_service_mesh.Joiner.DataPlane.Sending.{queued_for, try_relay_lem}
use tabbify_service_mesh.Joiner.Sessions.{SessionTable}
use tabbify_service_mesh.Formats.{SocketAddr, socket_eq, Formats}
use tabbify_service_mesh.Allocator.{addr_eq}
use tabbify_service_mesh.Joiner.DataPlane.{
  WgAction, send_to_peer, deliver_to_tun, nothing, error, RelayHandle, DataPlane, send_udp,
  relay_if_some,
}
use tabbify_service_mesh.Joiner.Commands.Once.{after}
use tabbify_service_mesh.Traversal.Punch.{HolePunchInitiate}
use tabbify_service_mesh.Joiner.HolePunch.{
  PunchPlan, find_session, plan_for, plan_punch, fire_all, execute_punch, punch_as, on_punch,
}
use tabbify_service_mesh.Shared.{
  if◌then◌else◌, Bool-cases, ◌==◌, nat_eq, list_eq, option_eq, pair_eq, Text, bytes, take,
  append-nil, append_assoc, values, ℕ, ◌≡◌, refl, sym, ap, ◌∙◌, ◌≢◌, ◌⊎◌, inl, inr, Bool, true,
  false, Option, none, some, List, [], ◌∷◌, ◌++◌, Memᴰ, arith,
}

-- The handshakes that the tunnel gave.
abbrev pub handshake_frames : List WgAction → List Text
handshake_frames [] = []
handshake_frames (send_to_peer bytes ∷ actions) = bytes ∷ handshake_frames actions
handshake_frames (deliver_to_tun bytes ∷ actions) = handshake_frames actions
handshake_frames (nothing ∷ actions) = handshake_frames actions
handshake_frames (error e ∷ actions) = handshake_frames actions

abbrev pub to_endpoint : SocketAddr → List Text → List (Text × SocketAddr)
to_endpoint endpoint [] = []
to_endpoint endpoint (bytes ∷ more) = (bytes, endpoint) ∷ to_endpoint endpoint more

abbrev pub queue_all : Option RelayHandle → (pubkey : Text) → List Text → Option RelayHandle
queue_all none pubkey more = none
queue_all (some relay) pubkey [] = some relay
queue_all (some relay) pubkey (bytes ∷ more) =
    queue_all (some (queued_for relay pubkey bytes)) pubkey more

-- The frames went to the address, and to the relay for the peer unless its path was confirmed;
-- nothing else changed.
abbrev pub Punched :
    (confirmed : Bool) (plan : PunchPlan) (sent : List Text) (before after : DataPlane) → Type 0
Punched confirmed plan sent before after =
    (after.udp ≡ before.udp ++ to_endpoint plan.endpoint sent)
    × (after.relay ≡ (
        if confirmed
        then before.relay
        else queue_all before.relay (before.sessions.heap plan.session).peer_pubkey sent))
    × (after.sessions ≡ before.sessions)
    × (after.tun ≡ before.tun)

-- A copy of a frame for the relay.
copied :
    (d : DataPlane) (r : Option RelayHandle) (pubkey bytes : Text)
    → d.relay ≡ r
    → ((relay_if_some d r pubkey bytes).udp ≡ d.udp)
      × ((relay_if_some d r pubkey bytes).sessions ≡ d.sessions)
      × ((relay_if_some d r pubkey bytes).tun ≡ d.tun)
      × ((more : List Text)
          → queue_all (relay_if_some d r pubkey bytes).relay pubkey more
            ≡ queue_all r pubkey (bytes ∷ more))
copied d none pubkey bytes e = (refl, refl, refl, λ more. ap (λ r. queue_all r pubkey more) e)
copied d (some relay) pubkey bytes e = (
  refl,
  refl,
  refl,
  λ more. ap (λ queues. queue_all (some queues) pubkey more) (try_relay_lem relay pubkey bytes),
)

queue_none : (r : Option RelayHandle) (pubkey : Text) → r ≡ queue_all r pubkey []
queue_none none pubkey = refl
queue_none (some relay) pubkey = refl

fire_all-Punched :
    (confirmed : Bool) (plan : PunchPlan) (d : DataPlane) (actions : List WgAction)
    → Punched confirmed plan (handshake_frames actions) d (fire_all confirmed plan d actions)
fire_all-Punched true plan d [] = (sym (append-nil d.udp), refl, refl, refl)
fire_all-Punched false plan d [] = (
  sym (append-nil d.udp),
  queue_none d.relay (d.sessions.heap plan.session).peer_pubkey,
  refl,
  refl,
)
fire_all-Punched confirmed plan d (nothing ∷ actions) = fire_all-Punched confirmed plan d actions
fire_all-Punched confirmed plan d (error e ∷ actions) = fire_all-Punched confirmed plan d actions
fire_all-Punched confirmed plan d (deliver_to_tun b ∷ actions) =
    fire_all-Punched confirmed plan d actions
fire_all-Punched true plan d (send_to_peer bytes ∷ actions) =
    let rest = fire_all-Punched true plan (send_udp d bytes plan.endpoint) actions in
    let sent = to_endpoint plan.endpoint (handshake_frames actions) in
    (rest.0 ∙ append_assoc d.udp ((bytes, plan.endpoint) ∷ []) sent, rest.1, rest.2, rest.3)
fire_all-Punched false plan d (send_to_peer bytes ∷ actions) =
    let pubkey = (d.sessions.heap plan.session).peer_pubkey in
    let shot = send_udp d bytes plan.endpoint in
    let both = relay_if_some shot d.relay pubkey bytes in
    let rest = fire_all-Punched false plan both actions in
    let copy = copied shot d.relay pubkey bytes refl in
    let frames = handshake_frames actions in
    let sent = to_endpoint plan.endpoint frames in
    (
      rest.0 ∙ ap (λ u. u ++ sent) copy.0 ∙ append_assoc d.udp ((bytes, plan.endpoint) ∷ []) sent,
      rest.1
          ∙ ap (λ (t : SessionTable). queue_all both.relay (t.heap plan.session).peer_pubkey frames)
              copy.1
          ∙ copy.3 frames,
      rest.2 ∙ copy.1,
      rest.3 ∙ copy.2,
    )

find_session-found :
    (t : SessionTable) (peer_id : ℕ) (sessions : List ℕ) (h : ℕ)
    → find_session t peer_id sessions ≡ some h
    → ((t.heap h).peer_id ≡ peer_id) × Memᴰ h sessions
find_session-found t peer_id [] h e = absurd (ground arith)
find_session-found t peer_id (s ∷ others) h e = elim (Bool-cases ((t.heap s).peer_id == peer_id)) [
  | inl his ↦
      let same : s ≡ h = ground arith in (rw (← same) (ground (arith, his)), Memᴰ.head (sym same))
  | inr other ↦
      let later = find_session-found t peer_id others h (ground arith) in
      (later.0, Memᴰ.tail later.1)
]

find_session-none :
    (t : SessionTable) (peer_id : ℕ) (sessions : List ℕ)
    → find_session t peer_id sessions ≡ none
    → (h : ℕ) → Memᴰ h sessions
    → (t.heap h).peer_id ≢ peer_id
find_session-none t peer_id [] e h m = absurd (Memᴰ.not-nil m)
find_session-none t peer_id (s ∷ others) e h (Memᴰ.head same) =
    λ his. let at : (t.heap s).peer_id ≡ peer_id = rw (← same) his in absurd (ground (arith, at))
find_session-none t peer_id (s ∷ others) e h (Memᴰ.tail m) =
    find_session-none t peer_id others (ground arith) h m

-- The event is for another node, or its address does not parse, or no session of the table is that of
-- its peer.
abbrev pub NotPlanned : Formats → SessionTable → (my_peer_id : ℕ) → HolePunchInitiate → Type 0
NotPlanned formats t my_peer_id event =
    (event.initiator_peer_id ≢ my_peer_id)
    ⊎ ((formats.parse_socket event.target_external_endpoint ≡ none)
        ⊎ ((h : ℕ) → Memᴰ h (values t.by_ula) → (t.heap h).peer_id ≢ event.target_peer_id))

plan_for-none :
    (e : Option SocketAddr) (found : Option ℕ)
    → plan_for e found ≡ none
    → (e ≡ none) ⊎ (found ≡ none)
plan_for-none none found h = inl refl
plan_for-none (some e) none h = inr refl
plan_for-none (some e) (some s) h = absurd (ground arith)

plan_punch-NotPlanned :
    (formats : Formats) (t : SessionTable) (my_peer_id : ℕ) (event : HolePunchInitiate)
    → plan_punch formats t my_peer_id event ≡ none
    → NotPlanned formats t my_peer_id event
unfolding plan_punch
plan_punch-NotPlanned formats t my_peer_id event e =
    elim (Bool-cases (event.initiator_peer_id == my_peer_id)) [
      | inl mine ↦
          let found = find_session t event.target_peer_id (values t.by_ula) in
          let no_plan : plan_for (formats.parse_socket event.target_external_endpoint) found
              ≡ none =
            ground arith in
          elim (plan_for-none (formats.parse_socket event.target_external_endpoint) found no_plan) [
            | inl unparsed ↦ inr (inl unparsed)
            | inr absent ↦
                inr (inr (find_session-none t event.target_peer_id (values t.by_ula) absent))
          ]
      | inr other ↦ inl (λ mine. absurd (ground (arith, mine)))
    ]

-- The event is for this node, and the plan is what it says.
abbrev Planned : Formats → SessionTable → (my_peer_id : ℕ) → HolePunchInitiate → PunchPlan → Type 0
Planned formats t my_peer_id event plan =
    (event.initiator_peer_id ≡ my_peer_id)
    × (formats.parse_socket event.target_external_endpoint ≡ some plan.endpoint)
    × ((t.heap plan.session).peer_id ≡ event.target_peer_id)
    × Memᴰ plan.session (values t.by_ula)

plan_for-some :
    (e : Option SocketAddr) (found : Option ℕ) (plan : PunchPlan)
    → plan_for e found ≡ some plan
    → (e ≡ some plan.endpoint) × (found ≡ some plan.session)
plan_for-some none found plan h = absurd (ground arith)
plan_for-some (some e) none plan h = absurd (ground arith)
plan_for-some (some e) (some s) plan h = ground arith

plan_punch-Planned :
    (formats : Formats) (t : SessionTable) (my_peer_id : ℕ) (event : HolePunchInitiate)
    (plan : PunchPlan)
    → plan_punch formats t my_peer_id event ≡ some plan
    → Planned formats t my_peer_id event plan
unfolding plan_punch
plan_punch-Planned formats t my_peer_id event plan e =
    elim (Bool-cases (event.initiator_peer_id == my_peer_id)) [
      | inl mine ↦
          let found = find_session t event.target_peer_id (values t.by_ula) in
          let planned : plan_for (formats.parse_socket event.target_external_endpoint) found
              ≡ some plan =
            ground arith in
          let parts =
            plan_for-some (formats.parse_socket event.target_external_endpoint) found plan
              planned in
          (
            ground (arith, mine),
            parts.0,
            (find_session-found t event.target_peer_id (values t.by_ula) plan.session parts.1).0,
            (find_session-found t event.target_peer_id (values t.by_ula) plan.session parts.1).1,
          )
      | inr other ↦ absurd (ground arith)
    ]

-- An event that names another node as its initiator, an address that does not parse, or a peer of whom
-- no session stands in the table changes nothing. Any other sends at most five handshakes, the first
-- that the tunnel of such a session gives, to that address, each also over the relay unless the direct
-- path was confirmed, and leaves the session and its endpoint as they were.
pub on_punch-Punched :
    (formats : Formats) (d : DataPlane) (my_peer_id : ℕ) (event : HolePunchInitiate)
    (tunnel : ℕ → List WgAction)
    → (NotPlanned formats d.sessions my_peer_id event
        × (on_punch formats d my_peer_id event tunnel ≡ d))
      ⊎ ((plan : PunchPlan) × (event.initiator_peer_id ≡ my_peer_id)
          × (formats.parse_socket event.target_external_endpoint ≡ some plan.endpoint)
          × ((d.sessions.heap plan.session).peer_id ≡ event.target_peer_id)
          × Memᴰ plan.session (values d.sessions.by_ula)
          × Punched
              (d.sessions.heap plan.session).direct_confirmed
              plan
              (handshake_frames (take 5 (tunnel plan.session)))
              d
              (on_punch formats d my_peer_id event tunnel))
unfolding on_punch execute_punch
on_punch-Punched formats d my_peer_id event tunnel =
    by_plan (plan_punch formats d.sessions my_peer_id event) refl
  where
    by_plan :
        (p : Option PunchPlan)
        → plan_punch formats d.sessions my_peer_id event ≡ p
        → (NotPlanned formats d.sessions my_peer_id event × (punch_as d tunnel p ≡ d))
          ⊎ ((plan : PunchPlan) × (event.initiator_peer_id ≡ my_peer_id)
              × (formats.parse_socket event.target_external_endpoint ≡ some plan.endpoint)
              × ((d.sessions.heap plan.session).peer_id ≡ event.target_peer_id)
              × Memᴰ plan.session (values d.sessions.by_ula)
              × Punched
                  (d.sessions.heap plan.session).direct_confirmed
                  plan
                  (handshake_frames (take 5 (tunnel plan.session)))
                  d
                  (punch_as d tunnel p))
    by_plan none e = inl (plan_punch-NotPlanned formats d.sessions my_peer_id event e, refl)
    by_plan (some plan) e =
        let planned = plan_punch-Planned formats d.sessions my_peer_id event plan e in
        inr (
          plan,
          planned.0,
          planned.1,
          planned.2,
          planned.3,
          fire_all-Punched (d.sessions.heap plan.session).direct_confirmed plan d
              (take 5 (tunnel plan.session)),
        )
