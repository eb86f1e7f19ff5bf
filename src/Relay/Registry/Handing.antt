-- ===== src/Relay/Registry/Handing.antt =====
-- What `forward` of crates/mesh-coordinator/src/relay/registry.rs hands to a channel, and to whose.
use tabbify_service_mesh.Relay.Registry.{
  Frame, Sent, delivered, full, closed, LaneConn, PeerConns, RelayRegistry, no_conns, pick, forward,
}
use tabbify_service_mesh.Shared.{
  get_or, Bool-cases, Option-cases, nat_eq, list_eq, option_eq, pair_eq, lookup, ℕ, ◌≡◌, refl, ap,
  ◌≢◌, ◌⊎◌, inl, inr, Bool, true, false, none, some, List, arith,
}

Sent-cases : (s : Sent) → (s ≡ delivered) ⊎ ((s ≡ full) ⊎ (s ≡ closed))
Sent-cases delivered = inl refl
Sent-cases full = inr (inl refl)
Sent-cases closed = inr (inr refl)

module _ {Sender : Type 0} where
  -- The channel of a lane that the peer `dst` has open.
  abbrev pub LaneOf : RelayRegistry Sender → (dst : List ℕ) → Sender → Type 0
  LaneOf r dst tx =
      (c : PeerConns Sender) × (lookup dst r.conns ≡ some c)
      × (conn : LaneConn Sender) × ((c.hi_conn ≡ some conn) ⊎ (c.lo_conn ≡ some conn))
      × (conn.tx ≡ tx)

  pick-lane :
      (c : PeerConns Sender) (hi_prio : Bool) (tx : Sender)
      → pick c hi_prio ≡ some tx
      → (conn : LaneConn Sender) × ((c.hi_conn ≡ some conn) ⊎ (c.lo_conn ≡ some conn))
        × (conn.tx ≡ tx)
  unfolding pick
  pick-lane c hi_prio tx e = elim (Option-cases c.hi_conn) [
    | inl no_hi ↦ elim (Option-cases c.lo_conn) [
      | inl no_lo ↦ absurd (ground arith)
      | inr (lo_, at) ↦ (lo_, inr at, ground arith)
    ]
    | inr (hi_, hi_at) ↦ elim (Option-cases c.lo_conn) [
      | inl no_lo ↦ (hi_, inl hi_at, ground arith)
      | inr (lo_, lo_at) ↦ elim (Bool-cases hi_prio) [
        | inl high ↦ (hi_, inl hi_at, ground arith)
        | inr low ↦ (lo_, inr lo_at, ground arith)
      ]
    ]
  ]

  pick-LaneOf :
      (r : RelayRegistry Sender) (dst : List ℕ) (hi_prio : Bool) (tx : Sender)
      → pick (get_or (lookup dst r.conns) no_conns) hi_prio ≡ some tx
      → LaneOf r dst tx
  pick-LaneOf r dst hi_prio tx e = elim (Option-cases (lookup dst r.conns)) [
    | inl gone ↦
        let (conn, at, _) = pick-lane no_conns hi_prio tx (rw gone at e) in absurd (ground arith)
    | inr (c, at) ↦
        let (conn, way, same) = pick-lane c hi_prio tx (rw at at e) in (c, at, conn, way, same)
  ]

  -- The peer has no bulk lane open, the lane that is there for every frame.
  abbrev pub NoLane : RelayRegistry Sender → (dst : List ℕ) → Type 0
  NoLane r dst = (c : PeerConns Sender) → lookup dst r.conns ≡ some c → c.lo_conn ≡ none

  pick-none : (c : PeerConns Sender) (hi_prio : Bool) → pick c hi_prio ≡ none → c.lo_conn ≡ none
  unfolding pick
  pick-none c hi_prio e = ground arith

  pick-NoLane :
      (r : RelayRegistry Sender) (dst : List ℕ) (hi_prio : Bool)
      → pick (get_or (lookup dst r.conns) no_conns) hi_prio ≡ none
      → NoLane r dst
  pick-NoLane r dst hi_prio e c at = pick-none c hi_prio (rw at at e)

  module _ {Net : Type 0} (try_send : Net → Sender → Frame → Net × Sent)
      (is_closed : Net → Sender → Bool) where
    -- The frame went into a channel of `dst`.
    abbrev pub Taken : RelayRegistry Sender → (dst : List ℕ) → Frame → (net net' : Net) → Type 0
    Taken r dst frame net net' =
        (tx : Sender) × LaneOf r dst tx × (try_send net tx frame ≡ (net', delivered))

    -- No channel took the frame: none was asked, since there is no bulk lane, or one of `dst` was
    -- and answered otherwise.
    abbrev pub NotTaken : RelayRegistry Sender → (dst : List ℕ) → Frame → (net net' : Net) → Type 0
    NotTaken r dst frame net net' =
        ((net' ≡ net) × NoLane r dst)
        ⊎ ((tx : Sender) × LaneOf r dst tx
            × (answer : Sent) × (answer ≢ delivered)
            × (try_send net tx frame ≡ (net', answer)))

    pub forward-Taken :
        (net : Net) (r : RelayRegistry Sender) (dst : List ℕ) (frame : Frame) (hi_prio : Bool)
        (now : ℕ)
        → let (net', _, sent) = forward try_send is_closed net r dst frame hi_prio now in
          ((sent ≡ true) × Taken r dst frame net net')
          ⊎ ((sent ≡ false) × NotTaken r dst frame net net')
    unfolding forward
    forward-Taken net r dst frame hi_prio now =
        elim (Option-cases (pick (get_or (lookup dst r.conns) no_conns) hi_prio)) [
          | inl e ↦ rw (forward, e) (inr (refl, inl (refl, pick-NoLane r dst hi_prio e)))
          | inr (tx, e) ↦
              let lane = pick-LaneOf r dst hi_prio tx e in
              let asked = try_send net tx frame in
              elim (Sent-cases asked.1) [
                | inl took ↦
                    rw (forward, e, took) (inl (refl, (tx, lane, answered net tx frame took)))
                | inr (inl full_) ↦
                    rw (forward, e, full_)
                      (inr (
                        refl,
                        inr (
                          tx,
                          lane,
                          full,
                          (λ q. absurd (ground arith)),
                          answered net tx frame full_,
                        ),
                      ))
                | inr (inr closed_) ↦
                    rw (forward, e, closed_)
                      (inr (
                        refl,
                        inr (
                          tx,
                          lane,
                          closed,
                          (λ q. absurd (ground arith)),
                          answered net tx frame closed_,
                        ),
                      ))
              ]
        ]
      where
        answered :
            {answer : Sent} (net : Net) (tx : Sender) (frame : Frame)
            → (try_send net tx frame).1 ≡ answer
            → try_send net tx frame ≡ ((try_send net tx frame).0, answer)
        answered net tx frame e = ap (λ z. ((try_send net tx frame).0, z)) e
