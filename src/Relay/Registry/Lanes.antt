-- ===== src/Relay/Registry/Lanes.antt =====
-- Lanes of relay/registry.rs: reconnects, stale disconnects, reaping and wake slots.
use tabbify_service_mesh.Shared.{
  ltb, if◌then◌else◌, get_or, nat_eq, list_beq_iff, list_eq, option_eq, pair_eq, Dict, lookup,
  insert, remove, lookup-insert, Distinct, ℕ, ◌+◌, ◌-◌, ◌%◌, ◌^◌, ◌≤◌, ◌≡◌, refl, ap, ◌∙◌, ◌≢◌,
  Bool, true, false, Option, none, some, List, [], ◌∷◌, arith,
}
use tabbify_service_mesh.Relay.Registry.{
  Lane, hi, lo, Frame, Sent, spool_ttl, wake_cooldown_time, SpooledFrame, LaneConn, PeerConns,
  RelayRegistry, no_conns, slot, set_slot, has_no_lane, take_wake_slot, unregister, forward, flush,
  register, close_lane, reap_conns,
}

module _ {Sender : Type 0} where
  -- Two wake-ups of one destination lie at least five seconds apart, and the others' slots are
  -- not touched.
  pub take_wake_slot_twice :
      (r : RelayRegistry Sender) (dst other : List ℕ) (before now : ℕ)
      → ((take_wake_slot r dst before).1 ≡ true
          → (take_wake_slot (take_wake_slot r dst before).0 dst now).1 ≡ true
          → before + wake_cooldown_time ≤ now)
        × (dst ≢ other
            → (take_wake_slot (take_wake_slot r dst before).0 other now).1
              ≡ (take_wake_slot r other now).1)
  unfolding take_wake_slot
  take_wake_slot_twice r dst other before now =
      let self = list_beq_iff dst dst in
      let same = list_beq_iff dst other in
      let read = lookup-insert dst dst before r.wake_cooldown in
      let elsewhere = lookup-insert dst other before r.wake_cooldown in
      (λ h k. ground (arith, self, read), λ ne. ground (arith, same, elsewhere))

  module _ {Net : Type 0} (try_send : Net → Sender → Frame → Net × Sent)
      (is_closed : Net → Sender → Bool) where
    pub forward-conns :
        (net : Net) (r : RelayRegistry Sender) (pk : List ℕ) (frame : Frame) (hi_prio : Bool)
        (now : ℕ)
        → (forward try_send is_closed net r pk frame hi_prio now).1.conns ≡ r.conns
    unfolding forward
    forward-conns net r pk frame hi_prio now = ground arith

    flush-conns :
        (held : List SpooledFrame) (net : Net) (r : RelayRegistry Sender) (pk : List ℕ) (now : ℕ)
        → (flush try_send is_closed net r pk held now).1.conns ≡ r.conns
    unfolding flush
    flush-conns [] net r pk now = refl
    flush-conns (sf ∷ held) net r pk now =
        let stale = ltb spool_ttl (now - sf.at) in
        let out = forward try_send is_closed net r pk sf.frame sf.hi_prio now in
        flush-conns held (if stale then net else out.0) (if stale then r else out.1) pk now
        ∙ skip stale out.1 (forward-conns net r pk sf.frame sf.hi_prio now)
      where
        skip :
            (stale : Bool) (r' : RelayRegistry Sender)
            → r'.conns ≡ r.conns
            → (if stale then r else r').conns ≡ r.conns
        skip true r' e = refl
        skip false r' e = e

    -- The lane of a key after a register: the new connection, and the other lane as it was.
    abbrev pub conns_of : RelayRegistry Sender → List ℕ → PeerConns Sender
    conns_of r pk = get_or (lookup pk r.conns) no_conns

    conns_of-register :
        (net : Net) (r : RelayRegistry Sender) (pk : List ℕ) (lane : Lane) (tx : Sender) (now : ℕ)
        → conns_of (register try_send is_closed net r pk lane tx now).1 pk
          ≡ set_slot (conns_of r pk) lane (some (record { id = r.next_id; tx = tx }))
    unfolding register
    conns_of-register net r pk lane tx now =
        ap (λ m. get_or (lookup pk m) no_conns) (flush-conns held net open_ pk now)
        ∙ ground (arith, list_beq_iff pk pk, lookup-insert pk pk c r.conns)
      where
        held : List SpooledFrame
        held = get_or (lookup pk r.spool) []

        c : PeerConns Sender
        c = set_slot (conns_of r pk) lane (some (record { id = r.next_id; tx = tx }))

        open_ : RelayRegistry Sender
        open_ = record r {
          conns = insert pk c r.conns;
          spool = remove pk r.spool;
          next_id = (r.next_id + 1) % 2 ^ 64;
        }

    slot-set_slot :
        (c : PeerConns Sender) (lane other : Lane) (conn : Option (LaneConn Sender))
        → (slot (set_slot c lane conn) lane ≡ conn)
          × (lane ≢ other → slot (set_slot c lane conn) other ≡ slot c other)
    unfolding slot set_slot
    slot-set_slot c hi hi conn = (refl, λ ne. absurd (ne refl))
    slot-set_slot c hi lo conn = (refl, λ ne. refl)
    slot-set_slot c lo hi conn = (refl, λ ne. refl)
    slot-set_slot c lo lo conn = (refl, λ ne. absurd (ne refl))

    -- After a register the lane holds the new connection under a fresh id, and the key's other lane
    -- what it held before.
    pub slot-register :
        (net : Net) (r : RelayRegistry Sender) (pk : List ℕ) (lane other : Lane) (tx : Sender)
        (now : ℕ)
        → (slot (conns_of (register try_send is_closed net r pk lane tx now).1 pk) lane
            ≡ some (record { id = r.next_id; tx = tx }))
          × (lane ≢ other
              → slot (conns_of (register try_send is_closed net r pk lane tx now).1 pk) other
                ≡ slot (conns_of r pk) other)
    slot-register net r pk lane other tx now =
        rw (conns_of-register net r pk lane tx now) (slot-set_slot _ lane other _)

    unregister_other :
        (r : RelayRegistry Sender) (pk : List ℕ) (lane : Lane) (stale : ℕ) (conn : LaneConn Sender)
        → slot (conns_of r pk) lane ≡ some conn
        → conn.id ≢ stale
        → conns_of (unregister r pk lane stale) pk ≡ conns_of r pk
    unfolding unregister slot
    unregister_other r pk hi stale conn e ne =
        ground (arith, list_beq_iff pk pk, lookup-insert pk pk (conns_of r pk) r.conns)
    unregister_other r pk lo stale conn e ne =
        ground (arith, list_beq_iff pk pk, lookup-insert pk pk (conns_of r pk) r.conns)

    -- A disconnect that names an older connection, after the peer has reconnected on that lane, does
    -- not close the new one: it changes nothing that is connected under the key.
    pub unregister-register :
        (net : Net) (r : RelayRegistry Sender) (pk : List ℕ) (lane : Lane) (tx : Sender)
        (now stale : ℕ)
        → r.next_id ≢ stale
        → conns_of
            (unregister (register try_send is_closed net r pk lane tx now).1 pk lane stale)
            pk
          ≡ set_slot (conns_of r pk) lane (some (record { id = r.next_id; tx = tx }))
    unregister-register net r pk lane tx now stale ne =
        unregister_other _ pk lane stale (record { id = r.next_id; tx = tx })
          (slot-register net r pk lane lane tx now).0 ne
        ∙ conns_of-register net r pk lane tx now

    -- What reaping leaves under a key: its lanes with a live reader, and no entry when there is none.
    abbrev pub live_lanes : Net → Option (PeerConns Sender) → Option (PeerConns Sender)
    live_lanes net none = none
    live_lanes net (some c) =
        let left : PeerConns Sender = record {
          hi_conn = close_lane try_send is_closed net c.hi_conn;
          lo_conn = close_lane try_send is_closed net c.lo_conn;
        } in
        if has_no_lane left then none else some left

    reap_conns_absent :
        (net : Net) (pk : List ℕ) (m : Dict (List ℕ) (PeerConns Sender))
        → lookup pk m ≡ none
        → lookup pk (reap_conns try_send is_closed net m).0 ≡ none
    unfolding reap_conns
    reap_conns_absent net pk [] h = refl
    reap_conns_absent net pk ((k, c) ∷ m) h =
        ground (arith, list_beq_iff k pk, reap_conns_absent net pk m)

    -- Reaping closes exactly the lanes whose reader is gone, and drops a peer that has no lane left.
    pub lookup-reap_closed :
        (net : Net) (m : Dict (List ℕ) (PeerConns Sender)) (pk : List ℕ)
        → Distinct m
        → lookup pk (reap_conns try_send is_closed net m).0 ≡ live_lanes net (lookup pk m)
    unfolding reap_conns
    lookup-reap_closed net [] pk d = refl
    lookup-reap_closed net ((k, c) ∷ m) pk d =
        ground
          (arith, list_beq_iff k pk, lookup-reap_closed net m pk d.1, reap_conns_absent net pk m)
