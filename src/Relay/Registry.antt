-- ===== src/Relay/Registry.antt =====
-- crates/mesh-coordinator/src/relay/registry.rs: relay connections by public key, two lanes each,
-- and the spool of frames for peers that are not connected. Instants are nanoseconds.
pub mod Bounds
pub mod Handing
pub mod Lanes
use tabbify_service_mesh.Shared.{
  ltb, leb, if◌then◌else◌, get_or, is_some, ◌==◌, nat_eq, list_eq, option_eq, pair_eq, length, drop,
  is_empty, select, map_option, Dict, lookup, insert, remove, ℕ, ◌+◌, ◌-◌, ◌%◌, ◌^◌, Bool, true,
  false, not, ◌&&◌, Option, none, some, List, [], ◌∷◌, ◌++◌,
}

pub data Lane : Type 0 where
  hi lo : Lane

abbrev pub Frame : Type 0
Frame = List ℕ

-- What `try_send` of a bounded channel answers.
pub data Sent : Type 0 where
  delivered full closed : Sent

abbrev pub spool_cap : ℕ
spool_cap = 16

abbrev pub spool_ttl : ℕ
spool_ttl = 2_000_000_000

abbrev pub wake_cooldown_time : ℕ
wake_cooldown_time = 5_000_000_000

pub record SpooledFrame : Type 0 where
  pub at : ℕ
  pub hi_prio : Bool
  pub frame : Frame

pub record LaneConn (Sender : Type 0) : Type 0 where
  pub id : ℕ
  pub tx : Sender

pub record PeerConns (Sender : Type 0) : Type 0 where
  pub hi_conn : Option (LaneConn Sender)
  pub lo_conn : Option (LaneConn Sender)

pub record RelayRegistry (Sender : Type 0) : Type 0 where
  pub conns : Dict (List ℕ) (PeerConns Sender)
  pub spool : Dict (List ℕ) (List SpooledFrame)
  pub next_id : ℕ
  pub wake_cooldown : Dict (List ℕ) ℕ

unfoldable pub new_registry : {Sender : Type 0} → RelayRegistry Sender
new_registry = record { conns = []; spool = []; next_id = 0; wake_cooldown = [] }

-- `pop_front` at the cap, then `push_back`.
unfoldable pub push_bounded : List SpooledFrame → SpooledFrame → List SpooledFrame
push_bounded q sf = (if leb spool_cap (length q) then drop 1 q else q) ++ sf ∷ []

abbrev pub fresh_at : ℕ → SpooledFrame → Bool
fresh_at now sf = leb (now - sf.at) spool_ttl

-- Filters each queue, and drops the queues that end up empty.
unfoldable pub reap_queues :
    ℕ → Dict (List ℕ) (List SpooledFrame) → Dict (List ℕ) (List SpooledFrame) × ℕ
reap_queues now [] = ([], 0)
reap_queues now ((k, q) ∷ m) =
    let (m', dropped) = reap_queues now m in
    let q' = select (fresh_at now) q in
    let total = (length q - length q') + dropped in
    if is_empty q' then (m', total) else ((k, q') ∷ m', total)

module _ {Sender : Type 0} where
  abbrev pub no_conns : PeerConns Sender
  no_conns = record { hi_conn = none; lo_conn = none }

  unfoldable pub slot : PeerConns Sender → Lane → Option (LaneConn Sender)
  slot c hi = c.hi_conn
  slot c lo = c.lo_conn

  unfoldable pub set_slot : PeerConns Sender → Lane → Option (LaneConn Sender) → PeerConns Sender
  set_slot c hi conn = record c { hi_conn = conn }
  set_slot c lo conn = record c { lo_conn = conn }

  abbrev tx_of : Option (LaneConn Sender) → Option Sender
  tx_of = map_option (λ c. c.tx)

  unfoldable pub pick : PeerConns Sender → Bool → Option Sender
  pick c hi_prio =
      if hi_prio
      then (if is_some c.hi_conn then tx_of c.hi_conn else tx_of c.lo_conn)
      else tx_of c.lo_conn

  unfoldable pub has_no_lane : PeerConns Sender → Bool
  has_no_lane c = not (is_some c.hi_conn) && not (is_some c.lo_conn)

  unfoldable pub take_wake_slot : RelayRegistry Sender → List ℕ → ℕ → RelayRegistry Sender × Bool
  take_wake_slot r dst now = elim (lookup dst r.wake_cooldown) [
    | some last ↦
        if leb wake_cooldown_time (now - last)
        then (record r { wake_cooldown = insert dst now r.wake_cooldown }, true)
        else (r, false)
    | none ↦ (record r { wake_cooldown = insert dst now r.wake_cooldown }, true)
  ]

  unfoldable pub push_spool :
      RelayRegistry Sender → List ℕ → Bool → Frame → ℕ → RelayRegistry Sender
  unfolding push_bounded
  push_spool r pubkey hi_prio frame now =
      let q = get_or (lookup pubkey r.spool) [] in
      let sf : SpooledFrame = record { at = now; hi_prio = hi_prio; frame = frame } in
      record r { spool = insert pubkey (push_bounded q sf) r.spool }

  abbrev is_conn : Option (LaneConn Sender) → ℕ → Bool
  is_conn none id = false
  is_conn (some c) id = c.id == id

  unfoldable pub unregister : RelayRegistry Sender → List ℕ → Lane → ℕ → RelayRegistry Sender
  unfolding slot set_slot has_no_lane
  unregister r pubkey lane id = elim (lookup pubkey r.conns) [
    | none ↦ r
    | some c ↦
        let left = if is_conn (slot c lane) id then set_slot c lane none else c in
        if has_no_lane left
        then record r { conns = remove pubkey r.conns }
        else record r { conns = insert pubkey left r.conns }
  ]

  unfoldable pub drop_pubkey : RelayRegistry Sender → List ℕ → RelayRegistry Sender
  drop_pubkey r pubkey = record r { conns = remove pubkey r.conns; spool = remove pubkey r.spool }

  unfoldable pub reap_expired_spool : RelayRegistry Sender → ℕ → RelayRegistry Sender × ℕ
  unfolding reap_queues
  reap_expired_spool r now =
      let (spool, dropped) = reap_queues now r.spool in (record r { spool = spool }, dropped)

  -- The channels: a send answers and may change them; a closed channel has lost its reader.
  module _ {Net : Type 0} (try_send : Net → Sender → Frame → Net × Sent)
      (is_closed : Net → Sender → Bool) where
    unfoldable pub forward :
        Net → RelayRegistry Sender → List ℕ → Frame → Bool → ℕ → Net × RelayRegistry Sender × Bool
    unfolding pick push_spool
    forward net r pubkey frame hi_prio now =
        elim (pick (get_or (lookup pubkey r.conns) no_conns) hi_prio) [
          | none ↦ (net, push_spool r pubkey hi_prio frame now, false)
          | some tx ↦
              let (net', sent) = try_send net tx frame in
              elim sent [
                | delivered ↦ (net', r, true)
                | full ↦ (net', r, false)
                | closed ↦ (net', push_spool r pubkey hi_prio frame now, false)
              ]
        ]

    -- The loop over the frames that were held for a peer.
    unfoldable pub flush :
        Net → RelayRegistry Sender → List ℕ → List SpooledFrame → ℕ → Net × RelayRegistry Sender
    flush net r pubkey [] now = (net, r)
    flush net r pubkey (sf ∷ held) now =
        let (net', r', sent) = forward net r pubkey sf.frame sf.hi_prio now in
        flush (if ltb spool_ttl (now - sf.at) then net else net')
          (if ltb spool_ttl (now - sf.at) then r else r') pubkey held now

    unfoldable pub register :
        Net → RelayRegistry Sender → List ℕ → Lane → Sender → ℕ → Net × RelayRegistry Sender × ℕ
    unfolding set_slot flush
    register net r pubkey lane tx now =
        let id = r.next_id in
        let conn : LaneConn Sender = record { id = id; tx = tx } in
        let c = set_slot (get_or (lookup pubkey r.conns) no_conns) lane (some conn) in
        let held = get_or (lookup pubkey r.spool) [] in
        let open_ : RelayRegistry Sender = record r {
          conns = insert pubkey c r.conns;
          spool = remove pubkey r.spool;
          next_id = (id + 1) % 2 ^ 64;
        } in
        let (net', r') = flush net open_ pubkey held now in (net', r', id)

    abbrev pub close_lane : Net → Option (LaneConn Sender) → Option (LaneConn Sender)
    close_lane net none = none
    close_lane net (some c) = if is_closed net c.tx then none else some c

    abbrev closed_lane : Net → Option (LaneConn Sender) → ℕ
    closed_lane net none = 0
    closed_lane net (some c) = if is_closed net c.tx then 1 else 0

    unfoldable pub reap_conns :
        Net → Dict (List ℕ) (PeerConns Sender) → Dict (List ℕ) (PeerConns Sender) × ℕ
    unfolding has_no_lane
    reap_conns net [] = ([], 0)
    reap_conns net ((k, c) ∷ m) =
        let (m', reaped) = reap_conns net m in
        let left : PeerConns Sender = record {
          hi_conn = close_lane net c.hi_conn;
          lo_conn = close_lane net c.lo_conn;
        } in
        let total = closed_lane net c.hi_conn + (closed_lane net c.lo_conn + reaped) in
        if has_no_lane left then (m', total) else ((k, left) ∷ m', total)

    unfoldable pub reap_closed : Net → RelayRegistry Sender → RelayRegistry Sender × ℕ
    unfolding reap_conns
    reap_closed net r =
        let (conns, reaped) = reap_conns net r.conns in (record r { conns = conns }, reaped)
