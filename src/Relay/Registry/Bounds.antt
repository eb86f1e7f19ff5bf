-- ===== src/Relay/Registry/Bounds.antt =====
-- The spool of relay/registry.rs stays bounded: at most sixteen frames for each peer.
use tabbify_service_mesh.Shared.{
  ltb, if◌then◌else◌, get_or, nat_eq, list_eq, option_eq, pair_eq, length, length-append,
  length-select-le, Dict, lookup, insert, remove, ℕ, ◌-◌, ◌≤◌, Bool, true, false, List, [], ◌∷◌,
  arith,
}
use tabbify_service_mesh.Relay.Registry.{
  Lane, Frame, Sent, spool_cap, spool_ttl, SpooledFrame, RelayRegistry, push_bounded, fresh_at,
  reap_queues, take_wake_slot, push_spool, unregister, drop_pubkey, reap_expired_spool, forward,
  flush, register, reap_closed,
}

-- Every queue holds at most `spool_cap` frames.
abbrev pub Bounded : Dict (List ℕ) (List SpooledFrame) → Type 0
Bounded [] = Unit {0}
Bounded ((k, q) ∷ m) = (length q ≤ spool_cap) × Bounded m

Bounded-lookup :
    (pk : List ℕ) (m : Dict (List ℕ) (List SpooledFrame))
    → Bounded m
    → length (get_or (lookup pk m) []) ≤ spool_cap
Bounded-lookup pk [] b = omega arith
Bounded-lookup pk ((k, q) ∷ m) b = ground (arith, Bounded-lookup pk m b.1)

Bounded-insert :
    (pk : List ℕ) (q : List SpooledFrame) (m : Dict (List ℕ) (List SpooledFrame))
    → length q ≤ spool_cap
    → Bounded m
    → Bounded (insert pk q m)
Bounded-insert pk q [] h b = (h, tt)
Bounded-insert pk q ((k, p) ∷ m) h b = ground (arith, Bounded-insert pk q m)

Bounded-remove :
    (pk : List ℕ) (m : Dict (List ℕ) (List SpooledFrame)) → Bounded m → Bounded (remove pk m)
Bounded-remove pk [] b = tt
Bounded-remove pk ((k, p) ∷ m) b = ground (arith, Bounded-remove pk m)

Bounded-reap_queues :
    (now : ℕ) (m : Dict (List ℕ) (List SpooledFrame)) → Bounded m → Bounded (reap_queues now m).0
unfolding reap_queues
Bounded-reap_queues now [] b = tt
Bounded-reap_queues now ((k, q) ∷ m) b =
    ground (arith, Bounded-reap_queues now m, length-select-le (fresh_at now) q)

length-push_bounded :
    (q : List SpooledFrame) (sf : SpooledFrame)
    → length q ≤ spool_cap
    → length (push_bounded q sf) ≤ spool_cap
unfolding push_bounded
length-push_bounded [] sf h = omega arith
length-push_bounded (x ∷ q) sf h = ground (arith, length-append q (sf ∷ []))

-- A call on the registry.
pub data RelayCall (Sender : Type 0) : Type 0 where
  registers : List ℕ → Lane → Sender → ℕ → RelayCall Sender
  forwards : List ℕ → Frame → Bool → ℕ → RelayCall Sender
  unregisters : List ℕ → Lane → ℕ → RelayCall Sender
  drops : List ℕ → RelayCall Sender
  reaps_closed : RelayCall Sender
  reaps_spool : ℕ → RelayCall Sender
  wakes : List ℕ → ℕ → RelayCall Sender

module _ {Sender : Type 0} where
  push_spool-Bounded :
      (r : RelayRegistry Sender) (pk : List ℕ) (hi_prio : Bool) (frame : Frame) (now : ℕ)
      → Bounded r.spool
      → Bounded (push_spool r pk hi_prio frame now).spool
  unfolding push_spool
  push_spool-Bounded r pk hi_prio frame now b =
      Bounded-insert pk _ r.spool
        (length-push_bounded (get_or (lookup pk r.spool) []) _ (Bounded-lookup pk r.spool b)) b

  module _ {Net : Type 0} (try_send : Net → Sender → Frame → Net × Sent)
      (is_closed : Net → Sender → Bool) where
    unfoldable pub call_registry :
        Net → RelayRegistry Sender → RelayCall Sender → Net × RelayRegistry Sender
    call_registry net r (registers pk lane tx now) =
        let (net', r', id) = register try_send is_closed net r pk lane tx now in (net', r')
    call_registry net r (forwards pk frame hi_prio now) =
        let (net', r', sent) = forward try_send is_closed net r pk frame hi_prio now in (net', r')
    call_registry net r (unregisters pk lane id) = (net, unregister r pk lane id)
    call_registry net r (drops pk) = (net, drop_pubkey r pk)
    call_registry net r reaps_closed = (net, (reap_closed try_send is_closed net r).0)
    call_registry net r (reaps_spool now) = (net, (reap_expired_spool r now).0)
    call_registry net r (wakes dst now) = (net, (take_wake_slot r dst now).0)

    unfoldable pub run_registry :
        Net → RelayRegistry Sender → List (RelayCall Sender) → Net × RelayRegistry Sender
    run_registry net r [] = (net, r)
    run_registry net r (c ∷ cs) = let (net', r') = call_registry net r c in run_registry net' r' cs

    forward-Bounded :
        (net : Net) (r : RelayRegistry Sender) (pk : List ℕ) (frame : Frame) (hi_prio : Bool)
        (now : ℕ)
        → Bounded r.spool
        → Bounded (forward try_send is_closed net r pk frame hi_prio now).1.spool
    unfolding forward
    forward-Bounded net r pk frame hi_prio now b =
        ground (arith, push_spool-Bounded r pk hi_prio frame now b)

    flush-Bounded :
        (held : List SpooledFrame) (net : Net) (r : RelayRegistry Sender) (pk : List ℕ) (now : ℕ)
        → Bounded r.spool
        → Bounded (flush try_send is_closed net r pk held now).1.spool
    unfolding flush
    flush-Bounded [] net r pk now b = b
    flush-Bounded (sf ∷ held) net r pk now b =
        let stale = ltb spool_ttl (now - sf.at) in
        let out = forward try_send is_closed net r pk sf.frame sf.hi_prio now in
        flush-Bounded held (if stale then net else out.0) (if stale then r else out.1) pk now
          (skip stale out.1 (forward-Bounded net r pk sf.frame sf.hi_prio now b))
      where
        skip :
            (stale : Bool) (r' : RelayRegistry Sender)
            → Bounded r'.spool
            → Bounded (if stale then r else r').spool
        skip true r' e = b
        skip false r' e = e

    call_registry-Bounded :
        (net : Net) (r : RelayRegistry Sender) (c : RelayCall Sender)
        → Bounded r.spool
        → Bounded (call_registry net r c).1.spool
    unfolding call_registry register unregister drop_pubkey reap_closed reap_expired_spool
        take_wake_slot
    call_registry-Bounded net r (registers pk lane tx now) b =
        flush-Bounded (get_or (lookup pk r.spool) []) net _ pk now (Bounded-remove pk r.spool b)
    call_registry-Bounded net r (forwards pk frame hi_prio now) b =
        forward-Bounded net r pk frame hi_prio now b
    call_registry-Bounded net r (unregisters pk lane id) b = ground arith
    call_registry-Bounded net r (drops pk) b = Bounded-remove pk r.spool b
    call_registry-Bounded net r reaps_closed b = b
    call_registry-Bounded net r (reaps_spool now) b = Bounded-reap_queues now r.spool b
    call_registry-Bounded net r (wakes dst now) b = ground arith

    -- Whatever calls are made, and whatever the channels answer, no peer's spool ever holds more than
    -- sixteen frames, once none does.
    pub run_registry-Bounded :
        (cs : List (RelayCall Sender)) (net : Net) (r : RelayRegistry Sender)
        → Bounded r.spool
        → Bounded (run_registry net r cs).1.spool
    unfolding run_registry
    run_registry-Bounded [] net r b = b
    run_registry-Bounded (c ∷ cs) net r b =
        run_registry-Bounded cs _ _ (call_registry-Bounded net r c b)
