-- ===== src/Joiner/Sessions/Reachable.antt =====
-- The tables that crates/mesh-joiner/src/wg/session/table.rs can build, and what holds of all of them.
use tabbify_service_mesh.Joiner.Sessions.Placement.{serves-live}
use tabbify_service_mesh.Joiner.Sessions.Routes.{reconcile-Consistent}
use tabbify_service_mesh.Joiner.Sessions.Membership.{
  upsert-Consistent, remove_session-Consistent, clear-Consistent,
}
use tabbify_service_mesh.Joiner.Sessions.Indexes.{learn_endpoint-Consistent}
use tabbify_service_mesh.Formats.{SocketAddr, socket_eq}
use tabbify_service_mesh.Allocator.{Ipv6Addr, addr_eq}
use tabbify_service_mesh.Joiner.Sessions.Consistency.{Consistent, Keeps, write-Consistent}
use tabbify_service_mesh.Joiner.Sessions.{
  add_allowed, SessionTable, tell, write_session, session_by_ula, learn_endpoint,
  reconcile_app_routes, update_in_place, upsert_over, upsert, remove_session, clear,
}
use tabbify_service_mesh.Joiner.Session.{PeerSession, is_allowed_source}
use tabbify_service_mesh.Joiner.Peers.{PeerInfo}
use tabbify_service_mesh.Shared.{
  Bool-cases, Option-cases, ◌==◌, nat_eq, eq_refl, list_eq, option_eq, pair_eq, Dict, lookup,
  insert, lookup-insert, ℕ, ◌<◌, ◌≡◌, refl, sym, ap, ◌∙◌, ◌⊎◌, inl, inr, Bool, true, Option, none,
  some, [], arith,
}

unfoldable pub new_table :
    (has_route_sink has_convergence_tx : Bool) → (blank : PeerSession) → SessionTable
new_table has_route_sink has_convergence_tx blank = record {
  heap = λ h. blank;
  next = 0;
  by_ula = [];
  by_endpoint = [];
  by_pubkey = [];
  app_routes = [];
  has_route_sink = has_route_sink;
  sink_calls = [];
  has_convergence_tx = has_convergence_tx;
  kicks = [];
  last_inbound_data_frame_ts = 0;
  last_send_attempt_ts = 0;
  last_idle_probe_ts = 0;
}

-- What both readers of the roster do with a peer: peer_sync.rs and heartbeat.rs.
unfoldable pub apply_peer : SessionTable → PeerInfo → SessionTable
apply_peer t info = reconcile_app_routes (upsert t info) info.ula info.hosted_app_ulas

-- The tables that the joiner's calls lead to. The packet loops write to a session that the table has
-- made, and leave its identity and sources alone.
pub data Reached : SessionTable → Type 0 where
  at_start : (sink tx : Bool) (blank : PeerSession) → Reached (new_table sink tx blank)
  after_peer : {t : SessionTable} (info : PeerInfo) → Reached t → Reached (apply_peer t info)
  after_left : {t : SessionTable} (ula : Ipv6Addr) → Reached t → Reached (remove_session t ula).0
  after_heard :
      {t : SessionTable} (session : ℕ) (source : SocketAddr)
      → session < t.next
      → Reached t
      → Reached (learn_endpoint t session source)
  after_write :
      {t : SessionTable} (session : ℕ) (f : PeerSession → PeerSession)
      → Keeps (t.heap session) (f (t.heap session))
      → Reached t
      → Reached (write_session t session f)
  after_clear : {t : SessionTable} → Reached t → Reached (clear t)

-- After an upsert the peer has a session.
insert_self : (k : Ipv6Addr) (v : ℕ) (m : Dict Ipv6Addr ℕ) → lookup k (insert k v m) ≡ some v
insert_self k v m = ground (arith, lookup-insert k k v m, eq_refl k)

upsert_over-live :
    (o : Option ℕ) (t : SessionTable) (info : PeerInfo)
    → lookup info.ula t.by_ula ≡ o
    → (h : ℕ) × (lookup info.ula (upsert_over o t info).by_ula ≡ some h)
unfolding update_in_place
upsert_over-live none t info e = (t.next, insert_self info.ula t.next t.by_ula)
upsert_over-live (some old) t info e =
    elim (Bool-cases ((t.heap old).peer_pubkey == info.wg_public_key)) [
      | inl same ↦ (old, rw (upsert_over, same) e)
      | inr rotated ↦ (t.next, rw (upsert_over, rotated) (insert_self info.ula t.next t.by_ula))
    ]

pub upsert-live :
    (t : SessionTable) (info : PeerInfo)
    → (h : ℕ) × (lookup info.ula (upsert t info).by_ula ≡ some h)
unfolding upsert
upsert-live t info =
    upsert_over-live (lookup info.ula t.by_ula) (tell t (add_allowed info.ula)) info refl

pub apply_peer-Consistent :
    (t : SessionTable) (info : PeerInfo) → Consistent t → Consistent (apply_peer t info)
unfolding apply_peer
apply_peer-Consistent t info i =
    let live = upsert-live t info in
    reconcile-Consistent (upsert t info) info.ula info.hosted_app_ulas live.0 live.1
      (upsert-Consistent t info i)

-- In every table that the joiner's calls lead to, the three indexes agree: a session stands at its own
-- address; a key leads to the session of that key, and the table has it at its address; an endpoint
-- leads to a session that was made; and the peer to which an app is routed has a session that takes
-- packets from that app.
pub Reached-Consistent : {t : SessionTable} → Reached t → Consistent t
unfolding new_table
Reached-Consistent (at_start sink tx blank) = record {
  owned = λ u h e. absurd (ground (arith, e));
  keyed = λ k h e. absurd (ground (arith, e));
  aliased = λ a h e. absurd (ground (arith, e));
  hosted = λ a u e. absurd (ground (arith, e));
}
Reached-Consistent (after_peer {t} info r) = apply_peer-Consistent t info (Reached-Consistent r)
Reached-Consistent (after_left {t} ula r) = remove_session-Consistent t ula (Reached-Consistent r)
Reached-Consistent (after_heard {t} session source lt r) =
    learn_endpoint-Consistent t session source lt (Reached-Consistent r)
Reached-Consistent (after_write {t} session f k r) =
    write-Consistent t session f k (Reached-Consistent r)
Reached-Consistent (after_clear {t} r) = clear-Consistent t

abbrev pub Routed : SessionTable → Ipv6Addr → Option ℕ → Type 0
Routed t dst none = (lookup dst t.by_ula ≡ none) × (lookup dst t.app_routes ≡ none)
Routed t dst (some h) =
    ((t.heap h).ula ≡ dst)
    ⊎ ((lookup dst t.app_routes ≡ some (t.heap h).ula) × (is_allowed_source (t.heap h) dst ≡ true))

-- A packet for `dst` goes, in such a table, to the session at that address, or to the session of the
-- peer that hosts it, which then takes the replies that come from `dst`; and to none only if nobody
-- has the address and it is routed to nobody.
pub session_by_ula-Routed :
    {t : SessionTable} (dst : Ipv6Addr) → Reached t → Routed t dst (session_by_ula t dst)
unfolding session_by_ula is_allowed_source
session_by_ula-Routed {t} dst r =
    let i = Reached-Consistent r in
    elim (Option-cases (lookup dst t.by_ula)) [
      | inr (h, own) ↦ rw (session_by_ula, own) (inl (i.owned dst h own).1)
      | inl absent ↦ elim (Option-cases (lookup dst t.app_routes)) [
        | inl unrouted ↦ rw (session_by_ula, absent, unrouted) (absent, unrouted)
        | inr (host, routed) ↦ elim (Option-cases (lookup host t.by_ula)) [
          | inl none_there ↦ absurd (ground (arith, i.hosted dst host routed, none_there))
          | inr (h, live) ↦
              let at : (t.heap h).ula ≡ host = (i.owned host h live).1 in
              let takes = sym (serves-live t host dst h live) ∙ i.hosted dst host routed in
              rw (session_by_ula, absent, routed, live) (inr (routed ∙ ap some (sym at), takes))
        ]
      ]
    ]
