-- ===== src/Joiner/Sessions.antt =====
-- crates/mesh-joiner/src/wg/session/table.rs: the table of sessions and its three indexes. A session
-- is shared (`Arc`), so the table keeps the sessions in a store and its indexes hold their handles.
-- What it tells the route sink, and the sessions that it sends to the convergence queue, are appended
-- to two lists. The order of a map's entries stands for the order in which `DashMap` visits them.
pub mod Clocks
pub mod Liveness
pub mod Consistency
pub mod Indexes
pub mod Updates
pub mod Placement
pub mod Membership
pub mod Routes
pub mod Reachable
use tabbify_service_mesh.Formats.{SocketAddr, socket_eq}
use tabbify_service_mesh.Allocator.{Ipv6Addr, addr_eq}
use tabbify_service_mesh.Joiner.Session.{PeerSession, add_allowed_source, remove_allowed_source}
use tabbify_service_mesh.Joiner.Peers.{PeerInfo, is_ephemeral_peer}
use tabbify_service_mesh.Shared.{
  if◌then◌else◌, ◌==◌, nat_eq, list_eq, option_eq, pair_eq, Text, select, contains, Dict, lookup,
  insert, remove, ℕ, ◌+◌, Bool, true, false, not, ◌&&◌, Option, none, some, List, [], ◌∷◌, ◌++◌,
  map,
}

-- The calls of wg/session/route_sink.rs.
pub data SinkCall : Type 0 where
  add_allowed : Ipv6Addr → SinkCall
  remove_allowed : Ipv6Addr → SinkCall
  add_app_route : Ipv6Addr → SinkCall
  remove_app_route : Ipv6Addr → SinkCall

pub record SessionTable : Type 0 where
  pub heap : ℕ → PeerSession
  pub next : ℕ
  pub by_ula : Dict Ipv6Addr ℕ
  pub by_endpoint : Dict SocketAddr ℕ
  pub by_pubkey : Dict Text ℕ
  pub app_routes : Dict Ipv6Addr Ipv6Addr
  pub has_route_sink : Bool
  pub sink_calls : List SinkCall
  pub has_convergence_tx : Bool
  pub kicks : List ℕ
  pub last_inbound_data_frame_ts : ℕ
  pub last_send_attempt_ts : ℕ
  pub last_idle_probe_ts : ℕ

abbrev pub tell : SessionTable → SinkCall → SessionTable
tell t c = record t {
  sink_calls = if t.has_route_sink then t.sink_calls ++ c ∷ [] else t.sink_calls;
}

-- A write to a shared session.
abbrev pub write_session : SessionTable → ℕ → (PeerSession → PeerSession) → SessionTable
write_session t h f = record t { heap = λ k. if k == h then f (t.heap k) else t.heap k }

abbrev pub write_if_some : SessionTable → Option ℕ → (PeerSession → PeerSession) → SessionTable
write_if_some t none f = t
write_if_some t (some h) f = write_session t h f

unfoldable pub request_convergence_kick : SessionTable → Ipv6Addr → SessionTable
request_convergence_kick t ula =
    if t.has_convergence_tx
    then elim (lookup ula t.by_ula) [ none ↦ t | some h ↦ record t { kicks = t.kicks ++ h ∷ [] } ]
    else t

-- `by_ula`: the session for a destination, by the host of an app if it is no peer's own address.
unfoldable pub session_by_ula : SessionTable → Ipv6Addr → Option ℕ
session_by_ula t dst = elim (lookup dst t.by_ula) [
  | some h ↦ some h
  | none ↦ elim (lookup dst t.app_routes) [ none ↦ none | some host ↦ lookup host t.by_ula ]
]

unfoldable pub session_by_endpoint : SessionTable → SocketAddr → Option ℕ
session_by_endpoint t endpoint = lookup endpoint t.by_endpoint

unfoldable pub session_by_pubkey : SessionTable → Text → Option ℕ
session_by_pubkey t pubkey = lookup pubkey t.by_pubkey

-- The address that a session's packets come from becomes the one to send to.
abbrev pub roam : SocketAddr → PeerSession → PeerSession
roam source s =
    if s.endpoint == some source
    then s
    else record s { endpoint = some source; endpoint_learned = true }

unfoldable pub learn_endpoint : SessionTable → (session : ℕ) (source : SocketAddr) → SessionTable
learn_endpoint t session source =
    write_session (record t { by_endpoint = insert source session t.by_endpoint }) session
      (roam source)

unfoldable pub host_remote_app_route : SessionTable → (app_ula host_ula : Ipv6Addr) → SessionTable
host_remote_app_route t app_ula host_ula =
    let routed = record t { app_routes = insert app_ula host_ula t.app_routes } in
    tell (write_if_some routed (lookup host_ula t.by_ula) (λ s. add_allowed_source s app_ula))
      (add_app_route app_ula)

abbrev pub drop_source : SessionTable → Option Ipv6Addr → Ipv6Addr → SessionTable
drop_source t none app_ula = t
drop_source t (some host_ula) app_ula =
    write_if_some t (lookup host_ula t.by_ula) (λ s. remove_allowed_source s app_ula)

unfoldable pub unhost_remote_app_route : SessionTable → (app_ula : Ipv6Addr) → SessionTable
unhost_remote_app_route t app_ula =
    let unrouted = record t { app_routes = remove app_ula t.app_routes } in
    tell (drop_source unrouted (lookup app_ula t.app_routes) app_ula) (remove_app_route app_ula)

abbrev pub keys_to : Dict Ipv6Addr Ipv6Addr → Ipv6Addr → List Ipv6Addr
keys_to [] host_ula = []
keys_to ((app, host) ∷ m) host_ula =
    let rest = keys_to m host_ula in if host == host_ula then app ∷ rest else rest

unfoldable pub app_ulas_for_host : SessionTable → Ipv6Addr → List Ipv6Addr
app_ulas_for_host t host_ula = keys_to t.app_routes host_ula

abbrev pub host_all : SessionTable → (host_ula : Ipv6Addr) → List Ipv6Addr → SessionTable
host_all t host_ula [] = t
host_all t host_ula (app ∷ apps) = host_all (host_remote_app_route t app host_ula) host_ula apps

abbrev pub unhost_all : SessionTable → List Ipv6Addr → SessionTable
unhost_all t [] = t
unhost_all t (app ∷ apps) = unhost_all (unhost_remote_app_route t app) apps

unfoldable pub reconcile_app_routes :
    SessionTable → (host_ula : Ipv6Addr) (advertised : List Ipv6Addr) → SessionTable
reconcile_app_routes t host_ula advertised =
    let hosted = host_all t host_ula advertised in
    unhost_all hosted
      (select (λ a. not (contains advertised a)) (app_ulas_for_host hosted host_ula))

-- `allowed_ips_for`
abbrev pub allowed_ips_for : PeerInfo → List Ipv6Addr
allowed_ips_for info = info.ula ∷ []

unfoldable pub new_session : PeerInfo → PeerSession
new_session info = record {
  peer_id = info.peer_id;
  ula = info.ula;
  peer_pubkey = info.wg_public_key;
  allowed_ips = allowed_ips_for info;
  endpoint = info.listen_endpoint;
  endpoint_learned = false;
  direct_confirmed = false;
  last_direct_rx_micros = 0;
  last_direct_data_tx_micros = 0;
  last_direct_data_rx_micros = 0;
  last_probe_micros = 0;
  failed_handshake_count = 0;
  direct_suppressed_until = 0;
  last_rearm_micros = 0;
  rearm_streak = 0;
  eager_convergence = not (is_ephemeral_peer info.ula);
  last_handshake_rx_micros = 0;
  last_handshake_rx_direct = false;
  handshake_rx_count = 0;
}

-- The sources of the apps that `ula` hosts, added to a session.
abbrev pub replay_routes : Dict Ipv6Addr Ipv6Addr → Ipv6Addr → PeerSession → PeerSession
replay_routes [] ula s = s
replay_routes ((app, host) ∷ m) ula s =
    replay_routes m ula (if host == ula then add_allowed_source s app else s)

abbrev pub index_endpoint : Option SocketAddr → ℕ → Dict SocketAddr ℕ → Dict SocketAddr ℕ
index_endpoint none h m = m
index_endpoint (some addr) h m = insert addr h m

abbrev pub unindex_endpoint : Option SocketAddr → Dict SocketAddr ℕ → Dict SocketAddr ℕ
unindex_endpoint none m = m
unindex_endpoint (some addr) m = remove addr m

-- An address from the roster is taken unless the session has learned one.
abbrev pub advertise : Option SocketAddr → PeerSession → PeerSession
advertise advertised s = if s.endpoint_learned then s else record s { endpoint = advertised }

abbrev pub refresh : Dict Ipv6Addr Ipv6Addr → PeerInfo → PeerSession → PeerSession
refresh app_routes info s = replay_routes app_routes info.ula (advertise info.listen_endpoint s)

unfoldable pub update_in_place : SessionTable → (session : ℕ) → PeerInfo → SessionTable
update_in_place t session info =
    let old = t.heap session in
    let moved = not old.endpoint_learned && not (old.endpoint == info.listen_endpoint) in
    let aliases = if moved then unindex_endpoint old.endpoint t.by_endpoint else t.by_endpoint in
    write_session (record t { by_endpoint = index_endpoint info.listen_endpoint session aliases })
      session (refresh t.app_routes info)

-- A fresh session for `info`, in all the indexes. `is_new`: there was none at this address before.
abbrev pub insert_session : (is_new : Bool) → SessionTable → PeerInfo → SessionTable
insert_session is_new t info =
    let bare = new_session info in
    let session = if is_new then bare else replay_routes t.app_routes info.ula bare in
    let kick = is_new && (not (is_ephemeral_peer info.ula) && t.has_convergence_tx) in
    record t {
      heap = λ k. if k == t.next then session else t.heap k;
      next = t.next + 1;
      by_ula = insert info.ula t.next t.by_ula;
      by_pubkey = insert info.wg_public_key t.next t.by_pubkey;
      kicks = if kick then t.kicks ++ t.next ∷ [] else t.kicks;
      by_endpoint = index_endpoint info.listen_endpoint t.next t.by_endpoint;
    }

-- What a key rotation takes out of the indexes first.
abbrev pub forget_session : SessionTable → ℕ → SessionTable
forget_session t old = record t {
  by_endpoint = unindex_endpoint (t.heap old).endpoint t.by_endpoint;
  by_pubkey = remove (t.heap old).peer_pubkey t.by_pubkey;
}

abbrev pub upsert_over : Option ℕ → SessionTable → PeerInfo → SessionTable
upsert_over none t info = insert_session true t info
upsert_over (some old) t info =
    if (t.heap old).peer_pubkey == info.wg_public_key
    then update_in_place t old info
    else insert_session false (forget_session t old) info

unfoldable pub upsert : SessionTable → PeerInfo → SessionTable
upsert t info = upsert_over (lookup info.ula t.by_ula) (tell t (add_allowed info.ula)) info

abbrev pub drop_orphan : SessionTable → Ipv6Addr → SessionTable
drop_orphan t app = tell (record t { app_routes = remove app t.app_routes }) (remove_app_route app)

abbrev pub drop_orphans : SessionTable → List Ipv6Addr → SessionTable
drop_orphans t [] = t
drop_orphans t (app ∷ apps) = drop_orphans (drop_orphan t app) apps

unfoldable pub remove_session : SessionTable → Ipv6Addr → SessionTable × Bool
remove_session t ula = elim (lookup ula t.by_ula) [
  | none ↦ (t, false)
  | some h ↦
      let unlisted = forget_session (record t { by_ula = remove ula t.by_ula }) h in
      (tell (drop_orphans unlisted (app_ulas_for_host unlisted ula)) (remove_allowed ula), true)
]

abbrev pub keys {ℓ κ} : {K : Type ℓ} {V : Type κ} → Dict K V → List K
keys [] = []
keys ((k, v) ∷ m) = k ∷ keys m

unfoldable pub clear : SessionTable → SessionTable
clear t = record t {
  by_ula = [];
  by_endpoint = [];
  by_pubkey = [];
  app_routes = [];
  sink_calls =
      if t.has_route_sink
      then t.sink_calls
        ++ (map remove_allowed (keys t.by_ula) ++ map remove_app_route (keys t.app_routes))
      else t.sink_calls;
}
