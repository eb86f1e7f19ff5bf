-- ===== src/Joiner/Sessions/Updates.antt =====
-- The indexes of crates/mesh-joiner/src/wg/session/table.rs through the removal of a route and through
-- `upsert`.
use tabbify_service_mesh.Formats.{SocketAddr, socket_eq}
use tabbify_service_mesh.Allocator.{Ipv6Addr, addr_eq}
use tabbify_service_mesh.Joiner.Sessions.Indexes.{aliases-Consistent, index_alias, unindex_alias}
use tabbify_service_mesh.Joiner.Sessions.Consistency.{
  Consistent, tell-Consistent, write_serves, write-Consistent, refresh-Keeps,
}
use tabbify_service_mesh.Joiner.Sessions.{
  remove_app_route, SessionTable, write_session, write_if_some, drop_source,
  unhost_remote_app_route, index_endpoint, unindex_endpoint, refresh, update_in_place,
}
use tabbify_service_mesh.Joiner.Session.{PeerSession, remove_allowed_source}
use tabbify_service_mesh.Joiner.Peers.{PeerInfo}
use tabbify_service_mesh.Shared.{
  if◌then◌else◌, Bool-cases, ◌==◌, nat_eq, list_eq, option_eq, pair_eq, contains, contains-select,
  lookup, remove, lookup-remove, ℕ, ◌<◌, ◌≡◌, inl, inr, true, false, not, ◌&&◌, Option, none, some,
  arith,
}

kept_source :
    (s : PeerSession) (app a : Ipv6Addr)
    → (app == a) ≡ false
    → contains s.allowed_ips a ≡ true
    → contains (remove_allowed_source s app).allowed_ips a ≡ true
unfolding remove_allowed_source
kept_source s app a other h = ground (
  arith,
  contains-select (λ b. not (b == app)) s.allowed_ips a,
  addr_eq.beq_iff app a,
  addr_eq.beq_iff a app,
)

pub routes_out-Consistent :
    (t : SessionTable) (app : Ipv6Addr)
    → Consistent t
    → Consistent (record t { app_routes = remove app t.app_routes })
routes_out-Consistent t app i = record {
  owned = i.owned;
  keyed = i.keyed;
  aliased = i.aliased;
  hosted = λ b ula e. i.hosted b ula (ground (arith, lookup-remove app b t.app_routes));
}

-- A source leaves a session once no route needs it there.
source_out-Consistent :
    (t : SessionTable) (h : ℕ) (app : Ipv6Addr)
    → lookup app t.app_routes ≡ none
    → Consistent t
    → Consistent (write_session t h (λ s. remove_allowed_source s app))
unfolding remove_allowed_source
source_out-Consistent t h app gone i = record {
  owned = λ ula j e. ground (arith, i.owned ula j e);
  keyed = λ pk j e. ground (arith, i.keyed pk j e);
  aliased = i.aliased;
  hosted = λ b ula e.
      let other : (app == b) ≡ false = ground (arith, addr_eq.beq_iff app b) in
      write_serves t h (λ s. remove_allowed_source s app) ula b (kept_source (t.heap h) app b other)
        (i.hosted b ula e);
}

drop_source-Consistent :
    (t : SessionTable) (o : Option Ipv6Addr) (app : Ipv6Addr)
    → lookup app t.app_routes ≡ none
    → Consistent t
    → Consistent (drop_source t o app)
drop_source-Consistent t none app gone i = i
drop_source-Consistent t (some host) app gone i = at (lookup host t.by_ula)
  where
    at : (o : Option ℕ) → Consistent (write_if_some t o (λ s. remove_allowed_source s app))
    at none = i
    at (some h) = source_out-Consistent t h app gone i

pub unhost_remote-Consistent :
    (t : SessionTable) (app : Ipv6Addr) → Consistent t → Consistent (unhost_remote_app_route t app)
unfolding unhost_remote_app_route
unhost_remote-Consistent t app i = tell-Consistent _ (remove_app_route app) (
    drop_source-Consistent (record t { app_routes = remove app t.app_routes })
      (lookup app t.app_routes) app
      (ground (arith, lookup-remove app app t.app_routes, addr_eq.beq_iff app app))
      (routes_out-Consistent t app i))

pub update_in_place-Consistent :
    (t : SessionTable) (session : ℕ) (info : PeerInfo)
    → session < t.next
    → Consistent t
    → Consistent (update_in_place t session info)
unfolding update_in_place
update_in_place-Consistent t session info lt i =
    let old = t.heap session in
    let moved = not old.endpoint_learned && not (old.endpoint == info.listen_endpoint) in
    let aliases = if moved then unindex_endpoint old.endpoint t.by_endpoint else t.by_endpoint in
    let below : (addr : SocketAddr) (h : ℕ) → lookup addr aliases ≡ some h → h < t.next =
      λ addr h e. elim (Bool-cases moved) [
        | inl repointed ↦
            unindex_alias t.next old.endpoint t.by_endpoint i.aliased addr h
              (ground (arith, repointed, e))
        | inr same ↦ i.aliased addr h (ground (arith, same, e))
      ] in
    let indexed = index_endpoint info.listen_endpoint session aliases in
    write-Consistent (record t { by_endpoint = indexed }) session (refresh t.app_routes info)
      (refresh-Keeps t.app_routes info (t.heap session))
      (aliases-Consistent t indexed
        (index_alias t.next info.listen_endpoint session aliases lt below) i)
