-- ===== src/Joiner/Sessions/Indexes.antt =====
-- Each operation of crates/mesh-joiner/src/wg/session/table.rs keeps the indexes consistent.
use tabbify_service_mesh.Formats.{SocketAddr, socket_eq}
use tabbify_service_mesh.Allocator.{Ipv6Addr, addr_eq}
use tabbify_service_mesh.Joiner.Sessions.Consistency.{
  serves, Consistent, tell-Consistent, write-Consistent, add_source-Keeps, add_source_allows,
  roam-Keeps,
}
use tabbify_service_mesh.Joiner.Sessions.{
  add_app_route, SessionTable, write_session, write_if_some, roam, learn_endpoint,
  host_remote_app_route, index_endpoint, unindex_endpoint,
}
use tabbify_service_mesh.Joiner.Session.{PeerSession, add_allowed_source}
use tabbify_service_mesh.Shared.{
  Bool-cases, ◌==◌, nat_eq, list_eq, option_eq, pair_eq, Dict, lookup, insert, lookup-insert,
  lookup-remove, ℕ, ◌<◌, ◌≡◌, sym, ap, subst, inl, inr, true, Option, none, some, arith,
}

-- A change of the endpoint aliases alone.
pub aliases-Consistent :
    (t : SessionTable) (m : Dict SocketAddr ℕ)
    → ((addr : SocketAddr) (h : ℕ) → lookup addr m ≡ some h → h < t.next)
    → Consistent t
    → Consistent (record t { by_endpoint = m })
aliases-Consistent t m a i = record {
  owned = i.owned;
  keyed = i.keyed;
  aliased = a;
  hosted = i.hosted;
}

pub index_alias :
    (n : ℕ) (o : Option SocketAddr) (session : ℕ) (m : Dict SocketAddr ℕ)
    → session < n
    → ((addr : SocketAddr) (h : ℕ) → lookup addr m ≡ some h → h < n)
    → (addr : SocketAddr) (h : ℕ) → lookup addr (index_endpoint o session m) ≡ some h
    → h < n
index_alias n none session m lt a addr h e = a addr h e
index_alias n (some s) session m lt a addr h e =
    ground (arith, lookup-insert s addr session m, a addr h)

pub unindex_alias :
    (n : ℕ) (o : Option SocketAddr) (m : Dict SocketAddr ℕ)
    → ((addr : SocketAddr) (h : ℕ) → lookup addr m ≡ some h → h < n)
    → (addr : SocketAddr) (h : ℕ) → lookup addr (unindex_endpoint o m) ≡ some h
    → h < n
unindex_alias n none m a addr h e = a addr h e
unindex_alias n (some s) m a addr h e = ground (arith, lookup-remove s addr m, a addr h)

pub learn_endpoint-Consistent :
    (t : SessionTable) (session : ℕ) (source : SocketAddr)
    → session < t.next
    → Consistent t
    → Consistent (learn_endpoint t session source)
unfolding learn_endpoint
learn_endpoint-Consistent t session source lt i =
    write-Consistent (record t { by_endpoint = insert source session t.by_endpoint }) session
      (roam source) (roam-Keeps source (t.heap session))
      (aliases-Consistent t _ (index_alias t.next (some source) session t.by_endpoint lt i.aliased)
        i)

routes_in-Consistent :
    (t : SessionTable) (app host : Ipv6Addr)
    → serves t host app ≡ true
    → Consistent t
    → Consistent (record t { app_routes = insert app host t.app_routes })
routes_in-Consistent t app host s i = record {
  owned = i.owned;
  keyed = i.keyed;
  aliased = i.aliased;
  hosted = λ b ula e. elim (Bool-cases (app == b)) [
    | inl same ↦
        let eb : app ≡ b = (addr_eq.beq_iff app b).0 same in
        let eu : host ≡ ula = ground (arith, lookup-insert app b host t.app_routes) in
        rw (sym eb, sym eu) s
    | inr other ↦ i.hosted b ula (ground (arith, lookup-insert app b host t.app_routes))
  ];
}

pub host_remote-Consistent :
    (t : SessionTable) (app host : Ipv6Addr) (h : ℕ)
    → lookup host t.by_ula ≡ some h
    → Consistent t
    → Consistent (host_remote_app_route t app host)
unfolding host_remote_app_route
host_remote-Consistent t app host h live i =
    let add = λ (s : PeerSession). add_allowed_source s app in
    let written = write_session t h add in
    let kept = write-Consistent t h add (add_source-Keeps (t.heap h) app) i in
    let now : serves written host app ≡ true =
      ground (arith, live, add_source_allows (t.heap h) app) in
    let routed = record t { app_routes = insert app host t.app_routes } in
    let e : write_if_some routed (lookup host t.by_ula) add ≡ write_if_some routed (some h) add =
      ap (λ o. write_if_some routed o add) live in
    tell-Consistent _ (add_app_route app)
      (subst Consistent (sym e) (routes_in-Consistent written app host now kept))
