-- ===== src/Joiner/Sessions/Routes.antt =====
-- App routes of crates/mesh-joiner/src/wg/session/table.rs through `reconcile_app_routes`.
use tabbify_service_mesh.Formats.{socket_eq}
use tabbify_service_mesh.Allocator.{Ipv6Addr, addr_eq}
use tabbify_service_mesh.Joiner.Sessions.Membership.{keys_to-all}
use tabbify_service_mesh.Joiner.Sessions.Updates.{unhost_remote-Consistent}
use tabbify_service_mesh.Joiner.Sessions.Indexes.{host_remote-Consistent}
use tabbify_service_mesh.Joiner.Sessions.Consistency.{Consistent}
use tabbify_service_mesh.Joiner.Sessions.{
  SessionTable, write_if_some, host_remote_app_route, drop_source, unhost_remote_app_route, keys_to,
  app_ulas_for_host, host_all, unhost_all, reconcile_app_routes,
}
use tabbify_service_mesh.Joiner.Session.{PeerSession, add_allowed_source, remove_allowed_source}
use tabbify_service_mesh.Shared.{
  if◌then◌else◌, nat_eq, list_eq, option_eq, pair_eq, select, contains, contains-select, lookup,
  insert, remove, lookup-insert, lookup-remove, ℕ, ◌≡◌, refl, ap, ◌∙◌, ◌↔◌, true, not, Option, none,
  some, List, [], ◌∷◌, arith,
}

write_if_some-frame :
    (t : SessionTable) (o : Option ℕ) (f : PeerSession → PeerSession)
    → ((write_if_some t o f).by_ula ≡ t.by_ula)
      × ((write_if_some t o f).app_routes ≡ t.app_routes)
      × ((write_if_some t o f).next ≡ t.next)
write_if_some-frame t none f = (refl, refl, refl)
write_if_some-frame t (some h) f = (refl, refl, refl)

drop_source-frame :
    (t : SessionTable) (o : Option Ipv6Addr) (app : Ipv6Addr)
    → ((drop_source t o app).by_ula ≡ t.by_ula) × ((drop_source t o app).app_routes ≡ t.app_routes)
drop_source-frame t none app = (refl, refl)
drop_source-frame t (some host) app =
    let w = write_if_some-frame t (lookup host t.by_ula) (λ s. remove_allowed_source s app) in
    (w.0, w.1)

pub host_remote-frame :
    (t : SessionTable) (app host : Ipv6Addr)
    → ((host_remote_app_route t app host).by_ula ≡ t.by_ula)
      × ((host_remote_app_route t app host).app_routes ≡ insert app host t.app_routes)
unfolding host_remote_app_route
host_remote-frame t app host =
    let routed = record t { app_routes = insert app host t.app_routes } in
    let w = write_if_some-frame routed (lookup host t.by_ula) (λ s. add_allowed_source s app) in
    (w.0, w.1)

pub unhost_remote-frame :
    (t : SessionTable) (app : Ipv6Addr)
    → ((unhost_remote_app_route t app).by_ula ≡ t.by_ula)
      × ((unhost_remote_app_route t app).app_routes ≡ remove app t.app_routes)
unfolding unhost_remote_app_route
unhost_remote-frame t app =
    drop_source-frame (record t { app_routes = remove app t.app_routes }) (lookup app t.app_routes)
      app

host_all-Consistent :
    (t : SessionTable) (host : Ipv6Addr) (apps : List Ipv6Addr) (h : ℕ)
    → lookup host t.by_ula ≡ some h
    → Consistent t
    → Consistent (host_all t host apps)
host_all-Consistent t host [] h live i = i
host_all-Consistent t host (app ∷ apps) h live i =
    let next = host_remote_app_route t app host in
    host_all-Consistent next host apps h (ap (lookup host) (host_remote-frame t app host).0 ∙ live)
      (host_remote-Consistent t app host h live i)

unhost_all-Consistent :
    (t : SessionTable) (apps : List Ipv6Addr) → Consistent t → Consistent (unhost_all t apps)
unhost_all-Consistent t [] i = i
unhost_all-Consistent t (app ∷ apps) i =
    unhost_all-Consistent (unhost_remote_app_route t app) apps (unhost_remote-Consistent t app i)

-- The apps that a reconciliation takes away.
abbrev pub stale : SessionTable → Ipv6Addr → List Ipv6Addr → List Ipv6Addr
stale t host apps =
    select (λ a. not (contains apps a)) (app_ulas_for_host (host_all t host apps) host)

pub reconcile-Consistent :
    (t : SessionTable) (host : Ipv6Addr) (apps : List Ipv6Addr) (h : ℕ)
    → lookup host t.by_ula ≡ some h
    → Consistent t
    → Consistent (reconcile_app_routes t host apps)
unfolding reconcile_app_routes
reconcile-Consistent t host apps h live i =
    unhost_all-Consistent (host_all t host apps) (stale t host apps)
      (host_all-Consistent t host apps h live i)

host_all-by_ula :
    (t : SessionTable) (host : Ipv6Addr) (apps : List Ipv6Addr)
    → (host_all t host apps).by_ula ≡ t.by_ula
host_all-by_ula t host [] = refl
host_all-by_ula t host (app ∷ apps) =
    host_all-by_ula (host_remote_app_route t app host) host apps ∙ (host_remote-frame t app host).0

unhost_all-by_ula :
    (t : SessionTable) (apps : List Ipv6Addr) → (unhost_all t apps).by_ula ≡ t.by_ula
unhost_all-by_ula t [] = refl
unhost_all-by_ula t (app ∷ apps) =
    unhost_all-by_ula (unhost_remote_app_route t app) apps ∙ (unhost_remote-frame t app).0

pub reconcile-by_ula :
    (t : SessionTable) (host : Ipv6Addr) (apps : List Ipv6Addr)
    → (reconcile_app_routes t host apps).by_ula ≡ t.by_ula
unfolding reconcile_app_routes
reconcile-by_ula t host apps =
    unhost_all-by_ula (host_all t host apps) (stale t host apps) ∙ host_all-by_ula t host apps

host_all-routes :
    (t : SessionTable) (host : Ipv6Addr) (apps : List Ipv6Addr) (app : Ipv6Addr)
    → lookup app (host_all t host apps).app_routes
      ≡ (if contains apps app then some host else lookup app t.app_routes)
host_all-routes t host [] app = refl
host_all-routes t host (a ∷ apps) app =
    let rest = host_all-routes (host_remote_app_route t a host) host apps app in
    let first = ap (lookup app) (host_remote-frame t a host).1 in
    ground (arith, rest, first, lookup-insert a app host t.app_routes)

unhost_all-routes :
    (t : SessionTable) (apps : List Ipv6Addr) (app : Ipv6Addr)
    → lookup app (unhost_all t apps).app_routes
      ≡ (if contains apps app then none else lookup app t.app_routes)
unhost_all-routes t [] app = refl
unhost_all-routes t (a ∷ apps) app =
    let rest = unhost_all-routes (unhost_remote_app_route t a) apps app in
    let first = ap (lookup app) (unhost_remote-frame t a).1 in
    ground (arith, rest, first, lookup-remove a app t.app_routes)

-- After the reconciliation exactly the advertised apps are routed to the host, whatever was routed to
-- it before.
pub reconcile_app_routes-exact :
    (t : SessionTable) (host : Ipv6Addr) (apps : List Ipv6Addr) (app : Ipv6Addr)
    → (lookup app (reconcile_app_routes t host apps).app_routes ≡ some host)
      ↔ (contains apps app ≡ true)
unfolding reconcile_app_routes app_ulas_for_host
reconcile_app_routes-exact t host apps app =
    let hosted = host_all t host apps in
    let ours = keys_to hosted.app_routes host in
    let gone = select (λ a. not (contains apps a)) ours in
    let after = unhost_all-routes hosted gone app in
    let before = host_all-routes t host apps app in
    let chosen = contains-select (λ a. not (contains apps a)) ours app in
    let listed = keys_to-all hosted.app_routes app host in
    (
      λ e. ground (arith, after, before, chosen, listed, e),
      λ e. ground (arith, after, before, chosen, e),
    )
