-- ===== src/Joiner/Sync/View.antt =====
-- The table of sessions of crates/mesh-joiner/src/wg/session/table.rs seen as a map from addresses to
-- keys, and what each operation does to that map.
use tabbify_service_mesh.Joiner.Sessions.Reachable.{apply_peer}
use tabbify_service_mesh.Joiner.Sessions.Routes.{stale}
use tabbify_service_mesh.Joiner.Sessions.Membership.{forget-Consistent}
use tabbify_service_mesh.Joiner.Sessions.Placement.{
  inserted, inserted-identity, placed-heap, placed-top,
}
use tabbify_service_mesh.Joiner.Sessions.Consistency.{Consistent, tell-Consistent}
use tabbify_service_mesh.Joiner.Peers.{PeerInfo}
use tabbify_service_mesh.Formats.{SocketAddr, socket_eq}
use tabbify_service_mesh.Allocator.{Ipv6Addr, addr_eq}
use tabbify_service_mesh.Joiner.Sessions.{
  add_allowed, SessionTable, tell, write_session, write_if_some, host_remote_app_route, drop_source,
  unhost_remote_app_route, app_ulas_for_host, host_all, unhost_all, reconcile_app_routes,
  replay_routes, advertise, refresh, update_in_place, insert_session, forget_session, upsert_over,
  upsert, drop_orphan, drop_orphans, remove_session,
}
use tabbify_service_mesh.Joiner.Session.{PeerSession, add_allowed_source, remove_allowed_source}
use tabbify_service_mesh.Shared.{
  if◌then◌else◌, Bool-cases, Option-cases, ◌==◌, nat_eq, list_eq, option_eq, pair_eq, Text, select,
  contains, map_option, Dict, lookup, insert, remove, lookup-insert, lookup-remove, ℕ, ◌≡◌, refl,
  sym, ap, ◌∙◌, inl, inr, Bool, true, false, not, Option, none, some, List, [], ◌∷◌, arith,
}

-- What `part` shows of the session at an address.
abbrev pub seen {ℓ} : {A : Type ℓ} → (PeerSession → A) → SessionTable → Ipv6Addr → Option A
seen part t ula = map_option (λ h. part (t.heap h)) (lookup ula t.by_ula)

-- The key of the session at an address.
abbrev pub view : SessionTable → Ipv6Addr → Option Text
view t ula = seen (λ s. s.peer_pubkey) t ula

-- A part of a session that no change of its sources touches.
module _ {ℓ} {A : Type ℓ} (part : PeerSession → A)
    (blind : (s : PeerSession) (ips : List Ipv6Addr)
      → part (record s { allowed_ips = ips }) ≡ part s) where
  pub seen-some :
      (t : SessionTable) (ula : Ipv6Addr) (h : ℕ)
      → lookup ula t.by_ula ≡ some h
      → seen part t ula ≡ some (part (t.heap h))
  seen-some t ula h e = ap (map_option (λ h. part (t.heap h))) e

  pub seen-write :
      (t : SessionTable) (h : ℕ) (f : PeerSession → PeerSession) (ula : Ipv6Addr)
      → part (f (t.heap h)) ≡ part (t.heap h)
      → seen part (write_session t h f) ula ≡ seen part t ula
  seen-write t h f ula e = elim (Option-cases (lookup ula t.by_ula)) [
    | inl absent ↦ rw absent refl
    | inr (j, found) ↦ rw found (ground (arith, e))
  ]

  write_if_some-seen :
      (t : SessionTable) (o : Option ℕ) (f : PeerSession → PeerSession) (ula : Ipv6Addr)
      → ((s : PeerSession) → part (f s) ≡ part s)
      → seen part (write_if_some t o f) ula ≡ seen part t ula
  write_if_some-seen t none f ula e = refl
  write_if_some-seen t (some h) f ula e = seen-write t h f ula (e (t.heap h))

  add_source-part : (app : Ipv6Addr) (s : PeerSession) → part (add_allowed_source s app) ≡ part s
  unfolding add_allowed_source
  add_source-part app s = elim (Bool-cases (contains s.allowed_ips app)) [
    | inl there ↦ rw there refl
    | inr absent ↦ rw absent (blind s (app ∷ s.allowed_ips))
  ]

  remove_source-part :
      (app : Ipv6Addr) (s : PeerSession) → part (remove_allowed_source s app) ≡ part s
  unfolding remove_allowed_source
  remove_source-part app s = blind s (select (λ a. not (a == app)) s.allowed_ips)

  host_all-seen :
      (t : SessionTable) (host : Ipv6Addr) (apps : List Ipv6Addr) (ula : Ipv6Addr)
      → seen part (host_all t host apps) ula ≡ seen part t ula
  unfolding host_remote_app_route
  host_all-seen t host [] ula = refl
  host_all-seen t host (app ∷ apps) ula =
      host_all-seen (host_remote_app_route t app host) host apps ula
      ∙ write_if_some-seen (record t { app_routes = insert app host t.app_routes })
          (lookup host t.by_ula) (λ s. add_allowed_source s app) ula (add_source-part app)

  drop_source-seen :
      (t : SessionTable) (o : Option Ipv6Addr) (app ula : Ipv6Addr)
      → seen part (drop_source t o app) ula ≡ seen part t ula
  drop_source-seen t none app ula = refl
  drop_source-seen t (some host) app ula =
      write_if_some-seen t (lookup host t.by_ula) (λ s. remove_allowed_source s app) ula
        (remove_source-part app)

  unhost_all-seen :
      (t : SessionTable) (apps : List Ipv6Addr) (ula : Ipv6Addr)
      → seen part (unhost_all t apps) ula ≡ seen part t ula
  unfolding unhost_remote_app_route
  unhost_all-seen t [] ula = refl
  unhost_all-seen t (app ∷ apps) ula =
      unhost_all-seen (unhost_remote_app_route t app) apps ula
      ∙ drop_source-seen (record t { app_routes = remove app t.app_routes })
          (lookup app t.app_routes) app ula

  pub reconcile_app_routes-seen :
      (t : SessionTable) (host : Ipv6Addr) (apps : List Ipv6Addr) (ula : Ipv6Addr)
      → seen part (reconcile_app_routes t host apps) ula ≡ seen part t ula
  unfolding reconcile_app_routes
  reconcile_app_routes-seen t host apps ula =
      unhost_all-seen (host_all t host apps) (stale t host apps) ula ∙ host_all-seen t host apps ula

  replay_routes-part :
      (m : Dict Ipv6Addr Ipv6Addr) (ula : Ipv6Addr) (s : PeerSession)
      → part (replay_routes m ula s) ≡ part s
  replay_routes-part [] ula s = refl
  replay_routes-part ((app, host) ∷ m) ula s =
      replay_routes-part m ula (if host == ula then add_allowed_source s app else s)
      ∙ step (host == ula)
    where
      step : (b : Bool) → part (if b then add_allowed_source s app else s) ≡ part s
      step true = add_source-part app s
      step false = refl

  -- An update in place shows nothing new of a part that the advertised address is not in either.
  pub update_in_place-seen :
      (t : SessionTable) (session : ℕ) (info : PeerInfo) (ula : Ipv6Addr)
      → ((s : PeerSession) (e : Option SocketAddr) → part (record s { endpoint = e }) ≡ part s)
      → seen part (update_in_place t session info) ula ≡ seen part t ula
  unfolding update_in_place
  update_in_place-seen t session info ula still =
      seen-write t session (refresh t.app_routes info) ula (
        replay_routes-part t.app_routes info.ula (advertise info.listen_endpoint (t.heap session))
        ∙ kept (t.heap session).endpoint_learned)
    where
      kept :
          (b : Bool)
          → part (
              if b
              then t.heap session
              else record (t.heap session) { endpoint = info.listen_endpoint })
            ≡ part (t.heap session)
      kept true = refl
      kept false = still (t.heap session) info.listen_endpoint

abbrev key_of : PeerSession → Text
key_of s = s.peer_pubkey

insert_session-view :
    (is_new : Bool) (t : SessionTable) (info : PeerInfo) (ula : Ipv6Addr)
    → Consistent t
    → view (insert_session is_new t info) ula
      ≡ (if info.ula == ula then some info.wg_public_key else view t ula)
insert_session-view is_new t info ula i = elim (Bool-cases (info.ula == ula)) [
  | inl same ↦
      let top : lookup ula (insert info.ula t.next t.by_ula) ≡ some t.next =
        ground (arith, lookup-insert info.ula ula t.next t.by_ula, same) in
      let key = (inserted-identity is_new t info).1 in
      rw same (
        seen-some key_of (λ s ips. refl) (insert_session is_new t info) ula t.next top
        ∙ (ap (λ (s : PeerSession). some s.peer_pubkey) (placed-top t (inserted is_new t info))
            ∙ ap some key))
  | inr other ↦
      let same_lookup : lookup ula (insert info.ula t.next t.by_ula) ≡ lookup ula t.by_ula =
        ground (arith, lookup-insert info.ula ula t.next t.by_ula, other) in
      elim (Option-cases (lookup ula t.by_ula)) [
        | inl absent ↦ rw (other, same_lookup, absent) refl
        | inr (h, found) ↦
            let lt = (i.owned ula h found).0 in
            rw other (
              seen-some key_of (λ s ips. refl) (insert_session is_new t info) ula h
                (same_lookup ∙ found)
              ∙ (ap (λ (s : PeerSession). some s.peer_pubkey)
                    (placed-heap t (inserted is_new t info) h lt)
                  ∙ sym (seen-some key_of (λ s ips. refl) t ula h found)))
      ]
]

upsert_over-view :
    (o : Option ℕ) (t : SessionTable) (info : PeerInfo) (ula : Ipv6Addr)
    → lookup info.ula t.by_ula ≡ o
    → Consistent t
    → view (upsert_over o t info) ula
      ≡ (if info.ula == ula then some info.wg_public_key else view t ula)
upsert_over-view none t info ula e i = insert_session-view true t info ula i
upsert_over-view (some old) t info ula e i =
    elim (Bool-cases ((t.heap old).peer_pubkey == info.wg_public_key)) [
      | inl same ↦
          rw (upsert_over, same)
            (elim (Bool-cases (info.ula == ula)) [
              | inl here ↦
                  let eu : info.ula ≡ ula = (addr_eq.beq_iff info.ula ula).0 here in
                  let key = (list_eq.beq_iff (t.heap old).peer_pubkey info.wg_public_key).0 same in
                  let live : lookup ula t.by_ula ≡ some old =
                    ap (λ u. lookup u t.by_ula) (sym eu) ∙ e in
                  rw here (
                    update_in_place-seen key_of (λ s ips. refl) t old info ula (λ s e. refl)
                    ∙ (seen-some key_of (λ s ips. refl) t ula old live ∙ ap some key))
              | inr there ↦
                  rw there
                    (update_in_place-seen key_of (λ s ips. refl) t old info ula (λ s e. refl))
            ])
      | inr rotated ↦
          rw (upsert_over, rotated)
            (insert_session-view false (forget_session t old) info ula (forget-Consistent t old i))
    ]

pub apply_peer-view :
    (t : SessionTable) (info : PeerInfo) (ula : Ipv6Addr)
    → Consistent t
    → view (apply_peer t info) ula
      ≡ (if info.ula == ula then some info.wg_public_key else view t ula)
unfolding apply_peer upsert
apply_peer-view t info ula i =
    reconcile_app_routes-seen key_of (λ s ips. refl) (upsert t info) info.ula info.hosted_app_ulas
      ula
    ∙ upsert_over-view (lookup info.ula t.by_ula) (tell t (add_allowed info.ula)) info ula refl
        (tell-Consistent t (add_allowed info.ula) i)

drop_orphans-frame :
    (t : SessionTable) (apps : List Ipv6Addr)
    → ((drop_orphans t apps).by_ula ≡ t.by_ula) × ((drop_orphans t apps).heap ≡ t.heap)
drop_orphans-frame t [] = (refl, refl)
drop_orphans-frame t (app ∷ apps) = drop_orphans-frame (drop_orphan t app) apps

-- A removal takes out one address and leaves the sessions themselves as they are.
pub remove_session-frame :
    (t : SessionTable) (ula u : Ipv6Addr)
    → ((remove_session t ula).0.heap ≡ t.heap)
      × (lookup u (remove_session t ula).0.by_ula ≡ (if ula == u then none else lookup u t.by_ula))
unfolding remove_session
remove_session-frame t ula u = elim (Option-cases (lookup ula t.by_ula)) [
  | inl absent ↦ rw (remove_session, absent) (refl, ground (arith, absent, addr_eq.beq_iff ula u))
  | inr (h, found) ↦
      let unlisted = forget_session (record t { by_ula = remove ula t.by_ula }) h in
      let f = drop_orphans-frame unlisted (app_ulas_for_host unlisted ula) in
      rw (remove_session, found) (f.1, ap (lookup u) f.0 ∙ lookup-remove ula u t.by_ula)
]

pub remove_session-view :
    (t : SessionTable) (ula u : Ipv6Addr)
    → view (remove_session t ula).0 u ≡ (if ula == u then none else view t u)
remove_session-view t ula u =
    let f = remove_session-frame t ula u in
    let out = (remove_session t ula).0 in
    ap (λ (heap : ℕ → PeerSession). map_option (λ h. (heap h).peer_pubkey) (lookup u out.by_ula))
      f.0
    ∙ (ap (map_option (λ h. (t.heap h).peer_pubkey)) f.1 ∙ by_cases (ula == u))
  where
    by_cases :
        (b : Bool)
        → map_option (λ h. (t.heap h).peer_pubkey) (if b then none else lookup u t.by_ula)
          ≡ (if b then none else view t u)
    by_cases true = refl
    by_cases false = refl
