-- ===== src/Joiner/Sessions/Membership.antt =====
-- The indexes of crates/mesh-joiner/src/wg/session/table.rs as peers come, change their key and leave.
use tabbify_service_mesh.Joiner.Sessions.Placement.{insert_session-Consistent}
use tabbify_service_mesh.Joiner.Sessions.Updates.{routes_out-Consistent, update_in_place-Consistent}
use tabbify_service_mesh.Joiner.Sessions.Indexes.{unindex_alias}
use tabbify_service_mesh.Formats.{socket_eq}
use tabbify_service_mesh.Allocator.{Ipv6Addr, addr_eq}
use tabbify_service_mesh.Joiner.Sessions.Consistency.{
  serves, Consistent, tell-Consistent, replay_allows,
}
use tabbify_service_mesh.Joiner.Sessions.{
  add_allowed, remove_allowed, remove_app_route, SessionTable, tell, keys_to, app_ulas_for_host,
  new_session, forget_session, upsert_over, upsert, drop_orphan, drop_orphans, remove_session,
  clear,
}
use tabbify_service_mesh.Joiner.Peers.{PeerInfo}
use tabbify_service_mesh.Shared.{
  Bool-cases, ◌==◌, nat_eq, list_eq, option_eq, pair_eq, Text, contains, Dict, lookup, remove,
  lookup-remove, ℕ, ◌≡◌, refl, sym, ap, subst, ◌∙◌, ◌≢◌, inl, inr, true, false, Option, none, some,
  List, [], ◌∷◌, arith,
}

pub forget-Consistent :
    (t : SessionTable) (old : ℕ) → Consistent t → Consistent (forget_session t old)
forget-Consistent t old i = record {
  owned = i.owned;
  keyed = λ pk h e.
      i.keyed pk h (ground (arith, lookup-remove (t.heap old).peer_pubkey pk t.by_pubkey));
  aliased = unindex_alias t.next (t.heap old).endpoint t.by_endpoint i.aliased;
  hosted = i.hosted;
}

-- A table without a session at an address has no key and no route that leads to it.
vacant_new :
    (t : SessionTable) (ula : Ipv6Addr)
    → lookup ula t.by_ula ≡ none
    → Consistent t
    → ((pubkey : Text) (h : ℕ)
        → lookup pubkey t.by_pubkey ≡ some h
        → (ula == (t.heap h).ula) ≡ false)
      × ((app : Ipv6Addr) → lookup app t.app_routes ≢ some ula)
vacant_new t ula absent i = (
  λ pk h e. elim (Bool-cases (ula == (t.heap h).ula)) [
    | inl same ↦
        let eu : ula ≡ (t.heap h).ula = (addr_eq.beq_iff ula (t.heap h).ula).0 same in
        let found : lookup ula t.by_ula ≡ some h =
          subst (λ u. lookup u t.by_ula ≡ some h) (sym eu) (i.keyed pk h e).1 in
        absurd (ground (arith, found, absent))
    | inr other ↦ other
  ],
  λ app e. ground (arith, i.hosted app ula e, absent),
)

-- After a session is forgotten no key leads to its address.
vacant_forgotten :
    (t : SessionTable) (ula : Ipv6Addr) (old : ℕ)
    → lookup ula t.by_ula ≡ some old
    → Consistent t
    → (pubkey : Text) (h : ℕ) → lookup pubkey (forget_session t old).by_pubkey ≡ some h
    → (ula == (t.heap h).ula) ≡ false
vacant_forgotten t ula old live i pk h e = elim (Bool-cases (ula == (t.heap h).ula)) [
  | inl same ↦
      let eu : ula ≡ (t.heap h).ula = (addr_eq.beq_iff ula (t.heap h).ula).0 same in
      let before : lookup pk t.by_pubkey ≡ some h =
        ground (arith, lookup-remove (t.heap old).peer_pubkey pk t.by_pubkey) in
      let k = i.keyed pk h before in
      let found : lookup ula t.by_ula ≡ some h =
        subst (λ u. lookup u t.by_ula ≡ some h) (sym eu) k.1 in
      let eo : h ≡ old = ground (arith, found, live) in
      let ek : (t.heap old).peer_pubkey ≡ pk = subst (λ j. (t.heap j).peer_pubkey ≡ pk) eo k.0 in
      let hit = (list_eq.beq_iff (t.heap old).peer_pubkey pk).1 ek in
      absurd (ground (arith, e, hit, lookup-remove (t.heap old).peer_pubkey pk t.by_pubkey))
  | inr other ↦ other
]

upsert_over-Consistent :
    (o : Option ℕ) (t : SessionTable) (info : PeerInfo)
    → lookup info.ula t.by_ula ≡ o
    → Consistent t
    → Consistent (upsert_over o t info)
upsert_over-Consistent none t info absent i =
    let v = vacant_new t info.ula absent i in
    insert_session-Consistent true t info v.0 (λ app e. absurd (v.1 app e)) i
upsert_over-Consistent (some old) t info live i =
    elim (Bool-cases ((t.heap old).peer_pubkey == info.wg_public_key)) [
      | inl same ↦
          rw (upsert_over, same)
            (update_in_place-Consistent t old info (i.owned info.ula old live).0 i)
      | inr rotated ↦
          rw (upsert_over, rotated)
            (insert_session-Consistent false (forget_session t old) info
              (vacant_forgotten t info.ula old live i)
              (λ app e. replay_allows t.app_routes info.ula app (new_session info) e)
              (forget-Consistent t old i))
    ]

pub upsert-Consistent :
    (t : SessionTable) (info : PeerInfo) → Consistent t → Consistent (upsert t info)
unfolding upsert
upsert-Consistent t info i =
    upsert_over-Consistent (lookup info.ula t.by_ula) (tell t (add_allowed info.ula)) info refl
      (tell-Consistent t (add_allowed info.ula) i)

abbrev unlist : SessionTable → Ipv6Addr → ℕ → SessionTable
unlist t ula h = forget_session (record t { by_ula = remove ula t.by_ula }) h

unlist-Consistent :
    (t : SessionTable) (ula : Ipv6Addr) (h : ℕ)
    → lookup ula t.by_ula ≡ some h
    → ((app : Ipv6Addr) → lookup app t.app_routes ≢ some ula)
    → Consistent t
    → Consistent (unlist t ula h)
unlist-Consistent t ula h live free i = record {
  owned = λ u j e. i.owned u j (ground (arith, lookup-remove ula u t.by_ula));
  keyed = λ pk j e.
      let k = i.keyed pk j (ground (arith, lookup-remove (t.heap h).peer_pubkey pk t.by_pubkey)) in
      let v = vacant_forgotten t ula h live i pk j e in
      (k.0, ground (arith, k.1, v, lookup-remove ula (t.heap j).ula t.by_ula));
  aliased = unindex_alias t.next (t.heap h).endpoint t.by_endpoint i.aliased;
  hosted = λ app u e. elim (Bool-cases (ula == u)) [
    | inl same ↦
        let eu : ula ≡ u = (addr_eq.beq_iff ula u).0 same in
        absurd (free app (e ∙ ap some (sym eu)))
    | inr other ↦
        let still : lookup u (remove ula t.by_ula) ≡ lookup u t.by_ula =
          ground (arith, lookup-remove ula u t.by_ula, other) in
        rw (serves, still) (i.hosted app u e)
  ];
}

drop_orphans-Consistent :
    (t : SessionTable) (apps : List Ipv6Addr) → Consistent t → Consistent (drop_orphans t apps)
drop_orphans-Consistent t [] i = i
drop_orphans-Consistent t (app ∷ apps) i = drop_orphans-Consistent (drop_orphan t app) apps (
    tell-Consistent (record t { app_routes = remove app t.app_routes }) (remove_app_route app)
      (routes_out-Consistent t app i))

drop_orphans-unlist :
    (t : SessionTable) (apps : List Ipv6Addr) (ula : Ipv6Addr) (h : ℕ)
    → drop_orphans (unlist t ula h) apps ≡ unlist (drop_orphans t apps) ula h
drop_orphans-unlist t [] ula h = refl
drop_orphans-unlist t (app ∷ apps) ula h = drop_orphans-unlist (drop_orphan t app) apps ula h

drop_orphans-by_ula :
    (t : SessionTable) (apps : List Ipv6Addr) → (drop_orphans t apps).by_ula ≡ t.by_ula
drop_orphans-by_ula t [] = refl
drop_orphans-by_ula t (app ∷ apps) = drop_orphans-by_ula (drop_orphan t app) apps

-- A route that is left was there and is not among those dropped.
drop_orphans-left :
    (t : SessionTable) (apps : List Ipv6Addr) (app ula : Ipv6Addr)
    → lookup app (drop_orphans t apps).app_routes ≡ some ula
    → (contains apps app ≡ false) × (lookup app t.app_routes ≡ some ula)
drop_orphans-left t [] app ula e = (refl, e)
drop_orphans-left t (a ∷ apps) app ula e =
    let rest = drop_orphans-left (drop_orphan t a) apps app ula e in
    let before = lookup-remove a app t.app_routes in
    (ground (arith, rest.0, rest.1, before), ground (arith, rest.1, before))

pub keys_to-all :
    (m : Dict Ipv6Addr Ipv6Addr) (app ula : Ipv6Addr)
    → lookup app m ≡ some ula
    → contains (keys_to m ula) app ≡ true
keys_to-all [] app ula e = absurd (ground arith)
keys_to-all ((a, host) ∷ m) app ula e =
    ground (arith, addr_eq.beq_iff a app, addr_eq.beq_iff host ula, keys_to-all m app ula)

pub remove_session-Consistent :
    (t : SessionTable) (ula : Ipv6Addr) → Consistent t → Consistent (remove_session t ula).0
unfolding remove_session app_ulas_for_host
remove_session-Consistent t ula i = at (lookup ula t.by_ula) refl
  where
    at : (o : Option ℕ) → lookup ula t.by_ula ≡ o → Consistent (remove_session t ula).0
    at none e = rw (remove_session, e) i
    at (some h) e =
        let apps = keys_to t.app_routes ula in
        let left = drop_orphans t apps in
        let live : lookup ula left.by_ula ≡ some h =
          ap (lookup ula) (drop_orphans-by_ula t apps) ∙ e in
        let free : (app : Ipv6Addr) → lookup app left.app_routes ≢ some ula = λ app f.
          let l = drop_orphans-left t apps app ula f in
          ground (arith, l.0, keys_to-all t.app_routes app ula l.1) in
        let done = unlist-Consistent left ula h live free (drop_orphans-Consistent t apps i) in
        rw (remove_session, e)
          (tell-Consistent _ (remove_allowed ula)
            (subst Consistent (sym (drop_orphans-unlist t apps ula h)) done))

pub clear-Consistent : (t : SessionTable) → Consistent (clear t)
unfolding clear
clear-Consistent t = record {
  owned = λ u h e. absurd (ground (arith, e));
  keyed = λ k h e. absurd (ground (arith, e));
  aliased = λ a h e. absurd (ground (arith, e));
  hosted = λ a u e. absurd (ground (arith, e));
}
