-- ===== src/Joiner/Sessions/Placement.antt =====
-- A fresh session of crates/mesh-joiner/src/wg/session/table.rs takes its place in the indexes.
use tabbify_service_mesh.Formats.{socket_eq}
use tabbify_service_mesh.Allocator.{Ipv6Addr, addr_eq}
use tabbify_service_mesh.Joiner.Sessions.Indexes.{index_alias}
use tabbify_service_mesh.Joiner.Sessions.Consistency.{serves, Consistent, replay-Keeps}
use tabbify_service_mesh.Joiner.Sessions.{SessionTable, new_session, replay_routes, insert_session}
use tabbify_service_mesh.Joiner.Session.{PeerSession}
use tabbify_service_mesh.Joiner.Peers.{PeerInfo}
use tabbify_service_mesh.Shared.{
  if◌then◌else◌, Bool-cases, Option-cases, ◌==◌, nat_eq, eq_refl, list_eq, option_eq, pair_eq, Text,
  contains, lookup, insert, lookup-insert, ℕ, ◌+◌, ◌<◌, ◌≡◌, refl, sym, ap, subst, ◌∙◌, inl, inr,
  Bool, true, false, some, arith,
}

-- The session that `insert_session` makes.
abbrev pub inserted : Bool → SessionTable → PeerInfo → PeerSession
inserted is_new t info =
    if is_new then new_session info else replay_routes t.app_routes info.ula (new_session info)

pub inserted-identity :
    (is_new : Bool) (t : SessionTable) (info : PeerInfo)
    → ((inserted is_new t info).ula ≡ info.ula)
      × ((inserted is_new t info).peer_pubkey ≡ info.wg_public_key)
unfolding new_session
inserted-identity true t info = (refl, refl)
inserted-identity false t info =
    let k = replay-Keeps t.app_routes info.ula (new_session info) in (k.0, k.1)

-- A session `s` in a store cell of its own, at an address and under a key.
abbrev pub placed : SessionTable → PeerSession → SessionTable
placed t s = record t {
  heap = λ k. if k == t.next then s else t.heap k;
  next = t.next + 1;
  by_ula = insert s.ula t.next t.by_ula;
  by_pubkey = insert s.peer_pubkey t.next t.by_pubkey;
}

pub placed-heap :
    (t : SessionTable) (s : PeerSession) (h : ℕ) → h < t.next → (placed t s).heap h ≡ t.heap h
placed-heap t s h lt = ground arith

pub placed-top : (t : SessionTable) (s : PeerSession) → (placed t s).heap t.next ≡ s
placed-top t s = ground arith

pub serves-live :
    (t : SessionTable) (ula app : Ipv6Addr) (h : ℕ)
    → lookup ula t.by_ula ≡ some h
    → serves t ula app ≡ contains (t.heap h).allowed_ips app
serves-live t ula app h e = rw (serves, e) refl

serves-placed :
    (t : SessionTable) (s : PeerSession) (app : Ipv6Addr)
    → contains s.allowed_ips app ≡ true
    → serves (placed t s) s.ula app ≡ true
serves-placed t s app h =
    let found : lookup s.ula (insert s.ula t.next t.by_ula) ≡ some t.next =
      ground (arith, lookup-insert s.ula s.ula t.next t.by_ula, eq_refl s.ula) in
    serves-live (placed t s) s.ula app t.next found
    ∙ (ap (λ (u : PeerSession). contains u.allowed_ips app) (placed-top t s) ∙ h)

serves_beside :
    (t : SessionTable) (s : PeerSession) (ula app : Ipv6Addr)
    → (s.ula == ula) ≡ false
    → Consistent t
    → serves t ula app ≡ true
    → serves (placed t s) ula app ≡ true
serves_beside t s ula app other i served = elim (Option-cases (lookup ula t.by_ula)) [
  | inl absent ↦ absurd (ground (arith, absent))
  | inr (h, found) ↦
      let still : lookup ula (insert s.ula t.next t.by_ula) ≡ some h =
        ground (arith, lookup-insert s.ula ula t.next t.by_ula) in
      let same = placed-heap t s h (i.owned ula h found).0 in
      serves-live (placed t s) ula app h still
      ∙ (ap (λ (u : PeerSession). contains u.allowed_ips app) same
          ∙ (sym (serves-live t ula app h found) ∙ served))
]

-- It may be placed where no key leads to the address any more, and where it serves the routes that
-- lead there.
placed-Consistent :
    (t : SessionTable) (s : PeerSession)
    → ((pubkey : Text) (h : ℕ)
        → lookup pubkey t.by_pubkey ≡ some h
        → (s.ula == (t.heap h).ula) ≡ false)
    → ((app : Ipv6Addr) → lookup app t.app_routes ≡ some s.ula → contains s.allowed_ips app ≡ true)
    → Consistent t
    → Consistent (placed t s)
placed-Consistent t s vacant replayed i = record {
  owned = λ ula h e. elim (Bool-cases (s.ula == ula)) [
    | inl same ↦
        let eh : h ≡ t.next = ground (arith, lookup-insert s.ula ula t.next t.by_ula) in
        let eu : s.ula ≡ ula = (addr_eq.beq_iff s.ula ula).0 same in
        rw eh (omega arith, ap (λ (u : PeerSession). u.ula) (placed-top t s) ∙ eu)
    | inr other ↦
        let o = i.owned ula h (ground (arith, lookup-insert s.ula ula t.next t.by_ula)) in
        (omega (arith, o.0), ap (λ (u : PeerSession). u.ula) (placed-heap t s h o.0) ∙ o.1)
  ];
  keyed = λ pk h e. elim (Bool-cases (s.peer_pubkey == pk)) [
    | inl same ↦
        let eh : h ≡ t.next = ground (arith, lookup-insert s.peer_pubkey pk t.next t.by_pubkey) in
        let at_top : lookup s.ula (insert s.ula t.next t.by_ula) ≡ some t.next =
          ground (arith, lookup-insert s.ula s.ula t.next t.by_ula, eq_refl s.ula) in
        let ek : s.peer_pubkey ≡ pk = (list_eq.beq_iff s.peer_pubkey pk).0 same in
        rw eh (
          ap (λ (u : PeerSession). u.peer_pubkey) (placed-top t s) ∙ ek,
          subst (λ (u : PeerSession). lookup u.ula (insert s.ula t.next t.by_ula) ≡ some t.next)
              (sym (placed-top t s)) at_top,
        )
    | inr other ↦
        let before : lookup pk t.by_pubkey ≡ some h =
          ground (arith, lookup-insert s.peer_pubkey pk t.next t.by_pubkey) in
        let k = i.keyed pk h before in
        let lt = (i.owned (t.heap h).ula h k.1).0 in
        let still : lookup (t.heap h).ula (insert s.ula t.next t.by_ula) ≡ some h =
          ground
            (arith, lookup-insert s.ula (t.heap h).ula t.next t.by_ula, vacant pk h before, k.1) in
        (
          ap (λ (u : PeerSession). u.peer_pubkey) (placed-heap t s h lt) ∙ k.0,
          subst (λ (u : PeerSession). lookup u.ula (insert s.ula t.next t.by_ula) ≡ some h)
              (sym (placed-heap t s h lt)) still,
        )
  ];
  aliased = λ addr h e. omega (arith, i.aliased addr h e);
  hosted = λ app ula e. elim (Bool-cases (s.ula == ula)) [
    | inl same ↦
        let eu : s.ula ≡ ula = (addr_eq.beq_iff s.ula ula).0 same in
        subst (λ u. serves (placed t s) u app ≡ true) eu
          (serves-placed t s app (replayed app (e ∙ ap some (sym eu))))
    | inr other ↦ serves_beside t s ula app other i (i.hosted app ula e)
  ];
}

-- A fresh session, with the sources replayed after a key rotation, keeps the indexes consistent.
pub insert_session-Consistent :
    (is_new : Bool) (t : SessionTable) (info : PeerInfo)
    → ((pubkey : Text) (h : ℕ)
        → lookup pubkey t.by_pubkey ≡ some h
        → (info.ula == (t.heap h).ula) ≡ false)
    → ((app : Ipv6Addr)
        → lookup app t.app_routes ≡ some info.ula
        → contains (inserted is_new t info).allowed_ips app ≡ true)
    → Consistent t
    → Consistent (insert_session is_new t info)
insert_session-Consistent is_new t info vacant replayed i =
    let s = inserted is_new t info in
    let who = inserted-identity is_new t info in
    let p =
      placed-Consistent t s
        (λ pk h e. subst (λ u. (u == (t.heap h).ula) ≡ false) (sym who.0) (vacant pk h e))
        (λ app e. replayed app (e ∙ ap some who.0)) i in
    let at = λ (u : Ipv6Addr) (k : Text). record (placed t s) {
      by_ula = insert u t.next t.by_ula;
      by_pubkey = insert k t.next t.by_pubkey;
    } in
    let q : Consistent (at info.ula info.wg_public_key) =
      subst (λ k. Consistent (at info.ula k)) who.1
        (subst (λ u. Consistent (at u s.peer_pubkey)) who.0 p) in
    record {
      owned = q.owned;
      keyed = q.keyed;
      aliased =
          index_alias (t.next + 1) info.listen_endpoint t.next t.by_endpoint (omega arith)
            (λ addr h e. omega (arith, i.aliased addr h e));
      hosted = q.hosted;
    }
