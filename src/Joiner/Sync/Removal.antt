-- ===== src/Joiner/Sync/Removal.antt =====
-- `PeerEventKind::Removed` of crates/mesh-joiner/src/coordinator/peer_sync.rs: whose session goes.
use tabbify_service_mesh.Joiner.Sessions.Reachable.{apply_peer, apply_peer-Consistent}
use tabbify_service_mesh.Joiner.Sessions.Routes.{reconcile-by_ula}
use tabbify_service_mesh.Joiner.Peers.{PeerInfo}
use tabbify_service_mesh.Joiner.Session.{PeerSession}
use tabbify_service_mesh.Formats.{socket_eq}
use tabbify_service_mesh.Allocator.{Ipv6Addr, addr_eq}
use tabbify_service_mesh.Joiner.Sync.View.{
  seen, reconcile_app_routes-seen, update_in_place-seen, remove_session-frame,
}
use tabbify_service_mesh.Joiner.Sync.{
  still_his, remove_candidate, remove_candidates, remove_peer_sessions,
}
use tabbify_service_mesh.Joiner.Sessions.Membership.{remove_session-Consistent}
use tabbify_service_mesh.Joiner.Sessions.Consistency.{Consistent}
use tabbify_service_mesh.Joiner.Sessions.{
  add_allowed, SessionTable, tell, session_by_ula, update_in_place, upsert_over, upsert,
}
use tabbify_service_mesh.Shared.{
  if◌then◌else◌, Bool-cases, Option-cases, ◌==◌, nat_eq, list_eq, option_eq, pair_eq, any, select,
  any_of_mem, mem-select, values, lookup, lookup-mem, ℕ, ◌≡◌, refl, sym, ap, subst, ◌∙◌, ◌≢◌, inl,
  inr, Bool, true, false, ◌||◌, Option, none, some, List, [], ◌∷◌, arith,
}

-- A session of the peer `peer_id` is dropped, another kept.
abbrev pub unless_of : (ℕ → PeerSession) → (peer_id : ℕ) → Option ℕ → Option ℕ
unless_of heap peer_id none = none
unless_of heap peer_id (some h) = if (heap h).peer_id == peer_id then none else some h

if_same : (b : Bool) (o : Option ℕ) → o ≡ (if b then o else o)
if_same true o = refl
if_same false o = refl

found_by_ula :
    (t : SessionTable) (ula : Ipv6Addr) (h : ℕ)
    → lookup ula t.by_ula ≡ some h
    → session_by_ula t ula ≡ some h
unfolding session_by_ula
found_by_ula t ula h e = rw (session_by_ula, e) refl

-- The guard of a removal finds whose session stands at the address.
guarded :
    (t : SessionTable) (peer_id : ℕ) (ula : Ipv6Addr) (his : Bool)
    → still_his t (session_by_ula t ula) peer_id ≡ his
    → unless_of t.heap peer_id (lookup ula t.by_ula) ≡ (if his then none else lookup ula t.by_ula)
guarded t peer_id ula his g = elim (Option-cases (lookup ula t.by_ula)) [
  | inl absent ↦ rw absent (if_same his none)
  | inr (h, found) ↦
      let same : ((t.heap h).peer_id == peer_id) ≡ his =
        sym (ap (λ o. still_his t o peer_id) (found_by_ula t ula h found)) ∙ g in
      rw (found, sym same) refl
]

unless_at :
    (t : SessionTable) (peer_id : ℕ) (ula u : Ipv6Addr) (his : Bool)
    → still_his t (session_by_ula t ula) peer_id ≡ his
    → (if ula == u then (if his then none else lookup u t.by_ula) else lookup u t.by_ula)
      ≡ (if ula == u then unless_of t.heap peer_id (lookup u t.by_ula) else lookup u t.by_ula)
unless_at t peer_id ula u his g = elim (Bool-cases (ula == u)) [
  | inl same ↦
      let eu : ula ≡ u = (addr_eq.beq_iff ula u).0 same in
      rw same (
        subst
          (λ v.
            (if his then none else lookup v t.by_ula)
            ≡ unless_of t.heap peer_id (lookup v t.by_ula))
          eu (sym (guarded t peer_id ula his g)))
  | inr other ↦ rw other refl
]

-- One candidate, at whose address the session is dropped if it is still the peer's.
remove_candidate-frame :
    (t : SessionTable) (peer_id s : ℕ) (u : Ipv6Addr)
    → Consistent t
    → ((remove_candidate t peer_id s).heap ≡ t.heap)
      × (lookup u (remove_candidate t peer_id s).by_ula ≡ (
          if (t.heap s).ula == u
          then unless_of t.heap peer_id (lookup u t.by_ula)
          else lookup u t.by_ula))
      × Consistent (remove_candidate t peer_id s)
remove_candidate-frame t peer_id s u i =
    let ula = (t.heap s).ula in
    let f = remove_session-frame t ula u in
    let c = remove_session-Consistent t ula i in
    elim (Bool-cases (still_his t (session_by_ula t ula) peer_id)) [
      | inl his ↦
          let at = unless_at t peer_id ula u true his in
          rw (remove_candidate, his) (f.0, f.1 ∙ at, c)
      | inr not_his ↦
          let at = unless_at t peer_id ula u false not_his in
          rw (remove_candidate, not_his) (refl, if_same (ula == u) (lookup u t.by_ula) ∙ at, i)
    ]

unless_his :
    (heap : ℕ → PeerSession) (peer_id h : ℕ)
    → (heap h).peer_id ≡ peer_id
    → unless_of heap peer_id (some h) ≡ none
unless_his heap peer_id h e = ground (arith, e)

unless_other :
    (heap : ℕ → PeerSession) (peer_id h : ℕ)
    → (heap h).peer_id ≢ peer_id
    → unless_of heap peer_id (some h) ≡ some h
unless_other heap peer_id h e = ground (arith, e)

unless_twice :
    (heap : ℕ → PeerSession) (peer_id : ℕ) (o : Option ℕ)
    → unless_of heap peer_id (unless_of heap peer_id o) ≡ unless_of heap peer_id o
unless_twice heap peer_id none = refl
unless_twice heap peer_id (some h) = elim (Bool-cases ((heap h).peer_id == peer_id)) [
  | inl his ↦ rw his refl
  | inr other ↦ rw (other, other) refl
]

unless_either :
    (heap : ℕ → PeerSession) (peer_id : ℕ) (a b : Bool) (o p : Option ℕ)
    → p ≡ (if a then unless_of heap peer_id o else o)
    → (if b then unless_of heap peer_id p else p) ≡ (if a || b then unless_of heap peer_id o else o)
unless_either heap peer_id true true o p e =
    ap (unless_of heap peer_id) e ∙ unless_twice heap peer_id o
unless_either heap peer_id true false o p e = e
unless_either heap peer_id false true o p e = ap (unless_of heap peer_id) e
unless_either heap peer_id false false o p e = e

pub remove_candidates-frame :
    (t : SessionTable) (peer_id : ℕ) (hs : List ℕ) (u : Ipv6Addr)
    → Consistent t
    → ((remove_candidates t peer_id hs).heap ≡ t.heap)
      × (lookup u (remove_candidates t peer_id hs).by_ula ≡ (
          if any (λ s. (t.heap s).ula == u) hs
          then unless_of t.heap peer_id (lookup u t.by_ula)
          else lookup u t.by_ula))
      × Consistent (remove_candidates t peer_id hs)
remove_candidates-frame t peer_id [] u i = (refl, refl, i)
remove_candidates-frame t peer_id (s ∷ hs) u i =
    let next = remove_candidate t peer_id s in
    let one = remove_candidate-frame t peer_id s u i in
    let rest = remove_candidates-frame next peer_id hs u one.2 in
    let moved =
      subst
        (λ (heap : ℕ → PeerSession). lookup u (remove_candidates next peer_id hs).by_ula ≡ (
          if any (λ s. (heap s).ula == u) hs
          then unless_of heap peer_id (lookup u next.by_ula)
          else lookup u next.by_ula))
        one.0 rest.1 in
    (
      rest.0 ∙ one.0,
      moved
          ∙ unless_either t.heap peer_id ((t.heap s).ula == u) (any (λ s. (t.heap s).ula == u) hs)
              (lookup u t.by_ula) (lookup u next.by_ula) one.1,
      rest.2,
    )

-- In a table whose indexes agree, a `peer_removed` event takes away the session at every address whose
-- live session bears the peer's id, and leaves every other address as it was.
pub remove_peer_sessions-exact :
    (t : SessionTable) (peer_id : ℕ) (u : Ipv6Addr)
    → Consistent t
    → lookup u (remove_peer_sessions t peer_id).by_ula
      ≡ unless_of t.heap peer_id (lookup u t.by_ula)
unfolding remove_peer_sessions
remove_peer_sessions-exact t peer_id u i =
    let hs = select (λ h. (t.heap h).peer_id == peer_id) (values t.by_ula) in
    (remove_candidates-frame t peer_id hs u i).1 ∙ elim (Option-cases (lookup u t.by_ula)) [
      | inl absent ↦ rw absent (sym (if_same (any (λ s. (t.heap s).ula == u) hs) none))
      | inr (h, found) ↦ elim (Bool-cases ((t.heap h).peer_id == peer_id)) [
        | inl his ↦
            let at_u = (addr_eq.beq_iff (t.heap h).ula u).1 (i.owned u h found).1 in
            let listed =
              any_of_mem (λ s. (t.heap s).ula == u)
                (mem-select (λ h. (t.heap h).peer_id == peer_id) (lookup-mem u t.by_ula found) his)
                at_u in
            rw listed refl
        | inr other ↦
            let same : unless_of t.heap peer_id (lookup u t.by_ula) ≡ lookup u t.by_ula =
              rw (found, other) refl in
            rw same (sym (if_same (any (λ s. (t.heap s).ula == u) hs) (lookup u t.by_ula)))
      ]
    ]

renewed :
    (t : SessionTable) (info : PeerInfo) (h : ℕ)
    → lookup info.ula t.by_ula ≡ some h
    → (t.heap h).peer_pubkey ≡ info.wg_public_key
    → (lookup info.ula (apply_peer t info).by_ula ≡ some h)
      × (((apply_peer t info).heap h).peer_id ≡ (t.heap h).peer_id)
unfolding apply_peer upsert update_in_place
renewed t info h live key =
    let told = tell t (add_allowed info.ula) in
    let same = (list_eq.beq_iff (t.heap h).peer_pubkey info.wg_public_key).1 key in
    let kept : upsert t info ≡ update_in_place told h info =
      rw (upsert_over, live, upsert_over, same) refl in
    let at =
      ap (lookup info.ula) (reconcile-by_ula (upsert t info) info.ula info.hosted_app_ulas)
      ∙ (ap (λ (s : SessionTable). lookup info.ula s.by_ula) kept ∙ live) in
    let id_of = λ (s : PeerSession). s.peer_id in
    let shown =
      reconcile_app_routes-seen id_of (λ s ips. refl) (upsert t info) info.ula info.hosted_app_ulas
        info.ula
      ∙ (ap (λ s. seen id_of s info.ula) kept
          ∙ update_in_place-seen id_of (λ s ips. refl) told h info info.ula (λ s e. refl)) in
    (at, ground (arith, shown, at, live))

-- A peer that registers again with the same address and key but under a new id keeps its session's old
-- id: the removal of the old id then takes the live session away, and the removal of the new one
-- leaves it.
pub apply_peer-stale_id :
    (t : SessionTable) (info : PeerInfo) (h : ℕ)
    → Consistent t
    → lookup info.ula t.by_ula ≡ some h
    → (t.heap h).peer_pubkey ≡ info.wg_public_key
    → (t.heap h).peer_id ≢ info.peer_id
    → (lookup info.ula (remove_peer_sessions (apply_peer t info) (t.heap h).peer_id).by_ula ≡ none)
      × (lookup info.ula (remove_peer_sessions (apply_peer t info) info.peer_id).by_ula ≡ some h)
apply_peer-stale_id t info h i live key differs =
    let r = renewed t info h live key in
    let c = apply_peer-Consistent t info i in
    let old = remove_peer_sessions-exact (apply_peer t info) (t.heap h).peer_id info.ula c in
    let new = remove_peer_sessions-exact (apply_peer t info) info.peer_id info.ula c in
    let heap = (apply_peer t info).heap in
    (
      old ∙ (ap (unless_of heap (t.heap h).peer_id) r.0 ∙ unless_his heap (t.heap h).peer_id h r.1),
      new
          ∙ (ap (unless_of heap info.peer_id) r.0
              ∙ unless_other heap info.peer_id h (λ e. differs (sym r.1 ∙ e))),
    )
