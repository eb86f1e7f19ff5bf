-- ===== src/Joiner/Sync/Refinement.antt =====
-- The session table of the joiner against what it stands for: a map from addresses to keys
-- (crates/mesh-joiner/src/coordinator/: peer_sync.rs, heartbeat.rs).
use tabbify_service_mesh.Formats.{SocketAddr, socket_eq, Formats}
use tabbify_service_mesh.Allocator.{Ipv6Addr, addr_eq}
use tabbify_service_mesh.Joiner.Sync.View.{view, apply_peer-view, remove_session-view}
use tabbify_service_mesh.Joiner.Sync.{
  apply_info, add_ula, prune_absent, apply_records, remote_ulas, reconcile_roster,
}
use tabbify_service_mesh.Joiner.Sessions.Reachable.{apply_peer-Consistent}
use tabbify_service_mesh.Joiner.Sessions.Consistency.{Consistent}
use tabbify_service_mesh.Joiner.Sessions.{SessionTable, remove_session, keys}
use tabbify_service_mesh.Joiner.Peers.{PeerInfo, RemotePeer, DecodeError, remote_to_info}
use tabbify_service_mesh.Shared.{
  if◌then◌else◌, is_some, Bool-cases, Option-cases, ◌==◌, nat_eq, list_eq, option_eq, pair_eq, Text,
  contains, Dict, lookup, Result, ok, err, ℕ, ◌≡◌, refl, ap, ◌∙◌, inl, inr, not, ◌&&◌, Option, none,
  some, List, [], ◌∷◌, arith,
}

-- The map that a joiner should have.
abbrev pub Book : Type 0
Book = Ipv6Addr → Option Text

abbrev pub with_peer : Result DecodeError PeerInfo → Book → Book
with_peer (err e) book u = book u
with_peer (ok info) book u = if info.ula == u then some info.wg_public_key else book u

abbrev pub without_peer : Ipv6Addr → Book → Book
without_peer ula book u = if ula == u then none else book u

abbrev pub empty_book : Book
empty_book u = none

module _ (formats : Formats) (lookup_host : Text → Option (List SocketAddr)) where
  -- A roster read from the front: the last record for an address decides, and a malformed one counts
  -- for nothing.
  abbrev pub roster_book : List RemotePeer → Book → Book
  roster_book [] book u = book u
  roster_book (r ∷ rs) book u =
      roster_book rs (with_peer (remote_to_info formats lookup_host r) book) u

  apply_info-view :
      (t : SessionTable) (o : Result DecodeError PeerInfo) (u : Ipv6Addr)
      → Consistent t
      → view (apply_info t o) u ≡ with_peer o (view t) u
  apply_info-view t (err e) u i = refl
  apply_info-view t (ok info) u i = apply_peer-view t info u i

  apply_info-Consistent :
      (t : SessionTable) (o : Result DecodeError PeerInfo)
      → Consistent t
      → Consistent (apply_info t o)
  apply_info-Consistent t (err e) i = i
  apply_info-Consistent t (ok info) i = apply_peer-Consistent t info i

  apply_records-Consistent :
      (t : SessionTable) (rs : List RemotePeer)
      → Consistent t
      → Consistent (apply_records formats lookup_host t rs)
  apply_records-Consistent t [] i = i
  apply_records-Consistent t (r ∷ rs) i =
      let o = remote_to_info formats lookup_host r in
      apply_records-Consistent (apply_info t o) rs (apply_info-Consistent t o i)

  -- A book that agrees at an address agrees there after the same records.
  with_peer-cong :
      (o : Result DecodeError PeerInfo) (b c : Book) (u : Ipv6Addr)
      → b u ≡ c u
      → with_peer o b u ≡ with_peer o c u
  with_peer-cong (err e) b c u h = h
  with_peer-cong (ok info) b c u h =
      ap (λ x. if info.ula == u then some info.wg_public_key else x) h

  roster_book-cong :
      (rs : List RemotePeer) (b c : Book) (u : Ipv6Addr)
      → b u ≡ c u
      → roster_book rs b u ≡ roster_book rs c u
  roster_book-cong [] b c u h = h
  roster_book-cong (r ∷ rs) b c u h =
      let o = remote_to_info formats lookup_host r in
      roster_book-cong rs (with_peer o b) (with_peer o c) u (with_peer-cong o b c u h)

  apply_records-view :
      (t : SessionTable) (rs : List RemotePeer) (u : Ipv6Addr)
      → Consistent t
      → view (apply_records formats lookup_host t rs) u ≡ roster_book rs (view t) u
  apply_records-view t [] u i = refl
  apply_records-view t (r ∷ rs) u i =
      let o = remote_to_info formats lookup_host r in
      apply_records-view (apply_info t o) rs u (apply_info-Consistent t o i)
      ∙ roster_book-cong rs (view (apply_info t o)) (with_peer o (view t)) u
          (apply_info-view t o u i)

  -- Where the roster lists an address, what was there before does not count.
  roster_book-listed :
      (rs : List RemotePeer) (b : Book) (u : Ipv6Addr)
      → roster_book rs b u ≡ (
          if contains (remote_ulas formats lookup_host rs) u
          then roster_book rs empty_book u
          else b u)
  roster_book-listed [] b u = refl
  roster_book-listed (r ∷ rs) b u =
      let o = remote_to_info formats lookup_host r in
      listed_step rs o b u (roster_book-listed rs (with_peer o b) u)
        (roster_book-listed rs (with_peer o empty_book) u)
    where
      listed_step :
          (rs : List RemotePeer) (o : Result DecodeError PeerInfo) (b : Book) (u : Ipv6Addr)
          → roster_book rs (with_peer o b) u ≡ (
              if contains (remote_ulas formats lookup_host rs) u
              then roster_book rs empty_book u
              else with_peer o b u)
          → roster_book rs (with_peer o empty_book) u ≡ (
              if contains (remote_ulas formats lookup_host rs) u
              then roster_book rs empty_book u
              else with_peer o empty_book u)
          → roster_book rs (with_peer o b) u ≡ (
              if contains (add_ula o (remote_ulas formats lookup_host rs)) u
              then roster_book rs (with_peer o empty_book) u
              else b u)
      listed_step rs (err e) b u here there = ground (arith, here, there)
      listed_step rs (ok info) b u here there = ground (arith, here, there)

prune_absent-view :
    (t : SessionTable) (remote ks : List Ipv6Addr) (u : Ipv6Addr)
    → view (prune_absent t remote ks) u
      ≡ (if contains ks u && not (contains remote u) then none else view t u)
prune_absent-view t remote [] u = refl
prune_absent-view t remote (k ∷ ks) u = elim (Bool-cases (contains remote k)) [
  | inl stays ↦
      let rest = prune_absent-view t remote ks u in
      rw (prune_absent, stays) (ground (arith, rest, stays, addr_eq.beq_iff k u))
  | inr goes ↦
      let rest = prune_absent-view (remove_session t k).0 remote ks u in
      let first = remove_session-view t k u in
      rw (prune_absent, goes) (ground (arith, rest, first, goes, addr_eq.beq_iff k u))
]

keys-lookup : (m : Dict Ipv6Addr ℕ) (u : Ipv6Addr) → contains (keys m) u ≡ is_some (lookup u m)
keys-lookup [] u = refl
keys-lookup ((k, v) ∷ m) u = ground (arith, keys-lookup m u)

-- Outside the keys of the table there is no session.
view-keys :
    (t : SessionTable) (u : Ipv6Addr)
    → (if contains (keys t.by_ula) u then none else view t u) ≡ none
view-keys t u = elim (Option-cases (lookup u t.by_ula)) [
  | inl absent ↦ ground (arith, keys-lookup t.by_ula u, absent)
  | inr (h, found) ↦ ground (arith, keys-lookup t.by_ula u, found)
]

-- After a heartbeat's reconciliation the joiner's table is the roster: an address has a session exactly
-- when a record of the roster that decodes has it, and the session's key is that of the last such
-- record. Nothing else is left of the table before, nor missing.
pub reconcile_roster-view :
    (formats : Formats) (lookup_host : Text → Option (List SocketAddr)) (t : SessionTable)
    (remote : List RemotePeer) (u : Ipv6Addr)
    → Consistent t
    → view (reconcile_roster formats lookup_host t remote) u
      ≡ roster_book formats lookup_host remote empty_book u
unfolding reconcile_roster
reconcile_roster-view formats lookup_host t remote u i =
    let applied = apply_records formats lookup_host t remote in
    let pruned =
      prune_absent-view applied (remote_ulas formats lookup_host remote) (keys applied.by_ula) u in
    let book = apply_records-view formats lookup_host t remote u i in
    let listed = roster_book-listed formats lookup_host remote (view t) u in
    let absent = view-keys applied u in
    let blank = roster_book-listed formats lookup_host remote empty_book u in
    elim (Bool-cases (contains (remote_ulas formats lookup_host remote) u)) [
      | inl there ↦ pruned ∙ ground (arith, there, book, listed, blank)
      | inr gone ↦ pruned ∙ ground (arith, gone, absent, blank)
    ]
