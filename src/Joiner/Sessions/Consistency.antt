-- ===== src/Joiner/Sessions/Consistency.antt =====
-- The indexes of crates/mesh-joiner/src/wg/session/table.rs agree with each other through every
-- operation.
use tabbify_service_mesh.Joiner.Peers.{PeerInfo}
use tabbify_service_mesh.Formats.{SocketAddr, socket_eq}
use tabbify_service_mesh.Allocator.{Ipv6Addr, addr_eq}
use tabbify_service_mesh.Joiner.Sessions.{
  SinkCall, SessionTable, tell, write_session, roam, replay_routes, advertise, refresh,
}
use tabbify_service_mesh.Joiner.Session.{PeerSession, add_allowed_source}
use tabbify_service_mesh.Shared.{
  if◌then◌else◌, Bool-cases, Option-cases, ◌==◌, nat_eq, list_eq, option_eq, pair_eq, Text,
  contains, Dict, lookup, ℕ, ◌<◌, ◌≡◌, refl, ◌∙◌, inl, inr, Bool, true, false, Option, none, some,
  [], ◌∷◌, arith,
}

-- The peer `ula` has a session that accepts packets from `app`.
abbrev pub serves : SessionTable → (ula app : Ipv6Addr) → Bool
serves t ula app = elim (lookup ula t.by_ula) [
  | none ↦ false
  | some h ↦ contains (t.heap h).allowed_ips app
]

pub record Consistent (t : SessionTable) : Type 0 where
  pub owned :
      (ula : Ipv6Addr) (h : ℕ)
      → lookup ula t.by_ula ≡ some h
      → (h < t.next) × ((t.heap h).ula ≡ ula)
  pub keyed :
      (pubkey : Text) (h : ℕ)
      → lookup pubkey t.by_pubkey ≡ some h
      → ((t.heap h).peer_pubkey ≡ pubkey) × (lookup (t.heap h).ula t.by_ula ≡ some h)
  pub aliased : (addr : SocketAddr) (h : ℕ) → lookup addr t.by_endpoint ≡ some h → h < t.next
  pub hosted : (app ula : Ipv6Addr) → lookup app t.app_routes ≡ some ula → serves t ula app ≡ true

-- Writes to a session that leave its identity alone and no source out.
abbrev pub Keeps : (before after : PeerSession) → Type 0
Keeps before after =
    (after.ula ≡ before.ula)
    × (after.peer_pubkey ≡ before.peer_pubkey)
    × ((a : Ipv6Addr) → contains before.allowed_ips a ≡ true → contains after.allowed_ips a ≡ true)

pub tell-Consistent : (t : SessionTable) (c : SinkCall) → Consistent t → Consistent (tell t c)
tell-Consistent t c i = record {
  owned = i.owned;
  keyed = i.keyed;
  aliased = i.aliased;
  hosted = i.hosted;
}

pub write_serves :
    (t : SessionTable) (h : ℕ) (f : PeerSession → PeerSession) (ula app : Ipv6Addr)
    → (contains (t.heap h).allowed_ips app ≡ true → contains (f (t.heap h)).allowed_ips app ≡ true)
    → serves t ula app ≡ true
    → serves (write_session t h f) ula app ≡ true
write_serves t h f ula app k s = elim (Option-cases (lookup ula t.by_ula)) [
  | inl absent ↦ absurd (ground arith)
  | inr (j, found) ↦ ground (arith, k)
]

pub write-Consistent :
    (t : SessionTable) (h : ℕ) (f : PeerSession → PeerSession)
    → Keeps (t.heap h) (f (t.heap h))
    → Consistent t
    → Consistent (write_session t h f)
write-Consistent t h f k i = record {
  owned = λ ula j e. ground (arith, i.owned ula j e, k.0);
  keyed = λ pk j e. ground (arith, i.keyed pk j e, k.0, k.1);
  aliased = i.aliased;
  hosted = λ app ula e. write_serves t h f ula app (k.2 app) (i.hosted app ula e);
}

pub add_source-Keeps : (s : PeerSession) (app : Ipv6Addr) → Keeps s (add_allowed_source s app)
unfolding add_allowed_source
add_source-Keeps s app = elim (Bool-cases (contains s.allowed_ips app)) [
  | inl there ↦ (ground arith, ground arith, λ a h. ground arith)
  | inr absent ↦ (ground arith, ground arith, λ a h. ground arith)
]

pub Keeps-trans : (s u v : PeerSession) → Keeps s u → Keeps u v → Keeps s v
Keeps-trans s u v f g = (g.0 ∙ f.0, g.1 ∙ f.1, λ a h. g.2 a (f.2 a h))

step-Keeps :
    (b : Bool) (s : PeerSession) (app : Ipv6Addr)
    → Keeps s (if b then add_allowed_source s app else s)
step-Keeps true s app = add_source-Keeps s app
step-Keeps false s app = (refl, refl, λ a h. h)

pub replay-Keeps :
    (m : Dict Ipv6Addr Ipv6Addr) (ula : Ipv6Addr) (s : PeerSession)
    → Keeps s (replay_routes m ula s)
replay-Keeps [] ula s = (refl, refl, λ a h. h)
replay-Keeps ((app, host) ∷ m) ula s =
    let t = if host == ula then add_allowed_source s app else s in
    Keeps-trans s t (replay_routes m ula t) (step-Keeps (host == ula) s app) (replay-Keeps m ula t)

pub add_source_allows :
    (s : PeerSession) (app : Ipv6Addr) → contains (add_allowed_source s app).allowed_ips app ≡ true
unfolding add_allowed_source
add_source_allows s app = elim (Bool-cases (contains s.allowed_ips app)) [
  | inl there ↦ ground arith
  | inr absent ↦ ground (arith, addr_eq.beq_iff app app)
]

-- The replay allows every app that the map leads to `ula`.
pub replay_allows :
    (m : Dict Ipv6Addr Ipv6Addr) (ula app : Ipv6Addr) (s : PeerSession)
    → lookup app m ≡ some ula
    → contains (replay_routes m ula s).allowed_ips app ≡ true
replay_allows [] ula app s h = absurd (ground arith)
replay_allows ((j, host) ∷ m) ula app s h = elim (Bool-cases (j == app)) [
  | inl here ↦
      let t = if host == ula then add_allowed_source s j else s in
      let e : j ≡ app = (addr_eq.beq_iff j app).0 here in
      let o : (host == ula) ≡ true = ground (arith, addr_eq.beq_iff host ula) in
      let now : contains t.allowed_ips app ≡ true = rw o (rw e (add_source_allows s app)) in
      (replay-Keeps m ula t).2 app now
  | inr there ↦
      replay_allows m ula app (if host == ula then add_allowed_source s j else s) (ground arith)
]

pub roam-Keeps : (source : SocketAddr) (s : PeerSession) → Keeps s (roam source s)
roam-Keeps source s = elim (Bool-cases (s.endpoint == some source)) [
  | inl same ↦ (ground arith, ground arith, λ a h. ground arith)
  | inr moved ↦ (ground arith, ground arith, λ a h. ground arith)
]

advertise-Keeps :
    (advertised : Option SocketAddr) (s : PeerSession) → Keeps s (advertise advertised s)
advertise-Keeps advertised s = elim (Bool-cases s.endpoint_learned) [
  | inl learned ↦ (ground arith, ground arith, λ a h. ground arith)
  | inr fresh ↦ (ground arith, ground arith, λ a h. ground arith)
]

pub refresh-Keeps :
    (m : Dict Ipv6Addr Ipv6Addr) (info : PeerInfo) (s : PeerSession) → Keeps s (refresh m info s)
refresh-Keeps m info s =
    Keeps-trans s (advertise info.listen_endpoint s) (refresh m info s)
      (advertise-Keeps info.listen_endpoint s)
      (replay-Keeps m info.ula (advertise info.listen_endpoint s))
