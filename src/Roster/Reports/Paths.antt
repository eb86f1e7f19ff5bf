-- ===== src/Roster/Reports/Paths.antt =====
-- The reported paths of a peer: the last report on a target counts, and a report replaces all others.
use tabbify_service_mesh.Traversal.Punch.{canonical_pair, PunchTracker, note_confirmed}
use tabbify_service_mesh.Roster.Reports.{PeerPathDto, edge_from, collect_edges, record_peer_paths}
use tabbify_service_mesh.Roster.Views.{edge}
use tabbify_service_mesh.Roster.{PathEdge, PeerEntry, Coordinator}
use tabbify_service_mesh.Formats.{Formats}
use tabbify_service_mesh.Allocator.{addr_eq}
use tabbify_service_mesh.Shared.{
  if◌then◌else◌, Option-cases, ◌==◌, nat_eq, list_eq, option_eq, pair_eq, map_option, Dict, lookup,
  insert, lookup-insert, lookup-update, ℕ, ◌≡◌, refl, inl, inr, Option, none, some, List, [], ◌∷◌,
  arith,
}

module _ (fmt : Formats) where
  -- The last report whose target reads as the given id.
  abbrev pub last_report : ℕ → List PeerPathDto → Option PeerPathDto
  last_report target [] = none
  last_report target (p ∷ ps) = elim (last_report target ps) [
    | some q ↦ some q
    | none ↦ if fmt.parse_uuid p.peer_id == some target then some p else none
  ]

  abbrev pub latest : Dict ℕ PathEdge → ℕ → List PeerPathDto → Option PathEdge
  latest edges target ps = elim (last_report target ps) [
    | none ↦ lookup target edges
    | some p ↦ some (edge_from p)
  ]

  lookup-collect_edges :
      (reporter target : ℕ) (edges : Dict ℕ PathEdge) (tracker : PunchTracker)
      (ps : List PeerPathDto)
      → lookup target (collect_edges fmt reporter edges tracker ps).0 ≡ latest edges target ps
  unfolding collect_edges
  lookup-collect_edges reporter target edges tracker [] = refl
  lookup-collect_edges reporter target edges tracker (p ∷ ps) =
      elim (Option-cases (fmt.parse_uuid p.peer_id)) [
        | inl bad ↦ ground (arith, bad, lookup-collect_edges reporter target edges tracker ps)
        | inr (id, at) ↦ ground (
          arith,
          at,
          lookup-collect_edges reporter target (insert id (edge_from p) edges)
              (if p.direct then note_confirmed tracker (canonical_pair reporter id) else tracker)
              ps,
          lookup-insert id target (edge_from p) edges,
        )
      ]

  -- After a known peer's report, its view of every target is the last report on it, or none if it
  -- reported none, whatever it reported before; no other peer's view changes.
  pub edge-record_peer_paths :
      {Sender : Type 0} (c : Coordinator Sender) (reporter v target : ℕ) (e : PeerEntry)
      (ps : List PeerPathDto)
      → lookup reporter c.roster ≡ some e
      → edge (record_peer_paths fmt c reporter ps) v target ≡ (
          if reporter == v
          then map_option (λ p. (p.direct, p.last_rx_age_ms)) (last_report target ps)
          else edge c v target)
  unfolding edge record_peer_paths
  edge-record_peer_paths c reporter v target e ps look =
      let (edges, tracker) = collect_edges fmt reporter [] c.punch_tracker ps in
      ground (
        arith,
        look,
        lookup-update reporter v (λ e. record e { paths = edges }) c.roster,
        lookup-collect_edges reporter target [] c.punch_tracker ps,
      )
