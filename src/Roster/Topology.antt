-- ===== src/Roster/Topology.antt =====
-- crates/mesh-coordinator/src/roster/coordinator/mod.rs: the machine graph, with the reported paths
-- collapsed into one undirected edge for each pair.
pub mod Edges
use tabbify_service_mesh.Hash.{u64_mod}
use tabbify_service_mesh.Roster.Views.{edge, self_connectivity_aged}
use tabbify_service_mesh.Roster.{PathEdge, PeerEntry, Coordinator}
use tabbify_service_mesh.Formats.{Formats}
use tabbify_service_mesh.Allocator.{addr_eq}
use tabbify_service_mesh.Shared.{
  ltb, if◌then◌else◌, ◌==◌, nat_eq, list_eq, option_eq, pair_eq, Text, bytes, any, select, contains,
  sort_by_key, Dict, values, lookup, insert, ℕ, ◌+◌, ◌-◌, min, Bool, true, false, not, ◌&&◌, ◌||◌,
  Option, none, some, List, [], ◌∷◌, map,
}

abbrev pub runner_ula_hextet : ℕ
runner_ula_hextet = 0x1f02

unfoldable pub is_machine : PeerEntry → Bool
is_machine e = not (
    (e.ula.s1 == runner_ula_hextet)
    || (any (λ t. t == bytes "runner") e.tags || (e.kind == bytes "runner")))

pub record TopologyMachine : Type 0 where
  pub peer_id : Text
  pub name : Text
  pub ula : Text
  pub tags : List Text
  pub relay_only : Bool
  pub software_version : Option Text
  pub mesh_version : Option Text
  pub connectivity : Option Text

pub record TopologyEdge : Type 0 where
  pub from : Text
  pub to : Text
  pub direct : Bool
  pub age_ms : ℕ
  pub last_handshake_direct : Option Bool
  pub last_handshake_age_ms : Option ℕ
  pub handshake_rx_total : ℕ

-- `<` on texts.
unfoldable pub text_ltb : Text → Text → Bool
text_ltb xs [] = false
text_ltb [] (y ∷ ys) = true
text_ltb (x ∷ xs) (y ∷ ys) = ltb x y || ((x == y) && text_ltb xs ys)

unfoldable pub edge_key : Text → Text → Text × Text
unfolding text_ltb
edge_key a b = if text_ltb a b then (a, b) else (b, a)

abbrev pub fresher : Option ℕ → Option ℕ → Bool
fresher acc none = false
fresher none (some new_age) = true
fresher (some acc_age) (some new_age) = ltb new_age acc_age

-- `saturating_add` on a `u64`.
abbrev pub saturating_add : ℕ → ℕ → ℕ
saturating_add a b = min (a + b) (u64_mod - 1)

unfoldable pub merge_edge : PathEdge → PathEdge → PathEdge
merge_edge acc edge =
    let newer = fresher acc.last_handshake_age_ms edge.last_handshake_age_ms in
    record {
      direct = acc.direct || edge.direct;
      last_rx_age_ms = min acc.last_rx_age_ms edge.last_rx_age_ms;
      last_handshake_direct =
          if newer then edge.last_handshake_direct else acc.last_handshake_direct;
      last_handshake_age_ms =
          if newer then edge.last_handshake_age_ms else acc.last_handshake_age_ms;
      handshake_rx_total = saturating_add acc.handshake_rx_total edge.handshake_rx_total;
    }

-- `entry(key).and_modify(..).or_insert(edge)`
unfoldable pub merge_report :
    Dict (Text × Text) PathEdge → Text × Text → PathEdge → Dict (Text × Text) PathEdge
unfolding merge_edge
merge_report pairs key edge = elim (lookup key pairs) [
  | none ↦ insert key edge pairs
  | some acc ↦ insert key (merge_edge acc edge) pairs
]

module _ (fmt : Formats) where
  -- The inner loop, over the paths of one reporter; a target that is no machine is skipped.
  unfoldable pub collapse_paths :
      List ℕ → ℕ → Dict (Text × Text) PathEdge → Dict ℕ PathEdge → Dict (Text × Text) PathEdge
  unfolding merge_report edge_key
  collapse_paths machine_ids reporter pairs [] = pairs
  collapse_paths machine_ids reporter pairs ((target, edge) ∷ paths) =
      collapse_paths machine_ids reporter
        (if contains machine_ids target
          then merge_report pairs (edge_key (fmt.print_uuid reporter) (fmt.print_uuid target)) edge
          else pairs)
        paths

  unfoldable pub collapse_all :
      List ℕ → Dict (Text × Text) PathEdge → List PeerEntry → Dict (Text × Text) PathEdge
  unfolding collapse_paths
  collapse_all machine_ids pairs [] = pairs
  collapse_all machine_ids pairs (e ∷ entries) =
      collapse_all machine_ids (collapse_paths machine_ids e.peer_id pairs e.paths) entries

  abbrev pub edge_of_pair : (Text × Text) × PathEdge → TopologyEdge
  edge_of_pair ((from, to), edge) = record {
    from = from;
    to = to;
    direct = edge.direct;
    age_ms = edge.last_rx_age_ms;
    last_handshake_direct = edge.last_handshake_direct;
    last_handshake_age_ms = edge.last_handshake_age_ms;
    handshake_rx_total = edge.handshake_rx_total;
  }

  abbrev pub edge_before : TopologyEdge → TopologyEdge → Bool
  edge_before x y = text_ltb x.from y.from || ((x.from == y.from) && not (text_ltb y.to x.to))

  abbrev pub insert_edge : TopologyEdge → List TopologyEdge → List TopologyEdge
  insert_edge x [] = x ∷ []
  insert_edge x (y ∷ ys) = if edge_before x y then x ∷ y ∷ ys else y ∷ insert_edge x ys

  abbrev pub sort_edges : List TopologyEdge → List TopologyEdge
  sort_edges [] = []
  sort_edges (x ∷ xs) = insert_edge x (sort_edges xs)

  module _ {Sender : Type 0} where
    unfoldable pub machine_entries : Coordinator Sender → List PeerEntry
    unfolding is_machine
    machine_entries c = sort_by_key (λ e. e.peer_index) (select is_machine (values c.roster))

    unfoldable pub to_machine : Coordinator Sender → PeerEntry → TopologyMachine
    to_machine c e = record {
      peer_id = fmt.print_uuid e.peer_id;
      name = e.display_name;
      ula = fmt.print_ipv6 e.ula;
      tags = e.tags;
      relay_only = e.relay_only;
      software_version = e.software_version;
      mesh_version = e.mesh_version;
      connectivity = (self_connectivity_aged c e.peer_id).0;
    }

    unfoldable pub topology_pairs : Coordinator Sender → Dict (Text × Text) PathEdge
    unfolding collapse_all machine_entries
    topology_pairs c =
        let entries = machine_entries c in collapse_all (map (λ e. e.peer_id) entries) [] entries

    unfoldable pub topology : Coordinator Sender → List TopologyMachine × List TopologyEdge
    unfolding to_machine topology_pairs
    topology c =
        (map (to_machine c) (machine_entries c), sort_edges (map edge_of_pair (topology_pairs c)))
