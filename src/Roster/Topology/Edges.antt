-- ===== src/Roster/Topology/Edges.antt =====
-- Which reports an edge of the machine graph stands for.
use tabbify_service_mesh.Roster.Views.{edge}
use tabbify_service_mesh.Roster.{PathEdge, PeerEntry, Coordinator}
use tabbify_service_mesh.Formats.{Formats}
use tabbify_service_mesh.Roster.Topology.{
  text_ltb, edge_key, merge_edge, merge_report, collapse_paths, collapse_all, machine_entries,
  topology_pairs,
}
use tabbify_service_mesh.Allocator.{addr_eq}
use tabbify_service_mesh.Shared.{
  is_some, Bool-cases, Option-cases, ◌==◌, nat_eq, list_eq, option_eq, pair_beq_iff, pair_eq, Text,
  any, contains, Dict, lookup, lookup-insert, ℕ, ◌≡◌, refl, ◌∙◌, inl, inr, Bool, true, false, ◌&&◌,
  ◌||◌, Option, none, some, List, [], ◌∷◌, map, arith,
}

text_ltb-total : (a b : Text) → text_ltb a b ≡ false → text_ltb b a ≡ false → a ≡ b
unfolding text_ltb
text_ltb-total [] [] h k = refl
text_ltb-total [] (y ∷ ys) h k = absurd (ground arith)
text_ltb-total (x ∷ xs) [] h k = absurd (ground arith)
text_ltb-total (x ∷ xs) (y ∷ ys) h k = ground (arith, text_ltb-total xs ys)

text_ltb-asym : (a b : Text) → text_ltb a b ≡ true → text_ltb b a ≡ false
unfolding text_ltb
text_ltb-asym [] [] h = refl
text_ltb-asym [] (y ∷ ys) h = refl
text_ltb-asym (x ∷ xs) [] h = absurd (ground arith)
text_ltb-asym (x ∷ xs) (y ∷ ys) h = ground (arith, text_ltb-asym xs ys)

-- Both directions of a pair have one key.
pub edge_key_comm : (a b : Text) → edge_key a b ≡ edge_key b a
unfolding edge_key
edge_key_comm a b = ground (arith, text_ltb-total a b, text_ltb-asym a b)

abbrev pub holds : (PathEdge → Bool) → Option PathEdge → Bool
holds p none = false
holds p (some e) = p e

module _ (fmt : Formats) (p : PathEdge → Bool)
    (merges : (a b : PathEdge) → p (merge_edge a b) ≡ (p a || p b)) where
  -- Whether a reporter's paths hold one that counts for the pair.
  abbrev reports : List ℕ → ℕ → Text × Text → Dict ℕ PathEdge → Bool
  reports ids reporter key paths =
      any
        (λ kv.
          contains ids kv.0
          && ((edge_key (fmt.print_uuid reporter) (fmt.print_uuid kv.0) == key) && p kv.1))
        paths

  holds-merge_report :
      (pairs : Dict (Text × Text) PathEdge) (key k : Text × Text) (edge : PathEdge)
      → holds p (lookup k (merge_report pairs key edge))
        ≡ (holds p (lookup k pairs) || ((key == k) && p edge))
  unfolding merge_report
  holds-merge_report pairs key k edge = elim (Option-cases (lookup key pairs)) [
    | inl new ↦
        rw (merge_report, new, lookup-insert key k edge pairs) (ground (arith, pair_beq_iff key k))
    | inr (acc, old) ↦
        rw (merge_report, old, lookup-insert key k (merge_edge acc edge) pairs)
          (ground (arith, pair_beq_iff key k, merges acc edge))
  ]

  holds-collapse_paths :
      (ids : List ℕ) (reporter : ℕ) (pairs : Dict (Text × Text) PathEdge) (paths : Dict ℕ PathEdge)
      (k : Text × Text)
      → holds p (lookup k (collapse_paths fmt ids reporter pairs paths))
        ≡ (holds p (lookup k pairs) || reports ids reporter k paths)
  unfolding collapse_paths
  holds-collapse_paths ids reporter pairs [] k = ground arith
  holds-collapse_paths ids reporter pairs ((target, edge) ∷ paths) k =
      let key = edge_key (fmt.print_uuid reporter) (fmt.print_uuid target) in
      elim (Bool-cases (contains ids target)) [
        | inl machine ↦
            rw (collapse_paths, machine)
              (ground (
                arith,
                holds-collapse_paths ids reporter (merge_report pairs key edge) paths k,
                holds-merge_report pairs key k edge,
              ))
        | inr other ↦ rw (collapse_paths, other) (holds-collapse_paths ids reporter pairs paths k)
      ]

  holds-collapse_all :
      (ids : List ℕ) (pairs : Dict (Text × Text) PathEdge) (entries : List PeerEntry)
      (k : Text × Text)
      → holds p (lookup k (collapse_all fmt ids pairs entries))
        ≡ (holds p (lookup k pairs) || any (λ e. reports ids e.peer_id k e.paths) entries)
  unfolding collapse_all
  holds-collapse_all ids pairs [] k = ground arith
  holds-collapse_all ids pairs (e ∷ entries) k = ground (
    arith,
    holds-collapse_all ids (collapse_paths fmt ids e.peer_id pairs e.paths) entries k,
    holds-collapse_paths ids e.peer_id pairs e.paths k,
  )

module _ (fmt : Formats) {Sender : Type 0} where
  -- Whether some machine reported a path to another machine that counts for the pair.
  abbrev pub reported : (PathEdge → Bool) → Coordinator Sender → Text × Text → Bool
  reported p c key =
      any
        (λ e.
          any
            (λ kv.
              contains (map (λ m. m.peer_id) (machine_entries fmt c)) kv.0
              && ((edge_key (fmt.print_uuid e.peer_id) (fmt.print_uuid kv.0) == key) && p kv.1))
            e.paths)
        (machine_entries fmt c)

  -- The machine graph has one edge for an unordered pair exactly when one of its two machines
  -- reported a path to the other, and the edge is direct exactly when one of these reports is; both
  -- directions fall on one key.
  pub topology_pairs-reported :
      (c : Coordinator Sender) (a b : Text)
      → (is_some (lookup (edge_key a b) (topology_pairs fmt c))
          ≡ reported (λ e. true) c (edge_key a b))
        × (holds (λ e. e.direct) (lookup (edge_key a b) (topology_pairs fmt c))
            ≡ reported (λ e. e.direct) c (edge_key a b))
        × (edge_key a b ≡ edge_key b a)
  unfolding topology_pairs merge_edge
  topology_pairs-reported c a b =
      let entries = machine_entries fmt c in
      let ids = map (λ m. m.peer_id) entries in
      (
        some_holds (lookup (edge_key a b) (topology_pairs fmt c))
            ∙ holds-collapse_all fmt (λ e. true) (λ x y. refl) ids [] entries (edge_key a b),
        holds-collapse_all fmt (λ e. e.direct) (λ x y. refl) ids [] entries (edge_key a b),
        edge_key_comm a b,
      )
    where
      some_holds : (o : Option PathEdge) → is_some o ≡ holds (λ e. true) o
      some_holds none = refl
      some_holds (some e) = refl
