-- ===== src/Graph.antt =====
-- src/graph.rs: the graph data from the raw SDE data.
pub mod Indexes
pub mod Links
pub mod Built
pub mod Spatial
use erbridge_palu.Prelude.{
  ℕ, Bool, true, false, Option, none, some, List, [], ◌∷◌, leb, ℤ, Text, int_eq, text_eq, nat_eq,
  pair_eq, PartialEq, to_ascii_lowercase, if◌then◌else◌,
}
use erbridge_palu.Prelude.HashMap
use erbridge_palu.Prelude.HashMap.{HashMap}
use erbridge_palu.Prelude.HashSet
use erbridge_palu.Prelude.HashSet.{HashSet}
use erbridge_palu.External.{External}
use erbridge_palu.Model.{System, RawSdeData, GraphData, is_wormhole, from_raw}

-- A pair of indices, the smaller one first.
unfoldable pub edge_key : ℕ → ℕ → ℕ × ℕ
edge_key a b = if leb a b then (a, b) else (b, a)

module _ (X : External) where
  open X use {UnGraph, KdTree, new_graph, add_node, add_edge, new_tree, add_point}

  -- What the pass over the systems fills.
  pub record Lookups : Type 0 where
    pub gate_graph : UnGraph
    pub id_to_idx : HashMap ℤ ℕ
    pub name_to_idx : HashMap Text ℕ
    pub spatial_index : KdTree

  abbrev pub empty_lookups : Lookups
  empty_lookups = record {
    gate_graph = new_graph;
    id_to_idx = [];
    name_to_idx = [];
    spatial_index = new_tree;
  }

  -- One pass of the loop over the systems. The index is the one that petgraph returns.
  unfoldable pub add_system : Lookups → System X → Lookups
  add_system l s =
      let added = add_node l.gate_graph in
      record {
        gate_graph = added.0;
        id_to_idx = HashMap.insert s.id added.1 l.id_to_idx;
        name_to_idx = HashMap.insert (to_ascii_lowercase s.name) added.1 l.name_to_idx;
        spatial_index =
            if is_wormhole X s then l.spatial_index else add_point l.spatial_index s.coords added.1;
      }

  unfoldable pub add_systems : Lookups → List (System X) → Lookups
  unfolding add_system
  add_systems l [] = l
  add_systems l (s ∷ ss) = add_systems (add_system l s) ss

  -- The gates so far, and `edge_seen`.
  pub record Gates : Type 0 where
    pub graph : UnGraph
    pub edge_seen : HashSet (ℕ × ℕ)

  -- The edge of two known systems, unless its key was seen.
  unfoldable pub add_gate : Gates → ℕ → ℕ → Gates
  unfolding edge_key
  add_gate g a b = if HashSet.contains (edge_key a b) g.edge_seen then g else record {
    graph = add_edge g.graph a b;
    edge_seen = HashSet.insert (edge_key a b) g.edge_seen;
  }

  -- One pass of the loop over the gate pairs: a pair with an unknown system is skipped.
  unfoldable pub add_pair : HashMap ℤ ℕ → Gates → ℤ × ℤ → Gates
  unfolding add_gate
  add_pair ids g (a_id, b_id) = elim (HashMap.get a_id ids) [
    | none ↦ g
    | some a ↦ elim (HashMap.get b_id ids) [ none ↦ g | some b ↦ add_gate g a b ]
  ]

  unfoldable pub add_pairs : HashMap ℤ ℕ → Gates → List (ℤ × ℤ) → Gates
  unfolding add_pair
  add_pairs ids g [] = g
  add_pairs ids g (p ∷ ps) = add_pairs ids (add_pair ids g p) ps

  unfoldable pub build_graph_data : RawSdeData X → ℕ → GraphData X
  unfolding add_systems add_pairs
  build_graph_data raw build_number =
      let l = add_systems empty_lookups raw.systems in
      let gates =
        add_pairs l.id_to_idx (record { graph = l.gate_graph; edge_seen = [] }) raw.gate_pairs in
      record {
        systems = raw.systems;
        id_to_idx = l.id_to_idx;
        name_to_idx = l.name_to_idx;
        gate_graph = gates.graph;
        spatial_index = l.spatial_index;
        hulls = from_raw X raw.hulls;
        build_number = build_number;
      }
