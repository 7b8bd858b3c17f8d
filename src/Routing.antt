-- ===== src/Routing.antt =====
-- src/routing.rs, up to the search: the context of one request, with its overlay of connections
-- over the gate graph, and the searches over it.
pub mod Overlay
pub mod Weights
pub mod Prices
pub mod Paths
pub mod Preferences
use erbridge_palu.Prelude.{
  ℕ, ◌+◌, Bool, true, false, not, ◌&&◌, Option, none, some, List, [], ◌∷◌, ◌++◌, map, length,
  get_elem?, nat_beq, find, filter, nat_eq, PartialEq, Text, text_of, if◌then◌else◌, Outcome,
}
use erbridge_palu.Prelude.HashMap
use erbridge_palu.Prelude.HashMap.{HashMap}
use erbridge_palu.Prelude.HashSet
use erbridge_palu.Prelude.HashSet.{HashSet}
use erbridge_palu.External.{External}
use erbridge_palu.F32.{add_f32}
use erbridge_palu.Model.{GraphData, SecClass, is_highsec, System}
use erbridge_palu.Dijkstra.{Net, DijkstraScratch, search_path}
use erbridge_palu.Dijkstra.Multi.{SettledTarget, search_multi}
use mathlib.Core.Option

pub data EdgeKind : Type 0 where
  wormhole bridge : EdgeKind

unfoldable pub via_label : EdgeKind → Text
via_label wormhole = text_of "wormhole"
via_label bridge = text_of "bridge"

pub data Preference : Type 0 where
  shortest safest prefer_gates : Preference

-- `SECURITY_PENALTY` and `WORMHOLE_PENALTY`
abbrev pub security_penalty_value : ℕ
security_penalty_value = 10000

abbrev pub wormhole_penalty_value : ℕ
wormhole_penalty_value = 2

-- The overlay: for each node, the nodes it is connected with.
abbrev pub Connections : Type 0
Connections = HashMap ℕ (List (ℕ × EdgeKind))

-- The entry of a node, or the default one.
unfoldable pub entry : ℕ → Connections → List (ℕ × EdgeKind)
entry a c = Option.get_or (HashMap.get a c) []

-- `iter().find(|(n, _)| *n == b)`, and what it says of the kind.
unfoldable pub kind_to : ℕ → List (ℕ × EdgeKind) → Option EdgeKind
kind_to b [] = none
kind_to b ((n, k) ∷ rest) = if nat_beq n b then some k else kind_to b rest

-- A connection is pushed unless there is one to the same node.
unfoldable pub push_new : ℕ → EdgeKind → List (ℕ × EdgeKind) → List (ℕ × EdgeKind)
unfolding kind_to
push_new b kind nbrs = elim (kind_to b nbrs) [ some _ ↦ nbrs | none ↦ nbrs ++ (b, kind) ∷ [] ]

-- One half of `add_connection`.
unfoldable pub add_half : ℕ → ℕ → EdgeKind → Connections → Connections
unfolding entry push_new
add_half a b kind c = HashMap.insert a (push_new b kind (entry a c)) c

module _ (X : External) where
  open X use {contains_edge}

  pub record RouteContext : Type 0 where
    pub graph : GraphData X
    pub avoid : HashSet ℕ
    pub connections : Connections
    pub preference : Preference

  abbrev pub new : GraphData X → HashSet ℕ → Preference → RouteContext
  new graph avoid preference = record {
    graph = graph;
    avoid = avoid;
    connections = [];
    preference = preference;
  }

  unfoldable pub add_connection : RouteContext → ℕ → ℕ → EdgeKind → RouteContext
  unfolding add_half
  add_connection ctx a b kind = if nat_beq a b then ctx else record {
    graph = ctx.graph;
    avoid = ctx.avoid;
    connections = add_half b a kind (add_half a b kind ctx.connections);
    preference = ctx.preference;
  }

  unfoldable pub overlay_edge_kind : RouteContext → ℕ → ℕ → Option EdgeKind
  unfolding kind_to
  overlay_edge_kind ctx a b = elim (HashMap.get a ctx.connections) [
    | none ↦ none
    | some nbrs ↦ kind_to b nbrs
  ]

  unfoldable pub is_overlay_edge : RouteContext → ℕ → ℕ → Bool
  unfolding overlay_edge_kind
  is_overlay_edge ctx a b = elim (overlay_edge_kind ctx a b) [ none ↦ false | some _ ↦ true ]

  unfoldable pub has_gate_edge : RouteContext → ℕ → ℕ → Bool
  has_gate_edge ctx a b = contains_edge ctx.graph.gate_graph a b

  unfoldable pub step_via : RouteContext → ℕ → ℕ → Text
  unfolding has_gate_edge overlay_edge_kind via_label
  step_via ctx a b = elim (has_gate_edge ctx a b) [
    | true ↦ text_of "stargate"
    | false ↦ elim (overlay_edge_kind ctx a b) [
      | some kind ↦ via_label kind
      | none ↦ text_of "stargate"
    ]
  ]

  -- The gate neighbours, then those of the overlay, without the avoided nodes.
  unfoldable pub neighbors : RouteContext → ℕ → List ℕ
  unfolding entry
  neighbors ctx node =
      filter (λ nb. not (HashSet.contains nb ctx.avoid))
        (X.neighbors ctx.graph.gate_graph node ++ map (λ p. p.0) (entry node ctx.connections))

  unfoldable pub security_penalty : RouteContext → SecClass → ℕ
  unfolding is_highsec
  security_penalty ctx dest = elim ctx.preference [
    | safest ↦ if is_highsec dest then 0 else security_penalty_value
    | _ ↦ 0
  ]

  unfoldable pub wormhole_penalty : RouteContext → ℕ → ℕ → ℕ
  unfolding is_overlay_edge has_gate_edge
  wormhole_penalty ctx src dest = elim ctx.preference [
    | prefer_gates ↦
        if is_overlay_edge ctx src dest && not (has_gate_edge ctx src dest)
        then wormhole_penalty_value
        else 0
    | _ ↦ 0
  ]

  -- `none` where `systems[dest.index()]` panics.
  unfoldable pub edge_weight : RouteContext → ℕ → ℕ → Option ℕ
  unfolding security_penalty wormhole_penalty
  edge_weight ctx src dest = elim (get_elem? ctx.graph.systems dest) [
    | none ↦ none
    | some s ↦
        some
          (add_f32 (add_f32 1 (security_penalty ctx s.sec_class)) (wormhole_penalty ctx src dest))
  ]

  -- What the searches read of the context; `graph.systems.len()` is the size.
  abbrev pub net : RouteContext → Net
  net ctx = record {
    size = length ctx.graph.systems;
    neighbors = neighbors ctx;
    weight = edge_weight ctx;
  }

  unfoldable pub shortest_path : RouteContext → ℕ → ℕ → DijkstraScratch → Outcome (Option (List ℕ))
  shortest_path ctx from to scratch = search_path (net ctx) from to scratch

  unfoldable pub shortest_path_multi :
      RouteContext → ℕ → List ℕ → DijkstraScratch → Outcome (List SettledTarget)
  shortest_path_multi ctx from targets scratch = search_multi (net ctx) from targets scratch
