-- ===== src/External.antt =====
-- What the program takes from elsewhere: floating point numbers, and the crates petgraph (the gate
-- graph), kiddo (the kd-tree) and chrono (times). They are parameters; what the code relies on is
-- stated as named laws.
pub mod Sample
use erbridge_palu.Prelude.{
  ℕ, suc, ◌≤◌, ◌<◌, ◌≡◌, ◌≢◌, ◌⊎◌, ◌↔◌, Bool, true, false, Option, some, List, [], ◌∷◌, Memᴰ,
}
use Prim.Native.Nat.{Ordering}

pub record External : Type 1 where
  -- `f32`, as security status: it is compared with 0.45 and with 0.0 only.
  pub F32 : Type 0
  pub at_least_045 : F32 → Bool
  pub above_zero : F32 → Bool
  -- `f64`
  pub F64 : Type 0
  pub of_nat : ℕ → F64
  pub ly_in_meters : F64
  pub add : F64 → F64 → F64
  pub sub : F64 → F64 → F64
  pub mul : F64 → F64 → F64
  pub div : F64 → F64 → F64
  pub sqrt : F64 → F64
  pub round : F64 → F64
  pub lt : F64 → F64 → Bool
  pub partial_cmp : F64 → F64 → Option Ordering
  -- chrono: `after a b` is `a > b`.
  pub DateTime : Type 0
  pub after : DateTime → DateTime → Bool
  -- petgraph: `UnGraph<(), ()>`, with the index that `add_node` returns.
  pub UnGraph : Type 0
  pub new_graph : UnGraph
  pub add_node : UnGraph → UnGraph × ℕ
  pub add_edge : UnGraph → ℕ → ℕ → UnGraph
  pub neighbors : UnGraph → ℕ → List ℕ
  pub contains_edge : UnGraph → ℕ → ℕ → Bool
  pub node_count : UnGraph → ℕ
  pub edge_count : UnGraph → ℕ
  -- kiddo: `KdTree<f64, usize, 3, 32, u32>` under the metric `SquaredEuclidean`.
  pub KdTree : Type 0
  pub new_tree : KdTree
  pub add_point : KdTree → F64 × F64 × F64 → ℕ → KdTree
  pub within_unsorted : KdTree → F64 × F64 × F64 → F64 → List ℕ
  pub squared_euclidean : F64 × F64 × F64 → F64 × F64 × F64 → F64

-- petgraph's documentation: nodes are numbered from 0 on, edges are undirected, and an edge is
-- contained where its ends are neighbours.
pub record IsPetgraph (X : External) : Type 0 where
  pub count_new : X.node_count X.new_graph ≡ 0
  pub new_index : (g : X.UnGraph) → (X.add_node g).1 ≡ X.node_count g
  pub count_node : (g : X.UnGraph) → X.node_count (X.add_node g).0 ≡ suc (X.node_count g)
  pub count_edge :
      (g : X.UnGraph) (a b : ℕ)
      → a < X.node_count g
      → b < X.node_count g
      → X.node_count (X.add_edge g a b) ≡ X.node_count g
  pub neighbors_new : (v : ℕ) → X.neighbors X.new_graph v ≡ []
  pub neighbors_node : (g : X.UnGraph) (v : ℕ) → X.neighbors (X.add_node g).0 v ≡ X.neighbors g v
  pub neighbors_edge :
      (g : X.UnGraph) (a b u v : ℕ)
      → a < X.node_count g
      → b < X.node_count g
      → Memᴰ v (X.neighbors (X.add_edge g a b) u)
        ↔ (Memᴰ v (X.neighbors g u) ⊎ (u ≡ a) × (v ≡ b) ⊎ (u ≡ b) × (v ≡ a))
  pub contains_iff :
      (g : X.UnGraph) (a b : ℕ) → (X.contains_edge g a b ≡ true) ↔ Memᴰ b (X.neighbors g a)
  pub edges_new : X.edge_count X.new_graph ≡ 0
  pub edges_node : (g : X.UnGraph) → X.edge_count (X.add_node g).0 ≡ X.edge_count g
  pub edges_edge :
      (g : X.UnGraph) (a b : ℕ)
      → a < X.node_count g
      → b < X.node_count g
      → X.edge_count (X.add_edge g a b) ≡ suc (X.edge_count g)

-- IEEE 754: `<` is irreflexive and transitive, whatever numbers or NaNs it compares, and
-- `partial_cmp` is `Greater` exactly where `>` holds.
pub record IsIeee (X : External) : Type 0 where
  pub lt_irrefl : (a : X.F64) → X.lt a a ≡ false
  pub lt_trans : (a b c : X.F64) → X.lt a b ≡ true → X.lt b c ≡ true → X.lt a c ≡ true
  pub cmp_gt : (a b : X.F64) → (X.partial_cmp a b ≡ some Ordering.gt) ↔ (X.lt b a ≡ true)

-- kiddo's documentation: a query finds the points within the radius under the metric, whatever the
-- order they were added in; whether the bound is strict is left open.
pub record IsKdTree (X : External) : Type 0 where
  pub is_within : X.F64 → X.F64 → Bool
  pub within_new :
      (q : X.F64 × X.F64 × X.F64) (r : X.F64) (v : ℕ) → ¬ Memᴰ v (X.within_unsorted X.new_tree q r)
  pub within_point :
      (t : X.KdTree) (p : X.F64 × X.F64 × X.F64) (i : ℕ) (q : X.F64 × X.F64 × X.F64) (r : X.F64)
      (v : ℕ)
      → Memᴰ v (X.within_unsorted (X.add_point t p i) q r) ↔ (
          Memᴰ v (X.within_unsorted t q r)
          ⊎ (v ≡ i) × (is_within (X.squared_euclidean p q) r ≡ true))
