-- ===== src/Dijkstra/Routes.antt =====
-- What a route is, independently of the search: a walk over the edges of the routing context,
-- with its nodes in reverse order and its cost as `f32` sums it up from the source.
use erbridge_palu.Prelude.{ℕ, zero, ◌<◌, ◌≡◌, some, List, [], ◌∷◌, Memᴰ}
use erbridge_palu.F32.{add_f32}
use erbridge_palu.Dijkstra.{Net}

-- What the loop reads of the context is in range.
pub record IsNet (net : Net) : Type 0 where
  pub in_range : (u v : ℕ) → Memᴰ v (net.neighbors u) → v < net.size
  pub weighed : (u v : ℕ) → Memᴰ v (net.neighbors u) → (w : ℕ) × (net.weight u v ≡ some w)

-- The edge from `u` to `v` has weight `w`.
abbrev pub Edge : Net → ℕ → ℕ → ℕ → Type 0
Edge net u v w = Memᴰ v (net.neighbors u) × (net.weight u v ≡ some w)

-- `Route net from v nodes c`: a walk from `from` to `v` over `nodes`, the last first, at cost `c`.
pub data Route (net : Net) (from : ℕ) : ℕ → List ℕ → ℕ → Type 0 where
  here : Route net from from (from ∷ []) zero
  step :
      {u v w c : ℕ} {nodes : List ℕ}
      → Route net from u nodes c
      → Edge net u v w
      → Route net from v (v ∷ nodes) (add_f32 c w)
