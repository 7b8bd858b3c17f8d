-- ===== src/Routing/Paths.antt =====
-- What the two searches return over a context that is fit for them.
use erbridge_palu.Prelude.{ℕ, ◌<◌, ◌≤◌, ◌-◌, ◌≡◌, Option, none, some, List, Memᴰ, length, done}
use erbridge_palu.External.{External}
use erbridge_palu.F32.{significand_end}
use erbridge_palu.Dijkstra.{DijkstraScratch}
use erbridge_palu.Dijkstra.Routes.{Route}
use erbridge_palu.Dijkstra.Single.{IsCheapest, OnRoute, search_path-IsCheapest}
use erbridge_palu.Dijkstra.Multi.{SettledTarget}
use erbridge_palu.Dijkstra.Multi.Settled.{Settles, search_multi-Settles}
use erbridge_palu.Routing.{RouteContext, Preference, net, shortest_path, shortest_path_multi}
use erbridge_palu.Routing.Weights.{IsContext, net-IsNet, cheapest_fewest}

module _ (X : External) (ctx : RouteContext X) (ok : IsContext X ctx) (from : ℕ)
    (h : from < length ctx.graph.systems) where
  pub shortest_path-IsCheapest :
      (to : ℕ) (scratch : DijkstraScratch)
      → (r : Option (List ℕ)) × (shortest_path X ctx from to scratch ≡ done r)
        × IsCheapest (net X ctx) from to r
  unfolding shortest_path
  shortest_path-IsCheapest to scratch =
      search_path-IsCheapest (net X ctx) from to (net-IsNet X ctx ok) scratch h

  pub shortest_path_multi-Settles :
      (targets : List ℕ) (scratch : DijkstraScratch)
      → ((t : ℕ) → Memᴰ t targets → t < length ctx.graph.systems)
      → (out : List SettledTarget) × (shortest_path_multi X ctx from targets scratch ≡ done out)
        × Settles (net X ctx) from targets out
  unfolding shortest_path_multi
  shortest_path_multi-Settles targets scratch within =
      search_multi-Settles (net X ctx) from (net-IsNet X ctx ok) targets scratch h within

  -- No route, or the nodes of a route that has no more of them than any route of fewer than 2 ^ 24
  -- jumps.
  abbrev pub IsFewest : ℕ → Option (List ℕ) → Type 0
  IsFewest to none = (others : List ℕ) (c : ℕ) → ¬ Route (net X ctx) from to others c
  IsFewest to (some path) =
      OnRoute (net X ctx) from to path
      × ((others : List ℕ) (c : ℕ)
          → Route (net X ctx) from to others c
          → length others - 1 < significand_end
          → length path ≤ length others)

  -- Under `shortest`, from a source in range, the search always returns: nothing where no route
  -- leads to the target, and otherwise the path of a route with the fewest jumps among the routes of fewer than
  -- 2 ^ 24 jumps, up to which `f32` counts exactly.
  pub shortest_path-IsFewest :
      (to : ℕ) (scratch : DijkstraScratch)
      → ctx.preference ≡ Preference.shortest
      → (r : Option (List ℕ)) × (shortest_path X ctx from to scratch ≡ done r) × IsFewest to r
  shortest_path-IsFewest to scratch pref =
      let (r, e, best) = shortest_path-IsCheapest to scratch in (r, e, fewest r best)
    where
      fewest : (r : Option (List ℕ)) → IsCheapest (net X ctx) from to r → IsFewest to r
      fewest none no_way = no_way
      fewest (some path) (nodes, c, r, e, best) =
          ((nodes, c, r, e), cheapest_fewest X ctx pref from to path (nodes, c, r, e, best))
