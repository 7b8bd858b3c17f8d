-- ===== src/Tests/Routes.antt =====
-- Routes over the small map: the searches, the overlay and the labels.
use erbridge_palu.Prelude.{
  ℕ, ◌<◌, ◌≡◌, refl, Option, some, List, [], ◌∷◌, Memᴰ, length, arith, done, nat_eq, inl, inr,
}
use mathlib.Core.List.Memᴰ
use mathlib.Core.Option
use erbridge_palu.External.Sample.{sample, sample-IsPetgraph}
use erbridge_palu.Dijkstra.{search_path}
use erbridge_palu.Dijkstra.Routes.{IsNet}
use erbridge_palu.Dijkstra.Single.{IsCheapest, search_path-IsCheapest}
use erbridge_palu.Dijkstra.Multi.{SettledTarget, search_multi}
use erbridge_palu.Dijkstra.Multi.Settled.{Settles, search_multi-Settles}
use erbridge_palu.Routing.{
  RouteContext, Preference, EdgeKind, new, net, add_connection, overlay_edge_kind, shortest_path,
}
use erbridge_palu.Routing.Weights.{IsContext, net-IsNet}
use erbridge_palu.Routing.Overlay.{Joins, overlay_edge_kind-add_connection}
use erbridge_palu.Routing.Paths.{IsFewest, shortest_path-IsFewest}
use erbridge_palu.Graph.{build_graph_data}
use erbridge_palu.Graph.Built.{IsGraphData, build_graph_data-IsGraphData}
use erbridge_palu.Services.Route.Overlaid.{Fit-IsContext, new-Fit}
use erbridge_palu.Services.Route.Steps.{Labelled, build_steps-Labelled}
use erbridge_palu.Services.Route.{build_steps}
use erbridge_palu.Dto.{RouteStep}
use erbridge_palu.Tests.Data.{raw, graph, serves, moment, jita_in}

-- The context without an overlay.
abbrev plain : RouteContext sample
plain = new sample graph [] Preference.shortest

plain-IsContext : IsContext sample plain
plain-IsContext = Fit-IsContext sample graph serves plain (new-Fit sample graph serves)

plain-IsNet : IsNet (net sample plain)
plain-IsNet = net-IsNet sample plain plain-IsContext

search_path-IsCheapest_example :
    (r : Option (List ℕ)) × (search_path (net sample plain) 0 2 moment.scratch ≡ done r)
    × IsCheapest (net sample plain) 0 2 r
search_path-IsCheapest_example =
    search_path-IsCheapest (net sample plain) 0 2 plain-IsNet moment.scratch jita_in

targets_in : (t : ℕ) → Memᴰ t (2 ∷ 1 ∷ []) → t < length graph.systems
unfolding build_graph_data
targets_in t m = elim (Memᴰ.cases_cons m) [
  | inl same ↦ omega arith
  | inr later ↦ omega (arith, Memᴰ.eq_of_singleton later)
]

search_multi-Settles_example :
    (out : List SettledTarget) × (search_multi (net sample plain) 0 (2 ∷ 1 ∷ []) moment.scratch
      ≡ done out)
    × Settles (net sample plain) 0 (2 ∷ 1 ∷ []) out
search_multi-Settles_example =
    search_multi-Settles (net sample plain) 0 plain-IsNet (2 ∷ 1 ∷ []) moment.scratch jita_in
      targets_in

build_graph_data-IsGraphData_example : IsGraphData sample sample-IsPetgraph raw graph
build_graph_data-IsGraphData_example = build_graph_data-IsGraphData sample sample-IsPetgraph raw 7

overlay_edge_kind-add_connection_example :
    (Joins sample 0 2 2 0
      → overlay_edge_kind sample (add_connection sample plain 0 2 EdgeKind.bridge) 2 0
        ≡ some (Option.get_or (overlay_edge_kind sample plain 2 0) EdgeKind.bridge))
    × (¬ Joins sample 0 2 2 0
        → overlay_edge_kind sample (add_connection sample plain 0 2 EdgeKind.bridge) 2 0
          ≡ overlay_edge_kind sample plain 2 0)
overlay_edge_kind-add_connection_example =
    overlay_edge_kind-add_connection sample plain 0 2 2 0 EdgeKind.bridge

path_in : (x : ℕ) → Memᴰ x (0 ∷ 1 ∷ []) → x < length graph.systems
unfolding build_graph_data
path_in x m = elim (Memᴰ.cases_cons m) [
  | inl same ↦ omega arith
  | inr later ↦ omega (arith, Memᴰ.eq_of_singleton later)
]

build_steps-Labelled_example :
    (steps : List (RouteStep sample)) × (build_steps sample graph plain (0 ∷ 1 ∷ []) ≡ done steps)
    × Labelled sample graph plain (0 ∷ 1 ∷ []) steps
build_steps-Labelled_example = build_steps-Labelled sample graph plain (0 ∷ 1 ∷ []) path_in

shortest_path-IsFewest_example :
    (r : Option (List ℕ)) × (shortest_path sample plain 0 2 moment.scratch ≡ done r)
    × IsFewest sample plain plain-IsContext 0 jita_in 2 r
shortest_path-IsFewest_example =
    shortest_path-IsFewest sample plain plain-IsContext 0 jita_in 2 moment.scratch refl
