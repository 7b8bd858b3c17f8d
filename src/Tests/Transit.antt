-- ===== src/Tests/Transit.antt =====
-- A request that avoids a system, and a route that it searches.
use erbridge_palu.Prelude.{
  ℕ, ◌≤◌, ◌<◌, ◌≡◌, ◌≢◌, refl, Option, none, some, List, [], ◌∷◌, Memᴰ, length, text_of, arith,
  done, nat_eq, int_eq, text_eq, pair_eq, PartialEq, true, false, Bool, pos, All, text_beq, int_beq,
  to_ascii_lowercase,
}
use erbridge_palu.Prelude.HashMap
use erbridge_palu.Prelude.HashSet
use erbridge_palu.External.Sample.{sample}
use erbridge_palu.Error.{ok}
use erbridge_palu.Dto.{SystemRef, RoutePreference, GateRouteRequest, preference_of}
use erbridge_palu.Graph.{build_graph_data}
use erbridge_palu.Routing.{RouteContext, net, neighbors, entry}
use erbridge_palu.Dijkstra.Routes.{Route, IsNet, here, step}
use erbridge_palu.Services.Route.{inputs_of, resolve_system, zarzakh_system_id}
use erbridge_palu.Services.Route.Compute.{Header, header, context_for}
use erbridge_palu.Services.Route.Checked.{Checks, header-Checks}
use erbridge_palu.Routing.Weights.{net-IsNet}
use erbridge_palu.Services.Route.Overlaid.{Fit-IsContext}
use erbridge_palu.Services.Route.Fanout.{context_for-Fit}
use erbridge_palu.Services.Route.Transit.{transit_avoids}
use erbridge_palu.Tests.Data.{graph, serves, scout}

-- From Jita to Urlen, without Zarzakh.
abbrev request : GateRouteRequest
request = record {
  from = SystemRef.name (text_of "jita");
  to = SystemRef.id (pos 30000139) ∷ [];
  preference = RoutePreference.shortest;
  avoid = SystemRef.id (pos 30000139) ∷ [];
  use_wormholes = false;
  use_bridges = false;
  connections = [];
  include_thera = false;
  include_turnur = false;
  include_zarzakh = false;
}

abbrev checked : Header sample graph scout
checked = record { from = 0; shared_avoid = 2 ∷ []; connections = [] }

checked_is : header sample graph scout request ≡ ok checked
unfolding header build_graph_data HashMap.get HashMap.insert text_beq to_ascii_lowercase int_beq
    HashSet.remove HashSet.collect
checked_is = refl

header-Checks_example : Checks sample graph serves scout request checked
header-Checks_example = header-Checks sample graph serves scout request checked checked_is

abbrev ctx : RouteContext sample
ctx =
    context_for sample graph scout (inputs_of request) (preference_of request.preference)
      checked.shared_avoid checked.connections checked.from 2 5

ctx-IsNet : IsNet (net sample ctx)
ctx-IsNet = net-IsNet sample ctx (
    Fit-IsContext sample graph serves ctx (
      context_for-Fit sample graph serves scout (inputs_of request)
        (preference_of request.preference) checked.shared_avoid checked.connections checked.from
        header-Checks_example.from_in tt 2 5))

first_gate : Memᴰ 1 (neighbors sample ctx 0)
unfolding neighbors entry context_for build_graph_data HashMap.get HashMap.insert int_beq
    HashSet.remove HashSet.contains HashSet.insert erbridge_palu.Prelude.pair_beq
first_gate = Memᴰ.head refl

second_gate : Memᴰ 2 (neighbors sample ctx 1)
unfolding neighbors entry context_for build_graph_data HashMap.get HashMap.insert int_beq
    HashSet.remove HashSet.contains HashSet.insert erbridge_palu.Prelude.pair_beq
second_gate = Memᴰ.head refl

way : (c : ℕ) × Route (net sample ctx) 0 2 (2 ∷ 1 ∷ 0 ∷ []) c
way = (
  _,
  step (step here (first_gate, (ctx-IsNet.weighed 0 1 first_gate).1))
      (second_gate, (ctx-IsNet.weighed 1 2 second_gate).1),
)

transit_avoids_example :
    ((r : SystemRef) → Memᴰ r request.avoid → resolve_system sample graph r ≢ ok 1)
    × (request.include_zarzakh ≡ false → HashMap.get zarzakh_system_id graph.id_to_idx ≢ some 1)
transit_avoids_example =
    transit_avoids sample graph serves scout request checked header-Checks_example 2 way.0
      (2 ∷ 1 ∷ 0 ∷ []) 5 way.1 1 (Memᴰ.tail (Memᴰ.head refl)) (λ e. ground arith)
      (λ e. ground arith)
