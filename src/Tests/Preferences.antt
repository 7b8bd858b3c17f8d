-- ===== src/Tests/Preferences.antt =====
-- The preferences over the small map, with a wormhole between its ends.
use erbridge_palu.Prelude.{
  ℕ, ◌<◌, ◌≡◌, sym, subst, Option, List, [], ◌∷◌, length, true, false, arith, done,
}
use erbridge_palu.External.Sample.{sample}
use erbridge_palu.Graph.{build_graph_data}
use erbridge_palu.Routing.{RouteContext, Preference, EdgeKind, new, shortest_path}
use erbridge_palu.Routing.Weights.{IsContext}
use erbridge_palu.Routing.Preferences.{
  IsSafest, PrefersGates, shortest_path-IsSafest, shortest_path-PrefersGates,
}
use erbridge_palu.Services.Route.{OverlayInputs, Link, add_overlay_connections}
use erbridge_palu.Services.Route.Overlaid.{Fit, Fit-IsContext, new-Fit, add_overlay_connections-Fit}
use erbridge_palu.Tests.Data.{graph, serves, moment, jita_in}

abbrev inputs : OverlayInputs
inputs = record {
  avoid = [];
  include_zarzakh = false;
  use_wormholes = true;
  use_bridges = false;
  connections = [];
  include_thera = false;
  include_turnur = false;
}

-- Jita to Urlen.
abbrev wormhole : List Link
wormhole = (0, 2, EdgeKind.wormhole) ∷ []

urlen_in : 2 < length graph.systems
unfolding build_graph_data
urlen_in = omega arith

abbrev context : Preference → RouteContext sample
context pref = add_overlay_connections sample inputs wormhole (new sample graph [] pref)

context-Fit : (pref : Preference) → Fit sample graph serves [] pref (context pref)
context-Fit pref =
    add_overlay_connections-Fit sample graph serves inputs wormhole (new sample graph [] pref)
      ((jita_in, urlen_in), tt) (new-Fit sample graph serves)

context-IsContext : (pref : Preference) → IsContext sample (context pref)
context-IsContext pref = Fit-IsContext sample graph serves (context pref) (context-Fit pref)

jita_within : (pref : Preference) → 0 < length (context pref).graph.systems
jita_within pref = subst (λ g. 0 < length g.systems) (sym (context-Fit pref).graph_is) jita_in

shortest_path-IsSafest_example :
    (r : Option (List ℕ)) × (shortest_path sample (context Preference.safest) 0 2 moment.scratch
      ≡ done r)
    × IsSafest sample
        (context Preference.safest)
        (context-IsContext Preference.safest)
        0
        (jita_within Preference.safest)
        2
        r
shortest_path-IsSafest_example =
    shortest_path-IsSafest sample (context Preference.safest) (context-IsContext Preference.safest)
      0 (jita_within Preference.safest) 2 moment.scratch (context-Fit Preference.safest).pref_is

shortest_path-PrefersGates_example :
    (r : Option (List ℕ)) × (shortest_path sample
        (context Preference.prefer_gates)
        0
        2
        moment.scratch
      ≡ done r)
    × PrefersGates sample
        (context Preference.prefer_gates)
        (context-IsContext Preference.prefer_gates)
        0
        (jita_within Preference.prefer_gates)
        2
        r
shortest_path-PrefersGates_example =
    shortest_path-PrefersGates sample (context Preference.prefer_gates)
      (context-IsContext Preference.prefer_gates) 0 (jita_within Preference.prefer_gates) 2
      moment.scratch (context-Fit Preference.prefer_gates).pref_is
