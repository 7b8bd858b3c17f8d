-- ===== src/Services/Route.antt =====
-- src/services/route.rs: the endpoints, the overlay of a request, the searches, one for each
-- destination, and the labelled steps.
pub mod Compute
pub mod Endpoints
pub mod Overlaid
pub mod Steps
pub mod Checked
pub mod Fanout
pub mod Transit
use erbridge_palu.Prelude.{
  ℕ, suc, ◌+◌, ◌-◌, Bool, true, false, not, ◌&&◌, ◌||◌, Option, none, some, List, [], ◌∷◌, ◌++◌,
  length, index, nat_beq, ltb, ℤ, pos, Text, text_of, int_eq, text_eq, nat_eq, PartialEq,
  to_ascii_lowercase, nat_to_string, to_string, if◌then◌else◌, Outcome, done, panicked, out_of_fuel,
  ◌>>=◌,
}
use erbridge_palu.Prelude.HashMap
use erbridge_palu.Prelude.HashSet
use erbridge_palu.Prelude.HashSet.{HashSet}
use erbridge_palu.External.{External}
use erbridge_palu.Error
use erbridge_palu.Error.{AppError, Reply, ok, err, code_message, collect, and_then}
use erbridge_palu.Dto.{
  SystemRef, RoutePreference, preference_of, ConnectionKind, Connection, max_destinations,
  GateRouteRequest, RouteStep, GateRouteOutcome, route, failure, GateRouteResult, GateRouteResponse,
}
use erbridge_palu.EveScout.{Signature, EveScoutSnapshot, is_live, thera_system_id, turnur_system_id}
use erbridge_palu.Model.{GraphData, System, label}
use erbridge_palu.Dijkstra.{DijkstraScratch}
use erbridge_palu.Routing.{
  EdgeKind, Preference, RouteContext, new, add_connection, step_via, shortest_path,
}

abbrev pub zarzakh_system_id : ℤ
zarzakh_system_id = pos 30100000

pub record OverlayInputs : Type 0 where
  pub avoid : List SystemRef
  pub include_zarzakh : Bool
  pub use_wormholes : Bool
  pub use_bridges : Bool
  pub connections : List Connection
  pub include_thera : Bool
  pub include_turnur : Bool

-- `From<&GateRouteRequest> for OverlayInputs`
abbrev pub inputs_of : GateRouteRequest → OverlayInputs
inputs_of r = record {
  avoid = r.avoid;
  include_zarzakh = r.include_zarzakh;
  use_wormholes = r.use_wormholes;
  use_bridges = r.use_bridges;
  connections = r.connections;
  include_thera = r.include_thera;
  include_turnur = r.include_turnur;
}

unfoldable pub edge_kind : ConnectionKind → EdgeKind
edge_kind ConnectionKind.bridge = EdgeKind.bridge
edge_kind ConnectionKind.wormhole = EdgeKind.wormhole

-- The flag that a kind of connection needs.
unfoldable pub is_used : OverlayInputs → EdgeKind → Bool
is_used inputs EdgeKind.wormhole = inputs.use_wormholes
is_used inputs EdgeKind.bridge = inputs.use_bridges

-- A resolved connection.
abbrev pub Link : Type 0
Link = ℕ × ℕ × EdgeKind

unfoldable pub contains_node : List ℕ → ℕ → Bool
contains_node [] v = false
contains_node (x ∷ xs) v = nat_beq x v || contains_node xs v

-- `ok_or_else(|| AppError::UnknownSystem(..))`
unfoldable pub or_unknown : Option ℕ → Text → Reply ℕ
or_unknown none what = err (AppError.unknown_system what)
or_unknown (some i) what = ok i

module _ (X : External) where
  open X use {DateTime}

  -- What one search takes from its surroundings: `Utc::now()`, and the thread's buffers as it
  -- finds them.
  pub record Moment : Type 0 where
    pub now : DateTime
    pub scratch : DijkstraScratch

  unfoldable pub resolve_system : GraphData X → SystemRef → Reply ℕ
  unfolding or_unknown
  resolve_system graph (SystemRef.id id) =
      or_unknown (HashMap.get id graph.id_to_idx) (to_string id)
  resolve_system graph (SystemRef.name name) =
      or_unknown (HashMap.get (to_ascii_lowercase name) graph.name_to_idx) name

  unfoldable pub resolve_connection : GraphData X → Connection → Reply Link
  unfolding resolve_system edge_kind
  resolve_connection graph c = elim (resolve_system graph c.from) [
    | err e ↦ err e
    | ok a ↦ elim (resolve_system graph c.to) [ err e ↦ err e | ok b ↦ ok (a, b, edge_kind c.kind) ]
  ]

  unfoldable pub resolve_connections : GraphData X → OverlayInputs → Reply (List Link)
  unfolding resolve_connection
  resolve_connections graph inputs = collect (resolve_connection graph) inputs.connections

  unfoldable pub add_overlay_connections :
      OverlayInputs → List Link → RouteContext X → RouteContext X
  unfolding is_used add_connection
  add_overlay_connections inputs [] ctx = ctx
  add_overlay_connections inputs ((a, b, kind) ∷ rest) ctx =
      add_overlay_connections inputs rest
        (if is_used inputs kind then add_connection X ctx a b kind else ctx)

  unfoldable pub with_zarzakh : GraphData X → OverlayInputs → HashSet ℕ → HashSet ℕ
  with_zarzakh graph inputs avoid =
      if inputs.include_zarzakh
      then avoid
      else elim (HashMap.get zarzakh_system_id graph.id_to_idx) [
        | none ↦ avoid
        | some zar ↦ HashSet.insert zar avoid
      ]

  unfoldable pub assemble_avoid_set : GraphData X → OverlayInputs → Reply (HashSet ℕ)
  unfolding resolve_system with_zarzakh
  assemble_avoid_set graph inputs = elim (collect (resolve_system graph) inputs.avoid) [
    | err e ↦ err e
    | ok nodes ↦ ok (with_zarzakh graph inputs (HashSet.collect nodes))
  ]

  -- One pass of the loop: a signature that has expired or whose systems are unknown is skipped.
  unfoldable pub add_scout_edge :
      GraphData X → DateTime → RouteContext X → Signature X → RouteContext X
  unfolding is_live add_connection
  add_scout_edge graph now ctx sig =
      if is_live X sig now
      then elim (HashMap.get sig.out_system_id graph.id_to_idx) [
        | none ↦ ctx
        | some out ↦ elim (HashMap.get sig.in_system_id graph.id_to_idx) [
          | none ↦ ctx
          | some in' ↦ add_connection X ctx out in' EdgeKind.wormhole
        ]
      ]
      else ctx

  unfoldable pub add_scout_edges :
      GraphData X → RouteContext X → List (Signature X) → DateTime → RouteContext X
  unfolding add_scout_edge
  add_scout_edges graph ctx [] now = ctx
  add_scout_edges graph ctx (sig ∷ sigs) now =
      add_scout_edges graph (add_scout_edge graph now ctx sig) sigs now

  unfoldable pub is_endpoint : GraphData X → List ℕ → ℤ → Bool
  unfolding contains_node
  is_endpoint graph endpoints hub_id = elim (HashMap.get hub_id graph.id_to_idx) [
    | none ↦ false
    | some idx ↦ contains_node endpoints idx
  ]

  -- `now` is `Utc::now()`.
  unfoldable pub apply_scout_overlay :
      GraphData X
      → EveScoutSnapshot X
      → OverlayInputs
      → List ℕ
      → DateTime
      → RouteContext X
      → RouteContext X
  unfolding is_endpoint add_scout_edges
  apply_scout_overlay graph scout inputs endpoints now ctx =
      let with_thera =
        if inputs.include_thera || is_endpoint graph endpoints thera_system_id
        then add_scout_edges graph ctx scout.thera now
        else ctx in
      if inputs.include_turnur || is_endpoint graph endpoints turnur_system_id
      then add_scout_edges graph with_thera scout.turnur now
      else with_thera

  unfoldable pub apply_overlay :
      GraphData X
      → EveScoutSnapshot X
      → OverlayInputs
      → List ℕ
      → DateTime
      → RouteContext X
      → Reply (RouteContext X)
  unfolding resolve_connections add_overlay_connections apply_scout_overlay
  apply_overlay graph scout inputs endpoints now ctx = elim (resolve_connections graph inputs) [
    | err e ↦ err e
    | ok links ↦ ok (
        apply_scout_overlay graph scout inputs endpoints now
          (add_overlay_connections inputs links ctx))
  ]

  -- The label of a step, given the node before it, if any.
  unfoldable pub via_of : RouteContext X → Option ℕ → ℕ → Text
  unfolding step_via
  via_of ctx none b = text_of "start"
  via_of ctx (some a) b = step_via X ctx a b

  unfoldable pub step_of : System X → Text → RouteStep X
  unfolding label
  step_of s via = record {
    system = s.name;
    system_id = s.id;
    security = s.security;
    sec_class = label s.sec_class;
    via = via;
  }

  unfoldable pub steps_from :
      GraphData X → RouteContext X → Option ℕ → List ℕ → Outcome (List (RouteStep X))
  unfolding via_of step_of
  steps_from graph ctx before [] = done []
  steps_from graph ctx before (b ∷ bs) = do
    s ← index graph.systems b
    rest ← steps_from graph ctx (some b) bs
    done (step_of s (via_of ctx before b) ∷ rest)

  unfoldable pub build_steps : GraphData X → RouteContext X → List ℕ → Outcome (List (RouteStep X))
  unfolding steps_from
  build_steps graph ctx path = steps_from graph ctx none path
