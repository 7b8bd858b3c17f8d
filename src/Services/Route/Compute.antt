-- ===== src/Services/Route/Compute.antt =====
-- src/services/route.rs: `compute_one` and `compute_gate_route`.
use erbridge_palu.Prelude.{
  ℕ, suc, ◌-◌, Option, none, some, List, [], ◌∷◌, ◌++◌, length, ltb, nat_beq, nat_eq, text_of,
  nat_to_string, if◌then◌else◌, Outcome, done, ◌>>=◌,
}
use erbridge_palu.Prelude.HashSet
use erbridge_palu.Prelude.HashSet.{HashSet}
use erbridge_palu.External.{External}
use erbridge_palu.Error.{AppError, Reply, ok, err, code_message}
use erbridge_palu.Dto.{
  SystemRef, preference_of, max_destinations, GateRouteRequest, GateRouteOutcome, route, failure,
  GateRouteResult, GateRouteResponse,
}
use erbridge_palu.EveScout.{EveScoutSnapshot}
use erbridge_palu.Model.{GraphData}
use erbridge_palu.Routing.{Preference, RouteContext, new, shortest_path}
use erbridge_palu.Services.Route.{
  OverlayInputs, inputs_of, Link, Moment, resolve_system, resolve_connections,
  add_overlay_connections, assemble_avoid_set, apply_scout_overlay, build_steps,
}

abbrev pub no_destination : AppError
no_destination = AppError.invalid_param (text_of "to[] must contain at least one destination")

unfoldable pub too_many : ℕ → AppError
too_many n = AppError.invalid_param (
    text_of "to[] has "
    ++ nat_to_string n
    ++ text_of " destinations; the maximum is "
    ++ nat_to_string max_destinations)

module _ (X : External) (graph : GraphData X) (scout : EveScoutSnapshot X) where
  -- The context of the search from `from` to `to`: both ends are taken out of the avoid set.
  unfoldable pub context_for :
      OverlayInputs → Preference → HashSet ℕ → List Link → ℕ → ℕ → X.DateTime → RouteContext X
  unfolding add_overlay_connections apply_scout_overlay
  context_for inputs preference shared_avoid connections from to now =
      let ctx = new X graph (HashSet.remove to shared_avoid) preference in
      apply_scout_overlay X graph scout inputs (from ∷ to ∷ []) now
        (add_overlay_connections X inputs connections ctx)

  -- What `compute_one` makes of the path.
  unfoldable pub answer : RouteContext X → Option (List ℕ) → Outcome (Reply (GateRouteOutcome X))
  unfolding build_steps
  answer ctx none = done (err AppError.unreachable)
  answer ctx (some path) = do
    steps ← build_steps X graph ctx path
    done (ok (route (length path - 1) steps))

  unfoldable pub compute_one :
      OverlayInputs
      → Preference
      → HashSet ℕ
      → List Link
      → ℕ
      → SystemRef
      → Moment X
      → Outcome (Reply (GateRouteOutcome X))
  unfolding resolve_system context_for shortest_path answer
  compute_one inputs preference shared_avoid connections from to_ref moment =
      elim (resolve_system X graph to_ref) [
        | err e ↦ done (err e)
        | ok to ↦
            let ctx = context_for inputs preference shared_avoid connections from to moment.now in
            shortest_path X ctx from to moment.scratch >>= λ found. answer ctx found
      ]

  -- `unwrap_or_else`: an error becomes the destination's own.
  unfoldable pub slot_of : Reply (GateRouteOutcome X) → GateRouteOutcome X
  unfolding code_message
  slot_of (ok outcome) = outcome
  slot_of (err e) = failure (code_message e).0 (code_message e).1

  -- The pass over the destinations, the next of which is the `i`-th.
  unfoldable pub results_from :
      OverlayInputs
      → Preference
      → HashSet ℕ
      → List Link
      → ℕ
      → (ℕ → Moment X)
      → ℕ
      → List SystemRef
      → Outcome (List (GateRouteResult X))
  unfolding compute_one slot_of
  results_from inputs preference shared_avoid connections from moments i [] = done []
  results_from inputs preference shared_avoid connections from moments i (to_ref ∷ refs) = do
    outcome ← compute_one inputs preference shared_avoid connections from to_ref (moments i)
    rest ← results_from inputs preference shared_avoid connections from moments (suc i) refs
    done (record { to = to_ref; outcome = slot_of outcome } ∷ rest)

  -- The header of a request, once it is checked.
  pub record Header : Type 0 where
    pub from : ℕ
    pub shared_avoid : HashSet ℕ
    pub connections : List Link

  -- What can fail the whole request, in the code's order.
  unfoldable pub header : GateRouteRequest → Reply Header
  unfolding resolve_system assemble_avoid_set resolve_connections
  header req =
      if nat_beq (length req.to) 0
      then err no_destination
      else (if ltb max_destinations (length req.to)
          then err (too_many (length req.to))
          else elim (resolve_system X graph req.from) [
            | err e ↦ err e
            | ok from ↦ elim (assemble_avoid_set X graph (inputs_of req)) [
              | err e ↦ err e
              | ok avoid ↦ elim (resolve_connections X graph (inputs_of req)) [
                | err e ↦ err e
                | ok connections ↦ ok (record {
                  from = from;
                  shared_avoid = HashSet.remove from avoid;
                  connections = connections;
                })
              ]
            ]
          ])

  unfoldable pub compute_gate_route :
      GateRouteRequest → (ℕ → Moment X) → Outcome (Reply (GateRouteResponse X))
  unfolding header results_from
  compute_gate_route req moments = elim (header req) [
    | err e ↦ done (err e)
    | ok h ↦ do
      results ←
          results_from (inputs_of req) (preference_of req.preference) h.shared_avoid h.connections
            h.from moments 0 req.to
      done (ok (record { from = req.from; results = results }))
  ]
