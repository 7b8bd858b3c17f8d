-- ===== src/Services/Blops.antt =====
-- src/services/blops.rs: the staging search.
pub mod Ranking
pub mod Order
pub mod Staged
pub mod Promise
use Prim.Native.Nat.{Ordering}
use erbridge_palu.Prelude.{
  ℕ, Bool, true, false, List, [], ◌∷◌, take, tail, nat_beq, index, nat_eq, if◌then◌else◌, Outcome,
  done, ◌>>=◌,
}
use erbridge_palu.Prelude.HashSet
use erbridge_palu.Prelude.HashSet.{HashSet}
use erbridge_palu.Prelude.Sorting.{sort_by, nat_cmp, then_with, or_equal}
use erbridge_palu.External.{External}
use erbridge_palu.Error.{AppError, Reply, ok, err, traverse}
use erbridge_palu.Dto.{SystemRef, BlopsSystem, BlopsCandidate, BlopsRouteResponse}
use erbridge_palu.EveScout.{EveScoutSnapshot}
use erbridge_palu.Model.{GraphData, System, label}
use erbridge_palu.Range.{radius_m2, ly_between, round2}
use erbridge_palu.Dijkstra.Multi.{SettledTarget}
use erbridge_palu.Routing.{Preference, RouteContext, new, shortest_path_multi}
use erbridge_palu.Services.Route.{
  OverlayInputs, Moment, resolve_system, assemble_avoid_set, apply_overlay, build_steps,
}

abbrev pub max_alternates : ℕ
max_alternates = 5

module _ (X : External) where
  open X use {F64}

  pub record StagingQuery : Type 0 where
    pub from : SystemRef
    pub to : SystemRef
    pub effective_ly : F64
    pub overlay : OverlayInputs
    pub preference : Preference

  unfoldable pub blops_system : System X → BlopsSystem X
  unfolding label
  blops_system s = record {
    system = s.name;
    system_id = s.id;
    security = s.security;
    sec_class = label s.sec_class;
  }

  module _ (graph : GraphData X) where
    -- The items of the query around the target, without the target and what `stage_ok` refuses.
    unfoldable pub accepted : (System X → Bool) → ℕ → List ℕ → Outcome (List ℕ)
    accepted stage_ok to [] = done []
    accepted stage_ok to (item ∷ items) = do
      rest ← accepted stage_ok to items
      if nat_beq item to
          then done rest
          else (index graph.systems item >>= λ s. done (if stage_ok s then item ∷ rest else rest))

    -- A settled target with its distance to B, which the sort reads.
    abbrev pub Ranked : Type 0
    Ranked = SettledTarget × F64

    unfoldable pub with_ly : F64 × F64 × F64 → SettledTarget → Outcome Ranked
    unfolding ly_between
    with_ly b_coords t = do s ← index graph.systems t.node; done (t, ly_between X s.coords b_coords)

    -- The comparison that ranks the targets.
    unfoldable pub ranking : Ranked → Ranked → Ordering
    unfolding nat_cmp then_with or_equal
    ranking a b = then_with (nat_cmp a.0.jumps b.0.jumps) (or_equal (X.partial_cmp a.1 b.1))

    unfoldable pub candidate : Ranked → Outcome (BlopsCandidate X)
    unfolding blops_system round2
    candidate r = do
      s ← index graph.systems r.0.node
      done (record { system = blops_system s; gate_jumps = r.0.jumps; ly_to_b = round2 X r.1 })

    -- The ranked targets after the first, unless the first is no jump away.
    unfoldable pub fallbacks : List Ranked → Ranked → List Ranked
    fallbacks ranked star = if nat_beq star.0.jumps 0 then [] else take max_alternates (tail ranked)

    -- Steps 6 and 7, on the ranked targets.
    unfoldable pub respond :
        RouteContext X → F64 → System X → List Ranked → Outcome (BlopsRouteResponse X)
    unfolding build_steps fallbacks candidate blops_system round2
    respond ctx effective_ly b_sys ranked = do
      star ← index ranked 0
      gate_path ← build_steps X graph ctx star.0.path
      star_sys ← index graph.systems star.0.node
      alternates ← traverse candidate (fallbacks ranked star)
      done (record {
        jdc_level = 0;
        effective_ly = effective_ly;
        defaulted = false;
        chosen = record {
          gate_jumps = star.0.jumps;
          gate_path = gate_path;
          bridge = record {
            from = blops_system star_sys;
            to = blops_system b_sys;
            jump_ly = round2 X star.1;
            in_range = true;
          };
        };
        alternates = alternates;
      })

    -- The context of the search, or the first error of the overlay's parts.
    unfoldable pub staging_context :
        EveScoutSnapshot X → StagingQuery → ℕ → ℕ → X.DateTime → Reply (RouteContext X)
    unfolding assemble_avoid_set apply_overlay
    staging_context scout query from to now = elim (assemble_avoid_set X graph query.overlay) [
      | err e ↦ err e
      | ok avoid ↦
          apply_overlay X graph scout query.overlay (from ∷ to ∷ []) now
            (new X graph (HashSet.remove from avoid) query.preference)
    ]

    -- From step 5 on, on what the search settled.
    unfoldable pub rank_settled :
        RouteContext X
        → F64
        → System X
        → List SettledTarget
        → Outcome (Reply (BlopsRouteResponse X))
    unfolding with_ly ranking sort_by respond
    rank_settled ctx effective_ly b_sys [] = done (err AppError.staging_unreachable)
    rank_settled ctx effective_ly b_sys (t ∷ ts) = do
      ranked ← traverse (with_ly b_sys.coords) (t ∷ ts)
      response ← respond ctx effective_ly b_sys (sort_by ranking ranked)
      done (ok response)

    -- Steps 3 and 4, on the candidates.
    unfoldable pub route_to_candidates :
        EveScoutSnapshot X
        → StagingQuery
        → ℕ
        → ℕ
        → System X
        → List ℕ
        → Moment X
        → Outcome (Reply (BlopsRouteResponse X))
    unfolding staging_context shortest_path_multi rank_settled
    route_to_candidates scout query from to b_sys [] moment =
        done (err AppError.no_staging_in_range)
    route_to_candidates scout query from to b_sys (c ∷ cs) moment =
        elim (staging_context scout query from to moment.now) [
          | err e ↦ done (err e)
          | ok ctx ↦ shortest_path_multi X ctx from (c ∷ cs) moment.scratch >>= λ settled.
              rank_settled ctx query.effective_ly b_sys settled
        ]

    -- Steps 1 and 2, on the resolved ends.
    unfoldable pub stage :
        EveScoutSnapshot X
        → StagingQuery
        → (System X → Bool)
        → (System X → Bool)
        → (System X → AppError)
        → Moment X
        → ℕ
        → ℕ
        → Outcome (Reply (BlopsRouteResponse X))
    unfolding accepted radius_m2 route_to_candidates
    stage scout query dest_ok stage_ok on_dest_reject moment from to = do
      b_sys ← index graph.systems to
      let in_range =
          X.within_unsorted graph.spatial_index b_sys.coords (radius_m2 X query.effective_ly)
      if dest_ok b_sys
          then (accepted stage_ok to in_range >>= λ candidates.
              route_to_candidates scout query from to b_sys candidates moment)
          else done (err (on_dest_reject b_sys))

    unfoldable pub compute_staging :
        EveScoutSnapshot X
        → StagingQuery
        → (System X → Bool)
        → (System X → Bool)
        → (System X → AppError)
        → Moment X
        → Outcome (Reply (BlopsRouteResponse X))
    unfolding resolve_system stage
    compute_staging scout query dest_ok stage_ok on_dest_reject moment =
        elim (resolve_system X graph query.from) [
          | err e ↦ done (err e)
          | ok from ↦ elim (resolve_system X graph query.to) [
            | err e ↦ done (err e)
            | ok to ↦ stage scout query dest_ok stage_ok on_dest_reject moment from to
          ]
        ]
