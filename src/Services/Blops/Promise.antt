-- ===== src/Services/Blops/Promise.antt =====
-- The staging service as a whole: it always returns, and what each answer means.
use erbridge_palu.Prelude.{
  ℕ, ◌<◌, ◌≡◌, refl, ◌∙◌, ap, inl, inr, Bool, true, false, some, List, [], ◌∷◌, Memᴰ, length,
  get_elem?, get_elem?_lt, Outcome, done, arith, Bool-cases,
}
use erbridge_palu.External.{External}
use erbridge_palu.Error.{AppError, Reply, ok, err}
use erbridge_palu.Dto.{BlopsRouteResponse}
use erbridge_palu.EveScout.{EveScoutSnapshot}
use erbridge_palu.Model.{GraphData, System}
use erbridge_palu.Range.{radius_m2}
use erbridge_palu.Dijkstra.Multi.{SettledTarget}
use erbridge_palu.Dijkstra.Multi.Settled.{Settles}
use erbridge_palu.Routing.{RouteContext, net, shortest_path_multi}
use erbridge_palu.Routing.Paths.{shortest_path_multi-Settles}
use erbridge_palu.Services.Route.{Moment, resolve_system}
use erbridge_palu.Services.Route.Endpoints.{Serves, resolve_system_bound}
use erbridge_palu.Services.Route.Checked.{Reply-cases}
use erbridge_palu.Services.Route.Overlaid.{Fit-IsContext}
use erbridge_palu.Services.Blops.{
  StagingQuery, accepted, staging_context, rank_settled, route_to_candidates, stage,
  compute_staging,
}
use erbridge_palu.Services.Blops.Ranking.{Chooses, rank_settled-Chooses}
use erbridge_palu.Services.Blops.Staged.{
  Candidates, accepted-Candidates, staging_context-Fit, Settles-Sound,
}

-- The items of the kd-tree's queries are systems.
abbrev pub TreeIn : (X : External) → GraphData X → Type 0
TreeIn X graph =
    (q : X.F64 × X.F64 × X.F64) (r : X.F64) (i : ℕ)
    → Memᴰ i (X.within_unsorted graph.spatial_index q r)
    → i < length graph.systems

module _ (X : External) (graph : GraphData X) (serves : Serves X graph) (tree : TreeIn X graph)
    (scout : EveScoutSnapshot X) (query : StagingQuery X) (dest_ok stage_ok : System X → Bool)
    (on_dest_reject : System X → AppError) (moment : Moment X) where
  -- What an answer means for the resolved ends: the target is refused; no candidate is in range;
  -- the overlay has an error; no route leads to a candidate; or a response that chooses among the
  -- candidates that a route leads to.
  pub data Verdict (from to : ℕ) (b_sys : System X) : Reply (BlopsRouteResponse X) → Type 0 where
    refused : dest_ok b_sys ≡ false → Verdict from to b_sys (err (on_dest_reject b_sys))
    none_in_range :
        dest_ok b_sys ≡ true
        → Candidates X graph serves stage_ok to
            (X.within_unsorted graph.spatial_index b_sys.coords (radius_m2 X query.effective_ly))
            []
        → Verdict from to b_sys (err AppError.no_staging_in_range)
    overlay_error :
        {e : AppError}
        → dest_ok b_sys ≡ true
        → staging_context X graph scout query from to moment.now ≡ err e
        → Verdict from to b_sys (err e)
    boxed_in :
        {found : List ℕ} {ctx : RouteContext X}
        → dest_ok b_sys ≡ true
        → Candidates X graph serves stage_ok to
            (X.within_unsorted graph.spatial_index b_sys.coords (radius_m2 X query.effective_ly))
            found
        → staging_context X graph scout query from to moment.now ≡ ok ctx
        → Settles (net X ctx) from found []
        → Verdict from to b_sys (err AppError.staging_unreachable)
    staged :
        {found : List ℕ} {ctx : RouteContext X} {out : List SettledTarget}
        {resp : BlopsRouteResponse X}
        → dest_ok b_sys ≡ true
        → Candidates X graph serves stage_ok to
            (X.within_unsorted graph.spatial_index b_sys.coords (radius_m2 X query.effective_ly))
            found
        → staging_context X graph scout query from to moment.now ≡ ok ctx
        → Settles (net X ctx) from found out
        → Chooses X graph ctx query.effective_ly b_sys out resp
        → Verdict from to b_sys (ok resp)

  module _ (from to : ℕ) (b_sys : System X) where
    Decides : Outcome (Reply (BlopsRouteResponse X)) → Type 0
    Decides o = (r : Reply (BlopsRouteResponse X)) × (o ≡ done r) × Verdict from to b_sys r

    route_bad :
        (c : ℕ) (cs : List ℕ) (e : AppError)
        → staging_context X graph scout query from to moment.now ≡ err e
        → route_to_candidates X graph scout query from to b_sys (c ∷ cs) moment ≡ done (err e)
    unfolding route_to_candidates
    route_bad c cs e h = rw (route_to_candidates, h) refl

    route_good :
        (c : ℕ) (cs : List ℕ) (ctx : RouteContext X) (out : List SettledTarget)
        → staging_context X graph scout query from to moment.now ≡ ok ctx
        → shortest_path_multi X ctx from (c ∷ cs) moment.scratch ≡ done out
        → route_to_candidates X graph scout query from to b_sys (c ∷ cs) moment
          ≡ rank_settled X graph ctx query.effective_ly b_sys out
    unfolding route_to_candidates
    route_good c cs ctx out h e = rw (route_to_candidates, h, e) refl

    route_none :
        route_to_candidates X graph scout query from to b_sys [] moment
        ≡ done (err AppError.no_staging_in_range)
    unfolding route_to_candidates
    route_none = refl

    rank_none :
        (ctx : RouteContext X)
        → rank_settled X graph ctx query.effective_ly b_sys []
          ≡ done (err AppError.staging_unreachable)
    unfolding rank_settled
    rank_none ctx = refl

    module _ (good : dest_ok b_sys ≡ true) (from_in : from < length graph.systems) where
      ranked :
          (found : List ℕ) (ctx : RouteContext X) (out : List SettledTarget)
          → Candidates X graph serves stage_ok to
              (X.within_unsorted graph.spatial_index b_sys.coords (radius_m2 X query.effective_ly))
              found
          → staging_context X graph scout query from to moment.now ≡ ok ctx
          → Settles (net X ctx) from found out
          → Decides (rank_settled X graph ctx query.effective_ly b_sys out)
      unfolding Decides
      ranked found ctx [] c h s =
          (err AppError.staging_unreachable, rank_none ctx, boxed_in good c h s)
      ranked found ctx (t ∷ ts) c h s =
          let (avoid, f) =
            staging_context-Fit X graph serves scout query from to moment.now ctx h in
          let size = ap (λ g. length g.systems) f.graph_is in
          let (resp, e, chosen) = rank_settled-Chooses X graph ctx query.effective_ly b_sys t ts (
            Settles-Sound X graph serves ctx (Fit-IsContext X graph serves ctx f) from
              (omega (arith, size)) f.graph_is found (t ∷ ts) s) in
          (ok resp, e, staged good c h s chosen)

      routed :
          (found : List ℕ)
          → Candidates X graph serves stage_ok to
              (X.within_unsorted graph.spatial_index b_sys.coords (radius_m2 X query.effective_ly))
              found
          → Decides (route_to_candidates X graph scout query from to b_sys found moment)
      unfolding Decides
      routed [] c = (err AppError.no_staging_in_range, route_none, none_in_range good c)
      routed (x ∷ xs) c =
          elim (Reply-cases (staging_context X graph scout query from to moment.now)) [
            | inl (e, bad) ↦ (err e, route_bad x xs e bad, overlay_error good bad)
            | inr (ctx, h) ↦
                let (avoid, f) =
                  staging_context-Fit X graph serves scout query from to moment.now ctx h in
                let size = ap (λ g. length g.systems) f.graph_is in
                let (out, e, s) =
                  shortest_path_multi-Settles X ctx (Fit-IsContext X graph serves ctx f) from
                    (omega (arith, size)) (x ∷ xs) moment.scratch
                    (λ t m. omega (arith, size, c.within t m)) in
                let (r, e', v) = ranked (x ∷ xs) ctx out c h s in
                (r, route_good x xs ctx out h e ∙ e', v)
          ]

    stage_refused :
        get_elem? graph.systems to ≡ some b_sys
        → dest_ok b_sys ≡ false
        → stage X graph scout query dest_ok stage_ok on_dest_reject moment from to
          ≡ done (err (on_dest_reject b_sys))
    unfolding stage
    stage_refused at bad = rw (at, bad) refl

    stage_goes_on :
        (found : List ℕ)
        → get_elem? graph.systems to ≡ some b_sys
        → dest_ok b_sys ≡ true
        → accepted X graph stage_ok to
            (X.within_unsorted graph.spatial_index b_sys.coords (radius_m2 X query.effective_ly))
          ≡ done found
        → stage X graph scout query dest_ok stage_ok on_dest_reject moment from to
          ≡ route_to_candidates X graph scout query from to b_sys found moment
    unfolding stage
    stage_goes_on found at good e = rw (at, good, e) refl

    stage_decides :
        from < length graph.systems
        → get_elem? graph.systems to ≡ some b_sys
        → Decides (stage X graph scout query dest_ok stage_ok on_dest_reject moment from to)
    unfolding Decides
    stage_decides from_in at = elim (Bool-cases (dest_ok b_sys)) [
      | inr bad ↦ (err (on_dest_reject b_sys), stage_refused at bad, refused bad)
      | inl good ↦
          let items =
            X.within_unsorted graph.spatial_index b_sys.coords (radius_m2 X query.effective_ly) in
          let (found, e, c) =
            accepted-Candidates X graph serves stage_ok to items
              (tree b_sys.coords (radius_m2 X query.effective_ly)) in
          let (r, e', v) = routed good from_in found c in (r, stage_goes_on found at good e ∙ e', v)
    ]

  compute_to :
      (from to : ℕ)
      → resolve_system X graph query.from ≡ ok from
      → resolve_system X graph query.to ≡ ok to
      → compute_staging X graph scout query dest_ok stage_ok on_dest_reject moment
        ≡ stage X graph scout query dest_ok stage_ok on_dest_reject moment from to
  unfolding compute_staging
  compute_to from to h h' = rw (compute_staging, h, h') refl

  compute_from_bad :
      (e : AppError)
      → resolve_system X graph query.from ≡ err e
      → compute_staging X graph scout query dest_ok stage_ok on_dest_reject moment ≡ done (err e)
  unfolding compute_staging
  compute_from_bad e h = rw (compute_staging, h) refl

  compute_to_bad :
      (from : ℕ) (e : AppError)
      → resolve_system X graph query.from ≡ ok from
      → resolve_system X graph query.to ≡ err e
      → compute_staging X graph scout query dest_ok stage_ok on_dest_reject moment ≡ done (err e)
  unfolding compute_staging
  compute_to_bad from e h h' = rw (compute_staging, h, h') refl

  -- The answer to a query: the error of the first end that is unknown, or a verdict.
  pub data Answered : Reply (BlopsRouteResponse X) → Type 0 where
    from_unknown : {e : AppError} → resolve_system X graph query.from ≡ err e → Answered (err e)
    to_unknown :
        {from : ℕ} {e : AppError}
        → resolve_system X graph query.from ≡ ok from
        → resolve_system X graph query.to ≡ err e
        → Answered (err e)
    decided :
        {from to : ℕ} {b_sys : System X} {r : Reply (BlopsRouteResponse X)}
        → resolve_system X graph query.from ≡ ok from
        → resolve_system X graph query.to ≡ ok to
        → get_elem? graph.systems to ≡ some b_sys
        → Verdict from to b_sys r
        → Answered r

  -- Over graph data whose lookups, gates and kd-tree are in range, the service always returns, and
  -- its answer has a reason: an end is unknown; the target is refused; no system other than the
  -- target is in range and accepted; the overlay has an error; no route leads to a candidate; or the
  -- response chooses, among all candidates that a route leads to, one with the fewest jumps on the
  -- cheapest routes.
  pub compute_staging_answers :
      (r : Reply (BlopsRouteResponse X)) × (compute_staging X graph scout query dest_ok stage_ok
          on_dest_reject moment
        ≡ done r)
      × Answered r
  unfolding Decides
  compute_staging_answers = elim (Reply-cases (resolve_system X graph query.from)) [
    | inl (e, bad) ↦ (err e, compute_from_bad e bad, from_unknown bad)
    | inr (from, h) ↦ elim (Reply-cases (resolve_system X graph query.to)) [
      | inl (e, bad) ↦ (err e, compute_to_bad from e h bad, to_unknown h bad)
      | inr (to, h') ↦
          let (b_sys, at) =
            get_elem?_lt graph.systems to (resolve_system_bound X graph serves query.to to h') in
          let (r, e, v) =
            stage_decides from to b_sys (resolve_system_bound X graph serves query.from from h)
              at in
          (r, compute_to from to h h' ∙ e, decided h h' at v)
    ]
  ]
