-- ===== src/Services/Route/Fanout.antt =====
-- What `compute_gate_route` promises: the request's own error, or one answer for each destination.
use erbridge_palu.Prelude.{
  ℕ, suc, ◌-◌, ◌<◌, ◌≡◌, refl, ◌∙◌, ap, subst, ◌⊎◌, inl, inr, Option, none, some, List, [], ◌∷◌,
  Memᴰ, length, All, nat_eq, arith, done,
}
use mathlib.Core.List.Memᴰ
use erbridge_palu.Prelude.HashSet
use erbridge_palu.Prelude.HashSet.{HashSet}
use erbridge_palu.External.{External}
use erbridge_palu.Error.{AppError, Reply, ok, err, code_message}
use erbridge_palu.Dto.{
  SystemRef, preference_of, GateRouteRequest, GateRouteOutcome, route, failure, GateRouteResult,
  RouteStep,
}
use erbridge_palu.EveScout.{EveScoutSnapshot}
use erbridge_palu.Model.{GraphData}
use erbridge_palu.Dijkstra.Single.{IsCheapest}
use erbridge_palu.Routing.{Preference, RouteContext, net, shortest_path}
use erbridge_palu.Routing.Weights.{Route-within, reverse_aux-forall}
use erbridge_palu.Routing.Paths.{shortest_path-IsCheapest}
use erbridge_palu.Services.Route.{
  OverlayInputs, inputs_of, Link, Moment, resolve_system, build_steps,
}
use erbridge_palu.Services.Route.Compute.{
  context_for, answer, compute_one, slot_of, results_from, Header, header, compute_gate_route,
}
use erbridge_palu.Services.Route.Endpoints.{Serves}
use erbridge_palu.Services.Route.Overlaid.{
  Fit, Fit-IsContext, new-Fit, LinkIn, add_overlay_connections-Fit, apply_scout_overlay-Fit,
}
use erbridge_palu.Services.Route.Checked.{Reply-cases, Checks, header-Checks}
use erbridge_palu.Services.Route.Steps.{Labelled, build_steps-Labelled}

module _ (X : External) (graph : GraphData X) (serves : Serves X graph)
    (scout : EveScoutSnapshot X) where
  module _ (inputs : OverlayInputs) (pref : Preference) (shared : HashSet ℕ) (links : List Link)
      (from : ℕ) (from_in : from < length graph.systems)
      (links_in : All (LinkIn X graph serves) links) where
    pub context_for-Fit :
        (to : ℕ) (now : X.DateTime)
        → Fit X graph serves
            (HashSet.remove to shared)
            pref
            (context_for X graph scout inputs pref shared links from to now)
    unfolding context_for
    context_for-Fit to now =
        apply_scout_overlay-Fit X graph serves scout inputs (from ∷ to ∷ []) now _ (
          add_overlay_connections-Fit X graph serves inputs links _ links_in
            (new-Fit X graph serves))

    -- What a destination's slot holds: why it could not be resolved, that no route leads to it, or
    -- a cheapest route with its labelled steps and its number of jumps.
    pub data Answer (moment : Moment X) (to_ref : SystemRef) : GateRouteOutcome X → Type 0 where
      unresolved :
          {e : AppError}
          → resolve_system X graph to_ref ≡ err e
          → Answer moment to_ref (failure (code_message e).0 (code_message e).1)
      no_way :
          {to : ℕ}
          → resolve_system X graph to_ref ≡ ok to
          → IsCheapest
              (net X (context_for X graph scout inputs pref shared links from to moment.now))
              from
              to
              none
          → Answer moment to_ref
              (failure (code_message AppError.unreachable).0 (code_message AppError.unreachable).1)
      way :
          {to : ℕ} {path : List ℕ} {steps : List (RouteStep X)}
          → resolve_system X graph to_ref ≡ ok to
          → IsCheapest
              (net X (context_for X graph scout inputs pref shared links from to moment.now))
              from
              to
              (some path)
          → Labelled X graph
              (context_for X graph scout inputs pref shared links from to moment.now)
              path
              steps
          → Answer moment to_ref (route (length path - 1) steps)

    -- One slot for each destination, in the order of the request.
    pub data Answers (moments : ℕ → Moment X)
        : ℕ → List SystemRef → List (GateRouteResult X) → Type 0 where
      nothing : {i : ℕ} → Answers moments i [] []
      slot :
          {i : ℕ} {to_ref : SystemRef} {refs : List SystemRef} {outcome : GateRouteOutcome X}
          {results : List (GateRouteResult X)}
          → Answer (moments i) to_ref outcome
          → Answers moments (suc i) refs results
          → Answers moments i (to_ref ∷ refs) (record { to = to_ref; outcome = outcome } ∷ results)

    answer_way :
        (ctx : RouteContext X) (path : List ℕ) (steps : List (RouteStep X))
        → build_steps X graph ctx path ≡ done steps
        → answer X graph scout ctx (some path) ≡ done (ok (route (length path - 1) steps))
    unfolding answer
    answer_way ctx path steps e = rw e refl

    answer-none :
        (ctx : RouteContext X) → answer X graph scout ctx none ≡ done (err AppError.unreachable)
    unfolding answer
    answer-none ctx = refl

    one_unresolved :
        (to_ref : SystemRef) (m : Moment X) (e : AppError)
        → resolve_system X graph to_ref ≡ err e
        → compute_one X graph scout inputs pref shared links from to_ref m ≡ done (err e)
    unfolding compute_one
    one_unresolved to_ref m e bad = rw (compute_one, bad) refl

    one_found :
        (to_ref : SystemRef) (m : Moment X) (to : ℕ) (r : Option (List ℕ))
        → resolve_system X graph to_ref ≡ ok to
        → shortest_path X
            (context_for X graph scout inputs pref shared links from to m.now)
            from
            to
            m.scratch
          ≡ done r
        → compute_one X graph scout inputs pref shared links from to_ref m
          ≡ answer X graph scout
              (context_for X graph scout inputs pref shared links from to m.now)
              r
    unfolding compute_one
    one_found to_ref m to r good e = rw (compute_one, good, e) refl

    path_in :
        (to : ℕ) (now : X.DateTime) (path : List ℕ)
        → IsCheapest
            (net X (context_for X graph scout inputs pref shared links from to now))
            from
            to
            (some path)
        → (x : ℕ) → Memᴰ x path
        → x < length graph.systems
    path_in to now path (nodes, c, r, e, best) x m =
        let ctx = context_for X graph scout inputs pref shared links from to now in
        let f = context_for-Fit to now in
        let size = ap (λ g. length g.systems) f.graph_is in
        let within =
          Route-within X ctx (Fit-IsContext X graph serves ctx f) from (omega (arith, size)) to c
            nodes r in
        omega (
          arith,
          size,
          reverse_aux-forall (λ y. y < length ctx.graph.systems) nodes [] within
              (λ y m'. absurd (Memᴰ.not-nil m')) x (subst (Memᴰ x) e m),
        )

    one_answers :
        (to_ref : SystemRef) (m : Moment X)
        → (r : Reply (GateRouteOutcome X)) × (compute_one X graph scout inputs pref shared links
              from to_ref m
            ≡ done r)
          × Answer m to_ref (slot_of X graph scout r)
    unfolding slot_of
    one_answers to_ref m = elim (Reply-cases (resolve_system X graph to_ref)) [
      | inl (e, bad) ↦ (err e, one_unresolved to_ref m e bad, unresolved bad)
      | inr (to, good) ↦
          let ctx = context_for X graph scout inputs pref shared links from to m.now in
          let f = context_for-Fit to m.now in
          let size = ap (λ g. length g.systems) f.graph_is in
          let (r, e, best) =
            shortest_path-IsCheapest X ctx (Fit-IsContext X graph serves ctx f) from
              (omega (arith, size)) to m.scratch in
          found to r good e best
    ]
      where
        found :
            (to : ℕ) (r : Option (List ℕ))
            → resolve_system X graph to_ref ≡ ok to
            → shortest_path X
                (context_for X graph scout inputs pref shared links from to m.now)
                from
                to
                m.scratch
              ≡ done r
            → IsCheapest
                (net X (context_for X graph scout inputs pref shared links from to m.now))
                from
                to
                r
            → (r : Reply (GateRouteOutcome X)) × (compute_one X graph scout inputs pref shared links
                  from to_ref m
                ≡ done r)
              × Answer m to_ref (slot_of X graph scout r)
        found to none good e best = (
          err AppError.unreachable,
          one_found to_ref m to none good e
              ∙ answer-none (context_for X graph scout inputs pref shared links from to m.now),
          no_way good best,
        )
        found to (some path) good e best =
            let ctx = context_for X graph scout inputs pref shared links from to m.now in
            let (steps, built, labels) =
              build_steps-Labelled X graph ctx path (path_in to m.now path best) in
            (
              ok (route (length path - 1) steps),
              one_found to_ref m to (some path) good e ∙ answer_way ctx path steps built,
              way good best labels,
            )

    results_next :
        (moments : ℕ → Moment X) (i : ℕ) (to_ref : SystemRef) (refs : List SystemRef)
        (r : Reply (GateRouteOutcome X)) (rest : List (GateRouteResult X))
        → compute_one X graph scout inputs pref shared links from to_ref (moments i) ≡ done r
        → results_from X graph scout inputs pref shared links from moments (suc i) refs ≡ done rest
        → results_from X graph scout inputs pref shared links from moments i (to_ref ∷ refs)
          ≡ done (record { to = to_ref; outcome = slot_of X graph scout r } ∷ rest)
    unfolding results_from
    results_next moments i to_ref refs r rest e e' = rw (e, e') refl

    pub results_from-Answers :
        (moments : ℕ → Moment X) (i : ℕ) (refs : List SystemRef)
        → (results : List (GateRouteResult X)) × (results_from X graph scout inputs pref shared
              links from moments i refs
            ≡ done results)
          × Answers moments i refs results
    unfolding results_from
    results_from-Answers moments i [] = ([], refl, nothing)
    results_from-Answers moments i (to_ref ∷ refs) =
        let (r, e, good) = one_answers to_ref (moments i) in
        let (rest, e', others) = results_from-Answers moments (suc i) refs in
        (
          record { to = to_ref; outcome = slot_of X graph scout r } ∷ rest,
          results_next moments i to_ref refs r rest e e',
          slot good others,
        )

  rejected :
      (req : GateRouteRequest) (moments : ℕ → Moment X) (e : AppError)
      → header X graph scout req ≡ err e
      → compute_gate_route X graph scout req moments ≡ done (err e)
  unfolding compute_gate_route
  rejected req moments e bad = rw (compute_gate_route, bad) refl

  admitted :
      (req : GateRouteRequest) (moments : ℕ → Moment X) (h : Header X graph scout)
      (results : List (GateRouteResult X))
      → header X graph scout req ≡ ok h
      → results_from X graph scout
          (inputs_of req)
          (preference_of req.preference)
          h.shared_avoid
          h.connections
          h.from
          moments
          0
          req.to
        ≡ done results
      → compute_gate_route X graph scout req moments
        ≡ done (ok (record { from = req.from; results = results }))
  unfolding compute_gate_route
  admitted req moments h results good e = rw (compute_gate_route, good, e) refl

  -- The error of the header; or a slot for each destination.
  abbrev pub Promised : GateRouteRequest → (ℕ → Moment X) → Type 0
  Promised req moments =
      ((e : AppError) × (header X graph scout req ≡ err e)
        × (compute_gate_route X graph scout req moments ≡ done (err e)))
      ⊎ ((h : Header X graph scout) × (c : Checks X graph serves scout req h) × (results : List
            (GateRouteResult X))
          × (header X graph scout req ≡ ok h)
          × (compute_gate_route X graph scout req moments
              ≡ done (ok (record { from = req.from; results = results })))
          × Answers (inputs_of req) (preference_of req.preference) h.shared_avoid h.connections
              h.from c.from_in c.links_in moments 0 req.to results)

  -- Over graph data whose lookups and gates are in range, the service always returns: the error of
  -- the header, where it has one; and otherwise one slot for each destination, in the order of the
  -- request. A slot says that the destination is unknown, or that no route leads to it, or it holds
  -- a cheapest route with its labelled steps and its number of jumps.
  pub compute_gate_route_answers :
      (req : GateRouteRequest) (moments : ℕ → Moment X) → Promised req moments
  compute_gate_route_answers req moments = elim (Reply-cases (header X graph scout req)) [
    | inl (e, bad) ↦ inl (e, bad, rejected req moments e bad)
    | inr (h, good) ↦
        let c = header-Checks X graph serves scout req h good in
        let (results, e, answers) =
          results_from-Answers (inputs_of req) (preference_of req.preference) h.shared_avoid
            h.connections h.from c.from_in c.links_in moments 0 req.to in
        inr (h, c, results, good, admitted req moments h results good e, answers)
  ]
