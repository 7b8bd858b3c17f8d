-- ===== src/Services/Route/Steps.antt =====
-- `build_steps`: one step for each node of the path, the first labelled as the start, and each
-- other one with the way that leads to it from the node before.
use erbridge_palu.Prelude.{
  ℕ, zero, suc, ◌<◌, ◌≡◌, refl, sym, ap, subst, true, false, inl, inr, Option, none, some, List, [],
  ◌∷◌, Memᴰ, length, get_elem?, get_elem?_lt, Bool-cases, Option-cases, Text, text_of, done,
}
use mathlib.Core.Option.{some-injective}
use erbridge_palu.External.{External}
use erbridge_palu.Model.{GraphData, System, SecClass, label}
use erbridge_palu.Dto.{RouteStep}
use erbridge_palu.Routing.{
  RouteContext, EdgeKind, has_gate_edge, overlay_edge_kind, step_via, via_label,
}
use erbridge_palu.Services.Route.{step_of, via_of, steps_from, build_steps}

-- How the API names the classes of security.
pub data Named : SecClass → Text → Type 0 where
  high : Named SecClass.highsec (text_of "Highsec")
  low : Named SecClass.lowsec (text_of "Lowsec")
  null : Named SecClass.nullsec (text_of "Nullsec")
  space : Named SecClass.wormhole (text_of "Wormhole")

label-Named : (c : SecClass) → Named c (label c)
unfolding label
label-Named SecClass.highsec = high
label-Named SecClass.lowsec = low
label-Named SecClass.nullsec = null
label-Named SecClass.wormhole = space

module _ (X : External) where
  -- The step shows the system.
  pub record Shows (s : System X) (step : RouteStep X) : Type 0 where
    pub system : step.system ≡ s.name
    pub system_id : step.system_id ≡ s.id
    pub security : step.security ≡ s.security
    pub sec_class : Named s.sec_class step.sec_class

  step_of-Shows : (s : System X) (via : Text) → Shows s (step_of X s via)
  unfolding step_of
  step_of-Shows s via = record {
    system = refl;
    system_id = refl;
    security = refl;
    sec_class = label-Named s.sec_class;
  }

  step_of-via : (s : System X) (via : Text) → (step_of X s via).via ≡ via
  unfolding step_of
  step_of-via s via = refl

module _ (X : External) (graph : GraphData X) (ctx : RouteContext X) where
  -- The way from a node to the next: a gate, whatever the overlay; without one, the connection by its
  -- kind; and a pair that nothing joins passes for a gate.
  pub data Way (a b : ℕ) : Text → Type 0 where
    gate : X.contains_edge ctx.graph.gate_graph a b ≡ true → Way a b (text_of "stargate")
    hole :
        X.contains_edge ctx.graph.gate_graph a b ≡ false
        → overlay_edge_kind X ctx a b ≡ some EdgeKind.wormhole
        → Way a b (text_of "wormhole")
    bridged :
        X.contains_edge ctx.graph.gate_graph a b ≡ false
        → overlay_edge_kind X ctx a b ≡ some EdgeKind.bridge
        → Way a b (text_of "bridge")
    unjoined :
        X.contains_edge ctx.graph.gate_graph a b ≡ false
        → overlay_edge_kind X ctx a b ≡ none
        → Way a b (text_of "stargate")

  step_via-Way : (a b : ℕ) → Way a b (step_via X ctx a b)
  unfolding step_via has_gate_edge via_label
  step_via-Way a b = elim (Bool-cases (X.contains_edge ctx.graph.gate_graph a b)) [
    | inl there ↦ rw (step_via, there) (gate there)
    | inr apart ↦ elim (Option-cases (overlay_edge_kind X ctx a b)) [
      | inl out ↦ rw (step_via, apart, out) (unjoined apart out)
      | inr (EdgeKind.wormhole, at) ↦ rw (step_via, apart, at) (hole apart at)
      | inr (EdgeKind.bridge, at) ↦ rw (step_via, apart, at) (bridged apart at)
    ]
  ]

  -- One step for each node of the path, that shows its system; the first is labelled as the start,
  -- and each other one with the way from the node before.
  pub record Labelled (path : List ℕ) (steps : List (RouteStep X)) : Type 0 where
    pub count : length steps ≡ length path
    pub shown :
        (i v : ℕ) (step : RouteStep X)
        → get_elem? path i ≡ some v
        → get_elem? steps i ≡ some step
        → (s : System X) × (get_elem? graph.systems v ≡ some s) × Shows X s step
    pub start : (step : RouteStep X) → get_elem? steps 0 ≡ some step → step.via ≡ text_of "start"
    pub via :
        (i a b : ℕ) (step : RouteStep X)
        → get_elem? path i ≡ some a
        → get_elem? path (suc i) ≡ some b
        → get_elem? steps (suc i) ≡ some step
        → Way a b step.via

  -- The same along the loop, where `before` is the node before, if any.
  data Along : Option ℕ → List ℕ → List (RouteStep X) → Type 0 where
    nothing : {before : Option ℕ} → Along before [] []
    next :
        {before : Option ℕ} {v : ℕ} {vs : List ℕ} {s : System X} {steps : List (RouteStep X)}
        → get_elem? graph.systems v ≡ some s
        → Along (some v) vs steps
        → Along before (v ∷ vs) (step_of X s (via_of X ctx before v) ∷ steps)

  length-Along :
      {before : Option ℕ} {vs : List ℕ} {steps : List (RouteStep X)}
      → Along before vs steps
      → length steps ≡ length vs
  length-Along nothing = refl
  length-Along (next at rest) = ap suc (length-Along rest)

  Along-shown :
      {before : Option ℕ} {vs : List ℕ} {steps : List (RouteStep X)}
      → Along before vs steps
      → (i v : ℕ) (step : RouteStep X) → get_elem? vs i ≡ some v
      → get_elem? steps i ≡ some step
      → (s : System X) × (get_elem? graph.systems v ≡ some s) × Shows X s step
  Along-shown nothing i v step e e' = cc
  Along-shown {before} (next {v = u} {s} at rest) zero v step e e' =
      let here : u ≡ v = some-injective u v e in
      let is = some-injective (step_of X s (via_of X ctx before u)) step e' in
      (
        s,
        subst (λ x. get_elem? graph.systems x ≡ some s) here at,
        subst (Shows X s) is (step_of-Shows X s (via_of X ctx before u)),
      )
  Along-shown (next at rest) (suc i) v step e e' = Along-shown rest i v step e e'

  Along-first :
      {a b : ℕ} {vs : List ℕ} {steps : List (RouteStep X)} (step : RouteStep X)
      → Along (some a) (b ∷ vs) steps
      → get_elem? steps 0 ≡ some step
      → Way a b step.via
  unfolding via_of
  Along-first {a} {b} step (next {s} at rest) e =
      let is = some-injective (step_of X s (step_via X ctx a b)) step e in
      subst (λ x. Way a b x.via) is
        (subst (Way a b) (sym (step_of-via X s (step_via X ctx a b))) (step_via-Way a b))

  Along-via :
      {before : Option ℕ} {vs : List ℕ} {steps : List (RouteStep X)}
      → Along before vs steps
      → (i a b : ℕ) (step : RouteStep X) → get_elem? vs i ≡ some a
      → get_elem? vs (suc i) ≡ some b
      → get_elem? steps (suc i) ≡ some step
      → Way a b step.via
  Along-via nothing i a b step e e' e'' = cc
  Along-via (next at nothing) zero a b step e e' e'' = cc
  Along-via (next {v = u} at (next {v = w} at' rest)) zero a b step e e' e'' =
      let here : u ≡ a = some-injective u a e in
      let there : w ≡ b = some-injective w b e' in
      subst (λ x. Way x b step.via) here
        (subst (λ y. Way u y step.via) there (Along-first step (next at' rest) e''))
  Along-via (next at rest) (suc i) a b step e e' e'' = Along-via rest i a b step e e' e''

  Along-start :
      {vs : List ℕ} {steps : List (RouteStep X)}
      → Along none vs steps
      → (step : RouteStep X) → get_elem? steps 0 ≡ some step
      → step.via ≡ text_of "start"
  unfolding via_of
  Along-start nothing step e = cc
  Along-start (next {s} at rest) step e =
      let is = some-injective (step_of X s (text_of "start")) step e in
      subst (λ x. x.via ≡ text_of "start") is (step_of-via X s (text_of "start"))

  steps_next :
      (before : Option ℕ) (v : ℕ) (vs : List ℕ) (s : System X) (rest : List (RouteStep X))
      → get_elem? graph.systems v ≡ some s
      → steps_from X graph ctx (some v) vs ≡ done rest
      → steps_from X graph ctx before (v ∷ vs) ≡ done (step_of X s (via_of X ctx before v) ∷ rest)
  unfolding steps_from
  steps_next before v vs s rest at e = rw (at, e) refl

  steps_from-Along :
      (before : Option ℕ) (vs : List ℕ)
      → ((x : ℕ) → Memᴰ x vs → x < length graph.systems)
      → (steps : List (RouteStep X)) × (steps_from X graph ctx before vs ≡ done steps)
        × Along before vs steps
  unfolding steps_from
  steps_from-Along before [] within = ([], refl, nothing)
  steps_from-Along before (v ∷ vs) within =
      let (s, at) = get_elem?_lt graph.systems v (within v (Memᴰ.head refl)) in
      let (rest, e, good) = steps_from-Along (some v) vs (λ x m. within x (Memᴰ.tail m)) in
      (step_of X s (via_of X ctx before v) ∷ rest, steps_next before v vs s rest at e, next at good)

  -- A path over systems gets one step for each node, which shows its system: the first is labelled as
  -- the start, and each other one with the way from the node before it, where a gate comes before a
  -- connection. No step panics.
  pub build_steps-Labelled :
      (path : List ℕ)
      → ((x : ℕ) → Memᴰ x path → x < length graph.systems)
      → (steps : List (RouteStep X)) × (build_steps X graph ctx path ≡ done steps)
        × Labelled path steps
  unfolding build_steps
  build_steps-Labelled path within =
      let (steps, e, along) = steps_from-Along none path within in
      (
        steps,
        e,
        record {
          count = length-Along along;
          shown = Along-shown along;
          start = Along-start along;
          via = Along-via along;
        },
      )
