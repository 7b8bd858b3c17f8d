-- ===== src/Routing/Preferences.antt =====
-- What the preferences `safest` and `prefer_gates` promise of the path that the search returns.
use erbridge_palu.Prelude.{
  ℕ, ◌+◌, ◌*◌, ◌-◌, ◌≤◌, ◌<◌, ◌≡◌, refl, ◌∙◌, ap, inl, inr, not, ◌&&◌, Option, none, some, List, [],
  ◌∷◌, length, get_elem?, reverse, arith, Bool-cases, if◌then◌else◌, done,
}
use mathlib.Core.List.{reverse_aux}
use erbridge_palu.External.{External}
use erbridge_palu.Model.{SecClass, is_highsec}
use erbridge_palu.F32.{significand_end}
use erbridge_palu.Dijkstra.{DijkstraScratch}
use erbridge_palu.Dijkstra.Routes.{Route, here, step}
use erbridge_palu.Dijkstra.Single.{IsCheapest, OnRoute}
use erbridge_palu.Routing.{
  RouteContext, Preference, edge_weight, net, security_penalty, wormhole_penalty, is_overlay_edge,
  has_gate_edge, shortest_path,
}
use erbridge_palu.Routing.Weights.{IsContext, length-reverse}
use erbridge_palu.Routing.Prices.{total, total_step, weight_exact, Route-price, cheapest-total}
use erbridge_palu.Routing.Paths.{shortest_path-IsCheapest}

module _ (X : External) (ctx : RouteContext X) where
  -- 1 for a system that is not of high security.
  abbrev pub risk : ℕ → ℕ
  risk v = elim (get_elem? ctx.graph.systems v) [
    | none ↦ 0
    | some s ↦ if is_highsec s.sec_class then 0 else 1
  ]

  -- How many of the nodes are not of high security.
  abbrev pub exposed : List ℕ → ℕ
  exposed [] = 0
  exposed (v ∷ vs) = risk v + exposed vs

  -- 1 for a step over the overlay that no gate joins.
  abbrev pub crossing : ℕ → ℕ → ℕ
  crossing u v = if is_overlay_edge X ctx u v && not (has_gate_edge X ctx u v) then 1 else 0

  exposed-reverse_aux : (xs ys : List ℕ) → exposed (reverse_aux xs ys) ≡ exposed xs + exposed ys
  exposed-reverse_aux [] ys = omega arith
  exposed-reverse_aux (x ∷ xs) ys = omega (arith, exposed-reverse_aux xs (x ∷ ys))

  exposed-reverse : (xs : List ℕ) → exposed (reverse xs) ≡ exposed xs
  exposed-reverse xs = omega (arith, exposed-reverse_aux xs [])

  risk_le : (v : ℕ) → risk v ≤ 1
  risk_le v = ground arith

  exposed-le-length : (vs : List ℕ) → exposed vs ≤ length vs
  exposed-le-length [] = omega arith
  exposed-le-length (v ∷ vs) = omega (arith, risk_le v, exposed-le-length vs)

  length_pos : (from v c : ℕ) (nodes : List ℕ) → Route (net X ctx) from v nodes c → 0 < length nodes
  length_pos from v c nodes here = omega arith
  length_pos from v c nodes (step r e) = omega arith

  module _ (pref : ctx.preference ≡ Preference.safest) where
    safest_security :
        (c : SecClass) → security_penalty X ctx c ≡ 10000 * (if is_highsec c then 0 else 1)
    unfolding security_penalty
    safest_security c =
        rw (security_penalty, pref)
          (elim (Bool-cases (is_highsec c)) [
            | inl e ↦ rw e (omega arith)
            | inr e ↦ rw e (omega arith)
          ])

    safest_wormhole : (u v : ℕ) → wormhole_penalty X ctx u v ≡ 0
    unfolding wormhole_penalty
    safest_wormhole u v = rw (wormhole_penalty, pref) refl

    safest_weight : (u v w : ℕ) → edge_weight X ctx u v ≡ some w → w ≡ 1 + 10000 * risk v
    safest_weight u v w e =
        let (s, at, is, _) = weight_exact X ctx u v w e in
        rw (risk, at) (omega (arith, is, safest_security s.sec_class, safest_wormhole u v))

    -- Jumps and exposed nodes, the source taken on both sides.
    safest_total :
        (from v c : ℕ) (nodes : List ℕ)
        → Route (net X ctx) from v nodes c
        → total (λ u v. 1 + 10000 * risk v) nodes + 10000 * risk from
          ≡ (length nodes - 1) + 10000 * exposed nodes
    safest_total from v c nodes here = omega arith
    safest_total from v c nodes (step {u} {w = w} {c = c'} {nodes = before} r _) = omega (
      arith,
      total_step X ctx from u v c' w before (λ u v. 1 + 10000 * risk v) r,
      safest_total from u c' before r,
      length_pos from u c' before r,
    )

  module _ (pref : ctx.preference ≡ Preference.prefer_gates) where
    gates_security : (c : SecClass) → security_penalty X ctx c ≡ 0
    unfolding security_penalty
    gates_security c = rw (security_penalty, pref) refl

    gates_wormhole : (u v : ℕ) → wormhole_penalty X ctx u v ≡ 2 * crossing u v
    unfolding wormhole_penalty
    gates_wormhole u v =
        rw (wormhole_penalty, pref)
          (elim (Bool-cases (is_overlay_edge X ctx u v && not (has_gate_edge X ctx u v))) [
            | inl e ↦ rw e (omega arith)
            | inr e ↦ rw e (omega arith)
          ])

    gates_weight : (u v w : ℕ) → edge_weight X ctx u v ≡ some w → w ≡ 1 + 2 * crossing u v
    gates_weight u v w e =
        let (s, at, is, _) = weight_exact X ctx u v w e in
        omega (arith, is, gates_security s.sec_class, gates_wormhole u v)

    gates_total :
        (from v c : ℕ) (nodes : List ℕ)
        → Route (net X ctx) from v nodes c
        → total (λ u v. 1 + 2 * crossing u v) nodes ≡ (length nodes - 1) + 2 * total crossing nodes
    gates_total from v c nodes here = omega arith
    gates_total from v c nodes (step {u} {w = w} {c = c'} {nodes = before} r _) = omega (
      arith,
      total_step X ctx from u v c' w before (λ u v. 1 + 2 * crossing u v) r,
      total_step X ctx from u v c' w before crossing r,
      gates_total from u c' before r,
      length_pos from u c' before r,
    )

module _ (X : External) (ctx : RouteContext X) (ok : IsContext X ctx) (from : ℕ)
    (h : from < length ctx.graph.systems) where
  -- No route, or the path of a route that is no more exposed than any route of at most 1600 jumps, and no longer
  -- than those that are as little exposed.
  abbrev pub IsSafest : ℕ → Option (List ℕ) → Type 0
  IsSafest to none = (others : List ℕ) (c : ℕ) → ¬ Route (net X ctx) from to others c
  IsSafest to (some path) =
      OnRoute (net X ctx) from to path
      × ((others : List ℕ) (c : ℕ)
          → Route (net X ctx) from to others c
          → length others - 1 ≤ 1600
          → exposed X ctx path ≤ exposed X ctx others
            × (exposed X ctx path ≡ exposed X ctx others → length path ≤ length others))

  -- Under `safest`, from a source in range, the search always returns: nothing where no route leads
  -- to the target, and otherwise the path of a route that passes no more systems outside of high security than
  -- any route of at most 1600 jumps, and that is no longer than those that pass as many.
  pub shortest_path-IsSafest :
      (to : ℕ) (scratch : DijkstraScratch)
      → ctx.preference ≡ Preference.safest
      → (r : Option (List ℕ)) × (shortest_path X ctx from to scratch ≡ done r) × IsSafest to r
  shortest_path-IsSafest to scratch pref =
      let (r, e, best) = shortest_path-IsCheapest X ctx ok from h to scratch in
      (r, e, safest r best)
    where
      safest : (r : Option (List ℕ)) → IsCheapest (net X ctx) from to r → IsSafest to r
      safest none no_way = no_way
      safest (some path) (nodes, c, r, e, best) = (
        (nodes, c, r, e),
        λ others cost s short.
            let p = λ (u v : ℕ). 1 + 10000 * risk X ctx v in
            let own = Route-price X ctx p (safest_weight X ctx pref) from to c nodes r in
            let other = Route-price X ctx p (safest_weight X ctx pref) from to cost others s in
            let own_is = safest_total X ctx pref from to c nodes r in
            let other_is = safest_total X ctx pref from to cost others s in
            let few = exposed-le-length X ctx others in
            let le =
              cheapest-total X ctx from to c cost nodes others r s (best others cost s)
                (omega arith) in
            let exposure = ap (exposed X ctx) e ∙ exposed-reverse X ctx nodes in
            let size = ap length e ∙ length-reverse nodes in
            let some_nodes = length_pos X ctx from to cost others s in
            (omega arith, λ same. omega arith),
      )

  -- No route, or the path of a route that costs no more than any route that costs less than 2 ^ 24,
  -- where a jump costs one and a crossing two more.
  abbrev pub PrefersGates : ℕ → Option (List ℕ) → Type 0
  PrefersGates to none = (others : List ℕ) (c : ℕ) → ¬ Route (net X ctx) from to others c
  PrefersGates to (some path) =
      (nodes : List ℕ) × (cost : ℕ) × Route (net X ctx) from to nodes cost
      × (path ≡ reverse nodes)
      × ((others : List ℕ) (c : ℕ)
          → Route (net X ctx) from to others c
          → (length others - 1) + 2 * total (crossing X ctx) others < significand_end
          → (length path - 1) + 2 * total (crossing X ctx) nodes
            ≤ (length others - 1) + 2 * total (crossing X ctx) others)

  -- Under `prefer_gates`, from a source in range, the search always returns: nothing where no route
  -- leads to the target, and otherwise the path of a route whose jumps, with two more for each step
  -- over the overlay that no gate joins, are no more than those of any route, where these are below
  -- 2 ^ 24.
  pub shortest_path-PrefersGates :
      (to : ℕ) (scratch : DijkstraScratch)
      → ctx.preference ≡ Preference.prefer_gates
      → (r : Option (List ℕ)) × (shortest_path X ctx from to scratch ≡ done r) × PrefersGates to r
  shortest_path-PrefersGates to scratch pref =
      let (r, e, best) = shortest_path-IsCheapest X ctx ok from h to scratch in (r, e, gates r best)
    where
      gates : (r : Option (List ℕ)) → IsCheapest (net X ctx) from to r → PrefersGates to r
      gates none no_way = no_way
      gates (some path) (nodes, c, r, e, best) = (
        nodes,
        c,
        r,
        e,
        λ others cost s short.
            let p = λ (u v : ℕ). 1 + 2 * crossing X ctx u v in
            let own = Route-price X ctx p (gates_weight X ctx pref) from to c nodes r in
            let other = Route-price X ctx p (gates_weight X ctx pref) from to cost others s in
            let own_is = gates_total X ctx pref from to c nodes r in
            let other_is = gates_total X ctx pref from to cost others s in
            let le =
              cheapest-total X ctx from to c cost nodes others r s (best others cost s)
                (omega arith) in
            let size = ap length e ∙ length-reverse nodes in omega arith,
      )
