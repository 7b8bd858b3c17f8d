-- ===== src/Routing/Prices.antt =====
-- What a route costs: the sum of its weights, as long as `f32` counts exactly.
use erbridge_palu.Prelude.{
  ℕ, ◌+◌, ◌-◌, ◌≤◌, ◌<◌, ◌≡◌, refl, sym, ◌∙◌, ap, subst, ◌⊎◌, inl, inr, not, ◌&&◌, some, List, [],
  ◌∷◌, get_elem?, arith, Bool-cases, Option-cases, dec_le,
}
use mathlib.Core.Option
use mathlib.Core.Option.{some-injective}
use erbridge_palu.External.{External}
use erbridge_palu.Model.{System, SecClass, is_highsec}
use erbridge_palu.F32.{add_f32, significand_end}
use erbridge_palu.F32.Laws.{add_f32_exact, add_f32_mono}
use erbridge_palu.Dijkstra.Routes.{Route, here, step}
use erbridge_palu.Routing.{
  RouteContext, Preference, edge_weight, net, security_penalty, wormhole_penalty, is_overlay_edge,
  has_gate_edge,
}
use erbridge_palu.Routing.Weights.{weight_at, weight_none, capped, capped_below, capped_above}

-- The sum over the steps of a route, whose nodes are listed from its end to its start.
abbrev pub total : (ℕ → ℕ → ℕ) → List ℕ → ℕ
total price [] = 0
total price (v ∷ []) = 0
total price (v ∷ u ∷ rest) = price u v + total price (u ∷ rest)

preference-cases :
    (p : Preference)
    → (p ≡ Preference.shortest) ⊎ (p ≡ Preference.safest) ⊎ (p ≡ Preference.prefer_gates)
preference-cases Preference.shortest = inl refl
preference-cases Preference.safest = inr (inl refl)
preference-cases Preference.prefer_gates = inr (inr refl)

add_f32_floor : (t c w : ℕ) → capped t ≤ c → w ≤ significand_end → capped (t + w) ≤ add_f32 c w
add_f32_floor t c w h small = elim (dec_le (t + w) significand_end) [
  | yes fits ↦
      subst (λ x. x ≤ add_f32 c w) (add_f32_exact t w fits ∙ sym (capped_below (t + w) fits))
        (add_f32_mono t c w (subst (λ x. x ≤ c) (capped_below t (omega arith)) h))
  | no over ↦
      let rest = significand_end - w in
      let whole : rest + w ≡ significand_end = omega arith in
      let low : rest ≤ capped t = ground arith in
      subst (λ x. x ≤ add_f32 c w)
        (add_f32_exact rest w (omega arith) ∙ whole ∙ sym (capped_above (t + w) (omega arith)))
        (add_f32_mono rest c w (omega arith))
]

module _ (X : External) (ctx : RouteContext X) where
  -- A step costs its weight.
  abbrev pub price : ℕ → ℕ → ℕ
  price u v = Option.get_or (edge_weight X ctx u v) 0

  security_bound : (c : SecClass) → security_penalty X ctx c ≤ 10000
  unfolding security_penalty
  security_bound c = elim (preference-cases ctx.preference) [
    | inl pref ↦ rw (security_penalty, pref) (omega arith)
    | inr (inl pref) ↦
        rw (security_penalty, pref)
          (elim (Bool-cases (is_highsec c)) [
            | inl e ↦ rw e (omega arith)
            | inr e ↦ rw e (omega arith)
          ])
    | inr (inr pref) ↦ rw (security_penalty, pref) (omega arith)
  ]

  wormhole_bound : (u v : ℕ) → wormhole_penalty X ctx u v ≤ 2
  unfolding wormhole_penalty
  wormhole_bound u v = elim (preference-cases ctx.preference) [
    | inl pref ↦ rw (wormhole_penalty, pref) (omega arith)
    | inr (inl pref) ↦ rw (wormhole_penalty, pref) (omega arith)
    | inr (inr pref) ↦
        rw (wormhole_penalty, pref)
          (elim (Bool-cases (is_overlay_edge X ctx u v && not (has_gate_edge X ctx u v))) [
            | inl e ↦ rw e (omega arith)
            | inr e ↦ rw e (omega arith)
          ])
  ]

  -- A weight is that of its system, exactly.
  pub weight_exact :
      (u v w : ℕ)
      → edge_weight X ctx u v ≡ some w
      → (s : System X) × (get_elem? ctx.graph.systems v ≡ some s)
        × (w ≡ 1 + security_penalty X ctx s.sec_class + wormhole_penalty X ctx u v)
        × w ≤ 10003
  weight_exact u v w e = elim (Option-cases (get_elem? ctx.graph.systems v)) [
    | inl out ↦ cc (weight_none X ctx u v out)
    | inr (s, at) ↦
        let sec = security_bound s.sec_class in
        let worm = wormhole_bound u v in
        let is : w ≡ 1 + security_penalty X ctx s.sec_class + wormhole_penalty X ctx u v =
          some-injective _ _ (sym e ∙ weight_at X ctx u v s at)
          ∙ ap (λ x. add_f32 x (wormhole_penalty X ctx u v))
              (add_f32_exact 1 (security_penalty X ctx s.sec_class) (omega arith))
          ∙ add_f32_exact (1 + security_penalty X ctx s.sec_class) (wormhole_penalty X ctx u v)
              (omega arith) in
        (s, at, is, omega arith)
  ]

  pub total_step :
      (from u v c w : ℕ) (nodes : List ℕ) (p : ℕ → ℕ → ℕ)
      → Route (net X ctx) from u nodes c
      → total p (v ∷ nodes) ≡ p u v + total p nodes
  total_step from u v c w nodes p here = refl
  total_step from u v c w nodes p (step r e) = refl

  -- The cost of a route is the sum of its weights, up to 2 ^ 24; and it is never less.
  pub Route-total :
      (from v c : ℕ) (nodes : List ℕ)
      → Route (net X ctx) from v nodes c
      → capped (total price nodes) ≤ c
        × (total price nodes ≤ significand_end → c ≡ total price nodes)
  Route-total from v c nodes here = (omega arith, λ h. refl)
  Route-total from v c nodes (step {u} {w = w} {c = c'} {nodes = before} r (_, e)) =
      let (floor, exact) = Route-total from u c' before r in
      let (_, _, _, small) = weight_exact u v w e in
      let own : price u v ≡ w = ap (λ o. Option.get_or o 0) e in
      let sum : total price nodes ≡ total price before + w =
        omega (arith, total_step from u v c' w before price r, own) in
      (
        subst (λ x. capped x ≤ c) (sym sum)
            (add_f32_floor (total price before) c' w floor (omega arith)),
        λ h.
            let low : total price before ≤ significand_end = omega arith in
            ap (λ x. add_f32 x w) (exact low)
            ∙ add_f32_exact (total price before) w (omega arith)
            ∙ sym sum,
      )

  -- What `price` adds up to along a route, where each step costs `p u v`.
  pub Route-price :
      (p : ℕ → ℕ → ℕ)
      → ((u v w : ℕ) → edge_weight X ctx u v ≡ some w → w ≡ p u v)
      → (from v c : ℕ) (nodes : List ℕ) → Route (net X ctx) from v nodes c
      → total price nodes ≡ total p nodes
  Route-price p is from v c nodes here = refl
  Route-price p is from v c nodes (step {u} {w = w} {c = c'} {nodes = before} r (_, e)) =
      let own : price u v ≡ w = ap (λ o. Option.get_or o 0) e in
      omega (
        arith,
        total_step from u v c' w before price r,
        total_step from u v c' w before p r,
        own,
        is u v w e,
        Route-price p is from u c' before r,
      )

  -- So no route whose weights add up to less than 2 ^ 24 undercuts one that costs no more.
  pub cheapest-total :
      (from to c cost : ℕ) (nodes others : List ℕ)
      → Route (net X ctx) from to nodes c
      → Route (net X ctx) from to others cost
      → c ≤ cost
      → total price others < significand_end
      → total price nodes ≤ total price others
  cheapest-total from to c cost nodes others r s le small =
      let (floor, _) = Route-total from to c nodes r in
      let (_, exact) = Route-total from to cost others s in
      let at : cost ≡ total price others = exact (omega arith) in ground arith
