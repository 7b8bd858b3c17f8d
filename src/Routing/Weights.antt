-- ===== src/Routing/Weights.antt =====
-- The routes over a context: its edges are in range and weighed, avoided nodes are left out, and
-- under `shortest` the cost counts jumps.
use erbridge_palu.Prelude.{
  ℕ, ◌+◌, ◌-◌, ◌≤◌, ◌<◌, ◌≡◌, refl, sym, ◌∙◌, ap, subst, ◌⊎◌, inl, inr, false, not, none, some,
  List, [], ◌∷◌, ◌++◌, map, Memᴰ, length, get_elem?, get_elem?_lt, mem-filter, nat_eq, arith,
  Bool-cases, Option-cases, reverse, dec_le, if◌then◌else◌, leb,
}
use mathlib.Core.List.Memᴰ
use mathlib.Core.List.{reverse_aux}
use mathlib.Core.Option.{some-injective}
use erbridge_palu.Prelude.HashSet
use erbridge_palu.External.{External}
use erbridge_palu.Model.{System, SecClass}
use erbridge_palu.F32.{add_f32, significand_end}
use erbridge_palu.F32.Laws.{add_f32_exact, add_f32_full}
use erbridge_palu.Dijkstra.Single.{IsCheapest}
use erbridge_palu.Dijkstra.Routes.{IsNet, Route, here, step}
use erbridge_palu.Routing.{
  RouteContext, Preference, entry, neighbors, edge_weight, net, security_penalty, wormhole_penalty,
}

mem-append_cases {ℓ} :
    {A : Type ℓ} (x : A) (xs ys : List A) → Memᴰ x (xs ++ ys) → Memᴰ x xs ⊎ Memᴰ x ys
mem-append_cases x [] ys m = inr m
mem-append_cases x (y ∷ xs) ys m = elim (Memᴰ.cases_cons m) [
  | inl same ↦ inl (Memᴰ.head same)
  | inr later ↦ elim (mem-append_cases x xs ys later) [
    | inl m' ↦ inl (Memᴰ.tail m')
    | inr m' ↦ inr m'
  ]
]

module _ (X : External) (ctx : RouteContext X) where
  -- Gates and connections lead to systems only.
  pub record IsContext : Type 0 where
    pub gates :
        (u v : ℕ) → Memᴰ v (X.neighbors ctx.graph.gate_graph u) → v < length ctx.graph.systems
    pub overlay :
        (u v : ℕ) → Memᴰ v (map (λ p. p.0) (entry u ctx.connections)) → v < length ctx.graph.systems

  pub weight_at :
      (u v : ℕ) (s : System X)
      → get_elem? ctx.graph.systems v ≡ some s
      → edge_weight X ctx u v
        ≡ some
            (add_f32 (add_f32 1 (security_penalty X ctx s.sec_class)) (wormhole_penalty X ctx u v))
  unfolding edge_weight security_penalty wormhole_penalty
  weight_at u v s e = rw (edge_weight, e) refl

  pub weight_none : (u v : ℕ) → get_elem? ctx.graph.systems v ≡ none → edge_weight X ctx u v ≡ none
  unfolding edge_weight security_penalty wormhole_penalty
  weight_none u v e = rw (edge_weight, e) refl

  neighbors_within :
      IsContext → (u v : ℕ) → Memᴰ v (neighbors X ctx u) → v < length ctx.graph.systems
  unfolding neighbors
  neighbors_within ok u v m =
      elim (mem-append_cases v (X.neighbors ctx.graph.gate_graph u)
        (map (λ p. p.0) (entry u ctx.connections))
        (mem-filter (λ nb. not (HashSet.contains nb ctx.avoid)) v _ m).0) [
          | inl gate ↦ ok.gates u v gate
          | inr over ↦ ok.overlay u v over
        ]

  -- The context is fit for the searches.
  pub net-IsNet : IsContext → IsNet (net X ctx)
  net-IsNet ok = record {
    in_range = neighbors_within ok;
    weighed = λ u v m.
        let (s, e) = get_elem?_lt ctx.graph.systems v (neighbors_within ok u v m) in
        (_, weight_at u v s e);
  }

  -- The nodes of a route are the source and nodes that are not avoided.
  pub Route-avoids :
      (from v c : ℕ) (nodes : List ℕ)
      → Route (net X ctx) from v nodes c
      → (x : ℕ) → Memᴰ x nodes
      → (x ≡ from) ⊎ (HashSet.contains x ctx.avoid ≡ false)
  unfolding neighbors
  Route-avoids from v c nodes here x m = inl (Memᴰ.eq_of_singleton m)
  Route-avoids from v c nodes (step {u} r (m', _)) x m = elim (Memᴰ.cases_cons m) [
    | inl same ↦
        let pass =
          (mem-filter (λ nb. not (HashSet.contains nb ctx.avoid)) v
            (X.neighbors ctx.graph.gate_graph u ++ map (λ p. p.0) (entry u ctx.connections))
            m').1 in
        elim (Bool-cases (HashSet.contains v ctx.avoid)) [
          | inl bad ↦ cc
          | inr good ↦ inr (subst (λ y. HashSet.contains y ctx.avoid ≡ false) (sym same) good)
        ]
    | inr later ↦ Route-avoids from _ _ _ r x later
  ]

length-reverse_aux {ℓ} :
    {A : Type ℓ} (xs ys : List A) → length (reverse_aux xs ys) ≡ length xs + length ys
length-reverse_aux [] ys = omega arith
length-reverse_aux (x ∷ xs) ys = omega (arith, length-reverse_aux xs (x ∷ ys))

pub length-reverse {ℓ} : {A : Type ℓ} (xs : List A) → length (reverse xs) ≡ length xs
length-reverse xs = omega (arith, length-reverse_aux xs [])

-- `n` as a sum of ones in `f32`: it stops growing at 2 ^ 24.
abbrev pub capped : ℕ → ℕ
capped n = if leb n significand_end then n else significand_end

pub capped_below : (n : ℕ) → n ≤ significand_end → capped n ≡ n
capped_below n h = ground arith

pub capped_above : (n : ℕ) → significand_end ≤ n → capped n ≡ significand_end
capped_above n h = ground arith

add_one : (n : ℕ) → add_f32 (capped n) 1 ≡ capped (n + 1)
add_one n = elim (dec_le (n + 1) significand_end) [
  | yes fits ↦
      ap (λ x. add_f32 x 1) (capped_below n (omega arith))
      ∙ add_f32_exact n 1 fits
      ∙ sym (capped_below (n + 1) fits)
  | no over ↦
      ap (λ x. add_f32 x 1) (capped_above n (omega arith))
      ∙ add_f32_full
      ∙ sym (capped_above (n + 1) (omega arith))
]

module _ (X : External) (ctx : RouteContext X) (pref : ctx.preference ≡ Preference.shortest) where
  no_security : (c : SecClass) → security_penalty X ctx c ≡ 0
  unfolding security_penalty
  no_security c = rw (security_penalty, pref) refl

  no_wormhole : (u v : ℕ) → wormhole_penalty X ctx u v ≡ 0
  unfolding wormhole_penalty
  no_wormhole u v = rw (wormhole_penalty, pref) refl

  weight_one : (u v w : ℕ) → edge_weight X ctx u v ≡ some w → w ≡ 1
  weight_one u v w e = elim (Option-cases (get_elem? ctx.graph.systems v)) [
    | inl out ↦ cc (weight_none X ctx u v out)
    | inr (s, at) ↦ some-injective _ _ (
        sym e
        ∙ weight_at X ctx u v s at
        ∙ ap (λ x. some (add_f32 (add_f32 1 x) (wormhole_penalty X ctx u v)))
            (no_security s.sec_class)
        ∙ ap (λ x. some (add_f32 (add_f32 1 0) x)) (no_wormhole u v)
        ∙ ap (λ x. some (add_f32 x 0)) (add_f32_exact 1 0 (omega arith))
        ∙ ap some (add_f32_exact 1 0 (omega arith)))
  ]

  -- Under `shortest` the cost of a route is its number of jumps, up to 2 ^ 24.
  pub Route-cost :
      (from v c : ℕ) (nodes : List ℕ)
      → Route (net X ctx) from v nodes c
      → (c ≡ capped (length nodes - 1)) × 0 < length nodes
  Route-cost from v c nodes here = (refl, omega arith)
  Route-cost from v c nodes (step {u} {w = w} {c = c'} {nodes = before} r (_, e)) =
      let (cost, some_nodes) = Route-cost from u c' before r in
      let count : length before - 1 + 1 ≡ length (v ∷ before) - 1 = omega arith in
      (
        ap (add_f32 c') (weight_one u v w e)
            ∙ ap (λ x. add_f32 x 1) cost
            ∙ add_one (length before - 1)
            ∙ ap capped count,
        omega arith,
      )

  -- Under `shortest` a cheapest route has the fewest jumps, among all routes with fewer than
  -- 2 ^ 24 jumps: where `f32` counts exactly.
  pub cheapest_fewest :
      (from to : ℕ) (path : List ℕ)
      → IsCheapest (net X ctx) from to (some path)
      → (others : List ℕ) (c : ℕ) → Route (net X ctx) from to others c
      → length others - 1 < significand_end
      → length path ≤ length others
  cheapest_fewest from to path (nodes, c, r, e, best) others cost s short =
      let (c_is, own) = Route-cost from to c nodes r in
      let (cost_is, other) = Route-cost from to cost others s in
      let same : length path ≡ length nodes = ap length e ∙ length-reverse nodes in
      let le = best others cost s in
      let flat : cost ≡ length others - 1 =
        cost_is ∙ capped_below (length others - 1) (omega arith) in
      elim (dec_le (length nodes - 1) significand_end) [
        | yes fits ↦ omega (arith, c_is ∙ capped_below (length nodes - 1) fits)
        | no over ↦ omega (arith, c_is ∙ capped_above (length nodes - 1) (omega arith))
      ]

module _ (X : External) (ctx : RouteContext X) (ok : IsContext X ctx) (from : ℕ)
    (h : from < length ctx.graph.systems) where
  -- The nodes of a route are systems.
  pub Route-within :
      (v c : ℕ) (nodes : List ℕ)
      → Route (net X ctx) from v nodes c
      → (x : ℕ) → Memᴰ x nodes
      → x < length ctx.graph.systems
  Route-within v c nodes here x m =
      subst (λ y. y < length ctx.graph.systems) (sym (Memᴰ.eq_of_singleton m)) h
  Route-within v c nodes (step {u} {c = c'} {nodes = before} r (m', _)) x m =
      elim (Memᴰ.cases_cons m) [
        | inl same ↦
            subst (λ y. y < length ctx.graph.systems) (sym same)
              ((net-IsNet X ctx ok).in_range u v m')
        | inr later ↦ Route-within u c' before r x later
      ]

-- What holds of a list's elements holds of those of the reversed list.
pub reverse_aux-forall {ℓ κ} :
    {A : Type ℓ} (P : A → Type κ) (xs ys : List A)
    → ((x : A) → Memᴰ x xs → P x)
    → ((x : A) → Memᴰ x ys → P x)
    → (x : A) → Memᴰ x (reverse_aux xs ys)
    → P x
reverse_aux-forall P [] ys own acc = acc
reverse_aux-forall P (y ∷ xs) ys own acc =
    reverse_aux-forall P xs (y ∷ ys) (λ x m. own x (Memᴰ.tail m))
      (λ x m. elim (Memᴰ.cases_cons m) [
        | inl same ↦ own x (Memᴰ.head same)
        | inr later ↦ acc x later
      ])
