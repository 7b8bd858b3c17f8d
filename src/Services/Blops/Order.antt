-- ===== src/Services/Blops/Order.antt =====
-- The order in which the settled targets are ranked: by jumps, and by distance where these tie.
use Prim.Native.Nat.{Ordering}
use erbridge_palu.Prelude.{
  ◌<◌, ◌≡◌, ◌≢◌, refl, sym, ◌∙◌, subst, some, length, get_elem?, get_elem?_lt, ◌↔◌, ◌⊎◌, inl, inr,
  true, false, List, ◌∷◌, Memᴰ, done, ◌>>=◌, ltb, nat_beq, nat_beq_iff, Bool-cases, arith,
}
use erbridge_palu.Prelude.Sorting.{sort_by, nat_cmp, then_with, or_equal}
use erbridge_palu.Prelude.Sorting.Heads.{sort_by-mem, sort_by-mem_intro}
use erbridge_palu.Prelude.Sorting.Ascending.{or_equal-gt, Linked, Linked-mono, sort_by-Ascending}
use erbridge_palu.External.{External, IsIeee}
use erbridge_palu.Error.{ok, traverse}
use erbridge_palu.Error.Traversal.{Images, traverse-Images}
use erbridge_palu.Range.{ly_between}
use erbridge_palu.Model.{GraphData, System}
use erbridge_palu.Dijkstra.Multi.{SettledTarget}
use erbridge_palu.Routing.{RouteContext}
use erbridge_palu.Services.Blops.{Ranked, ranking, with_ly, respond, rank_settled}

module _ (X : External) (I : IsIeee X) (graph : GraphData X) where
  -- Fewer jumps, or as many and no greater distance.
  abbrev pub Before : Ranked X graph → Ranked X graph → Type 0
  Before a b = a.0.jumps < b.0.jumps ⊎ (a.0.jumps ≡ b.0.jumps) × (X.lt b.1 a.1 ≡ false)

  ranking_gt :
      (a b : Ranked X graph)
      → ranking X graph a b ≡ Ordering.gt
      → b.0.jumps < a.0.jumps ⊎ (a.0.jumps ≡ b.0.jumps) × (X.lt b.1 a.1 ≡ true)
  unfolding ranking nat_cmp then_with
  ranking_gt a b e = elim (Bool-cases (ltb a.0.jumps b.0.jumps)) [
    | inl less ↦ cc (rw less at e)
    | inr late ↦ elim (Bool-cases (nat_beq a.0.jumps b.0.jumps)) [
      | inl same ↦ inr (
        (nat_beq_iff a.0.jumps b.0.jumps).0 same,
        (I.cmp_gt a.1 b.1).0 (or_equal-gt (X.partial_cmp a.1 b.1) (rw (late, same) at e)),
      )
      | inr apart ↦ inl (ground arith)
    ]
  ]

  ranking_not_gt : (a b : Ranked X graph) → ranking X graph a b ≢ Ordering.gt → Before a b
  unfolding ranking nat_cmp then_with or_equal
  ranking_not_gt a b ne = elim (Bool-cases (ltb a.0.jumps b.0.jumps)) [
    | inl less ↦ inl (ground arith)
    | inr late ↦ elim (Bool-cases (nat_beq a.0.jumps b.0.jumps)) [
      | inl same ↦ inr (
        (nat_beq_iff a.0.jumps b.0.jumps).0 same,
        elim (Bool-cases (X.lt b.1 a.1)) [
          | inl far ↦ absurd (ne (rw (late, same, (I.cmp_gt a.1 b.1).1 far) refl))
          | inr near ↦ near
        ],
      )
      | inr apart ↦ absurd (ne (rw (late, apart) refl))
    ]
  ]

  ranking_asym :
      (a b : Ranked X graph) → ranking X graph a b ≡ Ordering.gt → ranking X graph b a ≢ Ordering.gt
  ranking_asym a b e e' = elim (ranking_gt a b e) [
    | inl less ↦ elim (ranking_gt b a e') [ inl less' ↦ omega arith | inr (same, _) ↦ omega arith ]
    | inr (same, near) ↦ elim (ranking_gt b a e') [
      | inl less' ↦ omega arith
      | inr (_, far) ↦ cc (I.lt_trans a.1 b.1 a.1 far near, I.lt_irrefl a.1)
    ]
  ]

  with_ly_at :
      (b_sys : System X) (u : SettledTarget) (s : System X)
      → get_elem? graph.systems u.node ≡ some s
      → with_ly X graph b_sys.coords u ≡ done (u, ly_between X s.coords b_sys.coords)
  unfolding with_ly
  with_ly_at b_sys u s at = rw at refl

  done-injective : {A : Type 0} (x y : A) → done x ≡ done y → x ≡ y
  done-injective x y e = cc

  module _ (ctx : RouteContext X) (effective_ly : X.F64) (b_sys : System X) where
    ranked_at :
        (t : SettledTarget) (ts : List SettledTarget) (ranked : List (Ranked X graph))
        → traverse (with_ly X graph b_sys.coords) (t ∷ ts) ≡ done ranked
        → rank_settled X graph ctx effective_ly b_sys (t ∷ ts) ≡ (
            respond X graph ctx effective_ly b_sys (sort_by (ranking X graph) ranked) >>= λ resp.
            done (ok resp))
    unfolding rank_settled
    ranked_at t ts ranked e = rw e refl

    -- The settled target with its distance.
    abbrev pub Settled : List SettledTarget → Ranked X graph → Type 0
    Settled ts x =
        (u : SettledTarget) × Memᴰ u ts
        × ((s : System X) × (get_elem? graph.systems u.node ≡ some s)
            × (x ≡ (u, ly_between X s.coords b_sys.coords)))

    -- The settled targets, where they are systems, are ranked by jumps and, where these tie, by
    -- distance, and the response is made of the targets in that order.
    pub rank_settled-Before :
        (t : SettledTarget) (ts : List SettledTarget)
        → ((u : SettledTarget) → Memᴰ u (t ∷ ts) → u.node < length graph.systems)
        → (sorted : List (Ranked X graph)) × Linked Before sorted
          × ((x : Ranked X graph) → Memᴰ x sorted ↔ Settled (t ∷ ts) x)
          × (rank_settled X graph ctx effective_ly b_sys (t ∷ ts)
              ≡ (respond X graph ctx effective_ly b_sys sorted >>= λ resp. done (ok resp)))
    unfolding Images
    rank_settled-Before t ts within =
        let known = λ (u : SettledTarget) (m : Memᴰ u (t ∷ ts)).
          get_elem?_lt graph.systems u.node (within u m) in
        let (ranked, e, (from, to, _)) =
          traverse-Images (with_ly X graph b_sys.coords) (t ∷ ts)
            (λ u m. let (s, at) = known u m in (_, with_ly_at b_sys u s at)) in
        (
          sort_by (ranking X graph) ranked,
          Linked-mono ranking_not_gt (sort_by (ranking X graph) ranked)
              (sort_by-Ascending (ranking X graph) ranking_asym ranked),
          λ x. (
            λ m.
                let (u, m', made) = from x (sort_by-mem (ranking X graph) x ranked m) in
                let (s, at) = known u m' in
                (u, m', (s, at, done-injective _ _ (sym made ∙ with_ly_at b_sys u s at))),
            λ (u, m, (s, at, is)).
                let (y, m', made) = to u m in
                let same = done-injective _ _ (sym made ∙ with_ly_at b_sys u s at) in
                sort_by-mem_intro (ranking X graph) x ranked
                  (subst (λ z. Memᴰ z ranked) (same ∙ sym is) m'),
          ),
          ranked_at t ts ranked e,
        )
