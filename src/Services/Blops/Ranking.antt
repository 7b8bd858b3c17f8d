-- ===== src/Services/Blops/Ranking.antt =====
-- The chosen staging system, among those that the search settled, and its alternates.
use Prim.Native.Nat.{Ordering}
use erbridge_palu.Prelude.{
  ℕ, zero, suc, ◌≤◌, ◌<◌, ◌≡◌, ◌≢◌, refl, sym, ◌∙◌, subst, inl, inr, true, false, some, List, [],
  ◌∷◌, Memᴰ, length, get_elem?, get_elem?_lt, take, done, arith, leb, if◌then◌else◌, ◌-◌, ap,
  nat_beq, nat_beq_iff, Bool-cases,
}
use mathlib.Core.List.Memᴰ
use erbridge_palu.Prelude.Sorting.{sort_by, nat_cmp, then_with, or_equal}
use erbridge_palu.Prelude.Sorting.Heads.{
  length-sort_by, sort_by-mem, sort_by-mem_intro, LeastHead, sort_by-LeastHead,
}
use erbridge_palu.External.{External}
use erbridge_palu.Error.{ok, traverse}
use erbridge_palu.Error.Traversal.{Images, traverse-Images}
use erbridge_palu.Dto.{BlopsRouteResponse, BlopsCandidate, RouteStep}
use erbridge_palu.Model.{GraphData, System}
use erbridge_palu.Range.{ly_between, round2}
use erbridge_palu.Dijkstra.Multi.{SettledTarget}
use erbridge_palu.Routing.{RouteContext}
use erbridge_palu.Services.Route.{build_steps}
use erbridge_palu.Services.Route.Steps.{Labelled, build_steps-Labelled}
use erbridge_palu.Services.Blops.{
  blops_system, max_alternates, Ranked, with_ly, ranking, candidate, fallbacks, respond,
  rank_settled,
}

-- The number of alternates among so many others.
abbrev pub at_most : ℕ → ℕ
at_most n = if leb n max_alternates then n else max_alternates

length-take_is {ℓ} :
    {A : Type ℓ} (n : ℕ) (xs : List A)
    → length (take n xs) ≡ (if leb (length xs) n then length xs else n)
length-take_is zero [] = refl
length-take_is zero (x ∷ xs) = ground arith
length-take_is (suc n) [] = ground arith
length-take_is (suc n) (x ∷ xs) = ground (arith, length-take_is n xs)

nil_of_length {ℓ} : {A : Type ℓ} (xs : List A) → length xs ≡ 0 → xs ≡ []
nil_of_length [] e = refl
nil_of_length (x ∷ xs) e = ground arith

take-mem {ℓ} : {A : Type ℓ} (n : ℕ) (xs : List A) (x : A) → Memᴰ x (take n xs) → Memᴰ x xs
take-mem zero xs x m = absurd (Memᴰ.not-nil m)
take-mem (suc n) [] x m = m
take-mem (suc n) (y ∷ ys) x m = elim (Memᴰ.cases_cons m) [
  | inl same ↦ Memᴰ.head same
  | inr later ↦ Memᴰ.tail (take-mem n ys x later)
]

module _ (X : External) (graph : GraphData X) where
  jumps_of : Ranked X graph → ℕ
  jumps_of r = r.0.jumps

  ranking_above :
      (a b : Ranked X graph) → ranking X graph a b ≡ Ordering.gt → jumps_of b ≤ jumps_of a
  unfolding ranking nat_cmp then_with or_equal jumps_of
  ranking_above a b e = ground arith

  ranking_below :
      (a b : Ranked X graph) → ranking X graph a b ≢ Ordering.gt → jumps_of a ≤ jumps_of b
  unfolding ranking nat_cmp then_with or_equal jumps_of
  ranking_below a b ne = ground arith

  -- A settled target whose node and path are systems.
  abbrev pub Sound : SettledTarget → Type 0
  Sound t = t.node < length graph.systems × ((x : ℕ) → Memᴰ x t.path → x < length graph.systems)

  module _ (ctx : RouteContext X) (effective_ly : X.F64) (b_sys : System X) where
    -- The response for a chosen target: its jumps and labelled path, and as many alternates as there
    -- are other targets, but five at most, and none where the target is no jump away.
    pub record Responds (star : SettledTarget) (others : ℕ) (resp : BlopsRouteResponse X)
        : Type 0 where
      pub jumps_are : resp.chosen.gate_jumps ≡ star.jumps
      pub labels : Labelled X graph ctx star.path resp.chosen.gate_path
      pub many : star.jumps ≢ 0 → length resp.alternates ≡ at_most others
      pub none_needed : star.jumps ≡ 0 → resp.alternates ≡ []

    candidate_done :
        (r : Ranked X graph) → Sound r.0 → (c : BlopsCandidate X) × (candidate X graph r ≡ done c)
    unfolding candidate
    candidate_done r ok' =
        let (s, at) = get_elem?_lt graph.systems r.0.node ok'.0 in
        (
          record { system = blops_system X s; gate_jumps = r.0.jumps; ly_to_b = round2 X r.1 },
          rw at refl,
        )

    fallbacks-mem :
        (r : Ranked X graph) (rs : List (Ranked X graph)) (x : Ranked X graph)
        → Memᴰ x (fallbacks X graph (r ∷ rs) r)
        → Memᴰ x (r ∷ rs)
    unfolding fallbacks
    fallbacks-mem r rs x m = elim (Bool-cases (nat_beq r.0.jumps 0)) [
      | inl near ↦ absurd (Memᴰ.not-nil (rw near at m))
      | inr far ↦ Memᴰ.tail (take-mem max_alternates rs x (rw far at m))
    ]

    fallbacks_many :
        (r : Ranked X graph) (rs : List (Ranked X graph))
        → r.0.jumps ≢ 0
        → length (fallbacks X graph (r ∷ rs) r) ≡ at_most (length rs)
    unfolding fallbacks
    fallbacks_many r rs away = elim (Bool-cases (nat_beq r.0.jumps 0)) [
      | inl near ↦ absurd (away ((nat_beq_iff r.0.jumps 0).0 near))
      | inr far ↦ rw far (length-take_is max_alternates rs)
    ]

    fallbacks_none :
        (r : Ranked X graph) (rs : List (Ranked X graph))
        → r.0.jumps ≡ 0
        → length (fallbacks X graph (r ∷ rs) r) ≡ 0
    unfolding fallbacks
    fallbacks_none r rs e = rw ((nat_beq_iff r.0.jumps 0).1 e) refl

    respond_at :
        (r : Ranked X graph) (rs : List (Ranked X graph)) (s : System X)
        (steps : List (RouteStep X)) (alternates : List (BlopsCandidate X))
        → build_steps X graph ctx r.0.path ≡ done steps
        → get_elem? graph.systems r.0.node ≡ some s
        → traverse (candidate X graph) (fallbacks X graph (r ∷ rs) r) ≡ done alternates
        → respond X graph ctx effective_ly b_sys (r ∷ rs)
          ≡ done (record {
            jdc_level = 0;
            effective_ly = effective_ly;
            defaulted = false;
            chosen = record {
              gate_jumps = r.0.jumps;
              gate_path = steps;
              bridge = record {
                from = blops_system X s;
                to = blops_system X b_sys;
                jump_ly = round2 X r.1;
                in_range = true;
              };
            };
            alternates = alternates;
          })
    unfolding respond
    respond_at r rs s steps alternates built at made = rw (built, at, made) refl

    respond-Responds :
        (r : Ranked X graph) (rs : List (Ranked X graph))
        → ((x : Ranked X graph) → Memᴰ x (r ∷ rs) → Sound x.0)
        → (resp : BlopsRouteResponse X) × (respond X graph ctx effective_ly b_sys (r ∷ rs)
            ≡ done resp)
          × Responds r.0 (length rs) resp
    unfolding Images
    respond-Responds r rs sound =
        let (s, at) = get_elem?_lt graph.systems r.0.node (sound r (Memᴰ.head refl)).0 in
        let (steps, built, labels) =
          build_steps-Labelled X graph ctx r.0.path (sound r (Memᴰ.head refl)).1 in
        let (alternates, made, images) =
          traverse-Images (candidate X graph) (fallbacks X graph (r ∷ rs) r)
            (λ x m. candidate_done x (sound x (fallbacks-mem r rs x m))) in
        let count : length alternates ≡ length (fallbacks X graph (r ∷ rs) r) = images.2 in
        (
          _,
          respond_at r rs s steps alternates built at made,
          record {
            jumps_are = refl;
            labels = labels;
            many = λ away. count ∙ fallbacks_many r rs away;
            none_needed =
                λ e. nil_of_length alternates (omega (arith, count, fallbacks_none r rs e));
          },
        )

    rank_settled_at :
        (t : SettledTarget) (ts : List SettledTarget) (ranked : List (Ranked X graph))
        (resp : BlopsRouteResponse X)
        → traverse (with_ly X graph b_sys.coords) (t ∷ ts) ≡ done ranked
        → respond X graph ctx effective_ly b_sys (sort_by (ranking X graph) ranked) ≡ done resp
        → rank_settled X graph ctx effective_ly b_sys (t ∷ ts) ≡ done (ok resp)
    unfolding rank_settled
    rank_settled_at t ts ranked resp e e' = rw (e, e') refl

    with_ly_done :
        (u : SettledTarget)
        → Sound u
        → (r : Ranked X graph) × (with_ly X graph b_sys.coords u ≡ done r)
    unfolding with_ly
    with_ly_done u ok' =
        let (s, at) = get_elem?_lt graph.systems u.node ok'.0 in
        ((u, ly_between X s.coords b_sys.coords), rw at refl)

    with_ly_same :
        (u : SettledTarget) (r : Ranked X graph)
        → Sound u
        → with_ly X graph b_sys.coords u ≡ done r
        → r.0 ≡ u
    unfolding with_ly
    with_ly_same u r ok' e =
        let (s, at) = get_elem?_lt graph.systems u.node ok'.0 in
        done-first r (u, ly_between X s.coords b_sys.coords) (sym e ∙ rw at refl)
      where
        done-first : (x y : Ranked X graph) → done x ≡ done y → x.0 ≡ y.0
        done-first x y h = cc

    -- The chosen target is one of the settled ones, and no settled target is fewer jumps away.
    abbrev pub Chooses : List SettledTarget → BlopsRouteResponse X → Type 0
    Chooses ts resp =
        (star : SettledTarget) × Memᴰ star ts
        × Responds star (length ts - 1) resp
        × ((u : SettledTarget) → Memᴰ u ts → star.jumps ≤ u.jumps)

    respond-sorted :
        (ranked sorted : List (Ranked X graph)) (t : Ranked X graph)
        → sort_by (ranking X graph) ranked ≡ sorted
        → Memᴰ t ranked
        → ((x : Ranked X graph) → Memᴰ x ranked → Sound x.0)
        → (star : Ranked X graph) × (resp : BlopsRouteResponse X) × Memᴰ star ranked
          × (respond X graph ctx effective_ly b_sys sorted ≡ done resp)
          × Responds star.0 (length ranked - 1) resp
          × ((x : Ranked X graph) → Memᴰ x ranked → star.0.jumps ≤ x.0.jumps)
    unfolding jumps_of
    respond-sorted ranked [] t e m sound =
        absurd (Memᴰ.not-nil (subst (Memᴰ t) e (sort_by-mem_intro (ranking X graph) t ranked m)))
    respond-sorted ranked (r ∷ rs) t e m sound =
        let back = λ (x : Ranked X graph) (m' : Memᴰ x (r ∷ rs)).
          sort_by-mem (ranking X graph) x ranked (subst (Memᴰ x) (sym e) m') in
        let (resp, e', good) = respond-Responds r rs (λ x m'. sound x (back x m')) in
        let least =
          subst (LeastHead (ranking X graph) jumps_of ranking_above ranking_below) e
            (sort_by-LeastHead (ranking X graph) jumps_of ranking_above ranking_below ranked) in
        let size : length rs ≡ length ranked - 1 =
          omega (arith, ap length e, length-sort_by (ranking X graph) ranked) in
        (
          r,
          resp,
          back r (Memᴰ.head refl),
          e',
          subst (λ n. Responds r.0 n resp) size good,
          λ x m'. least x (subst (Memᴰ x) e (sort_by-mem_intro (ranking X graph) x ranked m')),
        )

    -- When the search settled at least one target, and the targets and their paths are systems, the
    -- ranking never panics. It chooses a settled target that no other undercuts in jumps, with the
    -- labelled path to it; there are as many alternates as other targets, but five at most, and none
    -- when the chosen target is no jump away.
    pub rank_settled-Chooses :
        (t : SettledTarget) (ts : List SettledTarget)
        → ((u : SettledTarget) → Memᴰ u (t ∷ ts) → Sound u)
        → (resp : BlopsRouteResponse X) × (rank_settled X graph ctx effective_ly b_sys (t ∷ ts)
            ≡ done (ok resp))
          × Chooses (t ∷ ts) resp
    unfolding Images
    rank_settled-Chooses t ts sound =
        let (ranked, e, (from, to, count)) =
          traverse-Images (with_ly X graph b_sys.coords) (t ∷ ts)
            (λ u m. with_ly_done u (sound u m)) in
        let (first, first_in, _) = to t (Memᴰ.head refl) in
        let origin : (x : Ranked X graph)
            → Memᴰ x ranked
            → (u : SettledTarget) × Memᴰ u (t ∷ ts) × (x.0 ≡ u) =
          λ x m. let (u, m', h) = from x m in (u, m', with_ly_same u x (sound u m') h) in
        let (star, resp, star_in, made, good, least) =
          respond-sorted ranked (sort_by (ranking X graph) ranked) first refl first_in
            (λ x m. let (u, m', same) = origin x m in subst Sound (sym same) (sound u m')) in
        let (u, m', same) = origin star star_in in
        (
          resp,
          rank_settled_at t ts ranked resp e made,
          (
            star.0,
            subst (λ v. Memᴰ v (t ∷ ts)) (sym same) m',
            subst (λ n. Responds star.0 (n - 1) resp) count good,
            λ v m.
                let (x, x_in, h) = to v m in
                subst (λ w. star.0.jumps ≤ w.jumps) (with_ly_same v x (sound v m) h) (least x x_in),
          ),
        )
