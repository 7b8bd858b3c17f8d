-- ===== src/Tests/Staging.antt =====
-- Staging over the small map.
use erbridge_palu.Prelude.{
  ℕ, ◌<◌, ◌≡◌, ◌↔◌, ◌>>=◌, refl, ap, List, [], ◌∷◌, Memᴰ, map, filter, length, arith, inl, inr,
  done, subst, sym, Bool, true, false, Bool-cases, text_of,
}
use mathlib.Core.List.Memᴰ
use erbridge_palu.External.Sample.{sample, sample-IsIeee}
use erbridge_palu.Error.{AppError, Reply, ok}
use erbridge_palu.Dto.{SystemRef, BlopsRouteResponse}
use erbridge_palu.Model.{is_wormhole}
use erbridge_palu.Graph.{build_graph_data}
use erbridge_palu.Dijkstra.Multi.{SettledTarget}
use erbridge_palu.Routing.{RouteContext, Preference, new}
use erbridge_palu.Services.Blops.{StagingQuery, Ranked, respond, rank_settled, compute_staging}
use erbridge_palu.Services.Blops.Order.{Before, Settled, rank_settled-Before}
use erbridge_palu.Prelude.Sorting.Ascending.{Linked}
use erbridge_palu.Services.Blops.Promise.{TreeIn, Answered, compute_staging_answers}
use erbridge_palu.Services.Blops.Ranking.{Sound, Chooses, rank_settled-Chooses}
use erbridge_palu.Tests.Data.{graph, serves, scout, moment, urlen}

abbrev plain : RouteContext sample
plain = new sample graph [] Preference.shortest

-- Perimeter, one jump from Jita.
abbrev perimeter : SettledTarget
perimeter = record { node = 1; jumps = 1; path = 0 ∷ 1 ∷ [] }

perimeter-Sound : Sound sample graph perimeter
unfolding build_graph_data
perimeter-Sound = (
  omega arith,
  λ x m. elim (Memᴰ.cases_cons m) [
    | inl same ↦ omega arith
    | inr later ↦ omega (arith, Memᴰ.eq_of_singleton later)
  ],
)

rank_settled-Chooses_example :
    (resp : BlopsRouteResponse sample) × (rank_settled sample graph plain 4 urlen (perimeter ∷ [])
      ≡ done (ok resp))
    × Chooses sample graph plain 4 urlen (perimeter ∷ []) resp
rank_settled-Chooses_example =
    rank_settled-Chooses sample graph plain 4 urlen perimeter []
      (λ u m. subst (Sound sample graph) (sym (Memᴰ.eq_of_singleton m)) perimeter-Sound)

mem-within :
    (p : (ℕ × ℕ × ℕ) × ℕ → Bool) (t : List ((ℕ × ℕ × ℕ) × ℕ)) (i : ℕ)
    → Memᴰ i (map (λ e. e.1) (filter p t))
    → (e : (ℕ × ℕ × ℕ) × ℕ) × Memᴰ e t × (i ≡ e.1)
mem-within p [] i m = absurd (Memᴰ.not-nil m)
mem-within p (x ∷ t) i m = elim (Bool-cases (p x)) [
  | inl keep ↦ elim (Memᴰ.cases_cons (rw keep at m)) [
    | inl same ↦ (x, Memᴰ.head refl, same)
    | inr later ↦ let (e, m', same) = mem-within p t i later in (e, Memᴰ.tail m', same)
  ]
  | inr drop ↦ let (e, m', same) = mem-within p t i (rw drop at m) in (e, Memᴰ.tail m', same)
]

points_in : (e : (ℕ × ℕ × ℕ) × ℕ) → Memᴰ e graph.spatial_index → e.1 < length graph.systems
unfolding build_graph_data is_wormhole
points_in e m = elim (Memᴰ.cases_cons m) [
  | inl same ↦ omega (arith, ap (λ x. x.1) same)
  | inr later ↦ elim (Memᴰ.cases_cons later) [
    | inl same ↦ omega (arith, ap (λ x. x.1) same)
    | inr last ↦ omega (arith, ap (λ x. x.1) (Memᴰ.eq_of_singleton last))
  ]
]

tree_in : TreeIn sample graph
tree_in q r i m =
    let (e, m', same) = mem-within _ graph.spatial_index i m in
    subst (λ x. x < length graph.systems) (sym same) (points_in e m')

-- From Jita to Urlen, within two light-years.
abbrev query : StagingQuery sample
query = record {
  from = SystemRef.name (text_of "Jita");
  to = SystemRef.name (text_of "Urlen");
  effective_ly = 2;
  overlay = record {
    avoid = [];
    include_zarzakh = false;
    use_wormholes = false;
    use_bridges = false;
    connections = [];
    include_thera = false;
    include_turnur = false;
  };
  preference = Preference.shortest;
}

compute_staging_answers_example :
    (r : Reply (BlopsRouteResponse sample)) × (compute_staging sample graph scout query
        (λ s. true)
        (λ s. true)
        (λ s. AppError.cyno_target_highsec s.name)
        moment
      ≡ done r)
    × Answered sample graph serves tree_in scout query
        (λ s. true)
        (λ s. true)
        (λ s. AppError.cyno_target_highsec s.name)
        moment
        r
compute_staging_answers_example =
    compute_staging_answers sample graph serves tree_in scout query (λ s. true) (λ s. true)
      (λ s. AppError.cyno_target_highsec s.name) moment

rank_settled-Before_example :
    (sorted : List (Ranked sample graph)) × Linked (Before sample sample-IsIeee graph) sorted
    × ((x : Ranked sample graph)
        → Memᴰ x sorted ↔ Settled sample sample-IsIeee graph plain 4 urlen (perimeter ∷ []) x)
    × (rank_settled sample graph plain 4 urlen (perimeter ∷ [])
        ≡ (respond sample graph plain 4 urlen sorted >>= λ resp. done (ok resp)))
rank_settled-Before_example =
    rank_settled-Before sample sample-IsIeee graph plain 4 urlen perimeter []
      (λ u m. (subst (Sound sample graph) (sym (Memᴰ.eq_of_singleton m)) perimeter-Sound).0)
