-- ===== src/Handlers/Replies.antt =====
-- The replies of the staging and of the range route over a built graph.
use erbridge_palu.Prelude.{
  ℕ, Bool, true, not, ◌≡◌, refl, subst, inl, inr, some, get_elem?, get_elem?_lt,
  lt-length_of_get_elem?, done,
}
use erbridge_palu.External.{External, IsPetgraph, IsKdTree, IsIeee}
use erbridge_palu.Error.{AppError, Reply, ok, err}
use erbridge_palu.Services.Route.Checked.{Reply-cases}
use erbridge_palu.Dto.{
  BlopsRouteRequest, BlopsRouteResponse, RangeRequest, RangeResponse, RangeHull,
}
use erbridge_palu.EveScout.{EveScoutSnapshot}
use erbridge_palu.Model.{GraphData, HullEntry, RawSdeData, System, bonus_per_level, is_highsec}
use erbridge_palu.Range.{effective_ly}
use erbridge_palu.Graph.{build_graph_data}
use erbridge_palu.Graph.Spatial.{spatial_index-Within}
use erbridge_palu.Services.Route.{Moment, resolve_system}
use erbridge_palu.Services.Route.Endpoints.{build_graph_data-Serves, resolve_system_bound}
use erbridge_palu.Services.Blops.Promise.{TreeIn, Answered, compute_staging_answers}
use erbridge_palu.Services.Range.Reachable.{Reaches, compute_reachable-Reaches}
use erbridge_palu.Handlers.{
  validate_jdc_level, resolve_hull, resolve_effective_ly, query_of, annotate, route_blops,
  route_range,
}

module _ (X : External) (P : IsPetgraph X) (D : IsKdTree X) (raw : RawSdeData X)
    (build_number : ℕ) where
  abbrev pub served : GraphData X
  served = build_graph_data X raw build_number

  -- The hull that a range response names.
  abbrev pub range_hull : HullEntry X → RangeHull X
  range_hull entry = record { name = entry.name; type_id = entry.type_id; base_ly = entry.base_ly }

  -- The reply to a range request: its level, its system or its hull is refused, in this order, or
  -- the systems in the range of the hull at that level.
  pub data RangeReply (I : IsIeee X) (req : RangeRequest) : Reply (RangeResponse X) → Type 0 where
    level_refused :
        {e : AppError} → validate_jdc_level req.jdc_level ≡ err e → RangeReply I req (err e)
    from_unknown :
        {e : AppError}
        → validate_jdc_level req.jdc_level ≡ ok tt
        → resolve_system X served req.from ≡ err e
        → RangeReply I req (err e)
    hull_unknown :
        {from : ℕ} {e : AppError}
        → validate_jdc_level req.jdc_level ≡ ok tt
        → resolve_system X served req.from ≡ ok from
        → resolve_hull X served req.ship ≡ err e
        → RangeReply I req (err e)
    reached :
        {from : ℕ} {src : System X} {entry : HullEntry X} {r : RangeResponse X}
        → validate_jdc_level req.jdc_level ≡ ok tt
        → resolve_system X served req.from ≡ ok from
        → get_elem? raw.systems from ≡ some src
        → resolve_hull X served req.ship ≡ ok entry
        → Reaches X P D I raw.systems from src
            (range_hull entry)
            req.jdc_level
            (effective_ly X entry.base_ly (bonus_per_level X served.hulls) req.jdc_level)
            r
        → RangeReply I req (ok r)

  -- Over a graph that was built, the range route always replies: with the error of the level, of the
  -- system or of the hull, whichever is first, or with the systems in range of the hull at the level.
  pub route_range-RangeReply :
      (I : IsIeee X) (req : RangeRequest)
      → (r : Reply (RangeResponse X)) × (route_range X served req ≡ done r) × RangeReply I req r
  unfolding route_range build_graph_data
  route_range-RangeReply I req = elim (Reply-cases (validate_jdc_level req.jdc_level)) [
    | inl (e, bad) ↦ (err e, rw (route_range, bad) refl, level_refused bad)
    | inr (_, valid) ↦ elim (Reply-cases (resolve_system X served req.from)) [
      | inl (e, bad) ↦ (err e, rw (route_range, valid, bad) refl, from_unknown valid bad)
      | inr (from, at) ↦ elim (Reply-cases (resolve_hull X served req.ship)) [
        | inl (e, bad) ↦ (err e, rw (route_range, valid, at, bad) refl, hull_unknown valid at bad)
        | inr (entry, named) ↦
            let serves = build_graph_data-Serves X P raw build_number in
            let (src, there) =
              get_elem?_lt served.systems from
                (resolve_system_bound X served serves req.from from at) in
            let (r, ran, reaches) =
              compute_reachable-Reaches X P D I raw build_number from src (range_hull entry)
                req.jdc_level
                (effective_ly X entry.base_ly (bonus_per_level X served.hulls) req.jdc_level)
                there in
            (
              ok r,
              rw (route_range, valid, at, named, ran) refl,
              reached valid at there named reaches,
            )
      ]
    ]
  ]

  pub built-TreeIn : TreeIn X served
  unfolding build_graph_data
  built-TreeIn q r i m =
      let (s, at, _, _) = (spatial_index-Within X P D raw build_number q r i).0 m in
      lt-length_of_get_elem? raw.systems i s at

  -- What the staging service answers on a served graph, at the range, where a target of high security
  -- is refused and every system may be staged from.
  abbrev pub Staging :
      EveScoutSnapshot X
      → BlopsRouteRequest
      → X.F64
      → Moment X
      → Reply (BlopsRouteResponse X)
      → Type 0
  Staging scout req ly moment =
      Answered X served (build_graph_data-Serves X P raw build_number) built-TreeIn scout
        (query_of X served req ly) (λ b. not (is_highsec b.sec_class)) (λ star. true)
        (λ b. AppError.cyno_target_highsec b.name) moment

  -- The reply to a staging request: its level or its ship is refused, or the staging service answers,
  -- and a response tells the range and whether the ship was defaulted.
  pub data StagingReply (scout : EveScoutSnapshot X) (req : BlopsRouteRequest) (moment : Moment X)
      : Reply (BlopsRouteResponse X) → Type 0 where
    ship_refused :
        {e : AppError}
        → resolve_effective_ly X served req.ship req.jdc_level ≡ err e
        → StagingReply scout req moment (err e)
    failed :
        {ly : X.F64} {defaulted : Bool} {e : AppError}
        → resolve_effective_ly X served req.ship req.jdc_level ≡ ok (ly, defaulted)
        → Staging scout req ly moment (err e)
        → StagingReply scout req moment (err e)
    staged :
        {ly : X.F64} {defaulted : Bool} {resp : BlopsRouteResponse X}
        → resolve_effective_ly X served req.ship req.jdc_level ≡ ok (ly, defaulted)
        → Staging scout req ly moment (ok resp)
        → StagingReply scout req moment (ok (annotate X served req.jdc_level ly defaulted resp))

  -- The route over a served graph always replies.
  pub route_blops-StagingReply :
      (scout : EveScoutSnapshot X) (req : BlopsRouteRequest) (moment : Moment X)
      → (r : Reply (BlopsRouteResponse X)) × (route_blops X served scout req moment ≡ done r)
        × StagingReply scout req moment r
  unfolding route_blops
  route_blops-StagingReply scout req moment =
      elim (Reply-cases (resolve_effective_ly X served req.ship req.jdc_level)) [
        | inl (e, bad) ↦ (err e, rw (route_blops, bad) refl, ship_refused bad)
        | inr ((ly, defaulted), valid) ↦
            let (reply, ran, answered) =
              compute_staging_answers X served (build_graph_data-Serves X P raw build_number)
                built-TreeIn scout (query_of X served req ly) (λ b. not (is_highsec b.sec_class))
                (λ star. true) (λ b. AppError.cyno_target_highsec b.name) moment in
            elim (Reply-cases reply) [
              | inl (e, is) ↦ (
                err e,
                rw (route_blops, valid, ran, is) refl,
                failed valid (subst (Staging scout req ly moment) is answered),
              )
              | inr (resp, is) ↦ (
                ok (annotate X served req.jdc_level ly defaulted resp),
                rw (route_blops, valid, ran, is) refl,
                staged valid (subst (Staging scout req ly moment) is answered),
              )
            ]
      ]
