-- ===== src/Handlers.antt =====
-- src/handlers/route.rs: the three routes of the API, given the snapshots that they load.
pub mod Levels
pub mod Replies
use erbridge_palu.Prelude.{
  ℕ, Bool, true, false, not, ◌&&◌, Option, none, some, ◌++◌, leb, ℤ, pos, Text, text_of,
  nat_to_string, to_string, if◌then◌else◌, Outcome, done, panicked, out_of_fuel, ◌>>=◌,
}
use erbridge_palu.External.{External}
use erbridge_palu.Error.{AppError, Reply, ok, err, and_then}
use erbridge_palu.Dto.{
  ShipRef, preference_of, GateRouteRequest, GateRouteResponse, BlopsRouteRequest,
  BlopsRouteResponse, RangeRequest, RangeResponse, RangeHull,
}
use erbridge_palu.EveScout.{EveScoutSnapshot}
use erbridge_palu.Model.{
  GraphData, HullEntry, System, is_highsec, by_type_id, by_name, bonus_per_level,
  min_base_ly_for_group,
}
use erbridge_palu.Range.{effective_ly}
use erbridge_palu.Services.Route.{OverlayInputs, Moment, resolve_system}
use erbridge_palu.Services.Route.Compute.{compute_gate_route}
use erbridge_palu.Services.Blops.{StagingQuery, compute_staging}
use erbridge_palu.Services.Range.{compute_reachable}

abbrev pub blops_group_id : ℤ
blops_group_id = pos 898

-- `(1..=5).contains(&jdc_level)`; `Unit` is `()`.
unfoldable pub validate_jdc_level : ℕ → Reply (Unit {0})
validate_jdc_level jdc_level =
    if leb 1 jdc_level && leb jdc_level 5
    then ok tt
    else err (
        AppError.invalid_param (text_of "jdc_level must be 1..=5, got " ++ nat_to_string jdc_level))

-- `ok_or_else(|| AppError::UnknownHull(..))`
unfoldable pub or_unknown_hull {ℓ} : {A : Type ℓ} → Option A → Text → Reply A
or_unknown_hull none what = err (AppError.unknown_hull what)
or_unknown_hull (some a) what = ok a

module _ (X : External) (graph : GraphData X) where
  open X use {F64}

  unfoldable pub resolve_hull : ShipRef → Reply (HullEntry X)
  unfolding or_unknown_hull by_type_id by_name
  resolve_hull (ShipRef.id id) = or_unknown_hull (by_type_id X graph.hulls id) (to_string id)
  resolve_hull (ShipRef.name name) = or_unknown_hull (by_name X graph.hulls name) name

  -- The range of a checked level, and whether the ship was defaulted.
  unfoldable pub range_of : Option ShipRef → ℕ → Reply (F64 × Bool)
  unfolding resolve_hull effective_ly bonus_per_level min_base_ly_for_group or_unknown_hull
  range_of (some r) jdc_level = elim (resolve_hull r) [
    | err e ↦ err e
    | ok entry ↦ ok (effective_ly X entry.base_ly (bonus_per_level X graph.hulls) jdc_level, false)
  ]
  range_of none jdc_level =
      elim (or_unknown_hull (min_base_ly_for_group X graph.hulls blops_group_id)
        (text_of "no Black Ops hull in catalog")) [
          | err e ↦ err e
          | ok base ↦ ok (effective_ly X base (bonus_per_level X graph.hulls) jdc_level, true)
        ]

  unfoldable pub resolve_effective_ly : Option ShipRef → ℕ → Reply (F64 × Bool)
  unfolding validate_jdc_level range_of
  resolve_effective_ly ship jdc_level = elim (validate_jdc_level jdc_level) [
    | err e ↦ err e
    | ok _ ↦ range_of ship jdc_level
  ]

  unfoldable pub route_system :
      EveScoutSnapshot X → GateRouteRequest → (ℕ → Moment X) → Outcome (Reply (GateRouteResponse X))
  unfolding compute_gate_route
  route_system scout req moments = compute_gate_route X graph scout req moments

  abbrev pub query_of : BlopsRouteRequest → F64 → StagingQuery X
  query_of req effective = record {
    from = req.from;
    to = req.to;
    effective_ly = effective;
    overlay = record {
      avoid = req.avoid;
      include_zarzakh = req.include_zarzakh;
      use_wormholes = req.use_wormholes;
      use_bridges = req.use_bridges;
      connections = req.connections;
      include_thera = req.include_thera;
      include_turnur = req.include_turnur;
    };
    preference = preference_of req.preference;
  }

  -- The fields that the handler overwrites.
  unfoldable pub annotate : ℕ → F64 → Bool → BlopsRouteResponse X → BlopsRouteResponse X
  annotate jdc_level effective defaulted resp = record {
    jdc_level = jdc_level;
    effective_ly = effective;
    defaulted = defaulted;
    chosen = resp.chosen;
    alternates = resp.alternates;
  }

  unfoldable pub route_blops :
      EveScoutSnapshot X → BlopsRouteRequest → Moment X → Outcome (Reply (BlopsRouteResponse X))
  unfolding resolve_effective_ly compute_staging annotate is_highsec
  route_blops scout req moment = elim (resolve_effective_ly req.ship req.jdc_level) [
    | err e ↦ done (err e)
    | ok (effective, defaulted) ↦
        and_then
          (compute_staging X graph scout (query_of req effective)
            (λ b. not (is_highsec b.sec_class)) (λ star. true)
            (λ b. AppError.cyno_target_highsec b.name) moment)
          (λ resp. done (ok (annotate req.jdc_level effective defaulted resp)))
  ]

  unfoldable pub route_range : RangeRequest → Outcome (Reply (RangeResponse X))
  unfolding validate_jdc_level resolve_system resolve_hull compute_reachable effective_ly
      bonus_per_level
  route_range req = elim (validate_jdc_level req.jdc_level) [
    | err e ↦ done (err e)
    | ok _ ↦ elim (resolve_system X graph req.from) [
      | err e ↦ done (err e)
      | ok from ↦ elim (resolve_hull req.ship) [
        | err e ↦ done (err e)
        | ok entry ↦
            let effective =
              effective_ly X entry.base_ly (bonus_per_level X graph.hulls) req.jdc_level in
            let hull : RangeHull X = record {
              name = entry.name;
              type_id = entry.type_id;
              base_ly = entry.base_ly;
            } in
            compute_reachable X graph from hull req.jdc_level effective >>= λ resp. done (ok resp)
      ]
    ]
  ]
