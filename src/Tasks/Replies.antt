-- ===== src/Tasks/Replies.antt =====
-- What the routes reply while the background tasks take their steps.
use erbridge_palu.Prelude.{ℕ, ◌≡◌, sym, subst, Option, List, Text, done}
use erbridge_palu.External.{External, IsPetgraph, IsKdTree, IsIeee}
use erbridge_palu.Error.{Reply}
use erbridge_palu.Dto.{BlopsRouteRequest, BlopsRouteResponse, RangeRequest, RangeResponse}
use erbridge_palu.Model.{RawSdeData, GraphData}
use erbridge_palu.EveScout.{RawSignature}
use erbridge_palu.Graph.{build_graph_data}
use erbridge_palu.Services.Route.{Moment}
use erbridge_palu.Sde.Cache.{SdeCache, Formats, IsSerde}
use erbridge_palu.Handlers.{route_blops, route_range}
use erbridge_palu.Handlers.Replies.{
  RangeReply, StagingReply, route_range-RangeReply, route_blops-StagingReply,
}
use erbridge_palu.Tasks.{Service, Reach}
use erbridge_palu.Tasks.Steps.{Reach-Healthy}

module _ (X : External) (F : Formats X) (S : IsSerde X F) (cache : SdeCache)
    (from_json : Text → Option (List (RawSignature X))) (P : IsPetgraph X) (D : IsKdTree X)
    (I : IsIeee X) where
  -- At every step of the tasks of a started service the served graph is one that was built, and for
  -- it a range request and a staging request are replied to: with the error of what is refused
  -- first, or with the systems in range, or with the answer of the staging service.
  pub Reach-Replies :
      {s : Service X F}
      → Reach X F cache from_json s
      → (range_req : RangeRequest) (req : BlopsRouteRequest) (moment : Moment X)
      → (raw : RawSdeData X) × (build : ℕ) × (s.state.graph ≡ build_graph_data X raw build)
        × ((r : Reply (RangeResponse X)) × (route_range X s.state.graph range_req ≡ done r)
            × RangeReply X P D raw build I range_req r)
        × ((r : Reply (BlopsRouteResponse X)) × (route_blops X s.state.graph s.state.eve_scout req
                moment
              ≡ done r)
            × StagingReply X P D raw build s.state.eve_scout req moment r)
  Reach-Replies {s} r range_req req moment =
      let (raw, build, same) = (Reach-Healthy X F S cache from_json r).serving in
      (
        raw,
        build,
        same,
        subst
            (λ (g : GraphData X).
              (r : Reply (RangeResponse X)) × (route_range X g range_req ≡ done r)
              × RangeReply X P D raw build I range_req r)
            (sym same) (route_range-RangeReply X P D raw build I range_req),
        subst
            (λ (g : GraphData X).
              (r : Reply (BlopsRouteResponse X)) × (route_blops X g s.state.eve_scout req moment
                ≡ done r)
              × StagingReply X P D raw build s.state.eve_scout req moment r)
            (sym same) (route_blops-StagingReply X P D raw build s.state.eve_scout req moment),
      )
