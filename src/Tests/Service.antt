-- ===== src/Tests/Service.antt =====
-- A service that starts offline with the cache at hand, and polls and refreshes after that.
use erbridge_palu.Prelude.{
  ℕ, ◌≡◌, refl, Option, none, some, List, [], false, pos, done, Text, text_of, text_beq,
  nat_to_string,
}
use erbridge_palu.Prelude.HashMap
use erbridge_palu.External.Sample.{sample, sample-IsPetgraph, sample-IsKdTree, sample-IsIeee}
use erbridge_palu.EveScout.{RawSignature}
use erbridge_palu.AppState.{AppState}
use erbridge_palu.Disk.{ok, path_beq, prefixes, exists_at}
use erbridge_palu.Sde.Cache.{body}
use erbridge_palu.Sde.Parse.{parse_systems, parse_gate_pairs, parse_hull_catalog}
use erbridge_palu.Services.Route.Endpoints.{Serves}
use erbridge_palu.Services.Route.Fanout.{Promised}
use erbridge_palu.Tasks.{
  Service, started, start, ticking, tick, poll, Reach, starts, next, checks, polls,
}
use erbridge_palu.Tasks.Steps.{Healthy, Reach-Healthy, Reach-Promised}
use erbridge_palu.Graph.{build_graph_data}
use erbridge_palu.Model.{RawSdeData}
use erbridge_palu.Error.{Reply}
use erbridge_palu.Dto.{
  SystemRef, ShipRef, RoutePreference, BlopsRouteRequest, BlopsRouteResponse, RangeRequest,
  RangeResponse,
}
use erbridge_palu.Handlers.{route_blops, route_range}
use erbridge_palu.Handlers.Replies.{RangeReply, StagingReply}
use erbridge_palu.Tasks.Replies.{Reach-Replies}
use erbridge_palu.Tests.Data.{moment}
use erbridge_palu.Tests.Cache.{formats, formats-IsSerde, cache, meta, calm, offline, online}
use erbridge_palu.Tests.Requests.{request}

abbrev from_json : Text → Option (List (RawSignature sample))
from_json s = some []

abbrev state : AppState sample
state = started sample formats (
  record {
    systems = [];
    gate_pairs = [];
    hulls = record { hulls = []; jdc_bonus_per_level = none };
  },
  meta,
)

started_offline : start sample formats offline cache 3 calm ≡ (ok state, calm)
unfolding start HashMap.get path_beq text_beq nat_to_string exists_at prefixes parse_systems
    parse_gate_pairs parse_hull_catalog
started_offline = refl

abbrev first : Service sample formats
first = record { state = state; world = calm; phase = ticking }

abbrev polled : Service sample formats
polled =
    poll sample formats from_json (body (text_of "[]")) 4 (tick sample formats online cache 4 first)

reached : Reach sample formats cache from_json polled
reached =
    next (next (starts offline 3 calm calm state started_offline) (checks online 4 refl))
      (polls (body (text_of "[]")) 4)

Reach-Healthy_example : Healthy sample formats formats-IsSerde cache from_json polled
Reach-Healthy_example = Reach-Healthy sample formats formats-IsSerde cache from_json reached

Reach-Promised_example :
    (serves : Serves sample polled.state.graph) × Promised sample polled.state.graph serves
      polled.state.eve_scout request
      (λ i. moment)
Reach-Promised_example =
    Reach-Promised sample formats formats-IsSerde cache from_json sample-IsPetgraph reached request
      (λ i. moment)

abbrev fan_out : RangeRequest
fan_out = record {
  from = SystemRef.name (text_of "Jita");
  ship = ShipRef.name (text_of "Sin");
  jdc_level = 5;
}

abbrev staged : BlopsRouteRequest
staged = record {
  from = SystemRef.name (text_of "Jita");
  to = SystemRef.id (pos 30000139);
  ship = none;
  jdc_level = 5;
  preference = RoutePreference.shortest;
  avoid = [];
  use_wormholes = false;
  use_bridges = false;
  connections = [];
  include_thera = false;
  include_turnur = false;
  include_zarzakh = false;
}

Reach-Replies_example :
    (raw : RawSdeData sample) × (build : ℕ) × (polled.state.graph
      ≡ build_graph_data sample raw build)
    × ((r : Reply (RangeResponse sample)) × (route_range sample polled.state.graph fan_out ≡ done r)
        × RangeReply sample sample-IsPetgraph sample-IsKdTree raw build sample-IsIeee fan_out r)
    × ((r : Reply (BlopsRouteResponse sample)) × (route_blops sample polled.state.graph
            polled.state.eve_scout staged moment
          ≡ done r)
        × StagingReply sample sample-IsPetgraph sample-IsKdTree raw build polled.state.eve_scout
            staged moment r)
Reach-Replies_example =
    Reach-Replies sample formats formats-IsSerde cache from_json sample-IsPetgraph sample-IsKdTree
      sample-IsIeee reached fan_out staged moment
