-- ===== src/Tests/Ranges.antt =====
-- A capital ship between five systems on a line, some of them out of its reach.
use erbridge_palu.Prelude.{ℕ, ◌≡◌, refl, some, [], ◌∷◌, ℤ, text_of, pos, done, Memᴰ, ◌↔◌}
use erbridge_palu.External.Sample.{sample, sample-IsPetgraph, sample-IsIeee, sample-IsKdTree}
use erbridge_palu.Dto.{SystemRef, ShipRef, RangeHull, RangeRequest, RangeResponse}
use erbridge_palu.Model.{System, SecClass, RawSdeData}
use erbridge_palu.Graph.{build_graph_data}
use erbridge_palu.Graph.Spatial.{Within, spatial_index-Within}
use erbridge_palu.Error.{Reply}
use erbridge_palu.Handlers.{route_range}
use erbridge_palu.Handlers.Replies.{RangeReply, route_range-RangeReply}
use erbridge_palu.Services.Range.{compute_reachable}
use erbridge_palu.Services.Range.Reachable.{Reaches, compute_reachable-Reaches}

abbrev amamake : System sample
amamake = record {
  id = pos 1;
  name = text_of "Amamake";
  security = 40;
  sec_class = SecClass.lowsec;
  coords = (0, 0, 0);
  region_id = pos 1;
  constellation_id = pos 1;
}

abbrev placed : ℤ → SecClass → ℕ → System sample
placed id sec_class x = record {
  id = id;
  name = text_of "Osoggur";
  security = 0;
  sec_class = sec_class;
  coords = (x, 0, 0);
  region_id = pos 1;
  constellation_id = pos 1;
}

abbrev line : RawSdeData sample
line = record {
  systems =
      amamake
      ∷ placed (pos 2) SecClass.nullsec 2
      ∷ placed (pos 3) SecClass.highsec 1
      ∷ placed (pos 4) SecClass.wormhole 1
      ∷ placed (pos 5) SecClass.lowsec 1
      ∷ placed (pos 6) SecClass.nullsec 9
      ∷ [];
  gate_pairs = [];
  hulls = record {
    hulls =
        record { type_id = pos 22430; name = text_of "Sin"; group_id = pos 898; base_ly = 2 } ∷ [];
    jdc_bonus_per_level = some 0;
  };
}

abbrev hull : RangeHull sample
hull = record { name = text_of "Sin"; type_id = pos 22430; base_ly = 2 }

compute_reachable-Reaches_example :
    (r : RangeResponse sample) × (compute_reachable sample
        (build_graph_data sample line 7)
        0
        hull
        5
        2
      ≡ done r)
    × Reaches sample sample-IsPetgraph sample-IsKdTree sample-IsIeee line.systems 0 amamake hull 5 2
        r
compute_reachable-Reaches_example =
    compute_reachable-Reaches sample sample-IsPetgraph sample-IsKdTree sample-IsIeee line 7 0
      amamake hull 5 2 refl

abbrev from_amamake : RangeRequest
from_amamake = record {
  from = SystemRef.name (text_of "amamake");
  ship = ShipRef.name (text_of "Sin");
  jdc_level = 5;
}

route_range-RangeReply_example :
    (r : Reply (RangeResponse sample)) × (route_range sample
        (build_graph_data sample line 7)
        from_amamake
      ≡ done r)
    × RangeReply sample sample-IsPetgraph sample-IsKdTree line 7 sample-IsIeee from_amamake r
route_range-RangeReply_example =
    route_range-RangeReply sample sample-IsPetgraph sample-IsKdTree line 7 sample-IsIeee
      from_amamake

spatial_index-Within_example :
    Memᴰ 4 (sample.within_unsorted (build_graph_data sample line 7).spatial_index (0, 0, 0) 4)
    ↔ Within sample sample-IsPetgraph sample-IsKdTree line.systems (0, 0, 0) 4 4
spatial_index-Within_example =
    spatial_index-Within sample sample-IsPetgraph sample-IsKdTree line 7 (0, 0, 0) 4 4
