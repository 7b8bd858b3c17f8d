-- ===== src/Tests/Data.antt =====
-- Jita (0), Perimeter (1) and Urlen (2), with gates 0 - 1 and 1 - 2, the second one listed twice.
use erbridge_palu.Prelude.{◌<◌, none, some, [], ◌∷◌, length, text_of, pos, arith, int_eq, text_eq}
use erbridge_palu.External.Sample.{sample, sample-IsPetgraph}
use erbridge_palu.Model.{System, SecClass, RawSdeData, GraphData}
use erbridge_palu.Graph.{build_graph_data}
use erbridge_palu.Services.Route.Endpoints.{Serves, build_graph_data-Serves}
use erbridge_palu.EveScout.{EveScoutSnapshot}
use erbridge_palu.Services.Route.{Moment}

abbrev pub raw : RawSdeData sample
raw = record {
  systems =
      record {
        id = pos 30000142;
        name = text_of "Jita";
        security = 90;
        sec_class = SecClass.highsec;
        coords = (0, 0, 0);
        region_id = pos 1;
        constellation_id = pos 1;
      }
      ∷ record {
        id = pos 30000144;
        name = text_of "Perimeter";
        security = 90;
        sec_class = SecClass.highsec;
        coords = (1, 0, 0);
        region_id = pos 1;
        constellation_id = pos 1;
      }
      ∷ record {
        id = pos 30000139;
        name = text_of "Urlen";
        security = 90;
        sec_class = SecClass.highsec;
        coords = (2, 0, 0);
        region_id = pos 1;
        constellation_id = pos 1;
      }
      ∷ [];
  gate_pairs =
      (pos 30000142, pos 30000144)
      ∷ (pos 30000144, pos 30000139)
      ∷ (pos 30000139, pos 30000144)
      ∷ [];
  hulls = record {
    hulls =
        record { type_id = pos 22430; name = text_of "Sin"; group_id = pos 898; base_ly = 4 } ∷ [];
    jdc_bonus_per_level = some 0;
  };
}

abbrev pub graph : GraphData sample
graph = build_graph_data sample raw 7

abbrev pub serves : Serves sample graph
serves = build_graph_data-Serves sample sample-IsPetgraph raw 7

abbrev pub urlen : System sample
urlen = record {
  id = pos 30000139;
  name = text_of "Urlen";
  security = 90;
  sec_class = SecClass.highsec;
  coords = (2, 0, 0);
  region_id = pos 1;
  constellation_id = pos 1;
}

abbrev pub scout : EveScoutSnapshot sample
scout = record { thera = []; turnur = []; fetched_at = none }

abbrev pub moment : Moment sample
moment = record { now = 5; scratch = record { dist = []; prev = []; visited = [] } }

pub jita_in : 0 < length graph.systems
unfolding build_graph_data
jita_in = omega arith
