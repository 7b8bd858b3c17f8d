-- ===== src/Tests/Requests.antt =====
-- Requests over the small map, and the data around them.
use erbridge_palu.Prelude.{
  ◌≤◌, ◌≡◌, Memᴰ, none, some, List, [], ◌∷◌, text_of, done, nat_eq, int_eq, text_eq, false, pos,
  to_ascii_lowercase,
}
use erbridge_palu.External.Sample.{sample, sample-IsIeee}
use erbridge_palu.Error.{ok, err}
use erbridge_palu.Dto.{
  SystemRef, RoutePreference, GateRouteRequest, BlopsRouteRequest, RangeRequest,
}
use erbridge_palu.EveScout.{
  RawSignature, EveScoutSnapshot, partition, thera_system_id, turnur_system_id,
}
use erbridge_palu.EveScout.Split.{of_hub, partition_lem}
use erbridge_palu.Model.{by_name, by_type_id, from_raw, entry_of, min_base_ly_for_group}
use erbridge_palu.Model.Catalog.{latest, lookups_latest}
use erbridge_palu.Model.Least.{LeastOf, min_base_ly_for_group-LeastOf}
use erbridge_palu.Services.Route.{Moment}
use erbridge_palu.Services.Route.Fanout.{Promised, compute_gate_route_answers}
use erbridge_palu.Handlers.{validate_jdc_level, route_blops, route_range}
use erbridge_palu.Handlers.Levels.{bad_level, levels_checked}
use erbridge_palu.Tests.Data.{raw, graph, serves, scout, moment}

-- From Jita to Urlen and to a system that is not in the data.
abbrev pub request : GateRouteRequest
request = record {
  from = SystemRef.name (text_of "jita");
  to = SystemRef.id (pos 30000139) ∷ SystemRef.name (text_of "nowhere") ∷ [];
  preference = RoutePreference.shortest;
  avoid = [];
  use_wormholes = false;
  use_bridges = false;
  connections = [];
  include_thera = false;
  include_turnur = false;
  include_zarzakh = false;
}

compute_gate_route_answers_example : Promised sample graph serves scout request (λ i. moment)
compute_gate_route_answers_example =
    compute_gate_route_answers sample graph serves scout request (λ i. moment)

lookups_latest_example :
    (by_name sample (from_raw sample raw.hulls) (text_of "SIN")
      ≡ latest
          (λ h. to_ascii_lowercase h.name)
          (entry_of sample)
          (to_ascii_lowercase (text_of "SIN"))
          raw.hulls.hulls
          none)
    × (by_type_id sample (from_raw sample raw.hulls) (pos 22430)
        ≡ latest (λ h. h.type_id) (entry_of sample) (pos 22430) raw.hulls.hulls none)
lookups_latest_example = lookups_latest sample raw.hulls (text_of "SIN") (pos 22430)

min_base_ly_for_group-LeastOf_example :
    LeastOf sample sample-IsIeee
      (pos 898)
      (λ h. Memᴰ h raw.hulls.hulls)
      (min_base_ly_for_group sample (from_raw sample raw.hulls) (pos 898))
min_base_ly_for_group-LeastOf_example =
    min_base_ly_for_group-LeastOf sample sample-IsIeee (pos 898) raw.hulls

abbrev rows : List (RawSignature sample)
rows =
    record {
      out_system_id = thera_system_id;
      in_system_id = pos 30000142;
      in_system_name = text_of "Jita";
      max_ship_size = none;
      signature_type = text_of "wormhole";
      expires_at = 9;
    }
    ∷ record {
      out_system_id = turnur_system_id;
      in_system_id = pos 30000139;
      in_system_name = text_of "Urlen";
      max_ship_size = none;
      signature_type = text_of "data";
      expires_at = 9;
    }
    ∷ []

partition_lem_example :
    ((partition sample rows 3).thera ≡ of_hub sample thera_system_id rows)
    × ((partition sample rows 3).turnur ≡ of_hub sample turnur_system_id rows)
    × ((partition sample rows 3).fetched_at ≡ some 3)
partition_lem_example = partition_lem sample rows 3

levels_checked_example :
    (1 ≤ 6 × 6 ≤ 5 → validate_jdc_level 6 ≡ ok tt)
    × (¬ (1 ≤ 6 × 6 ≤ 5)
        → ((scout : EveScoutSnapshot sample) (req : BlopsRouteRequest) (moment : Moment sample)
            → req.jdc_level ≡ 6
            → route_blops sample graph scout req moment ≡ done (err (bad_level 6)))
          × ((req : RangeRequest)
              → req.jdc_level ≡ 6
              → route_range sample graph req ≡ done (err (bad_level 6))))
levels_checked_example = levels_checked sample graph 6
