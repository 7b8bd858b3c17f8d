-- ===== src/Dto.antt =====
-- src/dto.rs: the bodies of the requests and of the responses.
use erbridge_palu.Prelude.{ℕ, Bool, Option, List, ℤ, Text}
use erbridge_palu.Prelude.HashMap.{HashMap}
use erbridge_palu.External.{External}
use erbridge_palu.Routing.{Preference}

pub data SystemRef : Type 0 where
  name : Text → SystemRef
  id : ℤ → SystemRef

pub data ShipRef : Type 0 where
  name : Text → ShipRef
  id : ℤ → ShipRef

pub data RoutePreference : Type 0 where
  shortest safest prefer_gates : RoutePreference

-- `From<RoutePreference> for Preference`
unfoldable pub preference_of : RoutePreference → Preference
preference_of RoutePreference.shortest = Preference.shortest
preference_of RoutePreference.safest = Preference.safest
preference_of RoutePreference.prefer_gates = Preference.prefer_gates

pub data ConnectionKind : Type 0 where
  bridge wormhole : ConnectionKind

pub record Connection : Type 0 where
  pub kind : ConnectionKind
  pub from : SystemRef
  pub to : SystemRef
  pub max_size : Option Text

abbrev pub max_destinations : ℕ
max_destinations = 1000

pub record GateRouteRequest : Type 0 where
  pub from : SystemRef
  pub to : List SystemRef
  pub preference : RoutePreference
  pub avoid : List SystemRef
  pub use_wormholes : Bool
  pub use_bridges : Bool
  pub connections : List Connection
  pub include_thera : Bool
  pub include_turnur : Bool
  pub include_zarzakh : Bool

-- `jdc_level` is a `u8`.
pub record BlopsRouteRequest : Type 0 where
  pub from : SystemRef
  pub to : SystemRef
  pub ship : Option ShipRef
  pub jdc_level : ℕ
  pub preference : RoutePreference
  pub avoid : List SystemRef
  pub use_wormholes : Bool
  pub use_bridges : Bool
  pub connections : List Connection
  pub include_thera : Bool
  pub include_turnur : Bool
  pub include_zarzakh : Bool

pub record RangeRequest : Type 0 where
  pub from : SystemRef
  pub ship : ShipRef
  pub jdc_level : ℕ

module _ (X : External) where
  open X use {F32, F64, DateTime}

  pub record RouteStep : Type 0 where
    pub system : Text
    pub system_id : ℤ
    pub security : F32
    pub sec_class : Text
    pub via : Text

  pub data GateRouteOutcome : Type 0 where
    route : (jumps : ℕ) (path : List RouteStep) → GateRouteOutcome
    failure : (error message : Text) → GateRouteOutcome

  pub record GateRouteResult : Type 0 where
    pub to : SystemRef
    pub outcome : GateRouteOutcome

  pub record GateRouteResponse : Type 0 where
    pub from : SystemRef
    pub results : List GateRouteResult

  pub record BlopsSystem : Type 0 where
    pub system : Text
    pub system_id : ℤ
    pub security : F32
    pub sec_class : Text

  pub record BlopsCandidate : Type 0 where
    pub system : BlopsSystem
    pub gate_jumps : ℕ
    pub ly_to_b : F64

  pub record BlopsBridge : Type 0 where
    pub from : BlopsSystem
    pub to : BlopsSystem
    pub jump_ly : F64
    pub in_range : Bool

  pub record BlopsChosen : Type 0 where
    pub gate_jumps : ℕ
    pub gate_path : List RouteStep
    pub bridge : BlopsBridge

  pub record BlopsRouteResponse : Type 0 where
    pub jdc_level : ℕ
    pub effective_ly : F64
    pub defaulted : Bool
    pub chosen : BlopsChosen
    pub alternates : List BlopsCandidate

  pub record RangeHull : Type 0 where
    pub name : Text
    pub type_id : ℤ
    pub base_ly : F64

  pub record RangeSummary : Type 0 where
    pub reachable_count : ℕ
    pub farthest_ly : F64
    pub by_sec_class : HashMap Text ℕ

  pub record RangeReachable : Type 0 where
    pub system : Text
    pub system_id : ℤ
    pub security : F32
    pub sec_class : Text
    pub jump_ly : F64

  pub record RangeSystem : Type 0 where
    pub system : Text
    pub system_id : ℤ
    pub security : F32
    pub sec_class : Text

  pub record RangeResponse : Type 0 where
    pub summary : RangeSummary
    pub jdc_level : ℕ
    pub effective_ly : F64
    pub source : RangeSystem
    pub hull : RangeHull
    pub reachable : List RangeReachable
