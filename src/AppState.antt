-- ===== src/AppState.antt =====
-- src/app_state.rs and src/handlers/health.rs: the shared state, and what is reported of it. The
-- cells behind `ArcSwap` are fields; a handler loads each once.
use erbridge_palu.Prelude.{ℕ, Option, none, [], length, Text, text_of}
use erbridge_palu.External.{External}
use erbridge_palu.Model.{GraphData, len}
use erbridge_palu.EveScout.{EveScoutSnapshot, sig_count}

module _ (X : External) where
  open X use {DateTime, edge_count}

  pub record AppState : Type 0 where
    pub graph : GraphData X
    pub last_reload_at : Option DateTime
    pub eve_scout : EveScoutSnapshot X

  abbrev pub new : GraphData X → AppState
  new graph = record {
    graph = graph;
    last_reload_at = none;
    eve_scout = record { thera = []; turnur = []; fetched_at = none };
  }

  pub record HealthResponse : Type 0 where
    pub status : Text
    pub app_version : Text
    pub git_commit : Text
    pub sde_version : ℕ
    pub systems : ℕ
    pub edges : ℕ
    pub hull_count : ℕ
    pub last_sde_reload_at : Option DateTime
    pub sig_count : ℕ
    pub last_evescout_fetch_at : Option DateTime

  -- The version and the commit are what the build puts in.
  unfoldable pub health : Text → Text → AppState → HealthResponse
  unfolding len sig_count
  health app_version git_commit state = record {
    status = text_of "ok";
    app_version = app_version;
    git_commit = git_commit;
    sde_version = state.graph.build_number;
    systems = length state.graph.systems;
    edges = edge_count state.graph.gate_graph;
    hull_count = len X state.graph.hulls;
    last_sde_reload_at = state.last_reload_at;
    sig_count = sig_count X state.eve_scout;
    last_evescout_fetch_at = state.eve_scout.fetched_at;
  }
