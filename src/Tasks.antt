-- ===== src/Tasks.antt =====
-- src/tasks.rs, and the start of the service in src/main.rs: the shared state, the disk and the two
-- background tasks, as steps. A step is what a task does between two points where others may see it.
pub mod Steps
pub mod Replies
use erbridge_palu.Prelude.{◌≡◌, Option, none, some, List, Text}
use erbridge_palu.External.{External}
use erbridge_palu.Model.{RawSdeData, GraphData}
use erbridge_palu.Graph.{build_graph_data}
use erbridge_palu.EveScout.{RawSignature, EveScoutSnapshot}
use erbridge_palu.EveScout.Fetch.{fetch_snapshot}
use erbridge_palu.AppState.{AppState, new}
use erbridge_palu.Disk.{World, Disk, Fault, Result, ok, err, Io, ◌>>=◌, pure}
use erbridge_palu.Sde.Cache.{
  SdeCache, Response, CacheMetadata, Formats, Client, RefreshOutcome, up_to_date, updated,
}
use erbridge_palu.Sde.Refresh.{check_and_refresh, ensure_cache}

module _ (X : External) (F : Formats X) where
  open X use {DateTime}

  -- Where the reload task stands: at its ticker, with a new graph that is not published yet, or
  -- before the time of the reload is stored.
  pub data Phase : Type 0 where
    ticking : Phase
    built : GraphData X → Phase
    swapped : Phase

  pub record Service : Type 0 where
    pub state : AppState X
    pub world : World
    pub phase : Phase

  -- The graph of the initial load, and the state around it.
  unfoldable pub started : RawSdeData X × CacheMetadata X → AppState X
  unfolding build_graph_data
  started loaded = new X (build_graph_data X loaded.0 loaded.1.build_number)

  -- The start, with the cache: the initial load is fatal when it fails.
  unfoldable pub start : Client X → SdeCache → DateTime → Io (AppState X)
  unfolding ensure_cache started
  start client cache now = ensure_cache X F client cache now >>= λ loaded. pure (started loaded)

  -- The `match` on the check: a new build is made a graph, all else waits for the next tick.
  unfoldable pub phase_after : Result (RefreshOutcome X) → Phase
  unfolding build_graph_data
  phase_after (ok up_to_date) = ticking
  phase_after (ok (updated raw meta)) = built (build_graph_data X raw meta.build_number)
  phase_after (err e) = ticking

  -- A tick of the reload task, up to the new graph.
  unfoldable pub tick : Client X → SdeCache → DateTime → Service → Service
  unfolding check_and_refresh phase_after
  tick client cache now s =
      let checked = check_and_refresh X F client cache now s.state.graph.build_number s.world in
      record s { world = checked.1; phase = phase_after checked.0 }

  -- `graph.store(new_graph)`
  unfoldable pub publish : GraphData X → Service → Service
  publish graph s = record s { state = record s.state { graph = graph }; phase = swapped }

  -- `last_reload_at.store(..)`
  unfoldable pub stamp : DateTime → Service → Service
  stamp now s = record s { state = record s.state { last_reload_at = some now }; phase = ticking }

  -- The snapshot after a poll: a poll that fails keeps the one before.
  unfoldable pub snapshot_after :
      EveScoutSnapshot X → Result (EveScoutSnapshot X) → EveScoutSnapshot X
  snapshot_after before (ok snapshot) = snapshot
  snapshot_after before (err e) = before

  -- A tick of the poller.
  unfoldable pub poll :
      (Text → Option (List (RawSignature X))) → Response Text → DateTime → Service → Service
  unfolding fetch_snapshot snapshot_after
  poll from_json response now s =
      let fetched = fetch_snapshot X from_json response now s.world in
      record s {
        state = record s.state { eve_scout = snapshot_after s.state.eve_scout fetched.0 };
        world = fetched.1;
      }

  -- The steps of the two tasks, and what may go wrong next with the disk. The reload task takes its
  -- own steps in order; those of the poller fall between any two of them.
  pub data Step (cache : SdeCache) (from_json : Text → Option (List (RawSignature X)))
      : Service → Service → Type 0 where
    checks :
        {s : Service} (client : Client X) (now : DateTime)
        → s.phase ≡ ticking
        → Step cache from_json s (tick client cache now s)
    publishes :
        {s : Service} (graph : GraphData X)
        → s.phase ≡ built graph
        → Step cache from_json s (publish graph s)
    stamps :
        {s : Service} (now : DateTime) → s.phase ≡ swapped → Step cache from_json s (stamp now s)
    polls :
        {s : Service} (response : Response Text) (now : DateTime)
        → Step cache from_json s (poll from_json response now s)
    wears :
        {s : Service} (faults : List Fault)
        → Step cache from_json s (record s { world = record s.world { faults = faults } })

  -- The services that a start leads to.
  pub data Reach (cache : SdeCache) (from_json : Text → Option (List (RawSignature X)))
      : Service → Type 0 where
    starts :
        (client : Client X) (now : DateTime) (w w' : World) (state : AppState X)
        → start client cache now w ≡ (ok state, w')
        → Reach cache from_json (record { state = state; world = w'; phase = ticking })
    next :
        {s t : Service}
        → Reach cache from_json s
        → Step cache from_json s t
        → Reach cache from_json t
