-- ===== src/Tasks/Steps.antt =====
-- What holds of the service at every step of its background tasks.
use erbridge_palu.Prelude.{
  ℕ, ◌≡◌, ◌≢◌, refl, sym, ap, subst, ◌∙◌, ◌⊎◌, inl, inr, Option, none, List, [], Text,
}
use erbridge_palu.External.{External, IsPetgraph}
use erbridge_palu.Model.{RawSdeData, GraphData}
use erbridge_palu.Graph.{build_graph_data}
use erbridge_palu.EveScout.{RawSignature, EveScoutSnapshot, partition}
use erbridge_palu.EveScout.Fetch.{fetch_snapshot}
use erbridge_palu.AppState.{AppState}
use erbridge_palu.Dto.{GateRouteRequest}
use erbridge_palu.Services.Route.{Moment}
use erbridge_palu.Services.Route.Endpoints.{Serves, build_graph_data-Serves}
use erbridge_palu.Services.Route.Fanout.{Promised, compute_gate_route_answers}
use erbridge_palu.Disk.{World, Disk, Result, ok, err, pure, continue}
use erbridge_palu.Disk.Triples.{
  Ends, Triple, >>=-Triple, pure-Triple, context-Triple, weaken-Triple, of_option-Triple,
}
use erbridge_palu.Sde.Cache.{
  SdeCache, Response, CacheMetadata, Formats, IsSerde, Client, RefreshOutcome, up_to_date, updated,
}
use erbridge_palu.Sde.Refresh.{check_and_refresh, ensure_cache}
use erbridge_palu.Sde.Refresh.Stays.{receive-Keeps}
use erbridge_palu.Sde.Refresh.Checked.{
  HasCurrent, Refreshed, Kept, Kept-HasCurrent, check_and_refresh-Refreshed,
}
use erbridge_palu.Sde.Refresh.Startup.{ensure_cache-HasCurrent}
use erbridge_palu.Tasks.{
  ticking, built, Service, started, start, phase_after, tick, publish, stamp, snapshot_after, poll,
  Step, checks, publishes, stamps, polls, wears, Reach, starts, next,
}

module _ (X : External) (F : Formats X) (S : IsSerde X F) (cache : SdeCache)
    (from_json : Text → Option (List (RawSignature X))) where
  -- The graph is one that `build_graph_data` made.
  abbrev pub IsBuilt : GraphData X → Type 0
  IsBuilt graph = (raw : RawSdeData X) × (build : ℕ) × (graph ≡ build_graph_data X raw build)

  -- A snapshot is the empty one, or a partition of signatures.
  abbrev pub IsSnapshot : EveScoutSnapshot X → Type 0
  IsSnapshot snapshot =
      (snapshot ≡ record { thera = []; turnur = []; fetched_at = none })
      ⊎ ((raw : List (RawSignature X)) × (now : X.DateTime) × (snapshot ≡ partition X raw now))

  -- The served graph was built, and so was the one to be published, from another build; the cache
  -- has a current build; and the snapshot is the empty one or one that was fetched.
  pub record Healthy (s : Service X F) : Type 0 where
    pub serving : IsBuilt s.state.graph
    pub coming :
        (graph : GraphData X)
        → s.phase ≡ built graph
        → IsBuilt graph × (graph.build_number ≢ s.state.graph.build_number)
    pub valid : HasCurrent X F S cache s.world.disk
    pub scout : IsSnapshot s.state.eve_scout

  coming_after :
      (client : Client X) (now : X.DateTime) (build : ℕ) (old : CacheMetadata X)
      (r : Result (RefreshOutcome X) × World)
      → Ends (Refreshed X F S cache client now build old) (Kept X F S cache client now old) r
      → (graph : GraphData X) → phase_after X F r.0 ≡ built graph
      → IsBuilt graph × (graph.build_number ≢ build)
  unfolding phase_after build_graph_data
  coming_after client now build old (ok up_to_date, w) h graph e = cc
  coming_after client now build old (ok (updated raw meta), w) h graph e =
      let same : build_graph_data X raw meta.build_number ≡ graph = cc in
      ((raw, meta.build_number, sym same), λ e'. h.0 (ap (λ g. g.build_number) same ∙ e'))
  coming_after client now build old (err x, w) h graph e = cc

  valid_after :
      (client : Client X) (now : X.DateTime) (build : ℕ) (old : CacheMetadata X)
      (r : Result (RefreshOutcome X) × World)
      → Ends (Refreshed X F S cache client now build old) (Kept X F S cache client now old) r
      → HasCurrent X F S cache r.1.disk
  valid_after client now build old (ok up_to_date, w) h = (old, h.0)
  valid_after client now build old (ok (updated raw meta), w) h = (meta, h.1)
  valid_after client now build old (err x, w) h =
      Kept-HasCurrent X F S cache client now old w.disk h

  tick-Healthy :
      (client : Client X) (now : X.DateTime) (s : Service X F)
      → Healthy s
      → Healthy (tick X F client cache now s)
  unfolding tick
  tick-Healthy client now s ok_s =
      let (old, e) = ok_s.valid in
      let build = s.state.graph.build_number in
      let after = check_and_refresh-Refreshed X F S cache client now old build s.world e in
      record {
        serving = ok_s.serving;
        coming =
            coming_after client now build old (check_and_refresh X F client cache now build s.world)
              after;
        valid =
            valid_after client now build old (check_and_refresh X F client cache now build s.world)
              after;
        scout = ok_s.scout;
      }

  -- A snapshot that was fetched is a partition, and the disk is as it was.
  fetch-IsSnapshot :
      (response : Response Text) (now : X.DateTime) {P : Disk → Type 0}
      → Triple P
          (fetch_snapshot X from_json response now)
          (λ snapshot disk. IsSnapshot snapshot × P disk)
          P
  unfolding fetch_snapshot
  fetch-IsSnapshot response now {P} = >>=-Triple (receive-Keeps response _ _ _) λ text.
      >>=-Triple {Q = λ raw. P}
        (context-Triple _ (
          weaken-Triple (λ disk h. h) (λ raw disk h. h.1) (λ disk h. h)
            (of_option-Triple (from_json text))))
        λ raw. pure-Triple (partition X raw now) (λ disk h. (inr (raw, now, refl), h))

  snapshot-IsSnapshot :
      (before : EveScoutSnapshot X) (r : Result (EveScoutSnapshot X) × World)
      → IsSnapshot before
      → Ends
          (λ snapshot disk. IsSnapshot snapshot × HasCurrent X F S cache disk)
          (HasCurrent X F S cache)
          r
      → IsSnapshot (snapshot_after X F before r.0) × HasCurrent X F S cache r.1.disk
  unfolding snapshot_after
  snapshot-IsSnapshot before (ok snapshot, w) h h' = h'
  snapshot-IsSnapshot before (err e, w) h h' = (h, h')

  poll-Healthy :
      (response : Response Text) (now : X.DateTime) (s : Service X F)
      → Healthy s
      → Healthy (poll X F from_json response now s)
  unfolding poll
  poll-Healthy response now s ok_s =
      let (scout, valid) =
        snapshot-IsSnapshot s.state.eve_scout (fetch_snapshot X from_json response now s.world)
          ok_s.scout ((fetch-IsSnapshot response now).ends s.world ok_s.valid) in
      record { serving = ok_s.serving; coming = ok_s.coming; valid = valid; scout = scout }

  Step-Healthy : {s t : Service X F} → Step X F cache from_json s t → Healthy s → Healthy t
  unfolding publish stamp
  Step-Healthy (checks {s} client now e) h = tick-Healthy client now s h
  Step-Healthy (publishes graph e) h = record {
    serving = (h.coming graph e).0;
    coming = λ g e'. cc;
    valid = h.valid;
    scout = h.scout;
  }
  Step-Healthy (stamps now e) h = record {
    serving = h.serving;
    coming = λ g e'. cc;
    valid = h.valid;
    scout = h.scout;
  }
  Step-Healthy (polls {s} response now) h = poll-Healthy response now s h
  Step-Healthy (wears faults) h = record {
    serving = h.serving;
    coming = h.coming;
    valid = h.valid;
    scout = h.scout;
  }

  started_inv :
      (r : Result (RawSdeData X × CacheMetadata X) × World) (state : AppState X) (w' : World)
      → Ends (λ loaded. HasCurrent X F S cache) (λ disk. Unit {0}) r
      → continue r (λ loaded. pure (started X F loaded)) ≡ (ok state, w')
      → (loaded : RawSdeData X × CacheMetadata X) × (state ≡ started X F loaded)
        × HasCurrent X F S cache w'.disk
  started_inv (ok loaded, w) state w' h e =
      let same : w ≡ w' = ap (λ r. r.1) e in
      (loaded, cc, subst (λ v. HasCurrent X F S cache v.disk) same h)
  started_inv (err x, w) state w' h e = absurd (no_state (ap (λ r. r.0) e))
    where
      no_state : {A : Type 0} {a : A} {x : List Text} → ◌≢◌ {A = Result A} (err x) (ok a)
      no_state e = cc

  starts-Healthy :
      (client : Client X) (now : X.DateTime) (w w' : World) (state : AppState X)
      → start X F client cache now w ≡ (ok state, w')
      → Healthy (record { state = state; world = w'; phase = ticking })
  unfolding start started
  starts-Healthy client now w w' state e =
      let (loaded, same, valid) =
        started_inv (ensure_cache X F client cache now w) state w'
          (ensure_cache-HasCurrent X F S cache client now w) e in
      record {
        serving = (loaded.0, loaded.1.build_number, ap (λ st. st.graph) same);
        coming = λ graph e'. cc;
        valid = valid;
        scout = inl (ap (λ st. st.eve_scout) same);
      }

  -- At every step that the tasks of a started service take, whatever fails and in whatever order
  -- they take them, the service is healthy.
  pub Reach-Healthy : {s : Service X F} → Reach X F cache from_json s → Healthy s
  Reach-Healthy (starts client now w w' state e) = starts-Healthy client now w w' state e
  Reach-Healthy (next r step) = Step-Healthy step (Reach-Healthy r)

  module _ (P : IsPetgraph X) where
    -- So, at every such step, a request for gate routes is answered: the graph and the snapshot that
    -- it loads are in range, and the service returns for it what it promises.
    pub Reach-Promised :
        {s : Service X F}
        → Reach X F cache from_json s
        → (req : GateRouteRequest) (moments : ℕ → Moment X)
        → (serves : Serves X s.state.graph) × Promised X s.state.graph serves s.state.eve_scout req
            moments
    Reach-Promised {s} r req moments =
        let (raw, build, same) = (Reach-Healthy r).serving in
        let serves = subst (Serves X) (sym same) (build_graph_data-Serves X P raw build) in
        (serves, compute_gate_route_answers X s.state.graph serves s.state.eve_scout req moments)
