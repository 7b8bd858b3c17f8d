-- ===== src/Lib.antt =====
-- erbridge-palu: an HTTP service that routes ships through a map of solar systems. It reads the
-- static data (SDE) into a graph, keeps a snapshot of EVE-Scout's wormhole signatures, and answers
-- three requests: gate routes to many destinations, staging systems for a jump bridge, and the
-- systems within one jump.
--
-- The parts, and how they interact. The parser (src/sde/parse.rs, `Sde.Parse`) turns lines of JSON
-- into raw data; `build_graph_data` (src/graph.rs, `Graph`) makes the graph data of it, with the hull
-- catalog (src/model.rs, `Model`). A request reaches a handler (src/handlers/route.rs, `Handlers`),
-- which loads the graph data and the snapshot (src/eve_scout.rs, `EveScout`) and calls a service
-- (src/services/, `Services`). The service resolves the systems, builds a `RouteContext` with the
-- avoid set and an overlay of connections (src/routing.rs, `Routing`) and runs the searches
-- (src/routing.rs, `Dijkstra`). `Dto`, `Error`, `Range` and `AppState` are the wire types, the errors,
-- the arithmetic of ranges and the shared state with the health document.
--
-- Definitions have the names of the code's functions. A loop's body is a definition of its own, as
-- `relax` or `add_pair`; nested early returns are split the same way, as `header`, `answer` or `stage`.
-- Mutable values are passed along. `Outcome` says where the code would panic (an index out of range,
-- a broken chain of predecessors), `Reply` is `Result<_, AppError>`.
--
-- Numbers. `usize` and `u32` indices are native natural numbers; node indices are below 2 ^ 32 as
-- petgraph has them. `i64` is `ℤ`. Routing costs are `f32` values that are whole numbers: `F32`
-- rounds sums to 24 significant bits, ties to even, so costs above 2 ^ 24 lose ones as in the code.
-- `f64` values, the `f32` security status, times, petgraph and kiddo are parameters (`External`), with
-- petgraph's documented behaviour as the laws `IsPetgraph`, kiddo's as `IsKdTree` and the order of
-- `f64` as `IsIeee`; `External.Sample` meets them.
--
-- The searches run on fuel, `rounds`: one round for each item that the heap ever holds, which the
-- sizes of the neighbour lists bound; the theorems show that it is enough. `walk_back` has fuel for
-- each node once. The thread's scratch buffers and the clock are given to each destination of a
-- request as a `Moment`, whatever the searches before left in the buffers.
--
-- Hash maps and sets are lists with one entry for a key; no result of the code depends on their
-- order. `sort_by` is a stable insertion sort, for every comparison; Rust's may panic where the order
-- is not total, as with distances that are NaN. The tally by class of security, a `BTreeMap`, is such a
-- map too. Log lines are left out.
--
-- The disk. `Disk` is the part of `std::fs` and `std::path` that the cache of builds
-- (src/sde/cache.rs, `Sde.Cache` and `Sde.Refresh`) uses, on Unix: a disk is a map from paths, and each
-- operation takes the next fault of the world, which may break it and leave some of its effect. An
-- error of `anyhow` is the list of its contexts. The HTTP responses, the ZIP library and serde_json are
-- parameters (`Client`, `Formats`), with the law `IsSerde`: what is written is read back, and a `u64`
-- fits. `sync_all` has no effect that is seen. The background tasks (src/tasks.rs) and the initial load
-- (src/main.rs) are the steps of `Tasks`; the configuration (src/config.rs) is `Config`.
--
-- Not modelled: the start from PALU_SDE_DIR in src/main.rs and the choice of directories by the
-- environment, the timers, the log filter, and the glue of axum, serde and utoipa (src/lib.rs).
pub mod Prelude
pub mod F32
pub mod Dijkstra
pub mod External
pub mod Model
pub mod Graph
pub mod Routing
pub mod Error
pub mod Dto
pub mod EveScout
pub mod Disk
pub mod Range
pub mod Services
pub mod Handlers
pub mod Sde
pub mod AppState
pub mod Tasks
pub mod Config
pub mod Tests
