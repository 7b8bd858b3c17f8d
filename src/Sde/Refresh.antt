-- ===== src/Sde/Refresh.antt =====
-- src/sde/cache.rs: the metadata of the current build, the loading of a build, and the refresh from
-- the manifest of the latest one.
pub mod Current
pub mod Stays
pub mod Install
pub mod Loads
pub mod Checked
pub mod Startup
pub mod Manifest
pub mod Served
use erbridge_palu.Prelude.{
  ℕ, Bool, not, Option, none, some, List, [], ◌∷◌, ◌++◌, find, Text, text_of, text_eq, nat_eq, ◌==◌,
  nat_to_string, if◌then◌else◌,
}
use erbridge_palu.External.{External}
use erbridge_palu.Model.{RawSdeData, RawHullCatalog}
use erbridge_palu.Sde.Parse.{parse_systems, parse_gate_pairs, parse_hull_catalog, trim}
use erbridge_palu.Disk.{
  FilePath, join, display, Io, ◌>>=◌, ◌>>◌, pure, bail, context, to_option, of_option, write,
  rename, read, open_file, exists, create_dir_all,
}
use erbridge_palu.Disk.Lines.{lines, str_lines}
use erbridge_palu.Sde.Cache.{
  files, zip_url, receive, extract_files, SdeCache, metadata_path, build_dir, build_files_present,
  prune_other_builds, of_parsed, parse_file, LatestManifest, CacheMetadata, RefreshOutcome,
  up_to_date, updated, Formats, Client,
}

-- `{:?}` of `FILES`.
abbrev pub files_shown : Text
files_shown =
    text_of
      "[\"mapSolarSystems.jsonl\", \"mapStargates.jsonl\", \"types.jsonl\", \"typeDogma.jsonl\"]"

module _ (X : External) (F : Formats X) where
  open X use {DateTime}
  open F use {
    manifest_from_str, metadata_from_slice, metadata_to_vec, zip_archive, system_from_str,
    stargate_from_str, type_from_str, dogma_from_str,
  }

  unfoldable pub metadata_if : SdeCache → Option (CacheMetadata X) → Io (Option (CacheMetadata X))
  unfolding build_files_present
  metadata_if cache none = pure none
  metadata_if cache (some meta) = do
    present ← build_files_present cache meta.build_number
    pure (if present then some meta else none)

  -- The build of the metadata file, when all of its files are there.
  unfoldable pub current_metadata : SdeCache → Io (Option (CacheMetadata X))
  unfolding metadata_if read
  current_metadata cache = do
    read_back ← to_option (read (metadata_path cache))
    elim read_back [ none ↦ pure none | some bytes ↦ metadata_if cache (metadata_from_slice bytes) ]

  abbrev pub metadata_tmp : SdeCache → FilePath
  metadata_tmp cache = join cache.root (text_of "metadata.json.tmp")

  unfoldable pub write_metadata : SdeCache → CacheMetadata X → Io (Unit {0})
  unfolding create_dir_all write rename
  write_metadata cache meta = do
    context (text_of "creating cache root") (create_dir_all cache.root)
    bytes ← of_option (metadata_to_vec meta)
    context (text_of "writing metadata tmp file") (write (metadata_tmp cache) bytes)
    context (text_of "renaming metadata tmp file")
        (rename (metadata_tmp cache) (metadata_path cache))

  unfoldable pub load_hull_catalog : FilePath → Io (RawHullCatalog X)
  unfolding open_file read of_parsed lines
  load_hull_catalog dir = do
    let types_path = join dir (text_of "types.jsonl")
    let dogma_path = join dir (text_of "typeDogma.jsonl")
    context (text_of "opening cached types.jsonl") (open_file types_path)
    context (text_of "opening cached typeDogma.jsonl") (open_file dogma_path)
    context (text_of "parsing types.jsonl/typeDogma.jsonl") (do
      types ← read types_path
      dogma ← read dogma_path
      of_parsed (parse_hull_catalog X type_from_str dogma_from_str (lines types) (lines dogma)))

  -- The files of a directory, read into the raw data.
  unfoldable pub load_files : FilePath → Io (RawSdeData X)
  unfolding parse_file load_hull_catalog
  load_files dir = do
    systems ← parse_file dir (text_of "mapSolarSystems.jsonl") (parse_systems X system_from_str)
    gate_pairs ← parse_file dir (text_of "mapStargates.jsonl") (parse_gate_pairs stargate_from_str)
    hulls ← load_hull_catalog dir
    pure (record { systems = systems; gate_pairs = gate_pairs; hulls = hulls })

  unfoldable pub load_build : SdeCache → ℕ → Io (RawSdeData X)
  unfolding build_files_present load_files display
  load_build cache build = do
    present ← build_files_present cache build
    if present
        then load_files (build_dir cache build)
        else bail (
            text_of "build "
            ++ nat_to_string build
            ++ text_of " cache is incomplete (missing one of "
            ++ files_shown
            ++ text_of " in "
            ++ display (build_dir cache build)
            ++ text_of ")")

  -- The first line that is not blank.
  unfoldable pub first_line : List Text → Option Text
  unfolding trim
  first_line [] = none
  first_line (line ∷ rest) = if not (trim line == []) then some (trim line) else first_line rest

  unfoldable pub fetch_latest_build : Client X → Io (LatestManifest X)
  unfolding receive first_line str_lines
  fetch_latest_build client = do
    text ←
        receive client.latest (text_of "fetching latest.jsonl")
          (text_of "latest.jsonl returned error status") (text_of "reading latest.jsonl body")
    line ← context (text_of "latest.jsonl was empty") (of_option (first_line (str_lines text)))
    context (text_of "parsing latest.jsonl") (of_option (manifest_from_str line))

  unfoldable pub fetch_and_extract_build : Client X → SdeCache → ℕ → Io (Unit {0})
  unfolding receive zip_url create_dir_all extract_files
  fetch_and_extract_build client cache build = do
    bytes ←
        receive (client.get (zip_url build)) (text_of "sending SDE zip request")
          (text_of "SDE zip returned error status") (text_of "reading SDE zip body")
    context (text_of "creating build dir") (create_dir_all (build_dir cache build))
    extract_files (zip_archive bytes) (build_dir cache build)

  abbrev pub metadata_of : LatestManifest X → DateTime → CacheMetadata X
  metadata_of latest now = record {
    build_number = latest.build_number;
    release_date = some latest.release_date;
    fetched_at = now;
  }

  -- `now` is `Utc::now()`.
  unfoldable pub fetch_and_install :
      Client X → SdeCache → DateTime → LatestManifest X → Io (CacheMetadata X)
  unfolding fetch_and_extract_build write_metadata prune_other_builds
  fetch_and_install client cache now latest = do
    context (text_of "fetching SDE zip") (fetch_and_extract_build client cache latest.build_number)
    write_metadata cache (metadata_of latest now)
    ignored ← to_option (prune_other_builds cache latest.build_number)
    pure (metadata_of latest now)

  -- The download and the loading of a build that is not the current one.
  unfoldable pub refresh_to :
      Client X → SdeCache → DateTime → LatestManifest X → Io (RawSdeData X × CacheMetadata X)
  unfolding fetch_and_install load_build
  refresh_to client cache now latest = do
    meta ← fetch_and_install client cache now latest
    raw ← load_build cache meta.build_number
    pure (raw, meta)

  unfoldable pub check_and_refresh : Client X → SdeCache → DateTime → ℕ → Io (RefreshOutcome X)
  unfolding fetch_latest_build refresh_to
  check_and_refresh client cache now current_build = do
    latest ← context (text_of "fetching latest SDE manifest") (fetch_latest_build client)
    if latest.build_number == current_build
        then pure up_to_date
        else (refresh_to client cache now latest >>= λ loaded. pure (updated loaded.0 loaded.1))

  -- The `match` on the check: where it fails, or finds no newer build, the cached build serves.
  unfoldable pub serve_outcome :
      SdeCache → CacheMetadata X → Option (RefreshOutcome X) → Io (RawSdeData X × CacheMetadata X)
  unfolding load_build
  serve_outcome cache meta (some (updated raw new_meta)) = pure (raw, new_meta)
  serve_outcome cache meta (some up_to_date) =
      load_build cache meta.build_number >>= λ raw. pure (raw, meta)
  serve_outcome cache meta none = load_build cache meta.build_number >>= λ raw. pure (raw, meta)

  unfoldable pub serve_cached :
      Client X → SdeCache → DateTime → CacheMetadata X → Io (RawSdeData X × CacheMetadata X)
  unfolding check_and_refresh serve_outcome
  serve_cached client cache now meta = do
    outcome ← to_option (check_and_refresh client cache now meta.build_number)
    serve_outcome cache meta outcome

  unfoldable pub fetch_cold : Client X → SdeCache → DateTime → Io (RawSdeData X × CacheMetadata X)
  unfolding fetch_latest_build refresh_to
  fetch_cold client cache now = do
    latest ← context (text_of "fetching latest SDE manifest") (fetch_latest_build client)
    refresh_to client cache now latest

  -- No valid cache is filled; a valid one is checked against the manifest.
  unfoldable pub serve_from :
      Client X
      → SdeCache
      → DateTime
      → Option (CacheMetadata X)
      → Io (RawSdeData X × CacheMetadata X)
  unfolding fetch_cold serve_cached
  serve_from client cache now none = fetch_cold client cache now
  serve_from client cache now (some meta) = serve_cached client cache now meta

  unfoldable pub ensure_cache : Client X → SdeCache → DateTime → Io (RawSdeData X × CacheMetadata X)
  unfolding create_dir_all current_metadata serve_from
  ensure_cache client cache now = do
    context (text_of "creating cache root") (create_dir_all cache.root)
    current ← current_metadata cache
    serve_from client cache now current

  unfoldable pub require_files : FilePath → List Text → Io (Unit {0})
  unfolding exists display
  require_files dir [] = pure tt
  require_files dir (name ∷ names) = do
    here ← exists (join dir name)
    if here
        then require_files dir names
        else bail (text_of "PALU_SDE_DIR " ++ display dir ++ text_of " is missing " ++ name)

  unfoldable pub load_from_dir : FilePath → DateTime → Io (RawSdeData X × CacheMetadata X)
  unfolding require_files load_files
  load_from_dir dir now = do
    require_files dir files
    raw ← load_files dir
    pure (raw, record { build_number = 0; release_date = none; fetched_at = now })
