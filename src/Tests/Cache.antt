-- ===== src/Tests/Cache.antt =====
-- A cache with build 7 on the disk, and archives, requests and steps around it.
use erbridge_palu.Prelude.{
  ℕ, ◌≡◌, refl, sym, subst, ap, inl, Memᴰ, ◌<◌, ◌^◌, true, Option, none, some, List, [], ◌∷◌, ◌++◌,
  Text, text_of, text_eq, text_beq, nat_eq, nat_to_string, ltb, if◌then◌else◌, arith, ◌&&◌,
}
use mathlib.Core.List.Memᴰ
use erbridge_palu.Prelude.HashMap
use erbridge_palu.External.Sample.{sample}
use erbridge_palu.Disk.{
  Bytes, FilePath, path_eq, path_beq, join, dir, file, Disk, fine, broken, World, ok, exists_at,
  is_dir_at, err, prefixes,
}
use erbridge_palu.Disk.Triples.{Ends}
use erbridge_palu.Sde.Cache.{
  ZipEntry, is_unsafe_zip_path, components, extract_files, SdeCache, metadata_path, build_dir,
  prune_other_builds, not_sent, body, LatestManifest, CacheMetadata, Formats, IsSerde, Client,
}
use erbridge_palu.Sde.Cache.Archive.{Elsewhere, extract_files-Elsewhere}
use erbridge_palu.Sde.Cache.Extracted.{Extracted, extract_files_lem}
use erbridge_palu.Sde.Cache.ZipPaths.{resolve, resolve_safe}
use erbridge_palu.Sde.Cache.Pruned.{is_other_build, prune_other_builds_lem}
use erbridge_palu.Sde.Refresh.{
  current_metadata, fetch_latest_build, check_and_refresh, ensure_cache,
}
use erbridge_palu.Sde.Refresh.Current.{current, current_metadata-calm}
use erbridge_palu.Sde.Refresh.Checked.{HasCurrent, Refreshed, Kept, check_and_refresh-Refreshed}
use erbridge_palu.Sde.Refresh.Startup.{ensure_cache-HasCurrent}
use erbridge_palu.Disk.Lines.{lines}
use erbridge_palu.Sde.Refresh.Served.{Holds, ensure_cache_lem}
use erbridge_palu.Sde.Parse.{parse_systems, parse_gate_pairs, parse_hull_catalog}
use erbridge_palu.Model.{RawSdeData}
use erbridge_palu.Config.{Environment, port, parse_u16, default_port}
use erbridge_palu.Config.Read.{port_lem}

abbrev pub encode : ℕ → ℕ → Option ℕ → Bytes
encode build fetched none = build ∷ fetched ∷ []
encode build fetched (some released) = build ∷ fetched ∷ released ∷ []

abbrev pub decode : Bytes → Option (CacheMetadata sample)
decode (build ∷ fetched ∷ []) =
    some (record { build_number = build; release_date = none; fetched_at = fetched })
decode (build ∷ fetched ∷ released ∷ []) =
    some (record { build_number = build; release_date = some released; fetched_at = fetched })
decode _ = none

-- A manifest is the code of its first character.
abbrev pub manifest : Text → Option (LatestManifest sample)
manifest [] = none
manifest (c ∷ s) =
    if ltb c (2 ^ 64) then some (record { build_number = c; release_date = 0 }) else none

abbrev pub packed : Text → ZipEntry
packed name = record { name = text_of "Latest/" ++ name; contents = [] }

abbrev pub escape : ZipEntry
escape = record { name = text_of "../types.jsonl"; contents = 1 ∷ [] }

abbrev pub archive : List (Option ZipEntry)
archive =
    some escape
    ∷ some (packed (text_of "mapSolarSystems.jsonl"))
    ∷ some (packed (text_of "mapStargates.jsonl"))
    ∷ some (packed (text_of "types.jsonl"))
    ∷ some (packed (text_of "typeDogma.jsonl"))
    ∷ []

abbrev pub formats : Formats sample
formats = record {
  manifest_from_str = manifest;
  metadata_from_slice = decode;
  metadata_to_vec = λ meta. some (encode meta.build_number meta.fetched_at meta.release_date);
  zip_archive = λ bytes. some archive;
  system_from_str = λ s. none;
  stargate_from_str = λ s. none;
  type_from_str = λ s. none;
  dogma_from_str = λ s. none;
}

decode-encode :
    (build fetched : ℕ) (released : Option ℕ)
    → decode (encode build fetched released)
      ≡ some (record { build_number = build; release_date = released; fetched_at = fetched })
decode-encode build fetched none = refl
decode-encode build fetched (some released) = refl

manifest_fits :
    (latest : LatestManifest sample) (s : Text)
    → manifest s ≡ some latest
    → latest.build_number < 2 ^ 64
manifest_fits latest [] h = cc
manifest_fits latest (c ∷ s) h = ground arith

pub formats-IsSerde : IsSerde sample formats
formats-IsSerde = record {
  metadata_back =
      λ meta bytes e. cc (decode-encode meta.build_number meta.fetched_at meta.release_date);
  manifest_u64 = manifest_fits;
}

abbrev pub cache : SdeCache
cache = record { root = text_of "cache" ∷ [] }

abbrev pub meta : CacheMetadata sample
meta = record { build_number = 7; release_date = none; fetched_at = 1 }

abbrev pub here : Text → FilePath
here name = join (build_dir cache 7) name

abbrev pub disk : Disk
disk =
    (text_of "cache" ∷ [], dir)
    ∷ (metadata_path cache, file (7 ∷ 1 ∷ []))
    ∷ (build_dir cache 7, dir)
    ∷ (here (text_of "mapSolarSystems.jsonl"), file [])
    ∷ (here (text_of "mapStargates.jsonl"), file [])
    ∷ (here (text_of "types.jsonl"), file [])
    ∷ (here (text_of "typeDogma.jsonl"), file [])
    ∷ (build_dir cache 6, dir)
    ∷ []

-- The second operation is broken.
abbrev pub world : World
world = record { disk = disk; faults = fine ∷ broken (some (1 ∷ [])) (λ p. true) ∷ [] }

abbrev pub calm : World
calm = record { disk = disk; faults = [] }

-- The manifest names build 56, the code of `8`.
abbrev pub online : Client sample
online = record { latest = body (text_of "8"); get = λ url. body [] }

abbrev pub offline : Client sample
offline = record { latest = not_sent; get = λ url. not_sent }

is_current : current sample formats cache disk ≡ some meta
unfolding HashMap.get path_beq text_beq nat_to_string exists_at
is_current = refl

current_metadata-calm_example :
    current_metadata sample formats cache calm ≡ (ok (current sample formats cache disk), calm)
current_metadata-calm_example = current_metadata-calm sample formats cache disk

check_and_refresh-Refreshed_example :
    Ends
      (Refreshed sample formats formats-IsSerde cache online 5 7 meta)
      (Kept sample formats formats-IsSerde cache online 5 meta)
      (check_and_refresh sample formats online cache 5 7 world)
check_and_refresh-Refreshed_example =
    check_and_refresh-Refreshed sample formats formats-IsSerde cache online 5 meta 7 world
      is_current

ensure_cache-HasCurrent_example :
    Ends
      (λ loaded. HasCurrent sample formats formats-IsSerde cache)
      (λ left. Unit {0})
      (ensure_cache sample formats online cache 5 world)
ensure_cache-HasCurrent_example =
    ensure_cache-HasCurrent sample formats formats-IsSerde cache online 5 world

resolve_safe_example :
    resolve (cache.root) (text_of "Latest/types.jsonl")
    ≡ cache.root ++ components (text_of "Latest/types.jsonl")
unfolding is_unsafe_zip_path text_beq
resolve_safe_example = resolve_safe cache.root (text_of "Latest/types.jsonl") refl

prune_other_builds_lem_example :
    HashMap.get (cache.root ++ text_of "6" ∷ []) (prune_other_builds cache 7 calm).1.disk ≡ (
      if is_dir_at (join cache.root (text_of "6")) disk && is_other_build cache 7 (text_of "6")
      then none
      else HashMap.get (cache.root ++ text_of "6" ∷ []) disk)
unfolding is_dir_at HashMap.get path_beq text_beq
prune_other_builds_lem_example = prune_other_builds_lem cache 7 (text_of "6") [] disk refl

elsewhere : Elsewhere (build_dir cache 7) (metadata_path cache)
unfolding nat_to_string
elsewhere = λ name h. (λ e. cc, λ e. cc)

extract_files-Elsewhere_example :
    HashMap.get
      (metadata_path cache)
      (extract_files (some archive) (build_dir cache 7) world).1.disk
    ≡ HashMap.get (metadata_path cache) disk
extract_files-Elsewhere_example =
    extract_files-Elsewhere (build_dir cache 7) (some archive) (metadata_path cache) world elsewhere

extract_files_lem_example :
    Ends
      (λ u. Extracted (build_dir cache 7) archive)
      (λ left. Unit {0})
      (extract_files (some archive) (build_dir cache 7) calm)
extract_files_lem_example = extract_files_lem (build_dir cache 7) archive calm

abbrev empty : RawSdeData sample
empty = record {
  systems = [];
  gate_pairs = [];
  hulls = record { hulls = []; jdc_bonus_per_level = none };
}

empty-Holds : Holds sample formats (build_dir cache 7) disk empty
unfolding HashMap.get path_beq text_beq nat_to_string parse_systems parse_gate_pairs
    parse_hull_catalog lines
empty-Holds = record {
  systems_bytes = [];
  systems_there = refl;
  systems = refl;
  gates_bytes = [];
  gates_there = refl;
  gates = refl;
  types_bytes = [];
  types_there = refl;
  dogma_bytes = [];
  dogma_there = refl;
  hulls = refl;
}

root_there : (q : FilePath) → Memᴰ q (prefixes cache.root) → HashMap.get q disk ≡ some dir
unfolding HashMap.get path_beq text_beq prefixes
root_there q m = subst (λ p. HashMap.get p disk ≡ some dir) (sym (Memᴰ.eq_of_singleton m)) refl

no_manifest :
    fetch_latest_build sample formats offline calm
    ≡ (err (text_of "fetching latest.jsonl" ∷ []), calm)
unfolding fetch_latest_build
no_manifest = refl

ensure_cache_lem_example :
    ensure_cache sample formats offline cache 5 calm ≡ (ok (empty, meta), calm)
ensure_cache_lem_example =
    ensure_cache_lem sample formats cache offline 5 disk meta empty
      (inl (text_of "fetching latest.jsonl" ∷ [], ap (λ r. r.0) no_manifest)) root_there is_current
      empty-Holds

abbrev environment : Environment
environment key = some (text_of "8080")

port_lem_example :
    (port environment < 2 ^ 16)
    × ((n : ℕ)
        → n < 2 ^ 16
        → environment (text_of "PALU_PORT") ≡ some (nat_to_string n)
        → port environment ≡ n)
    × (((raw : Text) → environment (text_of "PALU_PORT") ≡ some raw → parse_u16 raw ≡ none)
        → port environment ≡ default_port)
port_lem_example = port_lem environment
