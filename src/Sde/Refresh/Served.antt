-- ===== src/Sde/Refresh/Served.antt =====
-- The initial load on a disk where nothing goes wrong, with the current build in the cache, and no
-- manifest of another one: what its files hold is served.
use erbridge_palu.Prelude.{
  ℕ, ◌≡◌, refl, ◌∙◌, true, some, List, [], ◌∷◌, Memᴰ, Text, text_of, Option,
}
use erbridge_palu.External.{External}
use erbridge_palu.Model.{RawSdeData}
use erbridge_palu.Disk.{
  Bytes, FilePath, path_eq, prefixes, join, dir, file, Disk, ok, attempt, settle, exists_at,
  open_file, add_dir, add_dirs, is_dir_at, all_dirs, create_dir_all,
}
use erbridge_palu.Disk.Kept.{At}
use erbridge_palu.Disk.Lines.{lines}
use erbridge_palu.Sde.Parse.{Parsed, parsed, parse_systems, parse_gate_pairs, parse_hull_catalog}
use erbridge_palu.Sde.Cache.{
  SdeCache, build_dir, files, build_files_present, of_parsed, parse_file, CacheMetadata, Formats,
  Client,
}
use erbridge_palu.Sde.Refresh.{load_hull_catalog, load_files, load_build, serve_from, ensure_cache}
use erbridge_palu.Sde.Refresh.Current.{
  calm, all_at, all_exist-calm, read-calm_file, current, current_metadata-calm,
}
use erbridge_palu.Sde.Refresh.Manifest.{Unneeded, serve_cached_lem}

open-calm :
    (p : FilePath) (bytes : Bytes) (disk : Disk)
    → At p (some (file bytes)) disk
    → open_file p (calm disk) ≡ (ok tt, calm disk)
unfolding open_file exists_at attempt settle
open-calm p bytes disk at = rw (exists_at, at) refl

-- Directories that are there stay as they are.
add_dirs_there :
    (ps : List FilePath) (disk : Disk)
    → ((p : FilePath) → Memᴰ p ps → At p (some dir) disk)
    → add_dirs ps disk ≡ disk
unfolding add_dirs add_dir
add_dirs_there [] disk there = refl
add_dirs_there (p ∷ ps) disk there =
    rw (add_dir, there p (Memᴰ.head refl)) (add_dirs_there ps disk (λ q m. there q (Memᴰ.tail m)))

is_dir_there : (p : FilePath) (disk : Disk) → At p (some dir) disk → is_dir_at p disk ≡ true
unfolding is_dir_at
is_dir_there [] disk at = refl
is_dir_there (x ∷ p) disk at = rw (is_dir_at, at) refl

all_dirs_there :
    (ps : List FilePath) (disk : Disk)
    → ((p : FilePath) → Memᴰ p ps → At p (some dir) disk)
    → all_dirs ps disk ≡ true
unfolding all_dirs
all_dirs_there [] disk there = refl
all_dirs_there (p ∷ ps) disk there =
    rw (is_dir_there p disk (there p (Memᴰ.head refl)))
      (all_dirs_there ps disk (λ q m. there q (Memᴰ.tail m)))

create_dir_all-calm :
    (p : FilePath) (disk : Disk)
    → ((q : FilePath) → Memᴰ q (prefixes p) → At q (some dir) disk)
    → create_dir_all p (calm disk) ≡ (ok tt, calm disk)
unfolding create_dir_all attempt settle
create_dir_all-calm p disk there =
    rw
      (
        create_dir_all,
        add_dirs_there (prefixes p) disk there,
        all_dirs_there (prefixes p) disk there,
      )
      refl

module _ (folder : FilePath) (disk : Disk) where
  -- The file is there, with the contents.
  abbrev pub Has : Text → Bytes → Type 0
  Has name bytes = At (join folder name) (some (file bytes)) disk

  parse_file-calm :
      {A : Type 0} (name : Text) (f : List (Option Text) → Parsed A) (bytes : Bytes) (a : A)
      → Has name bytes
      → f (lines bytes) ≡ parsed a
      → parse_file folder name f (calm disk) ≡ (ok a, calm disk)
  unfolding parse_file of_parsed
  parse_file-calm name f bytes a has e =
      rw
        (
          parse_file,
          open-calm (join folder name) bytes disk has,
          read-calm_file (join folder name) bytes disk has,
          e,
        )
        refl

module _ (X : External) (F : Formats X) where
  -- The raw data is what the files of the directory hold.
  pub record Holds (folder : FilePath) (disk : Disk) (raw : RawSdeData X) : Type 0 where
    pub systems_bytes : Bytes
    pub systems_there : Has folder disk (text_of "mapSolarSystems.jsonl") systems_bytes
    pub systems : parse_systems X F.system_from_str (lines systems_bytes) ≡ parsed raw.systems
    pub gates_bytes : Bytes
    pub gates_there : Has folder disk (text_of "mapStargates.jsonl") gates_bytes
    pub gates : parse_gate_pairs F.stargate_from_str (lines gates_bytes) ≡ parsed raw.gate_pairs
    pub types_bytes : Bytes
    pub types_there : Has folder disk (text_of "types.jsonl") types_bytes
    pub dogma_bytes : Bytes
    pub dogma_there : Has folder disk (text_of "typeDogma.jsonl") dogma_bytes
    pub hulls :
        parse_hull_catalog X F.type_from_str F.dogma_from_str
          (lines types_bytes)
          (lines dogma_bytes)
        ≡ parsed raw.hulls

  module _ (folder : FilePath) (disk : Disk) (raw : RawSdeData X) (h : Holds folder disk raw) where
    load_hull_catalog-calm : load_hull_catalog X F folder (calm disk) ≡ (ok raw.hulls, calm disk)
    unfolding load_hull_catalog of_parsed
    load_hull_catalog-calm =
        rw
          (
            load_hull_catalog,
            open-calm (join folder (text_of "types.jsonl")) h.types_bytes disk h.types_there,
            open-calm (join folder (text_of "typeDogma.jsonl")) h.dogma_bytes disk h.dogma_there,
            read-calm_file (join folder (text_of "types.jsonl")) h.types_bytes disk h.types_there,
            read-calm_file (join folder (text_of "typeDogma.jsonl")) h.dogma_bytes disk
                h.dogma_there,
            h.hulls,
          )
          refl

    load_files-calm : load_files X F folder (calm disk) ≡ (ok raw, calm disk)
    unfolding load_files
    load_files-calm =
        rw
          (
            load_files,
            parse_file-calm folder disk (text_of "mapSolarSystems.jsonl")
                (parse_systems X F.system_from_str) h.systems_bytes raw.systems h.systems_there
                h.systems,
            parse_file-calm folder disk (text_of "mapStargates.jsonl")
                (parse_gate_pairs F.stargate_from_str) h.gates_bytes raw.gate_pairs h.gates_there
                h.gates,
            load_hull_catalog-calm,
          )
          refl

    all_there : all_at folder files disk ≡ true
    unfolding exists_at
    all_there = rw (exists_at, h.systems_there, h.gates_there, h.types_there, h.dogma_there) refl

  module _ (cache : SdeCache) where
    load_build-calm :
        (build : ℕ) (disk : Disk) (raw : RawSdeData X)
        → Holds (build_dir cache build) disk raw
        → load_build X F cache build (calm disk) ≡ (ok raw, calm disk)
    unfolding load_build build_files_present
    load_build-calm build disk raw h =
        rw
          (
            load_build,
            all_exist-calm (build_dir cache build) files disk,
            all_there (build_dir cache build) disk raw h,
            load_files-calm (build_dir cache build) disk raw h,
          )
          refl

    serve_from_held :
        (client : Client X) (now : X.DateTime) (disk : Disk) (old : CacheMetadata X)
        (raw : RawSdeData X)
        → Unneeded X F client cache now old.build_number (calm disk)
        → Holds (build_dir cache old.build_number) disk raw
        → serve_from X F client cache now (some old) (calm disk) ≡ (ok (raw, old), calm disk)
    unfolding serve_from
    serve_from_held client now disk old raw unneeded h =
        serve_cached_lem X F client cache now old (calm disk) unneeded
        ∙ rw (load_build-calm old.build_number disk raw h) refl

    -- On a disk where nothing goes wrong, with the directories of the cache in place, a current build
    -- and the raw data in its files, and where the manifest cannot be had or names that build: the
    -- initial load succeeds with that data and the build's metadata, and leaves the disk as it is.
    pub ensure_cache_lem :
        (client : Client X) (now : X.DateTime) (disk : Disk) (old : CacheMetadata X)
        (raw : RawSdeData X)
        → Unneeded X F client cache now old.build_number (calm disk)
        → ((q : FilePath) → Memᴰ q (prefixes cache.root) → At q (some dir) disk)
        → current X F cache disk ≡ some old
        → Holds (build_dir cache old.build_number) disk raw
        → ensure_cache X F client cache now (calm disk) ≡ (ok (raw, old), calm disk)
    unfolding ensure_cache
    ensure_cache_lem client now disk old raw unneeded rooted is h =
        rw
          (
            ensure_cache,
            create_dir_all-calm cache.root disk rooted,
            current_metadata-calm X F cache disk,
            is,
            serve_from_held client now disk old raw unneeded h,
          )
          refl
