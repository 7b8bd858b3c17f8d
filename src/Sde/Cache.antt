-- ===== src/Sde/Cache.antt =====
-- src/sde/cache.rs: the builds of the static data on disk, their download and extraction, and the
-- removal of old ones. serde_json, the HTTP client and the ZIP library are parameters.
pub mod Archive
pub mod Extracted
pub mod Replaced
pub mod ZipPaths
pub mod Pruned
use erbridge_palu.Prelude.{
  ℕ, ◌≡◌, ◌<◌, ◌^◌, Bool, true, false, not, ◌&&◌, ◌||◌, Option, none, some, List, [], ◌∷◌, ◌++◌,
  map, reverse, filter, Text, text_of, text_eq, nat_eq, ◌==◌, leb, nat_beq, nat_to_string,
  parse_u64, if◌then◌else◌,
}
use mathlib.Core.Option
use erbridge_palu.Prelude.HashSet
use erbridge_palu.Prelude.HashSet.{HashSet}
use erbridge_palu.External.{External}
use erbridge_palu.Model.{RawSdeData, RawHullCatalog}
use erbridge_palu.Sde.Parse.{
  Parsed, parsed, json, io, RawStargate, RawType, RawSystem, RawTypeDogma, parse_systems,
  parse_gate_pairs, parse_hull_catalog, trim,
}
use erbridge_palu.Disk.{
  Bytes, FilePath, join, display, Io, ok, err, Result, World, ◌>>=◌, ◌>>◌, pure, bail, context,
  to_option, of_option, write, create, rename, read, open_file, exists, is_dir, probe,
  create_dir_all, read_dir, remove_dir_all,
}
use erbridge_palu.Disk.Lines.{lines, str_lines}

unfoldable pub zip_url : ℕ → Text
zip_url build =
    text_of "https://developers.eveonline.com/static-data/tranquility/eve-online-static-data-"
    ++ nat_to_string build
    ++ text_of "-jsonl.zip"

-- `FILES`
abbrev pub files : List Text
files =
    text_of "mapSolarSystems.jsonl"
    ∷ text_of "mapStargates.jsonl"
    ∷ text_of "types.jsonl"
    ∷ text_of "typeDogma.jsonl"
    ∷ []

-- How a request ends: it is not sent, is answered by an error status, breaks off, or has a body.
pub data Response (A : Type 0) : Type 0 where
  not_sent : Response A
  bad_status : Response A
  cut_off : Response A
  body : A → Response A

-- `send()`, `error_for_status()` and the body, each with its context.
unfoldable pub receive : {A : Type 0} → Response A → Text → Text → Text → Io A
receive not_sent sending status reading = bail sending
receive bad_status sending status reading = bail status
receive cut_off sending status reading = bail reading
receive (body a) sending status reading = pure a

pub record ZipEntry : Type 0 where
  pub name : Text
  pub contents : Bytes

-- The components of a path in an archive, those that are empty or `.` left out.
unfoldable pub split_path : Text → Text → List Text
split_path before [] = reverse before ∷ []
split_path before (c ∷ cs) = elim (nat_beq c b'/') [
  | true ↦ reverse before ∷ split_path [] cs
  | false ↦ split_path (c ∷ before) cs
]

abbrev pub parent_dir : Text
parent_dir = text_of ".."

unfoldable pub components : Text → List Text
unfolding split_path
components name = filter (λ part. not (part == [] || part == text_of ".")) (split_path [] name)

unfoldable pub any_parent : List Text → Bool
any_parent [] = false
any_parent (part ∷ parts) = part == parent_dir || any_parent parts

unfoldable pub is_ascii_alphabetic : ℕ → Bool
is_ascii_alphabetic c = leb b'A' c && leb c b'Z' || leb b'a' c && leb c b'z'

-- An absolute name, or one with a drive.
unfoldable pub is_anchored : Text → Bool
unfolding is_ascii_alphabetic
is_anchored [] = false
is_anchored (c ∷ []) = nat_beq c b'/' || nat_beq c b'\\'
is_anchored (c ∷ d ∷ s) =
    nat_beq c b'/' || nat_beq c b'\\' || nat_beq d b':' && is_ascii_alphabetic c

unfoldable pub is_unsafe_zip_path : Text → Bool
unfolding is_anchored any_parent components
is_unsafe_zip_path name = is_anchored name || any_parent (components name)

unfoldable pub last_name : List Text → Option Text
last_name [] = none
last_name (part ∷ []) = if part == parent_dir then none else some part
last_name (a ∷ b ∷ parts) = last_name (b ∷ parts)

-- `file_name()`, or the empty text.
unfoldable pub basename_of : Text → Text
unfolding last_name components
basename_of name = Option.get_or (last_name (components name)) []

abbrev pub tmp_of : Text → Text
tmp_of basename = basename ++ text_of ".tmp"

-- An entry that is wanted, written beside its file and renamed.
unfoldable pub install_file : FilePath → HashSet Text → Text → Bytes → Io (HashSet Text)
unfolding create write rename
install_file dest_dir found basename contents = do
  context (text_of "creating " ++ tmp_of basename) (create (join dest_dir (tmp_of basename)))
  context (text_of "writing " ++ tmp_of basename) (write (join dest_dir (tmp_of basename)) contents)
  context (text_of "renaming " ++ tmp_of basename)
      (rename (join dest_dir (tmp_of basename)) (join dest_dir basename))
  pure (HashSet.insert basename found)

-- One pass of the loop over the archive; `none` is an entry that cannot be read.
unfoldable pub extract_entry : FilePath → HashSet Text → Option ZipEntry → Io (HashSet Text)
unfolding install_file is_unsafe_zip_path basename_of
extract_entry dest_dir found none = bail (text_of "reading zip entry")
extract_entry dest_dir found (some entry) =
    if is_unsafe_zip_path entry.name
    then pure found
    else if HashSet.contains (basename_of entry.name) files
    then install_file dest_dir found (basename_of entry.name) entry.contents
    else pure found

unfoldable pub extract_entries :
    FilePath → HashSet Text → List (Option ZipEntry) → Io (HashSet Text)
unfolding extract_entry
extract_entries dest_dir found [] = pure found
extract_entries dest_dir found (entry ∷ entries) = do
  found' ← extract_entry dest_dir found entry
  extract_entries dest_dir found' entries

-- The last loop: the first file that was not found is an error.
unfoldable pub check_found : HashSet Text → List Text → Io (Unit {0})
check_found found [] = pure tt
check_found found (name ∷ names) =
    if HashSet.contains name found
    then check_found found names
    else bail (text_of "expected file " ++ name ++ text_of " not found in SDE zip")

-- The archive is what the ZIP library opens, if it can.
unfoldable pub extract_files : Option (List (Option ZipEntry)) → FilePath → Io (Unit {0})
unfolding extract_entries check_found
extract_files archive dest_dir = do
  entries ← context (text_of "opening ZIP archive") (of_option archive)
  found ← extract_entries dest_dir [] entries
  check_found found files

pub record SdeCache : Type 0 where
  pub root : FilePath

abbrev pub metadata_path : SdeCache → FilePath
metadata_path cache = join cache.root (text_of "metadata.json")

abbrev pub build_dir : SdeCache → ℕ → FilePath
build_dir cache build = join cache.root (nat_to_string build)

unfoldable pub all_exist : FilePath → List Text → Io Bool
unfolding exists
all_exist dir [] = pure true
all_exist dir (name ∷ names) = do
  here ← exists (join dir name)
  if here then all_exist dir names else pure false

unfoldable pub build_files_present : SdeCache → ℕ → Io Bool
unfolding all_exist
build_files_present cache build = all_exist (build_dir cache build) files

-- A directory in the cache whose name is a build's number is removed, unless it is `keep`.
unfoldable pub prune_dir : SdeCache → ℕ → Text → Io (Unit {0})
unfolding remove_dir_all
prune_dir cache keep name = elim (parse_u64 name) [
  | none ↦ pure tt
  | some build ↦
      if build == keep
      then pure tt
      else (to_option (remove_dir_all (join cache.root name)) >>= λ _. pure tt)
]

-- One pass of the loop: an entry that cannot be read is skipped.
unfoldable pub prune_entry : SdeCache → ℕ → Text → Io (Unit {0})
unfolding prune_dir probe is_dir
prune_entry cache keep name = do
  here ← probe (λ disk. true)
  directory ← if here then is_dir (join cache.root name) else pure false
  if directory then prune_dir cache keep name else pure tt

unfoldable pub prune_entries : SdeCache → ℕ → List Text → Io (Unit {0})
unfolding prune_entry
prune_entries cache keep [] = pure tt
prune_entries cache keep (name ∷ names) = do
  prune_entry cache keep name
  prune_entries cache keep names

unfoldable pub prune_other_builds : SdeCache → ℕ → Io (Unit {0})
unfolding prune_entries read_dir
prune_other_builds cache keep = do
  entries ← to_option (read_dir cache.root)
  prune_entries cache keep (Option.get_or entries [])

-- `Result<A, ParseError>` as an `anyhow::Result`.
unfoldable pub of_parsed : {A : Type 0} → Parsed A → Io A
of_parsed (parsed a) w = (ok a, w)
of_parsed (json line) w = (err [], w)
of_parsed io w = (err [], w)

unfoldable pub parse_file : {A : Type 0} → FilePath → Text → (List (Option Text) → Parsed A) → Io A
unfolding open_file read of_parsed lines
parse_file dir name f = do
  context (text_of "opening cached " ++ name) (open_file (join dir name))
  context (text_of "parsing " ++ name)
      (read (join dir name) >>= λ bytes. of_parsed (f (lines bytes)))

module _ (X : External) where
  open X use {DateTime}

  pub record LatestManifest : Type 0 where
    pub build_number : ℕ
    pub release_date : DateTime

  pub record CacheMetadata : Type 0 where
    pub build_number : ℕ
    pub release_date : Option DateTime
    pub fetched_at : DateTime

  pub data RefreshOutcome : Type 0 where
    up_to_date : RefreshOutcome
    updated : RawSdeData X → CacheMetadata → RefreshOutcome

  -- serde_json for each type, and what the ZIP library makes of the bytes of an archive.
  pub record Formats : Type 0 where
    pub manifest_from_str : Text → Option LatestManifest
    pub metadata_from_slice : Bytes → Option CacheMetadata
    pub metadata_to_vec : CacheMetadata → Option Bytes
    pub zip_archive : Bytes → Option (List (Option ZipEntry))
    pub system_from_str : Text → Option (RawSystem X)
    pub stargate_from_str : Text → Option RawStargate
    pub type_from_str : Text → Option RawType
    pub dogma_from_str : Text → Option (RawTypeDogma X)

  -- serde_json reads what it has written, and only numbers that fit where a `u64` stands.
  pub record IsSerde (F : Formats) : Type 0 where
    pub metadata_back :
        (meta : CacheMetadata) (bytes : Bytes)
        → F.metadata_to_vec meta ≡ some bytes
        → F.metadata_from_slice bytes ≡ some meta
    pub manifest_u64 :
        (latest : LatestManifest) (line : Text)
        → F.manifest_from_str line ≡ some latest
        → latest.build_number < 2 ^ 64

  -- What the servers answer to the requests of one call.
  pub record Client : Type 0 where
    pub latest : Response Text
    pub get : Text → Response Bytes
