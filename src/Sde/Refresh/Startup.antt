-- ===== src/Sde/Refresh/Startup.antt =====
-- `ensure_cache`: what it leaves on the disk when it succeeds, and what it does where the manifest
-- cannot be had.
use erbridge_palu.Prelude.{
  ◌≡◌, refl, subst, inl, inr, ◌<◌, ◌^◌, Bool, true, false, Option, none, some, List, [], ◌∷◌, Text,
  text_eq, nat_eq, ◌==◌, eq_of_beq, Bool-cases, if◌then◌else◌,
}
use erbridge_palu.Prelude.HashSet
use erbridge_palu.External.{External}
use erbridge_palu.Disk.{Bytes, FilePath, join, Node, file, Disk, World, pure, create_dir_all}
use erbridge_palu.Disk.Triples.{
  Ends, Triple, Any, Any-Triple, >>=-Triple, pure-Triple, weaken-Triple, context-Triple, lift_known,
}
use erbridge_palu.Disk.Looks.{to_option-Triple, Either}
use erbridge_palu.Disk.Kept.{At, read-Triple, exists-Triple}
use erbridge_palu.Sde.Cache.{
  files, SdeCache, metadata_path, build_dir, all_exist, build_files_present, CacheMetadata, Formats,
  IsSerde, Client, RefreshOutcome, up_to_date, updated,
}
use erbridge_palu.Sde.Refresh.{
  refresh_to, serve_outcome, serve_from, serve_cached, fetch_cold, ensure_cache, current_metadata,
  metadata_if,
}
use erbridge_palu.Sde.Refresh.Loads.{load_build-Keeps}
use erbridge_palu.Sde.Refresh.Current.{Stored, current-Stored}
use erbridge_palu.Sde.Refresh.Install.{install-Stored}
use erbridge_palu.Sde.Refresh.Checked.{
  HasCurrent, Refreshed, Kept, Kept-HasCurrent, fetch_latest-Triple, load_installed, check-Triple,
}

abbrev Here : FilePath → Text → Disk → Type 0
Here folder name disk = (n : Node) × At (join folder name) (some n) disk

-- All of the names are in the directory.
abbrev AllIn : FilePath → List Text → Disk → Type 0
AllIn folder names disk =
    (name : Text)
    → HashSet.contains name names ≡ true
    → (n : Node) × At (join folder name) (some n) disk

AllIn-cons :
    (folder : FilePath) (name : Text) (names : List Text) (disk : Disk)
    → (n : Node) × At (join folder name) (some n) disk
    → AllIn folder names disk
    → AllIn folder (name ∷ names) disk
unfolding HashSet.contains
AllIn-cons folder name names disk first rest = λ other seen. elim (Bool-cases (name == other)) [
  | inl same ↦
      subst (λ x. (n : Node) × At (join folder x) (some n) disk) (eq_of_beq name other same) first
  | inr apart ↦ rest other (rw apart at seen)
]

exist_next :
    (folder : FilePath) (name : Text) (names : List Text) (here : Bool) {P E : Disk → Type 0}
    → Triple
        (λ disk. P disk × Here folder name disk)
        (all_exist folder names)
        (λ b disk. (P disk × Here folder name disk) × (b ≡ true → AllIn folder names disk))
        E
    → Triple
        (λ disk. P disk × (here ≡ true → Here folder name disk))
        (if here then all_exist folder names else pure false)
        (λ b disk. P disk × (b ≡ true → AllIn folder (name ∷ names) disk))
        E
exist_next folder name names true {E} t =
    weaken-Triple {E = E} (λ disk (h, first). (h, first refl))
      (λ b disk ((h, first), rest). (h, λ all. AllIn-cons folder name names disk first (rest all)))
      (λ disk h. h) t
exist_next folder name names false t = pure-Triple false (λ disk h. (h.0, λ e. cc))

all_exist-AllIn :
    (folder : FilePath) (names : List Text) {P E : Disk → Type 0}
    → Triple P (all_exist folder names) (λ b disk. P disk × (b ≡ true → AllIn folder names disk)) E
unfolding all_exist HashSet.contains
all_exist-AllIn folder [] = pure-Triple true (λ disk h. (h, λ e name seen. cc))
all_exist-AllIn folder (name ∷ names) {P} {E} =
    >>=-Triple (exists-Triple (join folder name)) λ here.
      exist_next folder name names here {P = P} {E = E}
        (all_exist-AllIn folder names {P = λ disk. P disk × Here folder name disk} {E = E})

module _ (X : External) (F : Formats X) (S : IsSerde X F) (cache : SdeCache) where
  -- What `current_metadata` finds is stored.
  Found : Option (CacheMetadata X) → Disk → Type 0
  Found o disk = (meta : CacheMetadata X) → o ≡ some meta → Stored X F cache meta disk

  Found-if :
      (bytes : Bytes) (o : Option (CacheMetadata X)) {E : Disk → Type 0}
      → F.metadata_from_slice bytes ≡ o
      → Triple (At (metadata_path cache) (some (file bytes))) (metadata_if X F cache o) Found E
  unfolding metadata_if build_files_present Found
  Found-if bytes none e = pure-Triple none (λ disk at meta e'. cc)
  Found-if bytes (some meta) {E} e =
      >>=-Triple
        (all_exist-AllIn (build_dir cache meta.build_number) files
          {P = At (metadata_path cache) (some (file bytes))} {E = E})
        λ present. pure-Triple (if present then some meta else none) (found_present present)
    where
      found_present :
          (present : Bool) (disk : Disk)
          → At (metadata_path cache) (some (file bytes)) disk
            × (present ≡ true → AllIn (build_dir cache meta.build_number) files disk)
          → (other : CacheMetadata X) → (if present then some meta else none) ≡ some other
          → Stored X F cache other disk
      found_present true disk (at, all) other e' =
          let same : meta ≡ other = cc in
          subst (λ m. Stored X F cache m disk) same
            (record { written = (bytes, e, at); present = all refl })
      found_present false disk h other e' = cc

  after_read :
      (o : Option Bytes) {E : Disk → Type 0}
      → Triple
          (Either (λ bytes. At (metadata_path cache) (some (file bytes))) Any o)
          (elim o [
            | none ↦ pure none
            | some bytes ↦ metadata_if X F cache (F.metadata_from_slice bytes)
          ])
          Found
          E
  unfolding Found
  after_read none = pure-Triple none (λ disk h meta e. cc)
  after_read (some bytes) {E} = Found-if bytes (F.metadata_from_slice bytes) {E = E} refl

  current-Found : {E : Disk → Type 0} → Triple Any (current_metadata X F cache) Found E
  unfolding current_metadata
  current-Found {E} =
      >>=-Triple (to_option-Triple {R = E} (read-Triple (metadata_path cache)))
        (λ o. after_read o {E = E})

  cold-Triple :
      (client : Client X) (now : X.DateTime)
      → Triple Any (fetch_cold X F client cache now) (λ loaded. HasCurrent X F S cache) Any
  unfolding fetch_cold refresh_to
  cold-Triple client now =
      >>=-Triple (context-Triple _ (fetch_latest-Triple X F S cache {P = Any} client)) λ latest.
        lift_known (latest.build_number < 2 ^ 64) λ fits.
          >>=-Triple (install-Stored X F S cache client now latest fits) λ meta.
            weaken-Triple {E' = Any} (λ disk h. h)
              (λ loaded disk h. (loaded.1, current-Stored X F cache loaded.1 disk h.1))
              (λ disk h. h) (load_installed X F S cache latest now meta (λ same disk h. tt))

  -- After the check, some build is current, whatever the outcome.
  checked_current :
      (client : Client X) (now : X.DateTime) (old : CacheMetadata X) (o : Option (RefreshOutcome X))
      (disk : Disk)
      → Either
          (Refreshed X F S cache client now old.build_number old)
          (Kept X F S cache client now old)
          o
          disk
      → HasCurrent X F S cache disk
  checked_current client now old none disk h = Kept-HasCurrent X F S cache client now old disk h
  checked_current client now old (some up_to_date) disk h = (old, h.0)
  checked_current client now old (some (updated raw meta)) disk h = (meta, h.1)

  after_check :
      (old : CacheMetadata X) (o : Option (RefreshOutcome X))
      → Triple
          (HasCurrent X F S cache)
          (serve_outcome X F cache old o)
          (λ loaded. HasCurrent X F S cache)
          (HasCurrent X F S cache)
  unfolding serve_outcome
  after_check old (some (updated raw meta)) = pure-Triple (raw, meta) (λ disk h. h)
  after_check old (some up_to_date) =
      >>=-Triple (load_build-Keeps X F cache old.build_number)
        (λ raw. pure-Triple (raw, old) (λ disk h. h))
  after_check old none =
      >>=-Triple (load_build-Keeps X F cache old.build_number)
        (λ raw. pure-Triple (raw, old) (λ disk h. h))

  serve-Triple :
      (client : Client X) (now : X.DateTime) (old : CacheMetadata X)
      → Triple
          (Stored X F cache old)
          (serve_cached X F client cache now old)
          (λ loaded. HasCurrent X F S cache)
          (HasCurrent X F S cache)
  unfolding serve_cached
  serve-Triple client now old =
      >>=-Triple
        (weaken-Triple {Q' = λ o. HasCurrent X F S cache} {E' = HasCurrent X F S cache}
          (λ disk h. h) (λ o disk h. checked_current client now old o disk h) (λ disk h. h)
          (to_option-Triple {R = HasCurrent X F S cache}
            (check-Triple X F S cache client now old old.build_number)))
        (λ o. after_check old o)

  after_current :
      (client : Client X) (now : X.DateTime) (o : Option (CacheMetadata X))
      → Triple (Found o) (serve_from X F client cache now o) (λ loaded. HasCurrent X F S cache) Any
  unfolding Found serve_from
  after_current client now none =
      weaken-Triple (λ disk h. tt) (λ loaded disk h. h) (λ disk h. h) (cold-Triple client now)
  after_current client now (some old) = record {
    ends = λ w h.
        let s = h old refl in
        (weaken-Triple {E' = Any} (λ disk h'. h') (λ loaded disk h'. h') (λ disk h'. tt)
            (serve-Triple client now old)).ends
          w s;
  }

  -- From whatever is on the disk: when the service starts, the cache has a current build.
  pub ensure_cache-HasCurrent :
      (client : Client X) (now : X.DateTime) (w : World)
      → Ends
          (λ loaded. HasCurrent X F S cache)
          (λ disk. Unit {0})
          (ensure_cache X F client cache now w)
  unfolding ensure_cache
  ensure_cache-HasCurrent client now w = ensured.ends w tt
    where
      ensured :
          Triple Any (ensure_cache X F client cache now) (λ loaded. HasCurrent X F S cache) Any
      ensured =
          >>=-Triple {Q = λ u. Any} (context-Triple _ (Any-Triple (create_dir_all cache.root)))
            λ u. >>=-Triple (current-Found {E = Any}) (λ o. after_current client now o)
