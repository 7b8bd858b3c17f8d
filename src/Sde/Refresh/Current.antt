-- ===== src/Sde/Refresh/Current.antt =====
-- The current build as a function of the disk, and that `current_metadata` computes it.
use erbridge_palu.Prelude.{
  ◌≡◌, refl, sym, ap, ◌∙◌, inl, inr, Bool, true, false, Option, none, some, List, [], ◌∷◌, Text,
  text_eq, ◌==◌, beq_self, eq_of_beq, Bool-cases, Option-cases, if◌then◌else◌,
}
use erbridge_palu.Prelude.HashMap
use erbridge_palu.Prelude.HashSet
use erbridge_palu.External.{External}
use erbridge_palu.Disk.{
  Bytes, FilePath, path_eq, join, Node, dir, file, Disk, World, ok, err, exists_at, exists, read,
  read_at, probe, attempt, settle,
}
use erbridge_palu.Disk.Kept.{At}
use erbridge_palu.Sde.Cache.{
  files, SdeCache, metadata_path, build_dir, all_exist, build_files_present, CacheMetadata, Formats,
}
use erbridge_palu.Sde.Refresh.{metadata_if, current_metadata}

-- The world with nothing left to go wrong.
abbrev pub calm : Disk → World
calm disk = record { disk = disk; faults = [] }

-- Some of the files of a directory are there.
abbrev pub all_at : FilePath → List Text → Disk → Bool
all_at folder [] disk = true
all_at folder (name ∷ names) disk =
    if exists_at (join folder name) disk then all_at folder names disk else false

exists_calm :
    (p : FilePath) (disk : Disk) → exists p (calm disk) ≡ (ok (exists_at p disk), calm disk)
unfolding exists probe attempt settle
exists_calm p disk = elim (Bool-cases (exists_at p disk)) [ inl e ↦ rw e refl | inr e ↦ rw e refl ]

pub all_exist-calm :
    (folder : FilePath) (names : List Text) (disk : Disk)
    → all_exist folder names (calm disk) ≡ (ok (all_at folder names disk), calm disk)
unfolding all_exist
all_exist-calm folder [] disk = refl
all_exist-calm folder (name ∷ names) disk = elim (Bool-cases (exists_at (join folder name) disk)) [
  | inl e ↦ rw (exists_calm (join folder name) disk, e) (all_exist-calm folder names disk)
  | inr e ↦ rw (exists_calm (join folder name) disk, e) refl
]

pub read-calm_file :
    (p : FilePath) (bytes : Bytes) (disk : Disk)
    → At p (some (file bytes)) disk
    → read p (calm disk) ≡ (ok bytes, calm disk)
unfolding read read_at attempt settle
read-calm_file p bytes disk at = rw (read_at, at) refl

read-calm-none :
    (p : FilePath) (disk : Disk) → At p none disk → read p (calm disk) ≡ (err [], calm disk)
unfolding read read_at attempt settle
read-calm-none p disk at = rw (read_at, at) refl

read-calm_dir :
    (p : FilePath) (disk : Disk) → At p (some dir) disk → read p (calm disk) ≡ (err [], calm disk)
unfolding read read_at attempt settle
read-calm_dir p disk at = rw (read_at, at) refl

module _ (X : External) (F : Formats X) (cache : SdeCache) where
  abbrev pub if_there : Option (CacheMetadata X) → Disk → Option (CacheMetadata X)
  if_there none disk = none
  if_there (some meta) disk =
      if all_at (build_dir cache meta.build_number) files disk then some meta else none

  abbrev pub current_at : Option Node → Disk → Option (CacheMetadata X)
  current_at none disk = none
  current_at (some dir) disk = none
  current_at (some (file bytes)) disk = if_there (F.metadata_from_slice bytes) disk

  -- The build of the metadata file, when all of its files are on the disk.
  abbrev pub current : Disk → Option (CacheMetadata X)
  current disk = current_at (HashMap.get (metadata_path cache) disk) disk

  if_calm :
      (o : Option (CacheMetadata X)) (disk : Disk)
      → metadata_if X F cache o (calm disk) ≡ (ok (if_there o disk), calm disk)
  unfolding metadata_if build_files_present
  if_calm none disk = refl
  if_calm (some meta) disk = rw (all_exist-calm (build_dir cache meta.build_number) files disk) refl

  -- Where nothing goes wrong, `current_metadata` is that function of the disk, and changes nothing.
  pub current_metadata-calm :
      (disk : Disk) → current_metadata X F cache (calm disk) ≡ (ok (current disk), calm disk)
  unfolding current_metadata
  current_metadata-calm disk = elim (Option-cases (HashMap.get (metadata_path cache) disk)) [
    | inl e ↦ rw (read-calm-none (metadata_path cache) disk e, e) refl
    | inr (dir, e) ↦ rw (read-calm_dir (metadata_path cache) disk e, e) refl
    | inr (file bytes, e) ↦
        rw (read-calm_file (metadata_path cache) bytes disk e, e)
          (if_calm (F.metadata_from_slice bytes) disk)
  ]

  -- A build with its metadata in place and its files there.
  pub record Stored (meta : CacheMetadata X) (disk : Disk) : Type 0 where
    pub written :
        (bytes : Bytes) × (F.metadata_from_slice bytes ≡ some meta)
        × At (metadata_path cache) (some (file bytes)) disk
    pub present :
        (name : Text)
        → HashSet.contains name files ≡ true
        → (n : Node) × At (join (build_dir cache meta.build_number) name) (some n) disk

  all_at-there :
      (folder : FilePath) (names : List Text) (disk : Disk)
      → ((name : Text)
          → HashSet.contains name names ≡ true
          → (n : Node) × At (join folder name) (some n) disk)
      → all_at folder names disk ≡ true
  unfolding HashSet.contains exists_at
  all_at-there folder [] disk there = refl
  all_at-there folder (name ∷ names) disk there =
      let (n, e) = there name (rw (beq_self name) refl) in
      rw (exists_at, e)
        (all_at-there folder names disk (λ other h.
          there other
            (elim (Bool-cases (name == other)) [ inl e' ↦ rw e' refl | inr e' ↦ rw (e', h) refl ])))

  there-all_at :
      (folder : FilePath) (names : List Text) (disk : Disk)
      → all_at folder names disk ≡ true
      → (name : Text) → HashSet.contains name names ≡ true
      → (n : Node) × At (join folder name) (some n) disk
  unfolding HashSet.contains exists_at
  there-all_at folder [] disk all name h = cc
  there-all_at folder (other ∷ names) disk all name h =
      elim (Option-cases (HashMap.get (join folder other) disk)) [
        | inl gone ↦ cc (rw (exists_at, gone) at all)
        | inr (n, e) ↦ elim (Bool-cases (other == name)) [
          | inl same ↦
              (n, ap (λ x. HashMap.get (join folder x) disk) (sym (eq_of_beq other name same)) ∙ e)
          | inr apart ↦
              there-all_at folder names disk (rw (exists_at, e) at all) name (rw apart at h)
        ]
      ]

  pub current-Stored :
      (meta : CacheMetadata X) (disk : Disk) → Stored meta disk → current disk ≡ some meta
  current-Stored meta disk s =
      let (bytes, e, at) = s.written in
      rw (at, e, all_at-there (build_dir cache meta.build_number) files disk s.present) refl

  if_there_inv :
      (o : Option (CacheMetadata X)) (meta : CacheMetadata X) (disk : Disk)
      → if_there o disk ≡ some meta
      → (o ≡ some meta) × (all_at (build_dir cache meta.build_number) files disk ≡ true)
  if_there_inv none meta disk h = cc
  if_there_inv (some m) meta disk h =
      elim (Bool-cases (all_at (build_dir cache m.build_number) files disk)) [
        | inl e ↦
            let same : some m ≡ some meta = rw e at h in
            (same, let same' : m ≡ meta = cc in rw same' at e)
        | inr e ↦ cc (rw e at h)
      ]

  pub Stored-current :
      (meta : CacheMetadata X) (disk : Disk) → current disk ≡ some meta → Stored meta disk
  Stored-current meta disk h = elim (Option-cases (HashMap.get (metadata_path cache) disk)) [
    | inl e ↦ cc (rw e at h)
    | inr (dir, e) ↦ cc (rw e at h)
    | inr (file bytes, e) ↦
        let (read_back, all) = if_there_inv (F.metadata_from_slice bytes) meta disk (rw e at h) in
        record {
          written = (bytes, read_back, e);
          present = there-all_at (build_dir cache meta.build_number) files disk all;
        }
  ]
