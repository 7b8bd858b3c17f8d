-- ===== src/Sde/Refresh/Stays.antt =====
-- What the parts of an install leave alone: the files of a directory, and what pruning keeps.
use erbridge_palu.Prelude.{
  ℕ, ◌≡◌, ◌≢◌, inl, inr, Bool, true, false, Option, some, List, [], ◌∷◌, ◌++◌, Text, text_eq,
  nat_eq, ◌==◌, beq_self, parse_u64, Bool-cases, Option-cases, if◌then◌else◌,
}
use mathlib.Core.Option
use erbridge_palu.Prelude.HashSet
use erbridge_palu.Disk.{
  FilePath, path_eq, join, under-join_ne, Node, Disk, World, Result, ok, err, Io, pure, is_dir,
}
use erbridge_palu.Disk.Triples.{
  Ends, Keeps, >>=-Triple, pure-Keeps, bail-Triple, to_option-Keeps, probe-Keeps,
}
use erbridge_palu.Disk.Kept.{At, remove_dir_all-Keeps, read_dir-Keeps, is_dir-Keeps}
use erbridge_palu.Sde.Cache.{
  files, SdeCache, Response, not_sent, bad_status, cut_off, body, receive, prune_dir, prune_entry,
  prune_entries, prune_other_builds,
}

-- The required files are in the directory.
abbrev pub There : FilePath → Disk → Type 0
There folder disk =
    (name : Text)
    → HashSet.contains name files ≡ true
    → (n : Node) × At (join folder name) (some n) disk

module _ (folder : FilePath) where
  There-Ends :
      {A : Type 0} (w : World) (r : Result A × World)
      → There folder w.disk
      → ((name : Text)
          → HashSet.contains name files ≡ true
          → (n : Node) → At (join folder name) (some n) w.disk
          → Ends (λ a. At (join folder name) (some n)) (At (join folder name) (some n)) r)
      → Ends (λ a. There folder) (There folder) r
  There-Ends w (ok a, w') there keep = λ name h. let (n, at) = there name h in (n, keep name h n at)
  There-Ends w (err e, w') there keep =
      λ name h. let (n, at) = there name h in (n, keep name h n at)

  pub There-Keeps :
      {A : Type 0} (m : Io A)
      → ((name : Text)
          → HashSet.contains name files ≡ true
          → (n : Node) → Keeps (At (join folder name) (some n)) m)
      → Keeps (There folder) m
  There-Keeps m keep = record {
    ends = λ w h. There-Ends w (m w) h (λ name e n. (keep name e n).ends w);
  }

module _ (folder : FilePath) where
  each-There :
      {A : Type 0} (w : World) (r : Result A × World)
      → There folder w.disk
      → ((name : Text)
          → HashSet.contains name files ≡ true
          → (n : Node) × At (join folder name) (some n) w.disk
          → Ends
              (λ a disk. (n : Node) × At (join folder name) (some n) disk)
              (λ disk. (n : Node) × At (join folder name) (some n) disk)
              r)
      → Ends (λ a. There folder) (There folder) r
  each-There w (ok a, w') there keep = λ name h. keep name h (there name h)
  each-There w (err e, w') there keep = λ name h. keep name h (there name h)

  pub There-each :
      {A : Type 0} (m : Io A)
      → ((name : Text)
          → HashSet.contains name files ≡ true
          → Keeps (λ disk. (n : Node) × At (join folder name) (some n) disk) m)
      → Keeps (There folder) m
  There-each m keep = record { ends = λ w h. each-There w (m w) h (λ name e. (keep name e).ends w) }

pub receive-Keeps :
    {A : Type 0} {P : Disk → Type 0} (r : Response A) (a b c : Text) → Keeps P (receive r a b c)
unfolding receive
receive-Keeps not_sent a b c = bail-Triple a
receive-Keeps bad_status a b c = bail-Triple b
receive-Keeps cut_off a b c = bail-Triple c
receive-Keeps (body x) a b c = pure-Keeps x

module _ (cache : SdeCache) (keep : ℕ) (name : Text) (rest : FilePath) (n : Option Node)
    (kept : (build : ℕ) → parse_u64 name ≡ some build → build ≡ keep) where
  prune_dir-Keeps :
      (other : Text) → Keeps (At (cache.root ++ name ∷ rest) n) (prune_dir cache keep other)
  unfolding prune_dir
  prune_dir-Keeps other = elim (Option-cases (parse_u64 other)) [
    | inl e ↦ rw (prune_dir, e) (pure-Keeps tt)
    | inr (build, e) ↦ elim (Bool-cases (build == keep)) [
      | inl e' ↦ rw (prune_dir, e, e') (pure-Keeps tt)
      | inr e' ↦
          let ne : other ≢ name = λ same. cc (beq_self build, kept build (rw same at e)) in
          rw (prune_dir, e, e')
            (>>=-Triple
              (to_option-Keeps (
                remove_dir_all-Keeps _ n (join cache.root other)
                  (under-join_ne cache.root rest other name ne)))
              (λ o. pure-Keeps tt))
    ]
  ]

  directory-Keeps :
      (here : Bool) (other : Text)
      → Keeps
          (At (cache.root ++ name ∷ rest) n)
          (if here then is_dir (join cache.root other) else pure false)
  directory-Keeps true other = is_dir-Keeps (join cache.root other)
  directory-Keeps false other = pure-Keeps false

  prune_if-Keeps :
      (directory : Bool) (other : Text)
      → Keeps
          (At (cache.root ++ name ∷ rest) n)
          (if directory then prune_dir cache keep other else pure tt)
  prune_if-Keeps true other = prune_dir-Keeps other
  prune_if-Keeps false other = pure-Keeps tt

  prune_entries-Keeps :
      (names : List Text)
      → Keeps (At (cache.root ++ name ∷ rest) n) (prune_entries cache keep names)
  unfolding prune_entries prune_entry
  prune_entries-Keeps [] = pure-Keeps tt
  prune_entries-Keeps (other ∷ names) =
      >>=-Triple
        (>>=-Triple (probe-Keeps (λ disk. true)) (λ here.
          >>=-Triple (directory-Keeps here other) (λ directory. prune_if-Keeps directory other)))
        (λ u. prune_entries-Keeps names)

  -- Pruning leaves alone what is not below another build's directory.
  pub prune_other_builds-Keeps :
      Keeps (At (cache.root ++ name ∷ rest) n) (prune_other_builds cache keep)
  unfolding prune_other_builds
  prune_other_builds-Keeps =
      >>=-Triple (to_option-Keeps (read_dir-Keeps cache.root))
        (λ entries. prune_entries-Keeps (Option.get_or entries []))
