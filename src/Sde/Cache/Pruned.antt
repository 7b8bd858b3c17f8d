-- ===== src/Sde/Cache/Pruned.antt =====
-- `prune_other_builds`, where nothing goes wrong: the directories of the other builds are removed,
-- with all that is in them, and everything else stays.
use erbridge_palu.Prelude.{
  ℕ, ◌≡◌, ◌≢◌, refl, sym, ap, ◌∙◌, inl, inr, Bool, true, false, not, ◌&&◌, none, some, List, [],
  ◌∷◌, ◌++◌, Text, text_eq, nat_eq, Memᴰ, ◌==◌, beq_self, eq_of_beq, parse_u64, Bool-cases,
  Option-cases, if◌then◌else◌,
}
use mathlib.Core.List.Memᴰ
use erbridge_palu.Prelude.HashMap
use erbridge_palu.Disk.{
  FilePath, path_eq, join, child, under, under-join_ne, Node, Disk, World, ok, is_dir_at, is_dir,
  probe, attempt, settle, names_in, read_dir, remove_dir_all,
}
use erbridge_palu.Sde.Cache.{SdeCache, prune_dir, prune_entry, prune_entries, prune_other_builds}

abbrev calm : Disk → World
calm disk = record { disk = disk; faults = [] }

module _ (cache : SdeCache) (keep : ℕ) where
  -- The name is that of the directory of another build.
  abbrev pub is_other_build : Text → Bool
  is_other_build name = elim (parse_u64 name) [ none ↦ false | some build ↦ not (build == keep) ]

  abbrev without : Text → Disk → Disk
  without name disk = HashMap.retain (λ q. not (under (join cache.root name) q)) disk

  -- The disk after one pass of the loop.
  abbrev after_entry : Text → Disk → Disk
  after_entry name disk =
      if is_dir_at (join cache.root name) disk && is_other_build name
      then without name disk
      else disk

  abbrev after_entries : List Text → Disk → Disk
  after_entries [] disk = disk
  after_entries (name ∷ names) disk = after_entries names (after_entry name disk)

  is_dir-calm :
      (p : FilePath) (disk : Disk) → is_dir p (calm disk) ≡ (ok (is_dir_at p disk), calm disk)
  unfolding is_dir probe attempt settle
  is_dir-calm p disk = elim (Bool-cases (is_dir_at p disk)) [
    | inl e ↦ rw e refl
    | inr e ↦ rw e refl
  ]

  remove_calm :
      (p : FilePath) (disk : Disk)
      → is_dir_at p disk ≡ true
      → remove_dir_all p (calm disk) ≡ (ok tt, calm (HashMap.retain (λ q. not (under p q)) disk))
  unfolding remove_dir_all attempt settle
  remove_calm p disk e = rw e refl

  dir_calm :
      (name : Text) (disk : Disk)
      → is_dir_at (join cache.root name) disk ≡ true
      → prune_dir cache keep name (calm disk)
        ≡ (ok tt, calm (if is_other_build name then without name disk else disk))
  unfolding prune_dir
  dir_calm name disk e = elim (Option-cases (parse_u64 name)) [
    | inl none_e ↦ rw (prune_dir, is_other_build, none_e) refl
    | inr (build, some_e) ↦ elim (Bool-cases (build == keep)) [
      | inl same ↦ rw (prune_dir, is_other_build, some_e, same) refl
      | inr other ↦
          rw (prune_dir, is_other_build, some_e, other)
            (rw (remove_calm (join cache.root name) disk e) refl)
    ]
  ]

  entry_calm :
      (name : Text) (disk : Disk)
      → prune_entry cache keep name (calm disk) ≡ (ok tt, calm (after_entry name disk))
  unfolding prune_entry probe attempt settle
  entry_calm name disk = elim (Bool-cases (is_dir_at (join cache.root name) disk)) [
    | inl e ↦ rw (is_dir-calm (join cache.root name) disk, e) (dir_calm name disk e)
    | inr e ↦ rw (is_dir-calm (join cache.root name) disk, e) refl
  ]

  entries_calm :
      (names : List Text) (disk : Disk)
      → prune_entries cache keep names (calm disk) ≡ (ok tt, calm (after_entries names disk))
  unfolding prune_entries
  entries_calm [] disk = refl
  entries_calm (name ∷ names) disk =
      rw (entry_calm name disk) (entries_calm names (after_entry name disk))

  all_calm :
      (disk : Disk)
      → is_dir_at cache.root disk ≡ true
      → prune_other_builds cache keep (calm disk)
        ≡ (ok tt, calm (after_entries (names_in cache.root disk) disk))
  unfolding prune_other_builds read_dir attempt settle
  all_calm disk e = rw e (entries_calm (names_in cache.root disk) disk)

  module _ (name : Text) (rest : FilePath) where
    abbrev inside : FilePath
    inside = cache.root ++ name ∷ rest

    abbrev is_doomed : Disk → Bool
    is_doomed disk = is_dir_at (join cache.root name) disk && is_other_build name

    under_self : (p r : FilePath) → under (join p name) (p ++ name ∷ r) ≡ true
    unfolding under
    under_self [] r = rw (beq_self name) refl
    under_self (x ∷ p) r = rw (beq_self x) (under_self p r)

    without_self :
        (r : FilePath) (disk : Disk)
        → HashMap.get (cache.root ++ name ∷ r) (without name disk) ≡ none
    without_self r disk =
        HashMap.get-retain (λ q. not (under (join cache.root name) q)) (cache.root ++ name ∷ r) disk
        ∙ rw (under_self cache.root r) refl

    without_ne :
        (other : Text) (r : FilePath) (disk : Disk)
        → other ≢ name
        → HashMap.get (cache.root ++ name ∷ r) (without other disk)
          ≡ HashMap.get (cache.root ++ name ∷ r) disk
    without_ne other r disk ne =
        HashMap.get-retain (λ q. not (under (join cache.root other) q)) (cache.root ++ name ∷ r)
          disk
        ∙ rw (under-join_ne cache.root r other name ne) refl

    entry_ne :
        (other : Text) (r : FilePath) (disk : Disk)
        → other ≢ name
        → HashMap.get (cache.root ++ name ∷ r) (after_entry other disk)
          ≡ HashMap.get (cache.root ++ name ∷ r) disk
    entry_ne other r disk ne =
        elim (Bool-cases (is_dir_at (join cache.root other) disk && is_other_build other)) [
          | inl e ↦ rw e (without_ne other r disk ne)
          | inr e ↦ rw e refl
        ]

    -- What is gone stays gone.
    entry_none :
        (other : Text) (disk : Disk)
        → HashMap.get inside disk ≡ none
        → HashMap.get inside (after_entry other disk) ≡ none
    entry_none other disk h =
        elim (Bool-cases (is_dir_at (join cache.root other) disk && is_other_build other)) [
          | inl e ↦ rw e (
              HashMap.get-retain (λ q. not (under (join cache.root other) q)) inside disk
              ∙ elim (Bool-cases (under (join cache.root other) inside)) [
                | inl e' ↦ rw e' refl
                | inr e' ↦ rw e' h
              ])
          | inr e ↦ rw e h
        ]

    entries_none :
        (names : List Text) (disk : Disk)
        → HashMap.get inside disk ≡ none
        → HashMap.get inside (after_entries names disk) ≡ none
    entries_none [] disk h = h
    entries_none (other ∷ names) disk h =
        entries_none names (after_entry other disk) (entry_none other disk h)

    dir_same :
        (disk disk' : Disk) (p : FilePath)
        → HashMap.get p disk' ≡ HashMap.get p disk
        → is_dir_at p disk' ≡ is_dir_at p disk
    unfolding is_dir_at
    dir_same disk disk' [] e = refl
    dir_same disk disk' (x ∷ p) e = rw (is_dir_at, e) refl

    doomed_same :
        (other : Text) (disk : Disk)
        → other ≢ name
        → is_doomed (after_entry other disk) ≡ is_doomed disk
    doomed_same other disk ne =
        ap (λ b. b && is_other_build name)
          (dir_same disk (after_entry other disk) (join cache.root name)
            (entry_ne other [] disk ne))

    entries_kept :
        (names : List Text) (disk : Disk)
        → is_doomed disk ≡ false
        → HashMap.get inside (after_entries names disk) ≡ HashMap.get inside disk
    entries_kept [] disk h = refl
    entries_kept (other ∷ names) disk h = elim (Bool-cases (other == name)) [
      | inl same ↦
          let still : after_entry other disk ≡ disk = rw (eq_of_beq other name same, h) refl in
          ap (λ d. HashMap.get inside (after_entries names d)) still ∙ entries_kept names disk h
      | inr apart ↦
          let ne : other ≢ name = λ e. cc (beq_self name) in
          entries_kept names (after_entry other disk) (doomed_same other disk ne ∙ h)
          ∙ entry_ne other rest disk ne
    ]

    entries_gone :
        (names : List Text) (disk : Disk)
        → is_doomed disk ≡ true
        → Memᴰ name names
        → HashMap.get inside (after_entries names disk) ≡ none
    entries_gone [] disk h m = absurd (Memᴰ.not-nil m)
    entries_gone (other ∷ names) disk h m = elim (Bool-cases (other == name)) [
      | inl same ↦
          entries_none names (after_entry other disk)
            (rw (eq_of_beq other name same, h) (without_self rest disk))
      | inr apart ↦
          let ne : other ≢ name = λ e. cc (beq_self name) in
          elim (Memᴰ.cases_cons m) [
            | inl here ↦ absurd (ne (sym here))
            | inr later ↦
                entries_gone names (after_entry other disk) (doomed_same other disk ne ∙ h) later
          ]
    ]

    child-join : (p : FilePath) → child p (join p name) ≡ some name
    unfolding child
    child-join [] = refl
    child-join (x ∷ p) = rw (beq_self x) (child-join p)

    mem-names_in :
        (p : FilePath) (disk : Disk) (n : Node)
        → HashMap.get (join p name) disk ≡ some n
        → Memᴰ name (names_in p disk)
    unfolding names_in HashMap.get
    mem-names_in p [] n h = cc
    mem-names_in p ((q, v) ∷ disk) n h = elim (Bool-cases (q == join p name)) [
      | inl same ↦ rw (names_in, eq_of_beq q (join p name) same, child-join p) (Memᴰ.head refl)
      | inr apart ↦
          let later = mem-names_in p disk n (rw apart at h) in
          elim (Option-cases (child p q)) [
            | inl e ↦ rw (names_in, e) later
            | inr (other, e) ↦ rw (names_in, e) (Memᴰ.tail later)
          ]
    ]

    dir_there :
        (a : Text) (p : FilePath) (disk : Disk)
        → is_dir_at (a ∷ p) disk ≡ true
        → (n : Node) × (HashMap.get (a ∷ p) disk ≡ some n)
    unfolding is_dir_at
    dir_there a p disk e = elim (Option-cases (HashMap.get (a ∷ p) disk)) [
      | inl gone ↦ cc (rw (is_dir_at, gone) at e)
      | inr (n, at) ↦ (n, at)
    ]

    join_there :
        (p : FilePath) (disk : Disk)
        → is_dir_at (join p name) disk ≡ true
        → (n : Node) × (HashMap.get (join p name) disk ≡ some n)
    join_there [] disk e = dir_there name [] disk e
    join_there (x ∷ p) disk e = dir_there x (join p name) disk e

    and_true : (a b : Bool) → (a && b) ≡ true → a ≡ true
    and_true true b h = refl
    and_true false b h = h

    -- Where nothing goes wrong, the directory of another build is removed from the cache, with all
    -- that is in it, and any other entry stays with all that is in it.
    pub prune_other_builds_lem :
        (disk : Disk)
        → is_dir_at cache.root disk ≡ true
        → HashMap.get inside (prune_other_builds cache keep (calm disk)).1.disk
          ≡ (if is_doomed disk then none else HashMap.get inside disk)
    prune_other_builds_lem disk root =
        ap (λ r. HashMap.get inside r.1.disk) (all_calm disk root)
        ∙ elim (Bool-cases (is_doomed disk)) [
          | inr keep_it ↦ rw keep_it (entries_kept (names_in cache.root disk) disk keep_it)
          | inl doomed ↦
              let (n, at) = join_there cache.root disk (and_true _ _ doomed) in
              rw doomed (
                entries_gone (names_in cache.root disk) disk doomed
                  (mem-names_in cache.root disk n at))
        ]
