-- ===== src/Disk/Kept.antt =====
-- Which paths each operation leaves alone, and where a file is after it.
use erbridge_palu.Prelude.{
  ◌≡◌, ◌≢◌, refl, ◌∙◌, inl, inr, Bool, true, false, not, ◌||◌, Option, none, some, List, [], ◌∷◌,
  filter, Bool-cases, Option-cases, arith,
}
use erbridge_palu.Prelude.HashMap
use erbridge_palu.Disk.{
  Bytes, FilePath, path_eq, prefixes, under, Node, dir, file, Disk, is_dir_at, exists_at,
  is_writable, put, put_broken, write, create, moved, rename, read_at, read, open_file, exists,
  is_dir, add_dir, add_dirs, all_dirs, create_dir_all, names_in, read_dir, remove_dir_all,
}
use erbridge_palu.Disk.Triples.{
  Triple, Keeps, Any, weaken-Triple, attempt-Triple, look-Keeps, probe-Keeps, if_result,
}
use erbridge_palu.Disk.Looks.{probe-Triple}

-- What is at a path.
abbrev pub At : FilePath → Option Node → Disk → Type 0
At q n disk = HashMap.get q disk ≡ n

put-ne :
    (p q : FilePath) (bytes : Bytes) (disk : Disk)
    → p ≢ q
    → HashMap.get q (put p bytes disk) ≡ HashMap.get q disk
unfolding put
put-ne p q bytes disk ne = elim (Bool-cases (is_writable p disk)) [
  | inl e ↦ rw e (HashMap.get-insert_ne p q (file bytes) disk ne)
  | inr e ↦ rw e refl
]

put_self :
    (p : FilePath) (bytes : Bytes) (disk : Disk)
    → is_writable p disk ≡ true
    → HashMap.get p (put p bytes disk) ≡ some (file bytes)
unfolding put
put_self p bytes disk e = rw e (HashMap.get-insert_self p (file bytes) disk)

put_broken-ne :
    (p q : FilePath) (written : Option Bytes) (disk : Disk)
    → p ≢ q
    → HashMap.get q (put_broken p written disk) ≡ HashMap.get q disk
unfolding put_broken
put_broken-ne p q none disk ne = refl
put_broken-ne p q (some bytes) disk ne = put-ne p q bytes disk ne

-- Looking changes nothing.
module _ {P : Disk → Type 0} where
  pub read-Keeps : (p : FilePath) → Keeps P (read p)
  unfolding read read_at
  read-Keeps p = look-Keeps (read_at p) (read_same p)
    where
      read_same :
          (p : FilePath) (disk : Disk) (bytes : Bytes) (disk' : Disk)
          → read_at p disk ≡ some (bytes, disk')
          → disk' ≡ disk
      read_same p disk bytes disk' e = ground arith

  pub open_file-Keeps : (p : FilePath) → Keeps P (open_file p)
  unfolding open_file
  open_file-Keeps p =
      look-Keeps _ (λ disk a disk' e. (if_result (exists_at p disk) tt a disk disk' e).1)

  pub read_dir-Keeps : (p : FilePath) → Keeps P (read_dir p)
  unfolding read_dir
  read_dir-Keeps p =
      look-Keeps _
        (λ disk a disk' e. (if_result (is_dir_at p disk) (names_in p disk) a disk disk' e).1)

  pub exists-Keeps : (p : FilePath) → Keeps P (exists p)
  unfolding exists
  exists-Keeps p = probe-Keeps (exists_at p)

  pub is_dir-Keeps : (p : FilePath) → Keeps P (is_dir p)
  unfolding is_dir
  is_dir-Keeps p = probe-Keeps (is_dir_at p)

module _ (q : FilePath) (n : Option Node) where
  pub write-Keeps : (p : FilePath) (bytes : Bytes) → p ≢ q → Keeps (At q n) (write p bytes)
  unfolding write
  write-Keeps p bytes ne =
      attempt-Triple _ _ (λ disk h e. h)
        (λ disk h a disk' e.
          rw (if_result (is_writable p disk) tt a (put p bytes disk) disk' e).1
            (put-ne p q bytes disk ne ∙ h))
        (λ disk h written left. put_broken-ne p q written disk ne ∙ h)

  pub create-Keeps : (p : FilePath) → p ≢ q → Keeps (At q n) (create p)
  unfolding create
  create-Keeps p ne =
      attempt-Triple _ _ (λ disk h e. h)
        (λ disk h a disk' e.
          rw (if_result (is_writable p disk) tt a (put p [] disk) disk' e).1
            (put-ne p q [] disk ne ∙ h))
        (λ disk h written left. h)

  retained :
      (keep : FilePath → Bool) (disk : Disk)
      → keep q ≡ true
      → HashMap.get q (HashMap.retain keep disk) ≡ HashMap.get q disk
  retained keep disk e = HashMap.get-retain keep q disk ∙ rw e refl

  pub remove_dir_all-Keeps : (p : FilePath) → under p q ≡ false → Keeps (At q n) (remove_dir_all p)
  unfolding remove_dir_all
  remove_dir_all-Keeps p out =
      attempt-Triple _ _ (λ disk h e. h)
        (λ disk h a disk' e.
          rw
            (if_result (is_dir_at p disk) tt a (HashMap.retain (λ q'. not (under p q')) disk) disk'
              e).1
            (retained (λ q'. not (under p q')) disk (rw out refl) ∙ h))
        (λ disk h written left. retained (λ q'. not (under p q') || left q') disk (rw out refl) ∙ h)

  moved-ne :
      (a b : FilePath) (disk disk' : Disk) (u : Unit {0})
      → a ≢ q
      → b ≢ q
      → moved a b disk ≡ some (u, disk')
      → HashMap.get q disk' ≡ HashMap.get q disk
  unfolding moved
  moved-ne a b disk disk' u ne ne' e = elim (Option-cases (HashMap.get a disk)) [
    | inl gone ↦ cc (rw (moved, gone) at e)
    | inr (dir, at) ↦ cc (rw (moved, at) at e)
    | inr (file bytes, at) ↦
        let e' = rw (moved, at) at e in
        rw
          (if_result (is_writable b disk) tt u
            (HashMap.insert b (file bytes) (HashMap.remove a disk)) disk' e').1
          (HashMap.get-insert_ne b q (file bytes) (HashMap.remove a disk) ne'
            ∙ HashMap.get-remove_ne a q disk ne)
  ]

  pub rename-Keeps : (a b : FilePath) → a ≢ q → b ≢ q → Keeps (At q n) (rename a b)
  unfolding rename
  rename-Keeps a b ne ne' =
      attempt-Triple (moved a b) _ (λ disk h e. h)
        (λ disk h u disk' e. moved-ne a b disk disk' u ne ne' e ∙ h) (λ disk h written left. h)

read_found :
    (p : FilePath) (disk : Disk) (bytes : Bytes) (disk' : Disk)
    → read_at p disk ≡ some (bytes, disk')
    → (HashMap.get p disk ≡ some (file bytes)) × (disk' ≡ disk)
unfolding read_at
read_found p disk bytes disk' e = ground arith

-- What is read is in the file.
pub read-Triple : (p : FilePath) → Triple Any (read p) (λ bytes. At p (some (file bytes))) Any
unfolding read
read-Triple p =
    attempt-Triple (read_at p) _ (λ disk h e. tt)
      (λ disk h bytes disk' e. let (at, same) = read_found p disk bytes disk' e in rw same at)
      (λ disk h written left. tt)

-- What exists is there.
pub exists-Triple :
    {P E : Disk → Type 0} (p : FilePath)
    → Triple P (exists p) (λ b disk. P disk × (b ≡ true → (n : Node) × At p (some n) disk)) E
unfolding exists exists_at
exists-Triple {P} {E} p =
    weaken-Triple {E = E} (λ disk h. h) (λ b disk (h, test). (h, λ e. exists_found p disk (test e)))
      (λ disk h. h) (probe-Triple P (exists_at p))
  where
    exists_found :
        (p : FilePath) (disk : Disk)
        → exists_at p disk ≡ true
        → (n : Node) × (HashMap.get p disk ≡ some n)
    exists_found p disk e = elim (Option-cases (HashMap.get p disk)) [
      | inl gone ↦ cc (rw (exists_at, gone) at e)
      | inr (n, at) ↦ (n, at)
    ]

-- A file is there after it was written.
pub write-Triple :
    (p : FilePath) (bytes : Bytes) → Triple Any (write p bytes) (λ a. At p (some (file bytes))) Any
unfolding write
write-Triple p bytes =
    attempt-Triple _ _ (λ disk h e. tt)
      (λ disk h a disk' e.
        let (on, same) = if_result (is_writable p disk) tt a (put p bytes disk) disk' e in
        rw same (put_self p bytes disk on))
      (λ disk h written left. tt)

moved_self :
    (a b : FilePath) (bytes : Bytes) (disk disk' : Disk) (u : Unit {0})
    → HashMap.get a disk ≡ some (file bytes)
    → moved a b disk ≡ some (u, disk')
    → HashMap.get b disk' ≡ some (file bytes)
unfolding moved
moved_self a b bytes disk disk' u at e =
    let e' = rw (moved, at) at e in
    rw
      (if_result (is_writable b disk) tt u (HashMap.insert b (file bytes) (HashMap.remove a disk))
        disk' e').1
      (HashMap.get-insert_self b (file bytes) (HashMap.remove a disk))

-- A file is in its new place after it was renamed.
pub rename-Triple :
    (a b : FilePath) (bytes : Bytes)
    → Triple (At a (some (file bytes))) (rename a b) (λ u. At b (some (file bytes))) Any
unfolding rename
rename-Triple a b bytes =
    attempt-Triple (moved a b) _ (λ disk h e. tt)
      (λ disk h u disk' e. moved_self a b bytes disk disk' u h e) (λ disk h written left. tt)

moved_lands :
    (a b : FilePath) (disk disk' : Disk) (u : Unit {0})
    → moved a b disk ≡ some (u, disk')
    → (n : Node) × (HashMap.get b disk' ≡ some n)
unfolding moved
moved_lands a b disk disk' u e = elim (Option-cases (HashMap.get a disk)) [
  | inl gone ↦ cc (rw (moved, gone) at e)
  | inr (dir, at) ↦ cc (rw (moved, at) at e)
  | inr (file bytes, at) ↦ (file bytes, moved_self a b bytes disk disk' u at e)
]

-- Something stays in a place that a file is moved to.
pub rename-Here : (a b : FilePath) → Keeps (λ disk. (n : Node) × At b (some n) disk) (rename a b)
unfolding rename
rename-Here a b =
    attempt-Triple (moved a b) _ (λ disk h e. h)
      (λ disk h u disk' e. moved_lands a b disk disk' u e) (λ disk h written left. h)

-- A rename that fails changes nothing.
pub rename_err : {P : Disk → Type 0} (a b : FilePath) → Triple P (rename a b) (λ u. Any) P
unfolding rename
rename_err a b =
    attempt-Triple (moved a b) _ (λ disk h e. h) (λ disk h u disk' e. tt) (λ disk h written left. h)

module _ (q : FilePath) (n : Node) where
  add_dir-At : (p : FilePath) (disk : Disk) → At q (some n) disk → At q (some n) (add_dir p disk)
  unfolding add_dir
  add_dir-At p disk h = elim (Option-cases (HashMap.get p disk)) [
    | inr (m, e) ↦ rw (add_dir, e) h
    | inl e ↦ rw (add_dir, e) (HashMap.get-insert_ne p q dir disk (λ same. cc (rw same at e)) ∙ h)
  ]

  add_dirs-At :
      (ps : List FilePath) (disk : Disk) → At q (some n) disk → At q (some n) (add_dirs ps disk)
  unfolding add_dirs
  add_dirs-At [] disk h = h
  add_dirs-At (p ∷ ps) disk h = add_dirs-At ps (add_dir p disk) (add_dir-At p disk h)

  -- What is there stays there when directories are made.
  pub create_dir_all-Keeps : (p : FilePath) → Keeps (At q (some n)) (create_dir_all p)
  unfolding create_dir_all
  create_dir_all-Keeps p =
      attempt-Triple _ _ (λ disk h e. h)
        (λ disk h u disk' e.
          rw
            (if_result (all_dirs (prefixes p) (add_dirs (prefixes p) disk)) tt u
              (add_dirs (prefixes p) disk) disk' e).1
            (add_dirs-At (prefixes p) disk h))
        (λ disk h written left. add_dirs-At (filter left (prefixes p)) disk h)
