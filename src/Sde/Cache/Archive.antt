-- ===== src/Sde/Cache/Archive.antt =====
-- `extract_files`: what it writes, whatever the archive holds and whatever goes wrong, and the files
-- that it leaves when it succeeds.
use erbridge_palu.Prelude.{
  ◌≡◌, ◌≢◌, refl, inl, inr, true, Option, none, some, List, [], ◌∷◌, Text, text_eq, Bool-cases,
}
use erbridge_palu.Prelude.HashMap
use erbridge_palu.Prelude.HashSet
use erbridge_palu.Prelude.HashSet.{HashSet}
use erbridge_palu.Disk.{Bytes, FilePath, join, path_eq, Node, Result, ok, err, World}
use erbridge_palu.Disk.Triples.{Ends, Keeps, >>=-Triple, pure-Keeps, bail-Triple, context-Triple}
use erbridge_palu.Disk.Kept.{At, write-Keeps, create-Keeps, rename-Keeps}
use erbridge_palu.Sde.Cache.{
  files, ZipEntry, is_unsafe_zip_path, basename_of, tmp_of, install_file, extract_entry,
  extract_entries, check_found, extract_files,
}

-- The path is no file of a build in the directory, nor one that is being written.
abbrev pub Elsewhere : FilePath → FilePath → Type 0
Elsewhere dest q =
    (name : Text)
    → HashSet.contains name files ≡ true
    → (join dest (tmp_of name) ≢ q) × (join dest name ≢ q)

module _ (dest : FilePath) where
  module _ (q : FilePath) (n : Option Node) where
    pub install_file-Keeps :
        (found : HashSet Text) (basename : Text) (contents : Bytes)
        → join dest (tmp_of basename) ≢ q
        → join dest basename ≢ q
        → Keeps (At q n) (install_file dest found basename contents)
    unfolding install_file
    install_file-Keeps found basename contents ne ne' =
        >>=-Triple (context-Triple _ (create-Keeps q n _ ne)) λ u.
          >>=-Triple (context-Triple _ (write-Keeps q n _ contents ne)) λ u.
            >>=-Triple (context-Triple _ (rename-Keeps q n _ _ ne ne'))
              λ u. pure-Keeps (HashSet.insert basename found)

    extract_entry-Keeps :
        (found : HashSet Text) (entry : Option ZipEntry)
        → Elsewhere dest q
        → Keeps (At q n) (extract_entry dest found entry)
    unfolding extract_entry
    extract_entry-Keeps found none out = bail-Triple _
    extract_entry-Keeps found (some entry) out = elim (Bool-cases (is_unsafe_zip_path entry.name)) [
      | inl e ↦ rw e (pure-Keeps found)
      | inr e ↦ elim (Bool-cases (HashSet.contains (basename_of entry.name) files)) [
        | inl e' ↦
            rw (e, e')
              (install_file-Keeps found (basename_of entry.name) entry.contents
                (out (basename_of entry.name) e').0 (out (basename_of entry.name) e').1)
        | inr e' ↦ rw (e, e') (pure-Keeps found)
      ]
    ]

    extract_entries-Keeps :
        (found : HashSet Text) (entries : List (Option ZipEntry))
        → Elsewhere dest q
        → Keeps (At q n) (extract_entries dest found entries)
    unfolding extract_entries
    extract_entries-Keeps found [] out = pure-Keeps found
    extract_entries-Keeps found (entry ∷ entries) out =
        >>=-Triple (extract_entry-Keeps found entry out)
          (λ found'. extract_entries-Keeps found' entries out)

    check_found-Keeps :
        (found : HashSet Text) (names : List Text) → Keeps (At q n) (check_found found names)
    unfolding check_found
    check_found-Keeps found [] = pure-Keeps tt
    check_found-Keeps found (name ∷ names) = elim (Bool-cases (HashSet.contains name found)) [
      | inl e ↦ rw e (check_found-Keeps found names)
      | inr e ↦ rw e (bail-Triple _)
    ]

    pub extract_files-Keeps :
        (archive : Option (List (Option ZipEntry)))
        → Elsewhere dest q
        → Keeps (At q n) (extract_files archive dest)
    unfolding extract_files
    extract_files-Keeps none out = bail-Triple _
    extract_files-Keeps (some entries) out =
        >>=-Triple (extract_entries-Keeps [] entries out) (λ found. check_found-Keeps found files)

  -- Whatever the archive holds and whatever goes wrong, only the required files of the directory
  -- and their `.tmp` files may change: any other path has what it had before.
  pub extract_files-Elsewhere :
      (archive : Option (List (Option ZipEntry))) (q : FilePath) (w : World)
      → Elsewhere dest q
      → HashMap.get q (extract_files archive dest w).1.disk ≡ HashMap.get q w.disk
  extract_files-Elsewhere archive q w out =
      ends_same (extract_files archive dest w)
        ((extract_files-Keeps q (HashMap.get q w.disk) archive out).ends w refl)
    where
      ends_same :
          {A : Type 0} {n : Option Node} (r : Result A × World)
          → Ends (λ a. At q n) (At q n) r
          → HashMap.get q r.1.disk ≡ n
      ends_same (ok a, w) h = h
      ends_same (err e, w) h = h
