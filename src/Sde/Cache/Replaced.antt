-- ===== src/Sde/Cache/Replaced.antt =====
-- A required file that is in a directory stays there when a build is extracted into it.
use erbridge_palu.Prelude.{
  ◌≡◌, sym, subst, inl, inr, true, Option, none, some, List, [], ◌∷◌, Text, text_eq, ◌==◌, beq_self,
  eq_of_beq, Bool-cases,
}
use erbridge_palu.Prelude.HashSet
use erbridge_palu.Prelude.HashSet.{HashSet}
use erbridge_palu.Disk.{
  Bytes, FilePath, join, join-ne, path_eq, Node, Disk, World, Result, ok, err, Io, pure, create,
  write, rename,
}
use erbridge_palu.Disk.Triples.{
  Ends, Keeps, >>=-Triple, pure-Keeps, bail-Triple, if_Triple, context-Triple,
}
use erbridge_palu.Disk.Kept.{At, create-Keeps, write-Keeps, rename-Here}
use erbridge_palu.Sde.Cache.{
  files, ZipEntry, is_unsafe_zip_path, basename_of, tmp_of, install_file, extract_entry,
  extract_entries, check_found, extract_files,
}
use erbridge_palu.Sde.Cache.Archive.{install_file-Keeps}
use erbridge_palu.Sde.Cache.Extracted.{tmp-ne}

module _ (dest : FilePath) (name : Text) (required : HashSet.contains name files ≡ true) where
  abbrev pub Here : Disk → Type 0
  Here disk = (n : Node) × At (join dest name) (some n) disk

  kept-Here :
      {A : Type 0} (m : Io A) → ((n : Node) → Keeps (At (join dest name) (some n)) m) → Keeps Here m
  kept-Here m keep = record { ends = λ w h. found_here (m w) h.0 ((keep h.0).ends w h.1) }
    where
      found_here :
          {A : Type 0} (r : Result A × World) (n : Node)
          → Ends (λ a. At (join dest name) (some n)) (At (join dest name) (some n)) r
          → Ends (λ a. Here) Here r
      found_here (ok a, w) n h = (n, h)
      found_here (err e, w) n h = (n, h)

  install-Here :
      (found : HashSet Text) (basename : Text) (contents : Bytes)
      → HashSet.contains basename files ≡ true
      → Keeps Here (install_file dest found basename contents)
  unfolding install_file
  install-Here found basename contents wanted = elim (Bool-cases (basename == name)) [
    | inr other ↦ kept-Here (install_file dest found basename contents) (λ n.
        install_file-Keeps dest (join dest name) (some n) found basename contents
          (join-ne dest _ _ (tmp-ne name basename required wanted))
          (join-ne dest _ _ (λ e. cc (beq_self name))))
    | inl same ↦
        let apart = join-ne dest (tmp_of basename) name (tmp-ne name basename required wanted) in
        >>=-Triple
          (context-Triple _ (
            kept-Here (create (join dest (tmp_of basename)))
              (λ n. create-Keeps _ (some n) _ apart)))
          λ u.
            >>=-Triple
              (context-Triple _ (
                kept-Here (write (join dest (tmp_of basename)) contents)
                  (λ n. write-Keeps _ (some n) _ contents apart)))
              λ u.
                >>=-Triple
                  (context-Triple _ (
                    subst (λ b. Keeps Here (rename (join dest (tmp_of basename)) (join dest b)))
                      (sym (eq_of_beq basename name same))
                      (rename-Here (join dest (tmp_of basename)) (join dest name))))
                  λ u. pure-Keeps (HashSet.insert basename found)
  ]

  entry-Here :
      (found : HashSet Text) (entry : Option ZipEntry) → Keeps Here (extract_entry dest found entry)
  unfolding extract_entry
  entry-Here found none = bail-Triple _
  entry-Here found (some entry) =
      elim (Bool-cases (HashSet.contains (basename_of entry.name) files)) [
        | inl wanted ↦ rw wanted (
            if_Triple (is_unsafe_zip_path entry.name) (pure found) _ (pure-Keeps found)
              (install-Here found (basename_of entry.name) entry.contents wanted))
        | inr skip ↦ rw skip (
            if_Triple (is_unsafe_zip_path entry.name) (pure found) (pure found) (pure-Keeps found)
              (pure-Keeps found))
      ]

  entries-Here :
      (found : HashSet Text) (entries : List (Option ZipEntry))
      → Keeps Here (extract_entries dest found entries)
  unfolding extract_entries
  entries-Here found [] = pure-Keeps found
  entries-Here found (entry ∷ entries) =
      >>=-Triple (entry-Here found entry) (λ found'. entries-Here found' entries)

  checked-Here : (found : HashSet Text) (names : List Text) → Keeps Here (check_found found names)
  unfolding check_found
  checked-Here found [] = pure-Keeps tt
  checked-Here found (other ∷ names) =
      if_Triple (HashSet.contains other found) (check_found found names) _
        (checked-Here found names) (bail-Triple _)

  pub extract_files-Here :
      (archive : Option (List (Option ZipEntry))) → Keeps Here (extract_files archive dest)
  unfolding extract_files
  extract_files-Here none = bail-Triple _
  extract_files-Here (some entries) =
      >>=-Triple (entries-Here [] entries) (λ found. checked-Here found files)
