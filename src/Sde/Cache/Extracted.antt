-- ===== src/Sde/Cache/Extracted.antt =====
-- The files that `extract_files` leaves when it succeeds.
use erbridge_palu.Prelude.{
  ◌≡◌, ◌≢◌, refl, sym, ap, subst, ◌⊎◌, inl, inr, Bool, true, false, ◌&&◌, not, Option, none, some,
  List, [], ◌∷◌, Text, text_eq, ◌==◌, beq_self, eq_of_beq, Bool-cases, Option-cases, if◌then◌else◌,
  text_beq, text_of,
}
use erbridge_palu.Prelude.HashSet
use erbridge_palu.Prelude.HashSet.{HashSet}
use erbridge_palu.Disk.{
  Bytes, FilePath, join, join-ne, path_eq, file, Disk, World, create, write, rename,
}
use erbridge_palu.Disk.Triples.{
  Ends, Triple, Any, Any-Triple, >>=-Triple, pure-Triple, bail-Any, each-Triple, weaken-Triple,
  context-Triple,
}
use erbridge_palu.Disk.Kept.{At, write-Triple, rename-Triple}
use erbridge_palu.Sde.Cache.{
  files, ZipEntry, is_unsafe_zip_path, basename_of, tmp_of, install_file, extract_entry,
  extract_entries, check_found, extract_files,
}
use erbridge_palu.Sde.Cache.Archive.{install_file-Keeps}

-- A required file is one of the four.
files_cases :
    (name : Text)
    → HashSet.contains name files ≡ true
    → (name ≡ text_of "mapSolarSystems.jsonl")
      ⊎ (name ≡ text_of "mapStargates.jsonl")
      ⊎ (name ≡ text_of "types.jsonl")
      ⊎ (name ≡ text_of "typeDogma.jsonl")
unfolding HashSet.contains
files_cases name h = elim (Bool-cases (text_of "mapSolarSystems.jsonl" == name)) [
  | inl e ↦ inl (sym (eq_of_beq _ name e))
  | inr e ↦ elim (Bool-cases (text_of "mapStargates.jsonl" == name)) [
    | inl e' ↦ inr (inl (sym (eq_of_beq _ name e')))
    | inr e' ↦ elim (Bool-cases (text_of "types.jsonl" == name)) [
      | inl e'' ↦ inr (inr (inl (sym (eq_of_beq _ name e''))))
      | inr e'' ↦ elim (Bool-cases (text_of "typeDogma.jsonl" == name)) [
        | inl last ↦ inr (inr (inr (sym (eq_of_beq _ name last))))
        | inr last ↦ cc (rw (e, e', e'', last) at h)
      ]
    ]
  ]
]

tmp_not_file :
    (name : Text)
    → HashSet.contains name files ≡ true
    → HashSet.contains (tmp_of name) files ≡ false
unfolding HashSet.contains text_beq
tmp_not_file name h = elim (files_cases name h) [
  | inl e ↦ rw e refl
  | inr (inl e) ↦ rw e refl
  | inr (inr (inl e)) ↦ rw e refl
  | inr (inr (inr e)) ↦ rw e refl
]

pub tmp-ne :
    (name other : Text)
    → HashSet.contains name files ≡ true
    → HashSet.contains other files ≡ true
    → tmp_of other ≢ name
tmp-ne name other h h' e = cc (tmp_not_file other h', ap (λ n. HashSet.contains n files) e)

-- What the archive holds of a file: the contents of its last safe entry with the file's name.
abbrev pub is_entry_of : Text → ZipEntry → Bool
is_entry_of name entry = not (is_unsafe_zip_path entry.name) && basename_of entry.name == name

abbrev pub last_contents : Text → Option Bytes → List (Option ZipEntry) → Option Bytes
last_contents name before [] = before
last_contents name before (none ∷ entries) = last_contents name before entries
last_contents name before (some entry ∷ entries) =
    last_contents name (if is_entry_of name entry then some entry.contents else before) entries

module _ (dest : FilePath) (name : Text) (required : HashSet.contains name files ≡ true) where
  -- Where the file was found, it has the contents.
  abbrev Held : HashSet Text → Option Bytes → Disk → Type 0
  Held found contents disk =
      HashSet.contains name found ≡ true
      → (bytes : Bytes) × (contents ≡ some bytes) × At (join dest name) (some (file bytes)) disk

  install_here :
      (found : HashSet Text) (contents : Bytes) {P : Disk → Type 0}
      → Triple P (install_file dest found name contents) (λ found'. Held found' (some contents)) Any
  unfolding install_file
  install_here found contents =
      >>=-Triple {Q = λ u. Any} (context-Triple _ (Any-Triple (create (join dest (tmp_of name)))))
        λ u. >>=-Triple (context-Triple _ (write-Triple (join dest (tmp_of name)) contents)) λ u.
          >>=-Triple
            (context-Triple _ (rename-Triple (join dest (tmp_of name)) (join dest name) contents))
            λ u. pure-Triple (HashSet.insert name found) (λ disk h seen. (contents, refl, h))

  install_result :
      (found : HashSet Text) (basename : Text) (contents : Bytes) {P : Disk → Type 0}
      → Triple P
          (install_file dest found basename contents)
          (λ found' disk. found' ≡ HashSet.insert basename found)
          Any
  unfolding install_file
  install_result found basename contents =
      >>=-Triple {Q = λ u. Any}
        (context-Triple _ (Any-Triple (create (join dest (tmp_of basename)))))
        λ u.
          >>=-Triple {Q = λ u. Any}
            (context-Triple _ (Any-Triple (write (join dest (tmp_of basename)) contents)))
            λ u.
              >>=-Triple {Q = λ u. Any}
                (context-Triple _
                  (Any-Triple (rename (join dest (tmp_of basename)) (join dest basename))))
                λ u. pure-Triple (HashSet.insert basename found) (λ disk h. refl)

  install_other :
      (found : HashSet Text) (basename : Text) (contents : Bytes) (before : Option Bytes)
      → HashSet.contains basename files ≡ true
      → basename ≢ name
      → Triple
          (Held found before)
          (install_file dest found basename contents)
          (λ found'. Held found' before)
          Any
  install_other found basename contents before wanted ne =
      elim (Bool-cases (HashSet.contains name found)) [
        | inr unseen ↦
            weaken-Triple (λ disk h. h)
              (λ found' disk e seen.
                cc (HashSet.contains-insert_ne basename name found ne, rw e at seen))
              (λ disk h. h) (install_result found basename contents)
        | inl seen ↦ elim (Option-cases before) [
          | inl e ↦ record { ends = λ w h. let (b, e', at) = h seen in cc }
          | inr (b, e) ↦
              weaken-Triple
                (λ disk h. let (b', e', at) = h seen in let same : b' ≡ b = cc in rw same at at)
                (λ found' disk h again. (b, e, h)) (λ disk h. tt)
                (install_file-Keeps dest (join dest name) (some (file b)) found basename contents
                  (join-ne dest _ _ (tmp-ne name basename required wanted)) (join-ne dest _ _ ne))
        ]
      ]

  entry_step :
      (found : HashSet Text) (entry : ZipEntry) (before : Option Bytes)
      → Triple
          (Held found before)
          (extract_entry dest found (some entry))
          (λ found'. Held found' (if is_entry_of name entry then some entry.contents else before))
          Any
  unfolding extract_entry
  entry_step found entry before = elim (Bool-cases (is_unsafe_zip_path entry.name)) [
    | inl unsafe ↦ rw (unsafe) (pure-Triple found (λ disk h. h))
    | inr safe ↦ elim (Bool-cases (basename_of entry.name == name)) [
      | inl same ↦
          let here = eq_of_beq (basename_of entry.name) name same in
          rw (safe, here, required, beq_self name) (install_here found entry.contents)
      | inr other ↦ elim (Bool-cases (HashSet.contains (basename_of entry.name) files)) [
        | inl wanted ↦
            rw (safe, wanted, other)
              (install_other found (basename_of entry.name) entry.contents before wanted
                (λ e. cc (beq_self name)))
        | inr skip ↦ rw (safe, skip, other) (pure-Triple found (λ disk h. h))
      ]
    ]
  ]

  entries_step :
      (found : HashSet Text) (before : Option Bytes) (entries : List (Option ZipEntry))
      → Triple
          (Held found before)
          (extract_entries dest found entries)
          (λ found'. Held found' (last_contents name before entries))
          Any
  unfolding extract_entries
  entries_step found before [] = pure-Triple found (λ disk h. h)
  entries_step found before (none ∷ entries) = bail-Any _
  entries_step found before (some entry ∷ entries) =
      >>=-Triple (entry_step found entry before) (λ found'.
        entries_step found' (if is_entry_of name entry then some entry.contents else before)
          entries)

  check_found-Any :
      (found : HashSet Text) (names : List Text) {P : Disk → Type 0}
      → Triple P (check_found found names) (λ u. P) Any
  unfolding check_found
  check_found-Any found [] = pure-Triple tt (λ disk h. h)
  check_found-Any found (other ∷ names) {P} = elim (Bool-cases (HashSet.contains other found)) [
    | inl there ↦ rw there (check_found-Any found names {P = P})
    | inr missing ↦ rw missing (bail-Any _)
  ]

  check_step :
      (found : HashSet Text) (names : List Text) {P : Disk → Type 0}
      → HashSet.contains name names ≡ true
      → Triple P
          (check_found found names)
          (λ u disk. P disk × (HashSet.contains name found ≡ true))
          Any
  unfolding check_found HashSet.contains
  check_step found [] h = cc
  check_step found (other ∷ names) {P} h = elim (Bool-cases (HashSet.contains other found)) [
    | inr missing ↦ rw missing (bail-Any _)
    | inl there ↦ elim (Bool-cases (other == name)) [
      | inl same ↦ rw there (
          weaken-Triple {P = P} {E = Any} (λ disk p. p)
            (λ u disk p.
              (p, subst (λ n. HashSet.contains n found ≡ true) (eq_of_beq other name same) there))
            (λ disk p. p) (check_found-Any found names))
      | inr apart ↦ rw there (check_step found names {P = P} (rw apart at h))
    ]
  ]

  -- When the extraction succeeds, the file has the contents of its last safe entry.
  pub extract_files-Triple :
      (archive : Option (List (Option ZipEntry)))
      → Triple Any
          (extract_files archive dest)
          (λ u disk.
            (entries : List (Option ZipEntry)) × (archive ≡ some entries)
            × (bytes : Bytes) × (last_contents name none entries ≡ some bytes)
            × At (join dest name) (some (file bytes)) disk)
          Any
  unfolding extract_files HashSet.contains
  extract_files-Triple none = bail-Any _
  extract_files-Triple (some entries) =
      >>=-Triple
        (weaken-Triple {P = Held [] none} (λ disk h seen. cc) (λ found disk h. h) (λ disk h. h)
          (entries_step [] none entries))
        λ found.
          weaken-Triple (λ disk h. h)
            (λ u disk (held, seen). let (b, e, at) = held seen in (entries, refl, b, e, at))
            (λ disk h. h) (check_step found files required)

-- What the directory holds of each required file, from the entries of an archive.
abbrev pub Extracted : FilePath → List (Option ZipEntry) → Disk → Type 0
Extracted dest entries disk =
    (name : Text)
    → HashSet.contains name files ≡ true
    → (bytes : Bytes) × (last_contents name none entries ≡ some bytes)
      × At (join dest name) (some (file bytes)) disk

extracted_each :
    (dest : FilePath) (entries : List (Option ZipEntry)) (name : Text)
    → Triple Any
        (extract_files (some entries) dest)
        (λ u disk.
          HashSet.contains name files ≡ true
          → (bytes : Bytes) × (last_contents name none entries ≡ some bytes)
            × At (join dest name) (some (file bytes)) disk)
        Any
extracted_each dest entries name = elim (Bool-cases (HashSet.contains name files)) [
  | inl required ↦
      weaken-Triple (λ disk h. h)
        (λ u disk (entries', e, bytes, e', at) h.
          let same : entries' ≡ entries = cc in (bytes, rw same at e', at))
        (λ disk h. h) (extract_files-Triple dest name required (some entries))
  | inr other ↦
      weaken-Triple {Q = λ u. Any} {E = Any} (λ disk h. h) (λ u disk h required. cc) (λ disk h. h)
        (Any-Triple (extract_files (some entries) dest))
]

-- When the extraction succeeds, whatever went before, each required file has the contents of the
-- last safe entry of its name, and there is such an entry.
pub extract_files_lem :
    (dest : FilePath) (entries : List (Option ZipEntry)) (w : World)
    → Ends (λ u. Extracted dest entries) (λ disk. Unit {0}) (extract_files (some entries) dest w)
extract_files_lem dest entries w = (each-Triple (extracted_each dest entries)).ends w tt
