-- ===== src/Sde/Refresh/Loads.antt =====
-- Loading a build only looks at the disk.
use erbridge_palu.Prelude.{ℕ, true, false, Option, List, [], ◌∷◌, Text, text_of, text_eq, nat_eq}
use erbridge_palu.External.{External}
use erbridge_palu.Sde.Parse.{
  Parsed, parsed, json, io, parse_systems, parse_gate_pairs, parse_hull_catalog,
}
use erbridge_palu.Disk.{FilePath, join, Disk, pure}
use erbridge_palu.Disk.Triples.{
  Keeps, >>=-Triple, pure-Keeps, bail-Triple, if_Triple, context-Triple,
}
use erbridge_palu.Disk.Kept.{read-Keeps, open_file-Keeps, exists-Keeps}
use erbridge_palu.Sde.Cache.{
  files, SdeCache, build_dir, all_exist, build_files_present, parse_file, of_parsed, Formats,
}
use erbridge_palu.Sde.Refresh.{load_hull_catalog, load_files, load_build}
use erbridge_palu.Disk.Lines.{lines}

module _ {P : Disk → Type 0} where
  of_parsed-Keeps : {A : Type 0} (r : Parsed A) → Keeps P (of_parsed r)
  unfolding of_parsed
  of_parsed-Keeps (parsed a) = record { ends = λ w h. h }
  of_parsed-Keeps (json line) = record { ends = λ w h. h }
  of_parsed-Keeps io = record { ends = λ w h. h }

  parse_file-Keeps :
      {A : Type 0} (folder : FilePath) (name : Text) (f : List (Option Text) → Parsed A)
      → Keeps P (parse_file folder name f)
  unfolding parse_file
  parse_file-Keeps folder name f =
      >>=-Triple (context-Triple _ (open_file-Keeps (join folder name))) λ u.
        context-Triple _
          (>>=-Triple (read-Keeps (join folder name)) λ bytes. of_parsed-Keeps (f (lines bytes)))

  all_exist-Keeps : (folder : FilePath) (names : List Text) → Keeps P (all_exist folder names)
  unfolding all_exist
  all_exist-Keeps folder [] = pure-Keeps true
  all_exist-Keeps folder (name ∷ names) = >>=-Triple (exists-Keeps (join folder name)) λ here.
      if_Triple here (all_exist folder names) (pure false) (all_exist-Keeps folder names)
        (pure-Keeps false)

  module _ (X : External) (F : Formats X) where
    load_hull_catalog-Keeps : (folder : FilePath) → Keeps P (load_hull_catalog X F folder)
    unfolding load_hull_catalog
    load_hull_catalog-Keeps folder =
        let types_path = join folder (text_of "types.jsonl") in
        let dogma_path = join folder (text_of "typeDogma.jsonl") in
        >>=-Triple (context-Triple _ (open_file-Keeps types_path)) λ u.
          >>=-Triple (context-Triple _ (open_file-Keeps dogma_path)) λ u. context-Triple _ (
            >>=-Triple (read-Keeps types_path) λ types. >>=-Triple (read-Keeps dogma_path) λ dogma.
              of_parsed-Keeps
                (parse_hull_catalog X F.type_from_str F.dogma_from_str (lines types) (lines dogma)))

    load_files-Keeps : (folder : FilePath) → Keeps P (load_files X F folder)
    unfolding load_files
    load_files-Keeps folder =
        >>=-Triple
          (parse_file-Keeps folder (text_of "mapSolarSystems.jsonl")
            (parse_systems X F.system_from_str))
          λ systems.
            >>=-Triple
              (parse_file-Keeps folder (text_of "mapStargates.jsonl")
                (parse_gate_pairs F.stargate_from_str))
              λ gate_pairs. >>=-Triple (load_hull_catalog-Keeps folder) λ hulls.
                pure-Keeps (record { systems = systems; gate_pairs = gate_pairs; hulls = hulls })

    pub load_build-Keeps : (cache : SdeCache) (build : ℕ) → Keeps P (load_build X F cache build)
    unfolding load_build build_files_present
    load_build-Keeps cache build =
        >>=-Triple (all_exist-Keeps (build_dir cache build) files) λ present.
          if_Triple present (load_files X F (build_dir cache build)) _
            (load_files-Keeps (build_dir cache build)) (bail-Triple _)
