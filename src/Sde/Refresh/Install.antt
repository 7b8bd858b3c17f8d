-- ===== src/Sde/Refresh/Install.antt =====
-- `fetch_and_install`: a build that is installed is the current one, and one that fails leaves the
-- build before it current, wherever it fails.
use erbridge_palu.Prelude.{
  ℕ, ◌≡◌, ◌≢◌, refl, sym, subst, inl, inr, ◌<◌, ◌^◌, Option, some, List, [], ◌∷◌, Text, text_of,
  text_eq, nat_eq, ◌==◌, beq_self, eq_of_beq, nat_to_string, parse_u64, parse_u64-nat_to_string,
  Bool-cases,
}
use mathlib.Core.List.{append_assoc, append_cancel_left}
use erbridge_palu.Prelude.HashSet
use erbridge_palu.External.{External}
use erbridge_palu.Disk.{
  Bytes, FilePath, path_eq, join, join-ne, join_inj, join-ne-deeper, Node, file, World, Result, ok,
  err, Io, create_dir_all, write,
}
use erbridge_palu.Disk.Triples.{
  Ends, Triple, Keeps, Any, Any-Triple, >>=-Triple, pure-Triple, weaken-Triple, both-Triple,
  each-Triple, context-Triple, of_option-Triple, to_option-Keeps, to_option_Total, lift_known,
}
use erbridge_palu.Disk.Kept.{
  At, write-Keeps, rename-Keeps, rename-Triple, rename_err, write-Triple, create_dir_all-Keeps,
}
use erbridge_palu.Sde.Cache.{
  files, zip_url, ZipEntry, tmp_of, SdeCache, metadata_path, build_dir, extract_files,
  prune_other_builds, CacheMetadata, LatestManifest, Formats, IsSerde, Client,
}
use erbridge_palu.Sde.Cache.Archive.{Elsewhere, extract_files-Keeps}
use erbridge_palu.Sde.Cache.Extracted.{extract_files-Triple}
use erbridge_palu.Sde.Cache.Replaced.{extract_files-Here}
use erbridge_palu.Sde.Refresh.{
  metadata_tmp, write_metadata, fetch_and_extract_build, metadata_of, fetch_and_install,
}
use erbridge_palu.Sde.Refresh.Current.{Stored}
use erbridge_palu.Sde.Refresh.Stays.{
  There, There-Keeps, There-each, receive-Keeps, prune_other_builds-Keeps,
}

module _ (X : External) (F : Formats X) (S : IsSerde X F) (cache : SdeCache) where
  Stored-Ends :
      (meta : CacheMetadata X) {A : Type 0} (w : World) (r : Result A × World)
      → Stored X F cache meta w.disk
      → ((n : Node)
          → At (metadata_path cache) (some n) w.disk
          → Ends (λ a. At (metadata_path cache) (some n)) (At (metadata_path cache) (some n)) r)
      → Ends
          (λ a. There (build_dir cache meta.build_number))
          (There (build_dir cache meta.build_number))
          r
      → Ends (λ a. Stored X F cache meta) (Stored X F cache meta) r
  Stored-Ends meta w (ok a, w') s keep there =
      let (bytes, e, at) = s.written in
      record { written = (bytes, e, keep (file bytes) at); present = there }
  Stored-Ends meta w (err e, w') s keep there =
      let (bytes, e, at) = s.written in
      record { written = (bytes, e, keep (file bytes) at); present = there }

  Stored-Keeps :
      (meta : CacheMetadata X) {A : Type 0} (m : Io A)
      → ((n : Node) → Keeps (At (metadata_path cache) (some n)) m)
      → Keeps (There (build_dir cache meta.build_number)) m
      → Keeps (Stored X F cache meta) m
  Stored-Keeps meta m keep there = record {
    ends = λ w s. Stored-Ends meta w (m w) s (λ n. (keep n).ends w) (there.ends w s.present);
  }

  -- What is written in the root of the cache is no file of a build.
  tmp-There :
      (folder : Text) (name : Text) → metadata_tmp X F cache ≢ join (join cache.root folder) name
  tmp-There folder name = join-ne-deeper cache.root (text_of "metadata.json.tmp") folder name

  tmp-metadata : metadata_tmp X F cache ≢ metadata_path cache
  tmp-metadata =
      join-ne cache.root (text_of "metadata.json.tmp") (text_of "metadata.json") (λ e. cc)

  write_metadata-There :
      (folder : Text) (meta : CacheMetadata X)
      → Keeps (There (join cache.root folder)) (write_metadata X F cache meta)
  unfolding write_metadata
  write_metadata-There folder meta =
      There-Keeps (join cache.root folder) (write_metadata X F cache meta) (λ name h n.
        >>=-Triple (context-Triple _ (create_dir_all-Keeps _ n cache.root)) λ u.
          >>=-Triple (of_option-Triple (F.metadata_to_vec meta)) λ bytes.
            >>=-Triple
              (weaken-Triple (λ disk h'. h'.1) (λ u disk h'. h') (λ disk h'. h')
                (context-Triple _
                  (write-Keeps _ (some n) (metadata_tmp X F cache) bytes (tmp-There folder name))))
              λ u. context-Triple _ (
                rename-Keeps _ (some n) (metadata_tmp X F cache) (metadata_path cache)
                  (tmp-There folder name)
                  (join-ne-deeper cache.root (text_of "metadata.json") folder name)))

  write_metadata-At :
      (meta : CacheMetadata X)
      → Triple Any
          (write_metadata X F cache meta)
          (λ u disk.
            (bytes : Bytes) × (F.metadata_from_slice bytes ≡ some meta)
            × At (metadata_path cache) (some (file bytes)) disk)
          Any
  unfolding write_metadata
  write_metadata-At meta =
      >>=-Triple {Q = λ u. Any} (context-Triple _ (Any-Triple (create_dir_all cache.root))) λ u.
        >>=-Triple (of_option-Triple {P = Any} (F.metadata_to_vec meta)) λ bytes.
          lift_known (F.metadata_to_vec meta ≡ some bytes) (λ e.
            >>=-Triple (context-Triple _ (write-Triple (metadata_tmp X F cache) bytes)) λ u.
              weaken-Triple (λ disk h. h) (λ u disk at. (bytes, S.metadata_back meta bytes e, at))
                (λ disk h. h)
                (context-Triple _
                  (rename-Triple (metadata_tmp X F cache) (metadata_path cache) bytes)))

  -- Where the metadata is not written, the build before it stays.
  write_metadata-err :
      (old meta : CacheMetadata X)
      → Triple
          (Stored X F cache old)
          (write_metadata X F cache meta)
          (λ u. Any)
          (Stored X F cache old)
  unfolding write_metadata
  write_metadata-err old meta =
      let folder = nat_to_string old.build_number in
      >>=-Triple
        (context-Triple _ (
          Stored-Keeps old (create_dir_all cache.root) (λ n. create_dir_all-Keeps _ n cache.root)
            (There-Keeps (join cache.root folder) (create_dir_all cache.root)
              (λ name h n. create_dir_all-Keeps _ n cache.root))))
        λ u. >>=-Triple (of_option-Triple (F.metadata_to_vec meta)) λ bytes.
          >>=-Triple
            (weaken-Triple (λ disk h. h.1) (λ u disk h. h) (λ disk h. h)
              (context-Triple _ (
                Stored-Keeps old (write (metadata_tmp X F cache) bytes)
                  (λ n. write-Keeps _ (some n) _ bytes tmp-metadata)
                  (There-Keeps (join cache.root folder) (write (metadata_tmp X F cache) bytes)
                    (λ name h n. write-Keeps _ (some n) _ bytes (tmp-There folder name))))))
            λ u. context-Triple _ (rename_err (metadata_tmp X F cache) (metadata_path cache))

  extract-There :
      (archive : Option (List (Option ZipEntry))) (folder : FilePath)
      → Triple Any (extract_files archive folder) (λ u. There folder) Any
  extract-There archive folder = each-Triple (λ name.
      elim (Bool-cases (HashSet.contains name files)) [
        | inl required ↦
            weaken-Triple (λ disk h. h) (λ u disk (entries, e, bytes, e', at) h. (file bytes, at))
              (λ disk h. h) (extract_files-Triple folder name required archive)
        | inr other ↦
            weaken-Triple {Q = λ u. Any} {E = Any} (λ disk h. h) (λ u disk h required. cc)
              (λ disk h. h) (Any-Triple (extract_files archive folder))
      ])

  fetch-There :
      (client : Client X) (build : ℕ)
      → Triple Any
          (fetch_and_extract_build X F client cache build)
          (λ u. There (build_dir cache build))
          Any
  unfolding fetch_and_extract_build
  fetch-There client build =
      >>=-Triple (receive-Keeps {P = Any} (client.get (zip_url build)) _ _ _) λ bytes.
        >>=-Triple {Q = λ u. Any}
          (context-Triple _ (Any-Triple (create_dir_all (build_dir cache build))))
          λ u. extract-There (F.zip_archive bytes) (build_dir cache build)

  -- The files of another build are not written to.
  builds_apart :
      (a b : Text)
      → a ≢ b
      → (name : Text) → Elsewhere (join cache.root a) (join (join cache.root b) name)
  builds_apart a b ne name =
      let apart = λ (x : Text) (e : join (join cache.root a) x ≡ join (join cache.root b) name).
        ne (head_eq (append_cancel_left cache.root (a ∷ []) (b ∷ []) (join_inj _ _ x name e))) in
      λ other h. (apart (tmp_of other), apart other)
    where
      head_eq : a ∷ [] ≡ b ∷ [] → a ≡ b
      head_eq e = cc

  -- The files of another build are left alone, and those of the same build are replaced at once.
  extract-Keeps :
      (archive : Option (List (Option ZipEntry))) (a b : Text)
      → Keeps (There (join cache.root b)) (extract_files archive (join cache.root a))
  extract-Keeps archive a b = elim (Bool-cases (a == b)) [
    | inl same ↦
        subst (λ x. Keeps (There (join cache.root x)) (extract_files archive (join cache.root a)))
          (eq_of_beq a b same)
          (There-each (join cache.root a) (extract_files archive (join cache.root a))
            (λ name required. extract_files-Here (join cache.root a) name required archive))
    | inr apart ↦ There-Keeps _ (extract_files archive (join cache.root a)) (λ name h n.
        extract_files-Keeps (join cache.root a) _ (some n) archive
          (builds_apart a b (λ e. cc (beq_self b)) name))
  ]

  fetch-Keeps :
      (client : Client X) (build : ℕ) (old : CacheMetadata X)
      → Keeps (Stored X F cache old) (fetch_and_extract_build X F client cache build)
  unfolding fetch_and_extract_build
  fetch-Keeps client build old =
      >>=-Triple (receive-Keeps (client.get (zip_url build)) _ _ _) λ bytes.
        >>=-Triple
          (context-Triple _ (
            Stored-Keeps old (create_dir_all (build_dir cache build))
              (λ n. create_dir_all-Keeps _ n (build_dir cache build))
              (There-Keeps _ (create_dir_all (build_dir cache build))
                (λ name h n. create_dir_all-Keeps _ n (build_dir cache build)))))
          λ u.
            Stored-Keeps old (extract_files (F.zip_archive bytes) (build_dir cache build))
              (λ n.
                extract_files-Keeps (build_dir cache build) (metadata_path cache) (some n)
                  (F.zip_archive bytes)
                  (λ other h. (
                    λ e.
                        join-ne-deeper cache.root (text_of "metadata.json") (nat_to_string build)
                          (tmp_of other) (sym e),
                    λ e.
                        join-ne-deeper cache.root (text_of "metadata.json") (nat_to_string build)
                          other (sym e),
                  )))
              (extract-Keeps (F.zip_archive bytes) (nat_to_string build)
                (nat_to_string old.build_number))

  metadata_no_build : (build : ℕ) → parse_u64 (text_of "metadata.json") ≢ some build
  unfolding parse_u64
  metadata_no_build build e = cc

  prune-Keeps :
      (meta : CacheMetadata X)
      → meta.build_number < 2 ^ 64
      → Keeps (Stored X F cache meta) (prune_other_builds cache meta.build_number)
  prune-Keeps meta fits =
      Stored-Keeps meta (prune_other_builds cache meta.build_number)
        (λ n.
          prune_other_builds-Keeps cache meta.build_number (text_of "metadata.json") [] (some n)
            (λ build e. absurd (metadata_no_build build e)))
        (There-Keeps _ (prune_other_builds cache meta.build_number) (λ name h n.
          subst (λ q. Keeps (At q (some n)) (prune_other_builds cache meta.build_number))
            (sym (append_assoc cache.root (nat_to_string meta.build_number ∷ []) (name ∷ [])))
            (prune_other_builds-Keeps cache meta.build_number (nat_to_string meta.build_number)
              (name ∷ []) (some n)
              (λ build e. cc (parse_u64-nat_to_string meta.build_number fits)))))

  -- An install that succeeds makes its build current.
  pub install-Stored :
      (client : Client X) (now : X.DateTime) (latest : LatestManifest X)
      → latest.build_number < 2 ^ 64
      → Triple Any
          (fetch_and_install X F client cache now latest)
          (λ meta disk. (meta ≡ metadata_of X F latest now) × Stored X F cache meta disk)
          Any
  unfolding fetch_and_install
  install-Stored client now latest fits =
      let meta = metadata_of X F latest now in
      >>=-Triple (context-Triple _ (fetch-There client latest.build_number)) λ u.
        >>=-Triple
          (weaken-Triple {Q' = λ u. Stored X F cache meta} {E' = Any} (λ disk there. (there, tt))
            (λ u disk (there, written). record { written = written; present = there })
            (λ disk h. tt)
            (both-Triple (write_metadata-There (nat_to_string latest.build_number) meta)
              (write_metadata-At meta)))
          λ u.
            >>=-Triple {E = Any}
              (weaken-Triple (λ disk h. h) (λ o disk h. h) (λ disk h. tt)
                (to_option-Keeps (prune-Keeps meta fits)))
              λ ignored. pure-Triple meta (λ disk h. (refl, h))

  -- An install that fails leaves the build before it current.
  pub install_err :
      (client : Client X) (now : X.DateTime) (latest : LatestManifest X) (old : CacheMetadata X)
      → Triple
          (Stored X F cache old)
          (fetch_and_install X F client cache now latest)
          (λ meta. Any)
          (Stored X F cache old)
  unfolding fetch_and_install
  install_err client now latest old =
      >>=-Triple (context-Triple _ (fetch-Keeps client latest.build_number old)) λ u.
        >>=-Triple (write_metadata-err old (metadata_of X F latest now)) λ u.
          >>=-Triple (to_option_Total (prune_other_builds cache latest.build_number))
            λ ignored. pure-Triple (metadata_of X F latest now) (λ disk h. tt)
