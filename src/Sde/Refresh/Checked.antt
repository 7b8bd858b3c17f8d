-- ===== src/Sde/Refresh/Checked.antt =====
-- `check_and_refresh` and `ensure_cache`: the cache keeps a current build, whatever goes wrong, and
-- serves it when the manifest cannot be had.
use erbridge_palu.Prelude.{
  ℕ, ◌≡◌, ◌≢◌, refl, sym, ap, ◌∙◌, ◌⊎◌, inl, inr, ◌<◌, ◌^◌, some, text_eq, nat_eq, ◌==◌, beq_self,
  eq_of_beq, Bool-cases,
}
use erbridge_palu.External.{External}
use erbridge_palu.Model.{RawSdeData}
use erbridge_palu.Disk.{Disk, World, Result, ok, err, ◌>>=◌, pure}
use erbridge_palu.Disk.Triples.{
  Ends, Triple, >>=-Triple, pure-Triple, weaken-Triple, both-Triple, context-Triple,
  of_option-Triple, lift_known,
}
use erbridge_palu.Sde.Cache.{
  SdeCache, CacheMetadata, LatestManifest, Formats, IsSerde, Client, RefreshOutcome, up_to_date,
  updated,
}
use erbridge_palu.Sde.Refresh.{
  first_line, load_build, fetch_latest_build, metadata_of, fetch_and_install, refresh_to,
  check_and_refresh,
}
use erbridge_palu.Sde.Refresh.Loads.{load_build-Keeps}
use erbridge_palu.Sde.Refresh.Current.{Stored, current, current-Stored, Stored-current}
use erbridge_palu.Sde.Refresh.Stays.{receive-Keeps}
use erbridge_palu.Sde.Refresh.Install.{install-Stored, install_err}
use erbridge_palu.Disk.Lines.{str_lines}

module _ (X : External) (F : Formats X) (S : IsSerde X F) (cache : SdeCache) where
  -- Some build is current.
  abbrev pub HasCurrent : Disk → Type 0
  HasCurrent disk = (meta : CacheMetadata X) × (current X F cache disk ≡ some meta)

  -- The manifest names the build.
  abbrev pub Names : Client X → LatestManifest X → Type 0
  Names client latest = (w : World) × ((fetch_latest_build X F client w).0 ≡ ok latest)

  -- What the outcome says of the current build: without a newer one it is the one before, and the
  -- manifest names the served build; else it is the one that the manifest names, another one than
  -- the served.
  abbrev pub Refreshed :
      Client X → X.DateTime → ℕ → CacheMetadata X → RefreshOutcome X → Disk → Type 0
  Refreshed client now build old up_to_date disk =
      (current X F cache disk ≡ some old)
      × ((latest : LatestManifest X) × Names client latest × (latest.build_number ≡ build))
  Refreshed client now build old (updated raw meta) disk =
      (meta.build_number ≢ build)
      × (current X F cache disk ≡ some meta)
      × ((latest : LatestManifest X) × Names client latest × (meta ≡ metadata_of X F latest now))

  -- After an error the current build is the one before, or the one that the manifest names.
  abbrev pub Kept : Client X → X.DateTime → CacheMetadata X → Disk → Type 0
  Kept client now old disk =
      (current X F cache disk ≡ some old)
      ⊎ ((latest : LatestManifest X) × Names client latest
          × (current X F cache disk ≡ some (metadata_of X F latest now)))

  pub Kept-HasCurrent :
      (client : Client X) (now : X.DateTime) (old : CacheMetadata X) (disk : Disk)
      → Kept client now old disk
      → HasCurrent disk
  Kept-HasCurrent client now old disk (inl e) = (old, e)
  Kept-HasCurrent client now old disk (inr (latest, _, e)) = (metadata_of X F latest now, e)

  named-Ends :
      {A : Type 0} (Q : A → Disk → Type 0) (E : Disk → Type 0) (K : A → Type 0)
      (r : Result A × World)
      → ((a : A) → r.0 ≡ ok a → K a)
      → Ends Q E r
      → Ends (λ a disk. K a × Q a disk) E r
  named-Ends Q E K (ok a, w) known h = (known a refl, h)
  named-Ends Q E K (err e, w) known h = h

  named-Triple :
      {P E : Disk → Type 0} {Q : LatestManifest X → Disk → Type 0} (client : Client X)
      → Triple P (fetch_latest_build X F client) Q E
      → Triple P
          (fetch_latest_build X F client)
          (λ latest disk. Names client latest × Q latest disk)
          E
  named-Triple {E} {Q} client t = record {
    ends = λ w h.
        named-Ends Q E (Names client) (fetch_latest_build X F client w) (λ latest e. (w, e))
          (t.ends w h);
  }

  pub fetch_latest-Triple :
      {P : Disk → Type 0} (client : Client X)
      → Triple P
          (fetch_latest_build X F client)
          (λ latest disk. (latest.build_number < 2 ^ 64) × P disk)
          P
  unfolding fetch_latest_build
  fetch_latest-Triple {P} client = >>=-Triple (receive-Keeps client.latest _ _ _) λ text.
      >>=-Triple {Q = λ line. P}
        (context-Triple _ (
          weaken-Triple (λ disk h. h) (λ line disk h. h.1) (λ disk h. h)
            (of_option-Triple (first_line X F (str_lines text)))))
        λ line. context-Triple _ (
          weaken-Triple (λ disk h. h) (λ latest disk (e, h). (S.manifest_u64 latest line e, h))
            (λ disk h. h) (of_option-Triple (F.manifest_from_str line)))

  install-Triple :
      (client : Client X) (now : X.DateTime) (latest : LatestManifest X) (old : CacheMetadata X)
      → latest.build_number < 2 ^ 64
      → Triple
          (Stored X F cache old)
          (fetch_and_install X F client cache now latest)
          (λ meta disk. (meta ≡ metadata_of X F latest now) × Stored X F cache meta disk)
          (Stored X F cache old)
  install-Triple client now latest old fits =
      weaken-Triple (λ disk h. (tt, h)) (λ meta disk h. h.0) (λ disk h. h.1)
        (both-Triple (install-Stored X F S cache client now latest fits)
          (install_err X F S cache client now latest old))

  -- An installed build is loaded, or the loading fails and it is still the current one.
  pub load_installed :
      (latest : LatestManifest X) (now : X.DateTime) (meta : CacheMetadata X) {E : Disk → Type 0}
      → (meta ≡ metadata_of X F latest now → (disk : Disk) → Stored X F cache meta disk → E disk)
      → Triple {A = RawSdeData X × CacheMetadata X}
          (λ disk. (meta ≡ metadata_of X F latest now) × Stored X F cache meta disk)
          (load_build X F cache meta.build_number >>= λ raw. pure (raw, meta))
          (λ loaded disk. (loaded.1 ≡ metadata_of X F latest now) × Stored X F cache loaded.1 disk)
          E
  load_installed latest now meta {E} fail = lift_known (meta ≡ metadata_of X F latest now) (λ same.
      >>=-Triple
        (weaken-Triple {P = Stored X F cache meta} {Q = λ raw. Stored X F cache meta} (λ disk h. h)
          (λ raw disk h. h) (fail same) (load_build-Keeps X F cache meta.build_number))
        λ raw. pure-Triple (raw, meta) (λ disk h. (same, h)))

  refresh-Triple :
      (client : Client X) (now : X.DateTime) (latest : LatestManifest X) (old : CacheMetadata X)
      → latest.build_number < 2 ^ 64
      → Names client latest
      → Triple
          (Stored X F cache old)
          (refresh_to X F client cache now latest)
          (λ loaded disk. (loaded.1 ≡ metadata_of X F latest now) × Stored X F cache loaded.1 disk)
          (Kept client now old)
  unfolding refresh_to
  refresh-Triple client now latest old fits named =
      >>=-Triple
        (weaken-Triple {E' = Kept client now old} (λ disk h. h) (λ meta disk h. h)
          (λ disk h. inl (current-Stored X F cache old disk h))
          (install-Triple client now latest old fits))
        λ meta.
          load_installed latest now meta (λ same disk h.
            inr (latest, named, current-Stored X F cache meta disk h ∙ ap some same))

  pub check-Triple :
      (client : Client X) (now : X.DateTime) (old : CacheMetadata X) (build : ℕ)
      → Triple
          (Stored X F cache old)
          (check_and_refresh X F client cache now build)
          (Refreshed client now build old)
          (Kept client now old)
  unfolding check_and_refresh
  check-Triple client now old build =
      >>=-Triple
        (context-Triple _ (
          weaken-Triple {E' = Kept client now old} (λ disk h. h)
            (λ latest disk (named, (fits, h)). ((named, fits), h))
            (λ disk h. inl (current-Stored X F cache old disk h))
            (named-Triple client (fetch_latest-Triple client))))
        λ latest. lift_known (Names client latest × latest.build_number < 2 ^ 64) λ (named, fits).
          elim (Bool-cases (latest.build_number == build)) [
            | inl same ↦ rw same (
                pure-Triple up_to_date (λ disk h. (
                  current-Stored X F cache old disk h,
                  (latest, named, eq_of_beq latest.build_number build same),
                )))
            | inr other ↦
                let ne : latest.build_number ≢ build = λ e. cc (beq_self build) in
                rw other (
                  >>=-Triple (refresh-Triple client now latest old fits named) λ loaded.
                    pure-Triple (updated loaded.0 loaded.1) (λ disk (e, h). (
                      λ e'. ne (ap (λ m. m.build_number) (sym e) ∙ e'),
                      current-Stored X F cache loaded.1 disk h,
                      (latest, named, e),
                    )))
          ]

  -- A refresh of a valid cache, whatever build is served and whatever fails, leaves a current build:
  -- the one before it when the manifest names the served build; the one that the manifest names, and
  -- not the served one, when it returns a new one; and when it fails, the one before it or the one
  -- that the manifest names.
  pub check_and_refresh-Refreshed :
      (client : Client X) (now : X.DateTime) (old : CacheMetadata X) (build : ℕ) (w : World)
      → current X F cache w.disk ≡ some old
      → Ends
          (Refreshed client now build old)
          (Kept client now old)
          (check_and_refresh X F client cache now build w)
  check_and_refresh-Refreshed client now old build w e =
      (check-Triple client now old build).ends w (Stored-current X F cache old w.disk e)
