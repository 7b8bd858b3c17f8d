-- ===== src/Sde/Refresh/Manifest.antt =====
-- What the manifest of the latest build decides: without one the cached build serves, and where it
-- names the build at hand, nothing is downloaded and nothing is written.
use erbridge_palu.Prelude.{
  ℕ, ◌≡◌, refl, sym, subst, ◌∙◌, ◌⊎◌, inl, inr, Option, none, some, List, ◌∷◌, Text, text_of,
  nat_eq, beq_self,
}
use erbridge_palu.External.{External}
use erbridge_palu.Disk.{
  World, Result, ok, err, Io, ◌>>=◌, pure, continue, context, with_context, of_option,
}
use erbridge_palu.Disk.Lines.{str_lines}
use erbridge_palu.Sde.Cache.{
  SdeCache, Response, not_sent, bad_status, cut_off, body, receive, CacheMetadata, LatestManifest,
  Formats, Client, up_to_date,
}
use erbridge_palu.Sde.Refresh.{
  first_line, load_build, fetch_latest_build, check_and_refresh, serve_outcome, serve_cached,
}

-- Code that leaves the world as it is.
record Still {A : Type 0} (m : Io A) : Type 0 where
  same : (w : World) → (m w).1 ≡ w

bound :
    {A B : Type 0} (f : A → Io B) (w : World) (r : Result A × World)
    → r.1 ≡ w
    → ((a : A) → Still (f a))
    → (continue r f).1 ≡ w
bound f w (ok a, w') e next = (next a).same w' ∙ e
bound f w (err x, w') e next = e

>>=-Still :
    {A B : Type 0} {m : Io A} {f : A → Io B} → Still m → ((a : A) → Still (f a)) → Still (m >>= f)
>>=-Still {m} {f} still next = record { same = λ w. bound f w (m w) (still.same w) next }

named :
    {A : Type 0} (message : Text) (w : World) (r : Result A × World)
    → r.1 ≡ w
    → (with_context message r).1 ≡ w
named message w (ok a, w') e = e
named message w (err x, w') e = e

context-Still : {A : Type 0} (message : Text) {m : Io A} → Still m → Still (context message m)
context-Still message {m} still = record { same = λ w. named message w (m w) (still.same w) }

of_option-Still : {A : Type 0} (o : Option A) → Still (of_option o)
of_option-Still none = record { same = λ w. refl }
of_option-Still (some a) = record { same = λ w. refl }

receive-Still : {A : Type 0} (r : Response A) (a b c : Text) → Still (receive r a b c)
unfolding receive
receive-Still not_sent a b c = record { same = λ w. refl }
receive-Still bad_status a b c = record { same = λ w. refl }
receive-Still cut_off a b c = record { same = λ w. refl }
receive-Still (body x) a b c = record { same = λ w. refl }

module _ (X : External) (F : Formats X) (client : Client X) where
  fetch_latest-Still : Still (fetch_latest_build X F client)
  unfolding fetch_latest_build
  fetch_latest-Still = >>=-Still (receive-Still client.latest _ _ _) λ text.
      >>=-Still (context-Still _ (of_option-Still (first_line X F (str_lines text))))
        λ line. context-Still _ (of_option-Still (F.manifest_from_str line))

  -- The manifest that the client gets.
  abbrev pub latest_of : World → Result (LatestManifest X)
  latest_of w = (fetch_latest_build X F client w).0

  split_fetch :
      (r : Result (LatestManifest X)) (w : World)
      → latest_of w ≡ r
      → fetch_latest_build X F client w ≡ (r, w)
  split_fetch r w e = λ i. (e i, fetch_latest-Still.same w i)

  module _ (cache : SdeCache) (now : X.DateTime) where
    check_offline :
        (current_build : ℕ) (e : List Text) (w : World)
        → latest_of w ≡ err e
        → check_and_refresh X F client cache now current_build w
          ≡ (err (text_of "fetching latest SDE manifest" ∷ e), w)
    unfolding check_and_refresh
    check_offline current_build e w h = rw (split_fetch (err e) w h) refl

    serve_cached_offline :
        (old : CacheMetadata X) (e : List Text) (w : World)
        → latest_of w ≡ err e
        → serve_cached X F client cache now old w
          ≡ (load_build X F cache old.build_number >>= λ raw. pure (raw, old)) w
    unfolding serve_cached serve_outcome
    serve_cached_offline old e w h = rw (check_offline old.build_number e w h) refl

    -- Where the manifest names the build at hand, the world is left as it is.
    check_and_refresh_same :
        (latest : LatestManifest X) (w : World)
        → latest_of w ≡ ok latest
        → check_and_refresh X F client cache now latest.build_number w ≡ (ok up_to_date, w)
    unfolding check_and_refresh
    check_and_refresh_same latest w h =
        rw (split_fetch (ok latest) w h, beq_self latest.build_number) refl

    -- The manifest cannot be had, or names the build.
    abbrev pub Unneeded : ℕ → World → Type 0
    Unneeded build w =
        ((e : List Text) × (latest_of w ≡ err e))
        ⊎ ((latest : LatestManifest X) × (latest_of w ≡ ok latest) × (build ≡ latest.build_number))

    -- Then the cached build is loaded, and its metadata is kept.
    pub serve_cached_lem :
        (old : CacheMetadata X) (w : World)
        → Unneeded old.build_number w
        → serve_cached X F client cache now old w
          ≡ (load_build X F cache old.build_number >>= λ raw. pure (raw, old)) w
    unfolding serve_cached serve_outcome
    serve_cached_lem old w (inl (e, h)) = serve_cached_offline old e w h
    serve_cached_lem old w (inr (latest, h, same)) =
        rw
          (subst (λ b. check_and_refresh X F client cache now b w ≡ (ok up_to_date, w)) (sym same)
            (check_and_refresh_same latest w h))
          refl
