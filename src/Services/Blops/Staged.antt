-- ===== src/Services/Blops/Staged.antt =====
-- What the staging service promises on each of its ways out.
use erbridge_palu.Prelude.{
  ℕ, ◌<◌, ◌≡◌, ◌≢◌, refl, sym, ◌∙◌, ap, subst, ◌↔◌, inl, inr, Bool, true, false, some, List, [],
  ◌∷◌, Memᴰ, length, get_elem?, get_elem?_lt, done, arith, nat_beq, nat_beq_iff, Bool-cases, nat_eq,
}
use mathlib.Core.List.Memᴰ
use erbridge_palu.Prelude.HashSet
use erbridge_palu.Prelude.HashSet.{HashSet}
use erbridge_palu.External.{External}
use erbridge_palu.Error.{AppError, ok, err}
use erbridge_palu.EveScout.{EveScoutSnapshot}
use erbridge_palu.Model.{GraphData, System}
use erbridge_palu.Dijkstra.Routes.{Route, here, step}
use erbridge_palu.Dijkstra.Multi.{SettledTarget}
use erbridge_palu.Dijkstra.Multi.Settled.{Settles, nothing, reached, missed}
use erbridge_palu.Routing.{RouteContext, new, net}
use erbridge_palu.Routing.Weights.{IsContext, Route-within, reverse_aux-forall}
use erbridge_palu.Services.Route.{
  Link, resolve_connections, assemble_avoid_set, add_overlay_connections, apply_overlay,
  apply_scout_overlay,
}
use erbridge_palu.Services.Route.Endpoints.{Serves}
use erbridge_palu.Services.Route.Checked.{Reply-cases, ok-injective, resolve_connections_in}
use erbridge_palu.Services.Route.Overlaid.{
  Fit, new-Fit, add_overlay_connections-Fit, apply_scout_overlay-Fit,
}
use erbridge_palu.Services.Blops.{StagingQuery, accepted, staging_context}
use erbridge_palu.Services.Blops.Ranking.{Sound}

module _ (X : External) (graph : GraphData X) (serves : Serves X graph) where
  module _ (stage_ok : System X → Bool) (to : ℕ) where
    -- An item other than the target, which the test of its system accepts.
    abbrev pub Fits : ℕ → Type 0
    Fits i = i ≢ to × ((s : System X) × (get_elem? graph.systems i ≡ some s) × (stage_ok s ≡ true))

    -- The candidates among the items of the query.
    pub record Candidates (items found : List ℕ) : Type 0 where
      pub within : (i : ℕ) → Memᴰ i found → i < length graph.systems
      pub exactly : (i : ℕ) → Memᴰ i found ↔ (Memᴰ i items × Fits i)

    accepted_same :
        (items found : List ℕ) (i : ℕ)
        → accepted X graph stage_ok to items ≡ done found
        → nat_beq i to ≡ true
        → accepted X graph stage_ok to (i ∷ items) ≡ done found
    unfolding accepted
    accepted_same items found i e same = rw (e, same) refl

    accepted_good :
        (items found : List ℕ) (i : ℕ) (s : System X)
        → accepted X graph stage_ok to items ≡ done found
        → nat_beq i to ≡ false
        → get_elem? graph.systems i ≡ some s
        → stage_ok s ≡ true
        → accepted X graph stage_ok to (i ∷ items) ≡ done (i ∷ found)
    unfolding accepted
    accepted_good items found i s e other at good = rw (e, other, at, good) refl

    accepted_bad :
        (items found : List ℕ) (i : ℕ) (s : System X)
        → accepted X graph stage_ok to items ≡ done found
        → nat_beq i to ≡ false
        → get_elem? graph.systems i ≡ some s
        → stage_ok s ≡ false
        → accepted X graph stage_ok to (i ∷ items) ≡ done found
    unfolding accepted
    accepted_bad items found i s e other at bad = rw (e, other, at, bad) refl

    -- An item that is left out.
    Candidates-skip :
        (items found : List ℕ) (i : ℕ)
        → Candidates items found
        → ¬ Fits i
        → Candidates (i ∷ items) found
    Candidates-skip items found i c no' = record {
      within = c.within;
      exactly = λ j. (
        λ m. let (m', rest) = (c.exactly j).0 m in (Memᴰ.tail m', rest),
        λ (m, (ne, (s, at, good))). elim (Memᴰ.cases_cons m) [
          | inl same ↦
              absurd
                (no' (λ e. ne (same ∙ e), (s, ap (get_elem? graph.systems) (sym same) ∙ at, good)))
          | inr later ↦ (c.exactly j).1 (later, (ne, (s, at, good)))
        ],
      );
    }

    Candidates-keep :
        (items found : List ℕ) (i : ℕ) (s : System X)
        → Candidates items found
        → i < length graph.systems
        → i ≢ to
        → get_elem? graph.systems i ≡ some s
        → stage_ok s ≡ true
        → Candidates (i ∷ items) (i ∷ found)
    Candidates-keep items found i s c bound apart at good = record {
      within = λ j m. elim (Memᴰ.cases_cons m) [
        | inl same ↦ subst (λ x. x < length graph.systems) (sym same) bound
        | inr later ↦ c.within j later
      ];
      exactly = λ j. (
        λ m. elim (Memᴰ.cases_cons m) [
          | inl same ↦ (
            Memᴰ.head same,
            (λ e. apart (sym same ∙ e), (s, ap (get_elem? graph.systems) same ∙ at, good)),
          )
          | inr later ↦ let (m', rest) = (c.exactly j).0 later in (Memᴰ.tail m', rest)
        ],
        λ (m, rest). elim (Memᴰ.cases_cons m) [
          | inl same ↦ Memᴰ.head same
          | inr later ↦ Memᴰ.tail ((c.exactly j).1 (later, rest))
        ],
      );
    }

    pub accepted-Candidates :
        (items : List ℕ)
        → ((i : ℕ) → Memᴰ i items → i < length graph.systems)
        → (found : List ℕ) × (accepted X graph stage_ok to items ≡ done found)
          × Candidates items found
    unfolding accepted
    accepted-Candidates [] within = (
      [],
      refl,
      record {
        within = λ i m. absurd (Memᴰ.not-nil m);
        exactly = λ i. (λ m. absurd (Memᴰ.not-nil m), λ (m, rest). m);
      },
    )
    accepted-Candidates (i ∷ items) within =
        let (found, e, c) = accepted-Candidates items (λ j m. within j (Memᴰ.tail m)) in
        let bound = within i (Memᴰ.head refl) in
        let (s, at) = get_elem?_lt graph.systems i bound in
        elim (Bool-cases (nat_beq i to)) [
          | inl same ↦ (
            found,
            accepted_same items found i e same,
            Candidates-skip items found i c (λ (ne, rest). ne ((nat_beq_iff i to).0 same)),
          )
          | inr other ↦ elim (Bool-cases (stage_ok s)) [
            | inl good ↦ (
              i ∷ found,
              accepted_good items found i s e other at good,
              Candidates-keep items found i s c bound (λ same. cc ((nat_beq_iff i to).1 same)) at
                  good,
            )
            | inr bad ↦ (
              found,
              accepted_bad items found i s e other at bad,
              Candidates-skip items found i c (λ (ne, (t, at', good)). cc),
            )
          ]
        ]

  -- What the search settled is made of systems.
  pub Settles-Sound :
      (ctx : RouteContext X) (f : IsContext X ctx) (from : ℕ) (h : from < length ctx.graph.systems)
      → ctx.graph ≡ graph
      → (ts : List ℕ) (out : List SettledTarget) → Settles (net X ctx) from ts out
      → (u : SettledTarget) → Memᴰ u out
      → Sound X graph u
  Settles-Sound ctx f from h same ts out nothing u m = absurd (Memᴰ.not-nil m)
  Settles-Sound ctx f from h same ts out (missed _ rest) u m =
      Settles-Sound ctx f from h same _ out rest u m
  Settles-Sound ctx f from h same ts out (reached {t} {path = path} (nodes, c, r, e, best) rest) u
        m =
      elim (Memᴰ.cases_cons m) [
        | inr later ↦ Settles-Sound ctx f from h same _ _ rest u later
        | inl is ↦
            let size = ap (λ g. length g.systems) same in
            let within = Route-within X ctx f from h t c nodes r in
            subst (Sound X graph) (sym is) (
              omega (arith, size, within t (last-mem r)),
              λ x m'. omega (
                arith,
                size,
                reverse_aux-forall (λ y. y < length ctx.graph.systems) nodes [] within
                    (λ y m''. absurd (Memᴰ.not-nil m'')) x (subst (Memᴰ x) e m'),
              ),
            )
      ]
    where
      last-mem : {v c' : ℕ} {nodes' : List ℕ} → Route (net X ctx) from v nodes' c' → Memᴰ v nodes'
      last-mem here = Memᴰ.head refl
      last-mem (step r' e') = Memᴰ.head refl

  module _ (scout : EveScoutSnapshot X) (query : StagingQuery X) (from to : ℕ) where
    overlay_bad :
        (avoid : HashSet ℕ) (now : X.DateTime) (e : AppError)
        → resolve_connections X graph query.overlay ≡ err e
        → apply_overlay X graph scout query.overlay
            (from ∷ to ∷ [])
            now
            (new X graph avoid query.preference)
          ≡ err e
    unfolding apply_overlay
    overlay_bad avoid now e h = rw (apply_overlay, h) refl

    overlay_good :
        (avoid : HashSet ℕ) (now : X.DateTime) (links : List Link)
        → resolve_connections X graph query.overlay ≡ ok links
        → apply_overlay X graph scout query.overlay
            (from ∷ to ∷ [])
            now
            (new X graph avoid query.preference)
          ≡ ok (
              apply_scout_overlay X graph scout query.overlay (from ∷ to ∷ []) now (
                add_overlay_connections X query.overlay links (new X graph avoid query.preference)))
    unfolding apply_overlay
    overlay_good avoid now links h = rw (apply_overlay, h) refl

    avoid_bad :
        (now : X.DateTime) (e : AppError)
        → assemble_avoid_set X graph query.overlay ≡ err e
        → staging_context X graph scout query from to now ≡ err e
    unfolding staging_context
    avoid_bad now e h = rw (staging_context, h) refl

    avoid_good :
        (now : X.DateTime) (avoid : HashSet ℕ)
        → assemble_avoid_set X graph query.overlay ≡ ok avoid
        → staging_context X graph scout query from to now
          ≡ apply_overlay X graph scout query.overlay
              (from ∷ to ∷ [])
              now
              (new X graph (HashSet.remove from avoid) query.preference)
    unfolding staging_context
    avoid_good now avoid h = rw (staging_context, h) refl

    -- Where the overlay has no error, the context is fit for the search.
    overlay-Fit :
        (avoid : HashSet ℕ) (now : X.DateTime) (ctx : RouteContext X)
        → apply_overlay X graph scout query.overlay
            (from ∷ to ∷ [])
            now
            (new X graph avoid query.preference)
          ≡ ok ctx
        → Fit X graph serves avoid query.preference ctx
    overlay-Fit avoid now ctx e = elim (Reply-cases (resolve_connections X graph query.overlay)) [
      | inl (x, bad) ↦ cc (overlay_bad avoid now x bad)
      | inr (links, good) ↦
          subst (Fit X graph serves avoid query.preference)
            (ok-injective _ _ (sym (overlay_good avoid now links good) ∙ e))
            (apply_scout_overlay-Fit X graph serves scout query.overlay (from ∷ to ∷ []) now _ (
              add_overlay_connections-Fit X graph serves query.overlay links _
                (resolve_connections_in X graph serves query.overlay links good)
                (new-Fit X graph serves)))
    ]

    pub staging_context-Fit :
        (now : X.DateTime) (ctx : RouteContext X)
        → staging_context X graph scout query from to now ≡ ok ctx
        → (avoid : HashSet ℕ) × Fit X graph serves avoid query.preference ctx
    staging_context-Fit now ctx e = elim (Reply-cases (assemble_avoid_set X graph query.overlay)) [
      | inl (x, bad) ↦ cc (avoid_bad now x bad)
      | inr (avoid, good) ↦ (
        HashSet.remove from avoid,
        overlay-Fit (HashSet.remove from avoid) now ctx (sym (avoid_good now avoid good) ∙ e),
      )
    ]
