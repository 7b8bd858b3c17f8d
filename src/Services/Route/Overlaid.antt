-- ===== src/Services/Route/Overlaid.antt =====
-- The overlay of a request leads to systems only, and leaves the rest of the context alone.
use erbridge_palu.Prelude.{
  ℕ, ◌<◌, ◌≡◌, refl, sym, ◌∙◌, ap, subst, ◌⊎◌, inl, inr, Bool, true, false, some, List, [], ◌∷◌,
  ◌++◌, map, Memᴰ, length, nat_beq, nat_eq, int_eq, ℕ_discrete, Bool-cases, Option-cases, All, ◌||◌,
  if◌then◌else◌,
}
use mathlib.Core.List.Memᴰ
use mathlib.Core.Option
use erbridge_palu.Prelude.HashMap
use erbridge_palu.Prelude.HashSet.{HashSet}
use erbridge_palu.External.{External}
use erbridge_palu.Model.{GraphData}
use erbridge_palu.EveScout.{Signature, EveScoutSnapshot, is_live, thera_system_id, turnur_system_id}
use erbridge_palu.Routing.{
  EdgeKind, wormhole, Connections, entry, kind_to, push_new, add_half, Preference, RouteContext,
  new, add_connection,
}
use erbridge_palu.Routing.Weights.{IsContext}
use erbridge_palu.Services.Route.{
  OverlayInputs, Link, is_used, is_endpoint, add_overlay_connections, add_scout_edge,
  add_scout_edges, apply_scout_overlay,
}
use erbridge_palu.Services.Route.Endpoints.{Serves}

map-snoc :
    (v b : ℕ) (k : EdgeKind) (nbrs : List (ℕ × EdgeKind))
    → Memᴰ v (map (λ p. p.0) (nbrs ++ (b, k) ∷ []))
    → Memᴰ v (map (λ p. p.0) nbrs) ⊎ (v ≡ b)
map-snoc v b k [] m = inr (Memᴰ.eq_of_singleton m)
map-snoc v b k (p ∷ nbrs) m = elim (Memᴰ.cases_cons m) [
  | inl same ↦ inl (Memᴰ.head same)
  | inr later ↦ elim (map-snoc v b k nbrs later) [ inl old ↦ inl (Memᴰ.tail old) | inr is ↦ inr is ]
]

push_new-cases :
    (b : ℕ) (k : EdgeKind) (nbrs : List (ℕ × EdgeKind))
    → (push_new b k nbrs ≡ nbrs) ⊎ (push_new b k nbrs ≡ nbrs ++ (b, k) ∷ [])
unfolding push_new
push_new-cases b k nbrs = elim (Option-cases (kind_to b nbrs)) [
  | inl new ↦ inr (rw (push_new, new) refl)
  | inr (old, e) ↦ inl (rw (push_new, e) refl)
]

-- One half of a connection adds its end only.
half-ends :
    (a b u v : ℕ) (k : EdgeKind) (c : Connections)
    → Memᴰ v (map (λ p. p.0) (entry u (add_half a b k c)))
    → Memᴰ v (map (λ p. p.0) (entry u c)) ⊎ (v ≡ b)
unfolding add_half entry
half-ends a b u v k c m = elim (ℕ_discrete a u) [
  | no apart ↦ inl (
      subst (λ o. Memᴰ v (map (λ p. p.0) (Option.get_or o [])))
        (HashMap.get-insert_ne a u (push_new b k (entry a c)) c apart) m)
  | yes same ↦
      let at =
        ap (λ x. HashMap.get x (HashMap.insert a (push_new b k (entry a c)) c)) (sym same)
        ∙ HashMap.get-insert_self a (push_new b k (entry a c)) c in
      let m' : Memᴰ v (map (λ p. p.0) (push_new b k (entry a c))) =
        subst (λ o. Memᴰ v (map (λ p. p.0) (Option.get_or o []))) at m in
      let back : Memᴰ v (map (λ p. p.0) (entry a c)) → Memᴰ v (map (λ p. p.0) (entry u c)) =
        subst (λ x. Memᴰ v (map (λ p. p.0) (entry x c))) same in
      elim (push_new-cases b k (entry a c)) [
        | inl is ↦ inl (back (subst (λ l. Memᴰ v (map (λ p. p.0) l)) is m'))
        | inr is ↦
            elim (map-snoc v b k (entry a c) (subst (λ l. Memᴰ v (map (λ p. p.0) l)) is m')) [
              | inl old ↦ inl (back old)
              | inr end ↦ inr end
            ]
      ]
]

module _ (X : External) (graph : GraphData X) (serves : Serves X graph) where
  -- A resolved connection joins systems.
  abbrev pub LinkIn : Link → Type 0
  LinkIn (a, b, kind) = a < length graph.systems × b < length graph.systems

  -- A context over `graph` with the avoid set and the preference, whose overlay is in range.
  pub record Fit (avoid : HashSet ℕ) (pref : Preference) (ctx : RouteContext X) : Type 0 where
    pub graph_is : ctx.graph ≡ graph
    pub avoid_is : ctx.avoid ≡ avoid
    pub pref_is : ctx.preference ≡ pref
    pub overlay :
        (u v : ℕ) → Memᴰ v (map (λ p. p.0) (entry u ctx.connections)) → v < length graph.systems

  pub Fit-IsContext :
      {avoid : HashSet ℕ} {pref : Preference} (ctx : RouteContext X)
      → Fit avoid pref ctx
      → IsContext X ctx
  Fit-IsContext ctx f = record {
    gates = λ u v m.
        subst (λ g. v < length g.systems) (sym f.graph_is)
          (serves.gates u v (subst (λ g. Memᴰ v (X.neighbors g.gate_graph u)) f.graph_is m));
    overlay = λ u v m. subst (λ g. v < length g.systems) (sym f.graph_is) (f.overlay u v m);
  }

  -- A signature adds nothing, or the connection of its two systems.
  scout-cases :
      (now : X.DateTime) (ctx : RouteContext X) (sig : Signature X)
      → (add_scout_edge X graph now ctx sig ≡ ctx)
        ⊎ ((out : ℕ) × (in' : ℕ) × (HashMap.get sig.out_system_id graph.id_to_idx ≡ some out)
            × (HashMap.get sig.in_system_id graph.id_to_idx ≡ some in')
            × (add_scout_edge X graph now ctx sig ≡ add_connection X ctx out in' wormhole))
  unfolding add_scout_edge
  scout-cases now ctx sig = elim (Bool-cases (is_live X sig now)) [
    | inr dead ↦ inl (rw (add_scout_edge, dead) refl)
    | inl live ↦ elim (Option-cases (HashMap.get sig.out_system_id graph.id_to_idx)) [
      | inl none_out ↦ inl (rw (add_scout_edge, live, none_out) refl)
      | inr (out, at) ↦ elim (Option-cases (HashMap.get sig.in_system_id graph.id_to_idx)) [
        | inl none_in ↦ inl (rw (add_scout_edge, live, at, none_in) refl)
        | inr (in', at') ↦ inr (out, in', at, at', rw (add_scout_edge, live, at, at') refl)
      ]
    ]
  ]

  module _ {avoid : HashSet ℕ} {pref : Preference} where
    pub new-Fit : Fit avoid pref (new X graph avoid pref)
    unfolding entry HashMap.get
    new-Fit = record {
      graph_is = refl;
      avoid_is = refl;
      pref_is = refl;
      overlay = λ u v m. absurd (Memᴰ.not-nil m);
    }

    add_connection-Fit :
        (ctx : RouteContext X) (a b : ℕ) (kind : EdgeKind)
        → a < length graph.systems
        → b < length graph.systems
        → Fit avoid pref ctx
        → Fit avoid pref (add_connection X ctx a b kind)
    unfolding add_connection
    add_connection-Fit ctx a b kind ha hb f = elim (Bool-cases (nat_beq a b)) [
      | inl loop ↦ rw loop f
      | inr apart ↦ rw apart (record {
        graph_is = f.graph_is;
        avoid_is = f.avoid_is;
        pref_is = f.pref_is;
        overlay = λ u v m. elim (half-ends b a u v kind (add_half a b kind ctx.connections) m) [
          | inl m' ↦ elim (half-ends a b u v kind ctx.connections m') [
            | inl old ↦ f.overlay u v old
            | inr is ↦ subst (λ x. x < length graph.systems) (sym is) hb
          ]
          | inr is ↦ subst (λ x. x < length graph.systems) (sym is) ha
        ];
      })
    ]

    pub add_overlay_connections-Fit :
        (inputs : OverlayInputs) (links : List Link) (ctx : RouteContext X)
        → All LinkIn links
        → Fit avoid pref ctx
        → Fit avoid pref (add_overlay_connections X inputs links ctx)
    unfolding add_overlay_connections
    add_overlay_connections-Fit inputs [] ctx within f = f
    add_overlay_connections-Fit inputs ((a, b, kind) ∷ rest) ctx ((ha, hb), within) f =
        add_overlay_connections-Fit inputs rest _ within (elim (Bool-cases (is_used inputs kind)) [
          | inl on ↦ rw on (add_connection-Fit ctx a b kind ha hb f)
          | inr off ↦ rw off f
        ])

    add_scout_edge-Fit :
        (now : X.DateTime) (ctx : RouteContext X) (sig : Signature X)
        → Fit avoid pref ctx
        → Fit avoid pref (add_scout_edge X graph now ctx sig)
    add_scout_edge-Fit now ctx sig f = elim (scout-cases now ctx sig) [
      | inl same ↦ subst (Fit avoid pref) (sym same) f
      | inr (out, in', at, at', is) ↦ subst (Fit avoid pref) (sym is) (
          add_connection-Fit ctx out in' wormhole (serves.ids sig.out_system_id out at)
            (serves.ids sig.in_system_id in' at') f)
    ]

    add_scout_edges-Fit :
        (now : X.DateTime) (sigs : List (Signature X)) (ctx : RouteContext X)
        → Fit avoid pref ctx
        → Fit avoid pref (add_scout_edges X graph ctx sigs now)
    unfolding add_scout_edges
    add_scout_edges-Fit now [] ctx f = f
    add_scout_edges-Fit now (sig ∷ sigs) ctx f =
        add_scout_edges-Fit now sigs _ (add_scout_edge-Fit now ctx sig f)

    -- The branches of a flag.
    if-Fit :
        (b : Bool) (x y : RouteContext X)
        → Fit avoid pref x
        → Fit avoid pref y
        → Fit avoid pref (if b then x else y)
    if-Fit true x y fx fy = fx
    if-Fit false x y fx fy = fy

    pub apply_scout_overlay-Fit :
        (scout : EveScoutSnapshot X) (inputs : OverlayInputs) (endpoints : List ℕ)
        (now : X.DateTime) (ctx : RouteContext X)
        → Fit avoid pref ctx
        → Fit avoid pref (apply_scout_overlay X graph scout inputs endpoints now ctx)
    unfolding apply_scout_overlay
    apply_scout_overlay-Fit scout inputs endpoints now ctx f =
        let f' =
          if-Fit (inputs.include_thera || is_endpoint X graph endpoints thera_system_id) _ _
            (add_scout_edges-Fit now scout.thera ctx f) f in
        if-Fit (inputs.include_turnur || is_endpoint X graph endpoints turnur_system_id) _ _
          (add_scout_edges-Fit now scout.turnur _ f') f'
