-- ===== src/Routing/Overlay.antt =====
-- What a connection adds to the overlay, and how steps are labelled.
use erbridge_palu.Prelude.{
  ℕ, ◌≡◌, ◌≢◌, refl, sym, ◌∙◌, ap, subst, ◌⊎◌, inl, inr, Option, none, some, List, [], ◌∷◌, ◌++◌,
  nat_beq, nat_beq_iff, nat_eq, ℕ_discrete, Bool-cases, Option-cases, beq_self, beq_ne, cond_false,
}
use mathlib.Core.Option
use erbridge_palu.Prelude.HashMap
use erbridge_palu.External.{External}
use erbridge_palu.Routing.{
  EdgeKind, Connections, entry, kind_to, push_new, add_half, RouteContext, add_connection,
  overlay_edge_kind, new,
}

kind_to-append_new :
    (b v : ℕ) (k : EdgeKind) (nbrs : List (ℕ × EdgeKind))
    → kind_to b nbrs ≡ none
    → (kind_to b (nbrs ++ (b, k) ∷ []) ≡ some k)
      × (b ≢ v → kind_to v (nbrs ++ (b, k) ∷ []) ≡ kind_to v nbrs)
unfolding kind_to
kind_to-append_new b v k [] h = (rw (beq_self b) refl, λ ne. rw (beq_ne b v ne) refl)
kind_to-append_new b v k ((n, j) ∷ rest) h = elim (Bool-cases (nat_beq n b)) [
  | inl same ↦ cc
  | inr other ↦
      let (own, others) = kind_to-append_new b v k rest (rw other at h) in
      (
        rw other own,
        λ ne. elim (Bool-cases (nat_beq n v)) [
          | inl here ↦ rw here refl
          | inr there ↦ rw there (others ne)
        ],
      )
]

-- The kind of the connection from `u` to `v`.
kind_at : Connections → ℕ → ℕ → Option EdgeKind
kind_at c u v = kind_to v (entry u c)

push_new_self :
    (b : ℕ) (k : EdgeKind) (nbrs : List (ℕ × EdgeKind))
    → kind_to b (push_new b k nbrs) ≡ some (Option.get_or (kind_to b nbrs) k)
unfolding push_new
push_new_self b k nbrs = elim (Option-cases (kind_to b nbrs)) [
  | inl new ↦ rw (push_new, new) (kind_to-append_new b b k nbrs new).0
  | inr (old, e) ↦ rw (push_new, e) e
]

push_new_other :
    (b v : ℕ) (k : EdgeKind) (nbrs : List (ℕ × EdgeKind))
    → b ≢ v
    → kind_to v (push_new b k nbrs) ≡ kind_to v nbrs
unfolding push_new
push_new_other b v k nbrs ne = elim (Option-cases (kind_to b nbrs)) [
  | inl new ↦ rw (push_new, new) ((kind_to-append_new b v k nbrs new).1 ne)
  | inr (old, e) ↦ rw (push_new, e) refl
]

entry-insert_self :
    (a : ℕ) (x : List (ℕ × EdgeKind)) (c : Connections) → entry a (HashMap.insert a x c) ≡ x
unfolding entry
entry-insert_self a x c = ap (λ o. Option.get_or o []) (HashMap.get-insert_self a x c)

entry-insert_ne :
    (a u : ℕ) (x : List (ℕ × EdgeKind)) (c : Connections)
    → a ≢ u
    → entry u (HashMap.insert a x c) ≡ entry u c
unfolding entry
entry-insert_ne a u x c ne = ap (λ o. Option.get_or o []) (HashMap.get-insert_ne a u x c ne)

half_self :
    (a b : ℕ) (k : EdgeKind) (c : Connections)
    → kind_at (add_half a b k c) a b ≡ some (Option.get_or (kind_at c a b) k)
unfolding kind_at add_half
half_self a b k c =
    ap (kind_to b) (entry-insert_self a (push_new b k (entry a c)) c)
    ∙ push_new_self b k (entry a c)

half_other :
    (a b u v : ℕ) (k : EdgeKind) (c : Connections)
    → ¬ ((u ≡ a) × (v ≡ b))
    → kind_at (add_half a b k c) u v ≡ kind_at c u v
unfolding kind_at add_half
half_other a b u v k c ne = elim (ℕ_discrete a u) [
  | no apart ↦ ap (kind_to v) (entry-insert_ne a u (push_new b k (entry a c)) c apart)
  | yes same ↦
      ap (λ x. kind_to v (entry x (HashMap.insert a (push_new b k (entry a c)) c))) (sym same)
      ∙ ap (kind_to v) (entry-insert_self a (push_new b k (entry a c)) c)
      ∙ push_new_other b v k (entry a c) (λ e. ne (sym same, sym e))
      ∙ ap (λ x. kind_to v (entry x c)) same
]

module _ (X : External) where
  overlay_at :
      (ctx : RouteContext X) (u v : ℕ) → overlay_edge_kind X ctx u v ≡ kind_at ctx.connections u v
  unfolding kind_at entry kind_to overlay_edge_kind
  overlay_at ctx u v = elim (Option-cases (HashMap.get u ctx.connections)) [
    | inl e ↦ rw (overlay_edge_kind, e) refl
    | inr (nbrs, e) ↦ rw (overlay_edge_kind, e) refl
  ]

  add_connection_ne :
      (ctx : RouteContext X) (a b : ℕ) (kind : EdgeKind)
      → a ≢ b
      → (add_connection X ctx a b kind).connections
        ≡ add_half b a kind (add_half a b kind ctx.connections)
  unfolding add_connection
  add_connection_ne ctx a b kind ne =
      rw (cond_false (nat_beq a b) (λ e. ne ((nat_beq_iff a b).0 e))) refl

  -- A self-loop changes nothing.
  add_connection_loop :
      (ctx : RouteContext X) (a : ℕ) (kind : EdgeKind) → add_connection X ctx a a kind ≡ ctx
  unfolding add_connection
  add_connection_loop ctx a kind = rw (beq_self a) refl

  -- The pair `(u, v)` is that of the new connection.
  abbrev pub Joins : ℕ → ℕ → ℕ → ℕ → Type 0
  Joins a b u v = a ≢ b × ((u ≡ a) × (v ≡ b) ⊎ (u ≡ b) × (v ≡ a))

  new_kinds :
      (ctx : RouteContext X) (a b : ℕ) (kind : EdgeKind)
      → a ≢ b
      → (kind_at (add_connection X ctx a b kind).connections a b
          ≡ some (Option.get_or (kind_at ctx.connections a b) kind))
        × (kind_at (add_connection X ctx a b kind).connections b a
            ≡ some (Option.get_or (kind_at ctx.connections b a) kind))
  new_kinds ctx a b kind ne =
      let c = ctx.connections in
      let half = add_half a b kind c in
      let whole = ap (λ x. kind_at x) (add_connection_ne ctx a b kind ne) in
      (
        ap (λ f. f a b) whole
            ∙ half_other b a a b kind half (λ (e, _). ne e)
            ∙ half_self a b kind c,
        ap (λ f. f b a) whole
            ∙ half_self b a kind half
            ∙ ap (λ o. some (Option.get_or o kind))
                (half_other a b b a kind c (λ (e, _). ne (sym e))),
      )

  old_kinds :
      (ctx : RouteContext X) (a b u v : ℕ) (kind : EdgeKind)
      → ¬ Joins a b u v
      → kind_at (add_connection X ctx a b kind).connections u v ≡ kind_at ctx.connections u v
  old_kinds ctx a b u v kind apart = elim (ℕ_discrete a b) [
    | yes loop ↦
        ap (λ x. kind_at x.connections u v)
          (subst (λ x. add_connection X ctx a x kind ≡ ctx) loop (add_connection_loop ctx a kind))
    | no ne ↦
        ap (λ x. kind_at x u v) (add_connection_ne ctx a b kind ne)
        ∙ half_other b a u v kind (add_half a b kind ctx.connections) (λ e. apart (ne, inr e))
        ∙ half_other a b u v kind ctx.connections (λ e. apart (ne, inl e))
  ]

  -- A new connection between different nodes joins them both ways, and keeps the kind that was
  -- there first; every other pair, and every pair when the connection is a self-loop, is as before.
  pub overlay_edge_kind-add_connection :
      (ctx : RouteContext X) (a b u v : ℕ) (kind : EdgeKind)
      → (Joins a b u v
          → overlay_edge_kind X (add_connection X ctx a b kind) u v
            ≡ some (Option.get_or (overlay_edge_kind X ctx u v) kind))
        × (¬ Joins a b u v
            → overlay_edge_kind X (add_connection X ctx a b kind) u v ≡ overlay_edge_kind X ctx u v)
  overlay_edge_kind-add_connection ctx a b u v kind =
      let after = overlay_at (add_connection X ctx a b kind) u v in
      let before = overlay_at ctx u v in
      (
        λ (ne, way).
            after
            ∙ elim way [
              | inl (e, e') ↦ subst2 e e' (new_kinds ctx a b kind ne).0
              | inr (e, e') ↦ subst2 e e' (new_kinds ctx a b kind ne).1
            ]
            ∙ ap (λ o. some (Option.get_or o kind)) (sym before),
        λ apart. after ∙ old_kinds ctx a b u v kind apart ∙ sym before,
      )
    where
      subst2 :
          {x y : ℕ}
          → u ≡ x
          → v ≡ y
          → kind_at (add_connection X ctx a b kind).connections x y
            ≡ some (Option.get_or (kind_at ctx.connections x y) kind)
          → kind_at (add_connection X ctx a b kind).connections u v
            ≡ some (Option.get_or (kind_at ctx.connections u v) kind)
      subst2 e e' h =
          subst {A = ℕ × ℕ}
            (λ p.
              kind_at (add_connection X ctx a b kind).connections p.0 p.1
              ≡ some (Option.get_or (kind_at ctx.connections p.0 p.1) kind))
            (λ i. (sym e i, sym e' i)) h
