-- ===== src/Graph/Links.antt =====
-- The gates of `build_graph_data`: exactly those of the pairs whose systems are known.
use erbridge_palu.Prelude.{
  ℕ, suc, ◌<◌, ◌≡◌, ◌≢◌, refl, sym, ◌∙◌, ap, subst, ◌↔◌, ◌⊎◌, inl, inr, true, false, none, some,
  List, [], ◌∷◌, Memᴰ, length, leb, ℤ, int_eq, nat_eq, pair_eq, Bool-cases, Option-cases, arith,
  eq_of_beq,
}
use mathlib.Core.List.Memᴰ
use mathlib.Core.Option.{some-injective}
use erbridge_palu.Prelude.HashMap
use erbridge_palu.Prelude.HashMap.{HashMap}
use erbridge_palu.Prelude.HashSet
use erbridge_palu.External.{External, IsPetgraph}
use erbridge_palu.Graph.{edge_key, Gates, add_gate, add_pair, add_pairs}

-- The two ways that one pair of nodes is that of another.
abbrev pub Same : ℕ → ℕ → ℕ → ℕ → Type 0
Same a b u v = (u ≡ a) × (v ≡ b) ⊎ (u ≡ b) × (v ≡ a)

edge_key-first : (a b u v : ℕ) → edge_key a b ≡ edge_key u v → Same a b u v
unfolding edge_key
edge_key-first a b u v e =
    let e0 = ap (λ p. p.0) e in
    let e1 = ap (λ p. p.1) e in
    elim (Bool-cases (leb a b)) [
      | inl x ↦ elim (Bool-cases (leb u v)) [
        | inl y ↦ inl (sym (rw (x, y) at e0), sym (rw (x, y) at e1))
        | inr y ↦ inr (sym (rw (x, y) at e1), sym (rw (x, y) at e0))
      ]
      | inr x ↦ elim (Bool-cases (leb u v)) [
        | inl y ↦ inr (sym (rw (x, y) at e0), sym (rw (x, y) at e1))
        | inr y ↦ inl (sym (rw (x, y) at e1), sym (rw (x, y) at e0))
      ]
    ]

edge_key_swap : (a b : ℕ) → edge_key a b ≡ edge_key b a
unfolding edge_key
edge_key_swap a b = ground arith

edge_key-Same : (a b u v : ℕ) → Same a b u v → edge_key a b ≡ edge_key u v
edge_key-Same a b u v (inl (x, y)) = cc
edge_key-Same a b u v (inr (x, y)) = cc (edge_key_swap a b)

Same-ends : (a b x y u v : ℕ) → a ≡ x → b ≡ y → Same x y u v → Same a b u v
Same-ends a b x y u v e e' (inl (p, q)) = inl (p ∙ sym e, q ∙ sym e')
Same-ends a b x y u v e e' (inr (p, q)) = inr (p ∙ sym e', q ∙ sym e)

key-cases : (p q : ℕ × ℕ) → (p ≡ q) ⊎ (p ≢ q)
key-cases p q = elim (Bool-cases (pair_eq.eq p q)) [
  | inl same ↦ inl (eq_of_beq p q same)
  | inr other ↦ inr (λ e. cc ((pair_eq.eq_iff p q).1 e))
]

module _ (X : External) (P : IsPetgraph X) (ids : HashMap ℤ ℕ) (n : ℕ) where
  -- A pair of system ids leads to `u` and `v`, in either order.
  abbrev pub Names : ℤ × ℤ → ℕ → ℕ → Type 0
  Names p u v =
      (a : ℕ) × (b : ℕ) × (HashMap.get p.0 ids ≡ some a)
      × (HashMap.get p.1 ids ≡ some b)
      × Same a b u v

  -- The gates so far: their keys are those that were seen, and the graph has each once.
  pub record Sane (g : Gates X) : Type 0 where
    pub count : X.node_count g.graph ≡ n
    pub seen_iff :
        (u v : ℕ)
        → (HashSet.contains (edge_key u v) g.edge_seen ≡ true) ↔ Memᴰ v (X.neighbors g.graph u)
    pub distinct : HashSet.Distinct g.edge_seen
    pub once : X.edge_count g.graph ≡ length g.edge_seen

  length-insert_new :
      (k : ℕ × ℕ) (s : List (ℕ × ℕ))
      → HashSet.contains k s ≡ false
      → length (HashSet.insert k s) ≡ suc (length s)
  unfolding HashSet.insert
  length-insert_new k s h = rw h refl

  Sane-gate : (g : Gates X) (a b : ℕ) → a < n → b < n → Sane g → Sane (add_gate X g a b)
  unfolding add_gate
  Sane-gate g a b ha hb ok = elim (Bool-cases (HashSet.contains (edge_key a b) g.edge_seen)) [
    | inl old ↦ rw old ok
    | inr new ↦
        let ha' : a < X.node_count g.graph = omega (arith, ok.count) in
        let hb' : b < X.node_count g.graph = omega (arith, ok.count) in
        rw new (record {
          count = P.count_edge g.graph a b ha' hb' ∙ ok.count;
          seen_iff = λ u v. (
            λ h. elim (key-cases (edge_key a b) (edge_key u v)) [
              | inl same ↦
                  (P.neighbors_edge g.graph a b u v ha' hb').1 (inr (edge_key-first a b u v same))
              | inr apart ↦ (P.neighbors_edge g.graph a b u v ha' hb').1 (
                  inl (
                    (ok.seen_iff u v).0 (
                      sym
                        (HashSet.contains-insert_ne (edge_key a b) (edge_key u v) g.edge_seen apart)
                      ∙ h)))
            ],
            λ m. elim ((P.neighbors_edge g.graph a b u v ha' hb').0 m) [
              | inl old ↦ elim (key-cases (edge_key a b) (edge_key u v)) [
                | inl same ↦
                    subst
                      (λ k. HashSet.contains k (HashSet.insert (edge_key a b) g.edge_seen) ≡ true)
                      same (HashSet.contains-insert_self (edge_key a b) g.edge_seen)
                | inr apart ↦
                    HashSet.contains-insert_ne (edge_key a b) (edge_key u v) g.edge_seen apart
                    ∙ (ok.seen_iff u v).1 old
              ]
              | inr same ↦
                  subst (λ k. HashSet.contains k (HashSet.insert (edge_key a b) g.edge_seen) ≡ true)
                    (edge_key-Same a b u v same)
                    (HashSet.contains-insert_self (edge_key a b) g.edge_seen)
            ],
          );
          distinct = HashSet.insert-Distinct (edge_key a b) g.edge_seen ok.distinct;
          once =
              P.edges_edge g.graph a b ha' hb'
              ∙ ap suc ok.once
              ∙ sym (length-insert_new (edge_key a b) g.edge_seen new);
        })
  ]

  gate_neighbors :
      (g : Gates X) (a b u v : ℕ)
      → a < n
      → b < n
      → Sane g
      → Memᴰ v (X.neighbors (add_gate X g a b).graph u)
        ↔ (Memᴰ v (X.neighbors g.graph u) ⊎ Same a b u v)
  unfolding add_gate
  gate_neighbors g a b u v ha hb ok =
      elim (Bool-cases (HashSet.contains (edge_key a b) g.edge_seen)) [
        | inl old ↦ rw old (
          λ m. inl m,
          elim [
            | inl m ↦ m
            | inr same ↦ (ok.seen_iff u v).0 (
                subst (λ k. HashSet.contains k g.edge_seen ≡ true) (edge_key-Same a b u v same) old)
          ],
        )
        | inr new ↦
            rw new
              (P.neighbors_edge g.graph a b u v (omega (arith, ok.count)) (omega (arith, ok.count)))
      ]

  module _ (bound : (k : ℤ) (i : ℕ) → HashMap.get k ids ≡ some i → i < n) where
    no_first :
        (g : Gates X) (a_id b_id : ℤ)
        → HashMap.get a_id ids ≡ none
        → add_pair X ids g (a_id, b_id) ≡ g
    unfolding add_pair
    no_first g a_id b_id e = rw (add_pair, e) refl

    no_second :
        (g : Gates X) (a_id b_id : ℤ) (a : ℕ)
        → HashMap.get a_id ids ≡ some a
        → HashMap.get b_id ids ≡ none
        → add_pair X ids g (a_id, b_id) ≡ g
    unfolding add_pair
    no_second g a_id b_id a e e' = rw (add_pair, e, e') refl

    both :
        (g : Gates X) (a_id b_id : ℤ) (a b : ℕ)
        → HashMap.get a_id ids ≡ some a
        → HashMap.get b_id ids ≡ some b
        → add_pair X ids g (a_id, b_id) ≡ add_gate X g a b
    unfolding add_pair
    both g a_id b_id a b e e' = rw (add_pair, e, e') refl

    -- What one pair adds to the gates.
    Adds : Gates X → ℤ × ℤ → Gates X → Type 0
    Adds g p h =
        Sane h
        × ((u v : ℕ)
            → Memᴰ v (X.neighbors h.graph u) ↔ (Memᴰ v (X.neighbors g.graph u) ⊎ Names p u v))

    Adds-nothing : (g : Gates X) (p : ℤ × ℤ) → Sane g → ((u v : ℕ) → ¬ Names p u v) → Adds g p g
    unfolding Adds
    Adds-nothing g p ok none_named =
        (ok, λ u v. (λ m. inl m, elim [ inl m ↦ m | inr named ↦ absurd (none_named u v named) ]))

    pair_step : (g : Gates X) (p : ℤ × ℤ) → Sane g → Adds g p (add_pair X ids g p)
    unfolding Adds
    pair_step g (a_id, b_id) ok = elim (Option-cases (HashMap.get a_id ids)) [
      | inl no_a ↦
          subst (Adds g (a_id, b_id)) (sym (no_first g a_id b_id no_a))
            (Adds-nothing g (a_id, b_id) ok (λ u v (x, y, xt, yt, same). cc))
      | inr (a, at) ↦ elim (Option-cases (HashMap.get b_id ids)) [
        | inl no_b ↦
            subst (Adds g (a_id, b_id)) (sym (no_second g a_id b_id a at no_b))
              (Adds-nothing g (a_id, b_id) ok (λ u v (x, y, xt, yt, same). cc))
        | inr (b, bt) ↦ subst (Adds g (a_id, b_id)) (sym (both g a_id b_id a b at bt)) (
          Sane-gate g a b (bound a_id a at) (bound b_id b bt) ok,
          λ u v.
              let step = gate_neighbors g a b u v (bound a_id a at) (bound b_id b bt) ok in
              (
                λ m. elim (step.0 m) [ inl old ↦ inl old | inr same ↦ inr (a, b, at, bt, same) ],
                λ m. step.1 (elim m [
                  | inl old ↦ inl old
                  | inr (x, y, xt, yt, same) ↦ inr (
                      Same-ends a b x y u v (some-injective _ _ (sym at ∙ xt))
                        (some-injective _ _ (sym bt ∙ yt)) same)
                ]),
              ),
        )
      ]
    ]

    pub add_pairs_lem :
        (g : Gates X) (ps : List (ℤ × ℤ))
        → Sane g
        → Sane (add_pairs X ids g ps)
          × ((u v : ℕ)
              → Memᴰ v (X.neighbors (add_pairs X ids g ps).graph u)
                ↔ (Memᴰ v (X.neighbors g.graph u) ⊎ ((p : ℤ × ℤ) × Memᴰ p ps × Names p u v)))
    unfolding add_pairs Adds
    add_pairs_lem g [] ok =
        (ok, λ u v. (λ m. inl m, elim [ inl m ↦ m | inr (p, m, _) ↦ absurd (Memᴰ.not-nil m) ]))
    add_pairs_lem g (q ∷ ps) ok =
        let (ok', step) = pair_step g q ok in
        let (ok'', rest) = add_pairs_lem (add_pair X ids g q) ps ok' in
        (
          ok'',
          λ u v. (
            λ m. elim ((rest u v).0 m) [
              | inl before ↦ elim ((step u v).0 before) [
                | inl old ↦ inl old
                | inr named ↦ inr (q, Memᴰ.head refl, named)
              ]
              | inr (p, m', named) ↦ inr (p, Memᴰ.tail m', named)
            ],
            elim [
              | inl old ↦ (rest u v).1 (inl ((step u v).1 (inl old)))
              | inr (p, m', named) ↦ elim (Memᴰ.cases_cons m') [
                | inl here ↦
                    (rest u v).1 (inl ((step u v).1 (inr (subst (λ r. Names r u v) here named))))
                | inr later ↦ (rest u v).1 (inr (p, later, named))
              ]
            ],
          ),
        )
