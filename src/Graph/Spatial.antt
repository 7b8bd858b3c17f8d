-- ===== src/Graph/Spatial.antt =====
-- What the kd-tree of `build_graph_data` holds: the systems of K-space.
use erbridge_palu.Prelude.{
  ℕ, true, false, ◌≡◌, sym, ◌∙◌, subst, ◌↔◌, ◌⊎◌, inl, inr, some, List, [], ◌∷◌, ◌++◌, Memᴰ, length,
  length-append, get_elem?, Bool-cases, arith,
}
use mathlib.Core.List.{append_assoc, append-nil}
use erbridge_palu.External.{External, IsPetgraph, IsKdTree}
use erbridge_palu.Model.{System, RawSdeData, is_wormhole}
use erbridge_palu.Graph.{Lookups, empty_lookups, add_system, add_systems, build_graph_data}
use erbridge_palu.Graph.Indexes.{snoc_last, snoc_old, snoc_cases}

module _ (X : External) (P : IsPetgraph X) (D : IsKdTree X) where
  -- The node is a system outside of J-space, within the radius.
  abbrev pub Within : List (System X) → X.F64 × X.F64 × X.F64 → X.F64 → ℕ → Type 0
  Within ss q r v =
      (s : System X) × (get_elem? ss v ≡ some s)
      × (is_wormhole X s ≡ false)
      × (D.is_within (X.squared_euclidean s.coords q) r ≡ true)

  record Spanned (l : Lookups X) (ss : List (System X)) : Type 0 where
    count : X.node_count l.gate_graph ≡ length ss
    hits :
        (q : X.F64 × X.F64 × X.F64) (r : X.F64) (v : ℕ)
        → Memᴰ v (X.within_unsorted l.spatial_index q r) ↔ Within ss q r v

  Within-snoc :
      (ss : List (System X)) (s : System X) (q : X.F64 × X.F64 × X.F64) (r : X.F64) (v : ℕ)
      → Within (ss ++ s ∷ []) q r v ↔ (
          Within ss q r v
          ⊎ (v ≡ length ss)
            × (is_wormhole X s ≡ false)
            × (D.is_within (X.squared_euclidean s.coords q) r ≡ true))
  Within-snoc ss s q r v = (
    λ (t, at, space, near). elim (snoc_cases ss s t v at) [
      | inl old ↦ inl (t, old, space, near)
      | inr (end, same) ↦ inr (
        end,
        subst (λ x. is_wormhole X x ≡ false) (sym same) space,
        subst (λ x. D.is_within (X.squared_euclidean x.coords q) r ≡ true) (sym same) near,
      )
    ],
    elim [
      | inl (t, old, space, near) ↦ (t, snoc_old ss s t v old, space, near)
      | inr (end, space, near) ↦ (
        s,
        subst (λ i. get_elem? (ss ++ s ∷ []) i ≡ some s) (sym end) (snoc_last ss s),
        space,
        near,
      )
    ],
  )

  add_system-hits :
      (l : Lookups X) (ss : List (System X)) (s : System X) (ok : Spanned l ss)
      (q : X.F64 × X.F64 × X.F64) (r : X.F64) (v : ℕ)
      → Memᴰ v (X.within_unsorted (add_system X l s).spatial_index q r)
        ↔ Within (ss ++ s ∷ []) q r v
  unfolding add_system
  add_system-hits l ss s ok q r v =
      let grown = Within-snoc ss s q r v in
      let at : (X.add_node l.gate_graph).1 ≡ length ss = P.new_index l.gate_graph ∙ ok.count in
      elim (Bool-cases (is_wormhole X s)) [
        | inl worm ↦ rw worm (
          λ m. grown.1 (inl ((ok.hits q r v).0 m)),
          λ w. elim (grown.0 w) [ inl old ↦ (ok.hits q r v).1 old | inr (_, space, _) ↦ cc ],
        )
        | inr space ↦
            let point = D.within_point l.spatial_index s.coords (X.add_node l.gate_graph).1 q r v in
            rw space (
              λ m. elim (point.0 m) [
                | inl old ↦ grown.1 (inl ((ok.hits q r v).0 old))
                | inr (end, near) ↦ grown.1 (inr (end ∙ at, space, near))
              ],
              λ w. point.1 (elim (grown.0 w) [
                | inl old ↦ inl ((ok.hits q r v).1 old)
                | inr (end, _, near) ↦ inr (end ∙ sym at, near)
              ]),
            )
      ]

  add_systems-Spanned :
      (l : Lookups X) (ss ts : List (System X))
      → Spanned l ss
      → Spanned (add_systems X l ts) (ss ++ ts)
  unfolding add_systems add_system
  add_systems-Spanned l ss [] ok = subst (Spanned l) (sym (append-nil ss)) ok
  add_systems-Spanned l ss (t ∷ ts) ok =
      subst (Spanned (add_systems X (add_system X l t) ts)) (append_assoc ss (t ∷ []) ts) (
        add_systems-Spanned (add_system X l t) (ss ++ t ∷ []) ts (record {
          count = omega (arith, P.count_node l.gate_graph, ok.count, length-append ss (t ∷ []));
          hits = add_system-hits l ss t ok;
        }))

  -- A query of the kd-tree finds exactly the systems within its radius, those of J-space excepted.
  pub spatial_index-Within :
      (raw : RawSdeData X) (build_number : ℕ) (q : X.F64 × X.F64 × X.F64) (r : X.F64) (v : ℕ)
      → Memᴰ v (X.within_unsorted (build_graph_data X raw build_number).spatial_index q r)
        ↔ Within raw.systems q r v
  unfolding build_graph_data
  spatial_index-Within raw build_number =
      (add_systems-Spanned (empty_lookups X) [] raw.systems (record {
        count = P.count_new;
        hits = λ q r v. (λ m. absurd (D.within_new q r v m), λ (s, at, _, _). cc);
      })).hits
