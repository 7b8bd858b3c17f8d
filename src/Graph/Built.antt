-- ===== src/Graph/Built.antt =====
-- What `build_graph_data` guarantees of the lookups and of the gate graph.
use erbridge_palu.Prelude.{
  true, ℕ, ◌≡◌, refl, sym, ◌∙◌, subst, ◌↔◌, inl, inr, some, List, [], ◌∷◌, ◌++◌, Memᴰ, length,
  length-append, lt-length_of_get_elem?, ℤ, int_eq, text_eq, nat_eq, pair_eq, to_ascii_lowercase,
  arith,
}
use mathlib.Core.List.Memᴰ
use mathlib.Core.List.{append_assoc, append-nil}
use erbridge_palu.Prelude.HashMap
use erbridge_palu.Prelude.HashMap.{HashMap}
use erbridge_palu.Prelude.HashSet
use erbridge_palu.External.{External, IsPetgraph}
use erbridge_palu.Model.{System, RawSdeData, GraphData}
use erbridge_palu.Graph.{
  edge_key, add_pairs, Lookups, empty_lookups, add_system, add_systems, Gates, build_graph_data,
}
use erbridge_palu.Graph.Indexes.{Indexes, Indexes-nil, insert-Indexes}
use erbridge_palu.Graph.Links.{Names, Sane, add_pairs_lem}

module _ (X : External) (P : IsPetgraph X) where
  -- The graph data of `raw`: the lookups lead to the last system of an id or of a name in lower
  -- case, and the graph has a node for each system and a gate for each pair of known systems.
  pub record IsGraphData (raw : RawSdeData X) (g : GraphData X) : Type 0 where
    pub same_systems : g.systems ≡ raw.systems
    pub ids : Indexes (λ s. s.id) g.id_to_idx g.systems
    pub names : Indexes (λ s. to_ascii_lowercase s.name) g.name_to_idx g.systems
    pub count : X.node_count g.gate_graph ≡ length g.systems
    pub gates :
        (u v : ℕ)
        → Memᴰ v (X.neighbors g.gate_graph u)
          ↔ ((p : ℤ × ℤ) × Memᴰ p raw.gate_pairs × Names X P g.id_to_idx (length g.systems) p u v)
    -- One edge for each pair of neighbours.
    pub keys : List (ℕ × ℕ)
    pub distinct : HashSet.Distinct keys
    pub once : X.edge_count g.gate_graph ≡ length keys
    pub keys_iff :
        (u v : ℕ)
        → (HashSet.contains (edge_key u v) keys ≡ true) ↔ Memᴰ v (X.neighbors g.gate_graph u)

  -- The lookups after some of the systems.
  record Filled (l : Lookups X) (ss : List (System X)) : Type 0 where
    count : X.node_count l.gate_graph ≡ length ss
    bare : (v : ℕ) → X.neighbors l.gate_graph v ≡ []
    edges : X.edge_count l.gate_graph ≡ 0
    ids : Indexes (λ s. s.id) l.id_to_idx ss
    names : Indexes (λ s. to_ascii_lowercase s.name) l.name_to_idx ss

  add_system-Filled :
      (l : Lookups X) (ss : List (System X)) (s : System X)
      → Filled l ss
      → Filled (add_system X l s) (ss ++ s ∷ [])
  unfolding add_system
  add_system-Filled l ss s ok =
      let at : (X.add_node l.gate_graph).1 ≡ length ss = P.new_index l.gate_graph ∙ ok.count in
      record {
        count = omega (arith, P.count_node l.gate_graph, ok.count, length-append ss (s ∷ []));
        bare = λ v. P.neighbors_node l.gate_graph v ∙ ok.bare v;
        edges = P.edges_node l.gate_graph ∙ ok.edges;
        ids =
            subst (λ i. Indexes (λ s. s.id) (HashMap.insert s.id i l.id_to_idx) (ss ++ s ∷ []))
              (sym at) (insert-Indexes (λ s. s.id) l.id_to_idx ss s ok.ids);
        names =
            subst
              (λ i.
                Indexes (λ s. to_ascii_lowercase s.name)
                  (HashMap.insert (to_ascii_lowercase s.name) i l.name_to_idx) (ss ++ s ∷ []))
              (sym at)
              (insert-Indexes (λ s. to_ascii_lowercase s.name) l.name_to_idx ss s ok.names);
      }

  add_systems-Filled :
      (l : Lookups X) (ss ts : List (System X))
      → Filled l ss
      → Filled (add_systems X l ts) (ss ++ ts)
  unfolding add_systems
  add_systems-Filled l ss [] ok = subst (Filled l) (sym (append-nil ss)) ok
  add_systems-Filled l ss (t ∷ ts) ok =
      subst (Filled (add_systems X (add_system X l t) ts)) (append_assoc ss (t ∷ []) ts)
        (add_systems-Filled (add_system X l t) (ss ++ t ∷ []) ts (add_system-Filled l ss t ok))

  empty-Filled : Filled (empty_lookups X) []
  empty-Filled = record {
    count = P.count_new;
    bare = P.neighbors_new;
    edges = P.edges_new;
    ids = Indexes-nil (λ s. s.id);
    names = Indexes-nil (λ s. to_ascii_lowercase s.name);
  }

  -- Both lookups lead to the last system of the key, the id or the name in lower case; the graph
  -- has a node for each system, two nodes are neighbours exactly when a gate pair names them, and
  -- it has one edge for each pair of neighbours.
  pub build_graph_data-IsGraphData :
      (raw : RawSdeData X) (build_number : ℕ)
      → IsGraphData raw (build_graph_data X raw build_number)
  unfolding build_graph_data HashSet.contains
  build_graph_data-IsGraphData raw build_number =
      let l = add_systems X (empty_lookups X) raw.systems in
      let filled = add_systems-Filled (empty_lookups X) [] raw.systems empty-Filled in
      let bound = λ (k : ℤ) (i : ℕ) (e : HashMap.get k l.id_to_idx ≡ some i).
        let (s, at, _, _) = filled.ids.found k i e in lt-length_of_get_elem? raw.systems i s at in
      let start : Gates X = record { graph = l.gate_graph; edge_seen = [] } in
      let sane : Sane X P l.id_to_idx (length raw.systems) start = record {
        count = filled.count;
        seen_iff = λ u v. (λ h. cc, λ m. absurd (Memᴰ.not-nil (subst (Memᴰ v) (filled.bare u) m)));
        distinct = tt;
        once = filled.edges;
      } in
      let (sane', gates) =
        add_pairs_lem X P l.id_to_idx (length raw.systems) bound start raw.gate_pairs sane in
      record {
        same_systems = refl;
        ids = filled.ids;
        names = filled.names;
        count = sane'.count;
        keys = (add_pairs X l.id_to_idx start raw.gate_pairs).edge_seen;
        distinct = sane'.distinct;
        once = sane'.once;
        keys_iff = sane'.seen_iff;
        gates = λ u v. (
          λ m. elim ((gates u v).0 m) [
            | inl old ↦ absurd (Memᴰ.not-nil (subst (Memᴰ v) (filled.bare u) old))
            | inr named ↦ named
          ],
          λ named. (gates u v).1 (inr named),
        );
      }
