-- ===== src/Services/Route/Endpoints.antt =====
-- Graph data that the services can rely on: what the lookups and the gates lead to is in range.
use erbridge_palu.Prelude.{
  ℕ, ◌<◌, ◌≡◌, sym, subst, inl, inr, Option, none, some, Memᴰ, length, lt-length_of_get_elem?, ℤ,
  Text, int_eq, text_eq, to_ascii_lowercase,
}
use erbridge_palu.Prelude.HashMap
use erbridge_palu.External.{External, IsPetgraph}
use erbridge_palu.Model.{GraphData, RawSdeData}
use erbridge_palu.Graph.{build_graph_data}
use erbridge_palu.Graph.Built.{build_graph_data-IsGraphData}
use erbridge_palu.Error.{ok}
use erbridge_palu.Dto.{SystemRef}
use erbridge_palu.Services.Route.{resolve_system, or_unknown}

module _ (X : External) where
  pub record Serves (g : GraphData X) : Type 0 where
    pub ids : (k : ℤ) (i : ℕ) → HashMap.get k g.id_to_idx ≡ some i → i < length g.systems
    pub names : (k : Text) (i : ℕ) → HashMap.get k g.name_to_idx ≡ some i → i < length g.systems
    pub gates : (u v : ℕ) → Memᴰ v (X.neighbors g.gate_graph u) → v < length g.systems

  -- What `build_graph_data` makes can be relied on.
  pub build_graph_data-Serves :
      (P : IsPetgraph X) (raw : RawSdeData X) (build_number : ℕ)
      → Serves (build_graph_data X raw build_number)
  build_graph_data-Serves P raw build_number =
      let g = build_graph_data X raw build_number in
      let built = build_graph_data-IsGraphData X P raw build_number in
      let id_bound : (k : ℤ) (i : ℕ) → HashMap.get k g.id_to_idx ≡ some i → i < length g.systems =
        λ k i e.
          let (s, at, _, _) = built.ids.found k i e in lt-length_of_get_elem? g.systems i s at in
      record {
        ids = id_bound;
        names = λ k i e.
            let (s, at, _, _) = built.names.found k i e in lt-length_of_get_elem? g.systems i s at;
        gates = λ u v m.
            let (p, _, named) = (built.gates u v).0 m in
            let (a, b, at, bt, same) = named in
            elim same [
              | inl (_, is) ↦ subst (λ x. x < length g.systems) (sym is) (id_bound p.1 b bt)
              | inr (_, is) ↦ subst (λ x. x < length g.systems) (sym is) (id_bound p.0 a at)
            ];
      }

  or_unknown_ok : (o : Option ℕ) (what : Text) (i : ℕ) → or_unknown o what ≡ ok i → o ≡ some i
  unfolding or_unknown
  or_unknown_ok none what i e = cc
  or_unknown_ok (some j) what i e = cc

  pub resolve_system_bound :
      (g : GraphData X)
      → Serves g
      → (r : SystemRef) (i : ℕ) → resolve_system X g r ≡ ok i
      → i < length g.systems
  unfolding resolve_system
  resolve_system_bound g s (SystemRef.id id) i e = s.ids id i (or_unknown_ok _ _ i e)
  resolve_system_bound g s (SystemRef.name name) i e =
      s.names (to_ascii_lowercase name) i (or_unknown_ok _ _ i e)
