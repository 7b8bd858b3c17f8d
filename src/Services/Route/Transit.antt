-- ===== src/Services/Route/Transit.antt =====
-- What a request avoids is never a transit node of its routes.
use erbridge_palu.Prelude.{
  ℕ, ◌≡◌, ◌≢◌, refl, sym, ◌∙◌, ap, subst, inl, inr, true, false, none, some, List, [], ◌∷◌, Memᴰ,
  nat_eq, int_eq, ℕ_discrete, Bool-cases, Option-cases,
}
use mathlib.Core.List.Memᴰ
use erbridge_palu.Prelude.HashMap
use erbridge_palu.Prelude.HashSet
use erbridge_palu.Prelude.HashSet.{HashSet}
use erbridge_palu.External.{External}
use erbridge_palu.Error.{AppError, Reply, ok, err, collect}
use erbridge_palu.Dto.{SystemRef, GateRouteRequest, preference_of}
use erbridge_palu.EveScout.{EveScoutSnapshot}
use erbridge_palu.Model.{GraphData}
use erbridge_palu.Dijkstra.Routes.{Route}
use erbridge_palu.Routing.{net}
use erbridge_palu.Routing.Weights.{Route-avoids}
use erbridge_palu.Services.Route.{
  OverlayInputs, inputs_of, resolve_system, with_zarzakh, assemble_avoid_set, zarzakh_system_id,
}
use erbridge_palu.Services.Route.Compute.{context_for, Header}
use erbridge_palu.Services.Route.Endpoints.{Serves}
use erbridge_palu.Services.Route.Checked.{
  Reply-cases, ok-injective, collect_bad, collect_later, collect_good, Checks,
}
use erbridge_palu.Services.Route.Fanout.{context_for-Fit}

collect-mem {ℓ κ} :
    {A : Type ℓ} {B : Type κ} (f : A → Reply B) (xs : List A) (ys : List B) (x : A) (y : B)
    → collect f xs ≡ ok ys
    → Memᴰ x xs
    → f x ≡ ok y
    → Memᴰ y ys
collect-mem f [] ys x y e m h = absurd (Memᴰ.not-nil m)
collect-mem f (z ∷ zs) ys x y e m h = elim (Reply-cases (f z)) [
  | inl (x', bad) ↦ cc (collect_bad f z zs x' bad)
  | inr (w, good) ↦ elim (Reply-cases (collect f zs)) [
    | inl (e', bad) ↦ cc (collect_later f z zs w e' good bad)
    | inr (ws, good') ↦
        subst (Memᴰ y) (ok-injective _ _ (sym (collect_good f z zs w ws good good') ∙ e))
          (elim (Memᴰ.cases_cons m) [
            | inl same ↦ Memᴰ.head (ok-injective _ _ (sym h ∙ ap f same ∙ good))
            | inr later ↦ Memᴰ.tail (collect-mem f zs ws x y good' later h)
          ])
  ]
]

module _ (X : External) (graph : GraphData X) where
  module _ (inputs : OverlayInputs) (avoid : HashSet ℕ) where
    zarzakh_on : inputs.include_zarzakh ≡ true → with_zarzakh X graph inputs avoid ≡ avoid
    unfolding with_zarzakh
    zarzakh_on e = rw (with_zarzakh, e) refl

    zarzakh_unknown :
        inputs.include_zarzakh ≡ false
        → HashMap.get zarzakh_system_id graph.id_to_idx ≡ none
        → with_zarzakh X graph inputs avoid ≡ avoid
    unfolding with_zarzakh
    zarzakh_unknown e h = rw (with_zarzakh, e, h) refl

    zarzakh_known :
        (zar : ℕ)
        → inputs.include_zarzakh ≡ false
        → HashMap.get zarzakh_system_id graph.id_to_idx ≡ some zar
        → with_zarzakh X graph inputs avoid ≡ HashSet.insert zar avoid
    unfolding with_zarzakh
    zarzakh_known zar e h = rw (with_zarzakh, e, h) refl

    with_zarzakh-keeps :
        (x : ℕ)
        → HashSet.contains x avoid ≡ true
        → HashSet.contains x (with_zarzakh X graph inputs avoid) ≡ true
    with_zarzakh-keeps x h = elim (Bool-cases inputs.include_zarzakh) [
      | inl on ↦ ap (HashSet.contains x) (zarzakh_on on) ∙ h
      | inr off ↦ elim (Option-cases (HashMap.get zarzakh_system_id graph.id_to_idx)) [
        | inl unknown ↦ ap (HashSet.contains x) (zarzakh_unknown off unknown) ∙ h
        | inr (zar, known) ↦
            ap (HashSet.contains x) (zarzakh_known zar off known) ∙ elim (ℕ_discrete zar x) [
              | yes same ↦
                  subst (λ y. HashSet.contains y (HashSet.insert zar avoid) ≡ true) same
                    (HashSet.contains-insert_self zar avoid)
              | no apart ↦ HashSet.contains-insert_ne zar x avoid apart ∙ h
            ]
      ]
    ]

  module _ (inputs : OverlayInputs) (avoid : HashSet ℕ)
      (made : assemble_avoid_set X graph inputs ≡ ok avoid) where
    set_bad :
        (e : AppError)
        → collect (resolve_system X graph) inputs.avoid ≡ err e
        → assemble_avoid_set X graph inputs ≡ err e
    unfolding assemble_avoid_set
    set_bad e h = rw (assemble_avoid_set, h) refl

    set_good :
        (nodes : List ℕ)
        → collect (resolve_system X graph) inputs.avoid ≡ ok nodes
        → assemble_avoid_set X graph inputs
          ≡ ok (with_zarzakh X graph inputs (HashSet.collect nodes))
    unfolding assemble_avoid_set
    set_good nodes h = rw (assemble_avoid_set, h) refl

    -- The set holds what the user avoids, and Zarzakh where it is not included.
    avoid_holds :
        (x : ℕ)
        → ((r : SystemRef)
            → Memᴰ r inputs.avoid
            → resolve_system X graph r ≡ ok x
            → HashSet.contains x avoid ≡ true)
          × (inputs.include_zarzakh ≡ false
              → HashMap.get zarzakh_system_id graph.id_to_idx ≡ some x
              → HashSet.contains x avoid ≡ true)
    avoid_holds x = elim (Reply-cases (collect (resolve_system X graph) inputs.avoid)) [
      | inl (e, bad) ↦ cc (set_bad e bad)
      | inr (nodes, good) ↦
          let is : with_zarzakh X graph inputs (HashSet.collect nodes) ≡ avoid =
            ok-injective _ _ (sym (set_good nodes good) ∙ made) in
          (
            λ r m e.
                ap (HashSet.contains x) (sym is)
                ∙ with_zarzakh-keeps inputs (HashSet.collect nodes) x (
                    HashSet.contains-collect x nodes
                      (collect-mem (resolve_system X graph) inputs.avoid nodes r x good m e)),
            λ off known.
                ap (HashSet.contains x) (sym is)
                ∙ ap (HashSet.contains x) (zarzakh_known inputs (HashSet.collect nodes) x off known)
                ∙ HashSet.contains-insert_self x (HashSet.collect nodes),
          )
    ]

  module _ (serves : Serves X graph) (scout : EveScoutSnapshot X) (req : GateRouteRequest) where
    -- On the routes that a request with a good header searches, a node that is neither end is no
    -- system that the request avoids, and it is not Zarzakh unless the request includes Zarzakh.
    pub transit_avoids :
        (h : Header X graph scout)
        → Checks X graph serves scout req h
        → (to c : ℕ) (nodes : List ℕ) (now : X.DateTime)
        → Route
            (net X (
              context_for X graph scout
                (inputs_of req)
                (preference_of req.preference)
                h.shared_avoid
                h.connections
                h.from
                to
                now))
            h.from
            to
            nodes
            c
        → (x : ℕ) → Memᴰ x nodes
        → x ≢ h.from
        → x ≢ to
        → ((r : SystemRef) → Memᴰ r req.avoid → resolve_system X graph r ≢ ok x)
          × (req.include_zarzakh ≡ false → HashMap.get zarzakh_system_id graph.id_to_idx ≢ some x)
    transit_avoids h checks to c nodes now r x m not_from not_to =
        let ctx =
          context_for X graph scout (inputs_of req) (preference_of req.preference) h.shared_avoid
            h.connections h.from to now in
        let f =
          context_for-Fit X graph serves scout (inputs_of req) (preference_of req.preference)
            h.shared_avoid h.connections h.from checks.from_in checks.links_in to now in
        let free : HashSet.contains x checks.avoid ≡ false =
          elim (Route-avoids X ctx h.from to c nodes r x m) [
            | inl same ↦ absurd (not_from same)
            | inr out ↦
                sym (HashSet.contains-remove_ne h.from x checks.avoid (λ e. not_from (sym e)))
                ∙ ap (HashSet.contains x) (sym checks.shared_is)
                ∙ sym (HashSet.contains-remove_ne to x h.shared_avoid (λ e. not_to (sym e)))
                ∙ ap (HashSet.contains x) (sym f.avoid_is)
                ∙ out
          ] in
        let (user, zarzakh) = avoid_holds (inputs_of req) checks.avoid checks.avoid_is x in
        (λ r' m' e. cc (user r' m' e), λ off known. cc (zarzakh off known))
