-- ===== src/Model/Least.antt =====
-- The least range of each group in the hull catalog (src/model.rs).
use erbridge_palu.Prelude.{
  ◌≡◌, ◌≢◌, refl, sym, ◌∙◌, ap, subst, ◌⊎◌, inl, inr, true, false, Option, none, some, List, [],
  ◌∷◌, Memᴰ, ℤ, int_eq, ◌==◌, Bool-cases, Option-cases, eq_of_beq, beq_self,
}
use mathlib.Core.List.Memᴰ
use erbridge_palu.Prelude.HashMap
use erbridge_palu.Prelude.HashMap.{HashMap}
use erbridge_palu.External.{External, IsIeee}
use erbridge_palu.Model.{
  RawHull, RawHullCatalog, HullCatalog, lower_min, add_hull, add_hulls, from_raw,
  min_base_ly_for_group,
}

module _ (X : External) (I : IsIeee X) (group : ℤ) where
  -- The least range of the group among some hulls, where the group has one.
  abbrev pub LeastOf : (RawHull X → Type 0) → Option X.F64 → Type 0
  LeastOf Among none = (h : RawHull X) → Among h → h.group_id ≢ group
  LeastOf Among (some m) =
      ((h : RawHull X) × Among h × (h.group_id ≡ group) × (h.base_ly ≡ m))
      × ((h : RawHull X) → Among h → h.group_id ≡ group → X.lt h.base_ly m ≡ false)

  module _ (h : RawHull X) (mins : HashMap ℤ X.F64) where
    lower_first :
        HashMap.get h.group_id mins ≡ none
        → lower_min X h.group_id h.base_ly mins ≡ HashMap.insert h.group_id h.base_ly mins
    unfolding lower_min
    lower_first e = rw (lower_min, e) refl

    lower_less :
        (m : X.F64)
        → HashMap.get h.group_id mins ≡ some m
        → X.lt h.base_ly m ≡ true
        → lower_min X h.group_id h.base_ly mins ≡ HashMap.insert h.group_id h.base_ly mins
    unfolding lower_min
    lower_less m e l = rw (lower_min, e, l) refl

    lower_same :
        (m : X.F64)
        → HashMap.get h.group_id mins ≡ some m
        → X.lt h.base_ly m ≡ false
        → lower_min X h.group_id h.base_ly mins ≡ mins
    unfolding lower_min
    lower_same m e l = rw (lower_min, e, l) refl

    -- Other groups keep their range.
    get-lower_ne :
        h.group_id ≢ group
        → HashMap.get group (lower_min X h.group_id h.base_ly mins) ≡ HashMap.get group mins
    get-lower_ne ne = elim (Option-cases (HashMap.get h.group_id mins)) [
      | inl e ↦
          ap (HashMap.get group) (lower_first e)
          ∙ HashMap.get-insert_ne h.group_id group h.base_ly mins ne
      | inr (m, e) ↦ elim (Bool-cases (X.lt h.base_ly m)) [
        | inl l ↦
            ap (HashMap.get group) (lower_less m e l)
            ∙ HashMap.get-insert_ne h.group_id group h.base_ly mins ne
        | inr l ↦ ap (HashMap.get group) (lower_same m e l)
      ]
    ]

  widen :
      (Among : RawHull X → Type 0) (h : RawHull X) (o : Option X.F64)
      → h.group_id ≢ group
      → LeastOf Among o
      → LeastOf (λ x. Among x ⊎ (x ≡ h)) o
  widen Among h none ne all = λ x among same. elim among [
    | inl old ↦ all x old same
    | inr is ↦ ne (ap (λ y. y.group_id) (sym is) ∙ same)
  ]
  widen Among h (some m) ne ((w, among, same, at), all) = (
    (w, inl among, same, at),
    λ x among' same'. elim among' [
      | inl old ↦ all x old same'
      | inr is ↦ absurd (ne (ap (λ y. y.group_id) (sym is) ∙ same'))
    ],
  )

  lower_step :
      (Among : RawHull X → Type 0) (h : RawHull X) (mins : HashMap ℤ X.F64)
      → LeastOf Among (HashMap.get group mins)
      → LeastOf (λ x. Among x ⊎ (x ≡ h)) (HashMap.get group (lower_min X h.group_id h.base_ly mins))
  lower_step Among h mins least = elim (Bool-cases (h.group_id == group)) [
    | inr other ↦
        let ne : h.group_id ≢ group = λ e. cc (beq_self h.group_id) in
        subst (LeastOf (λ x. Among x ⊎ (x ≡ h))) (sym (get-lower_ne h mins ne))
          (widen Among h (HashMap.get group mins) ne least)
    | inl here ↦
        let same = eq_of_beq h.group_id group here in
        let at : (o : Option X.F64) → HashMap.get group mins ≡ o → HashMap.get h.group_id mins ≡ o =
          λ o e. ap (λ g. HashMap.get g mins) same ∙ e in
        let put =
          subst (λ g. HashMap.get g (HashMap.insert h.group_id h.base_ly mins) ≡ some h.base_ly)
            same (HashMap.get-insert_self h.group_id h.base_ly mins) in
        elim (Option-cases (HashMap.get group mins)) [
          | inl e ↦
              let all = subst (LeastOf Among) e least in
              subst (LeastOf (λ x. Among x ⊎ (x ≡ h)))
                (sym (ap (HashMap.get group) (lower_first h mins (at none e)) ∙ put))
                (
                  (h, inr refl, same, refl),
                  λ x among same'. elim among [
                    | inl old ↦ absurd (all x old same')
                    | inr is ↦
                        subst (λ y. X.lt y.base_ly h.base_ly ≡ false) (sym is)
                          (I.lt_irrefl h.base_ly)
                  ],
                )
          | inr (m, e) ↦
              let (holds, all) = subst (LeastOf Among) e least in
              elim (Bool-cases (X.lt h.base_ly m)) [
                | inl less ↦
                    subst (LeastOf (λ x. Among x ⊎ (x ≡ h)))
                      (sym
                        (ap (HashMap.get group) (lower_less h mins m (at (some m) e) less) ∙ put))
                      (
                        (h, inr refl, same, refl),
                        λ x among same'. elim among [
                          | inl old ↦ elim (Bool-cases (X.lt x.base_ly h.base_ly)) [
                            | inr fine ↦ fine
                            | inl lower ↦
                                cc (I.lt_trans x.base_ly h.base_ly m lower less, all x old same')
                          ]
                          | inr is ↦
                              subst (λ y. X.lt y.base_ly h.base_ly ≡ false) (sym is)
                                (I.lt_irrefl h.base_ly)
                        ],
                      )
                | inr not_less ↦
                    let (w, among, wg, wb) = holds in
                    subst (LeastOf (λ x. Among x ⊎ (x ≡ h)))
                      (sym
                        (ap (HashMap.get group) (lower_same h mins m (at (some m) e) not_less) ∙ e))
                      (
                        (w, inl among, wg, wb),
                        λ x among' same'. elim among' [
                          | inl old ↦ all x old same'
                          | inr is ↦ subst (λ y. X.lt y.base_ly m ≡ false) (sym is) not_less
                        ],
                      )
              ]
        ]
  ]

  regroup :
      (A B : RawHull X → Type 0) (o : Option X.F64)
      → ((x : RawHull X) → A x → B x)
      → ((x : RawHull X) → B x → A x)
      → LeastOf A o
      → LeastOf B o
  regroup A B none to from all = λ x b same. all x (from x b) same
  regroup A B (some m) to from ((w, a, same, at), all) =
      ((w, to w a, same, at), λ x b same'. all x (from x b) same')

  get-add_hulls :
      (Among : RawHull X → Type 0) (c : HullCatalog X) (hs : List (RawHull X))
      → LeastOf Among (HashMap.get group c.min_base_ly_by_group)
      → LeastOf
          (λ x. Among x ⊎ Memᴰ x hs)
          (HashMap.get group (add_hulls X c hs).min_base_ly_by_group)
  unfolding add_hulls add_hull
  get-add_hulls Among c [] least =
      regroup Among (λ x. Among x ⊎ Memᴰ x []) (HashMap.get group c.min_base_ly_by_group)
        (λ x a. inl a) (λ x s. elim s [ inl a ↦ a | inr m ↦ absurd (Memᴰ.not-nil m) ]) least
  get-add_hulls Among c (h ∷ hs) least =
      regroup (λ x. (Among x ⊎ (x ≡ h)) ⊎ Memᴰ x hs) (λ x. Among x ⊎ Memᴰ x (h ∷ hs))
        (HashMap.get group (add_hulls X (add_hull X c h) hs).min_base_ly_by_group)
        (λ x s. elim s [
          | inl (inl a) ↦ inl a
          | inl (inr e) ↦ inr (Memᴰ.head e)
          | inr m ↦ inr (Memᴰ.tail m)
        ])
        (λ x s. elim s [
          | inl a ↦ inl (inl a)
          | inr m ↦ elim (Memᴰ.cases_cons m) [ inl e ↦ inl (inr e) | inr later ↦ inr later ]
        ])
        (get-add_hulls (λ x. Among x ⊎ (x ≡ h)) (add_hull X c h) hs
          (lower_step Among h c.min_base_ly_by_group least))

  -- Where the order of the ranges is a strict one, the catalog keeps for a group the range of one
  -- of the raw hulls of the group that no other one is below, and none where the group has no hull.
  pub min_base_ly_for_group-LeastOf :
      (raw : RawHullCatalog X)
      → LeastOf (λ h. Memᴰ h raw.hulls) (min_base_ly_for_group X (from_raw X raw) group)
  unfolding from_raw min_base_ly_for_group HashMap.get
  min_base_ly_for_group-LeastOf raw =
      regroup (λ h. ⊥ ⊎ Memᴰ h raw.hulls) (λ h. Memᴰ h raw.hulls)
        (min_base_ly_for_group X (from_raw X raw) group)
        (λ x s. elim s [ inl never ↦ absurd never | inr m ↦ m ]) (λ x m. inr m)
        (get-add_hulls (λ h. ⊥) _ raw.hulls (λ h never same. absurd never))
