-- ===== src/Sde/Parse/Join.antt =====
-- `parse_hull_catalog`: what it returns is the join of the published types with the dogma rows that
-- have a jump range.
use erbridge_palu.Prelude.{
  ◌≡◌, refl, sym, ◌∙◌, ap, subst, ◌↔◌, ◌⊎◌, inl, inr, Option, none, some, List, [], ◌∷◌, ◌++◌, Memᴰ,
  filter, ℤ, Text, int_eq, ◌==◌, Bool-cases, Option-cases, if◌then◌else◌,
}
use mathlib.Core.List.Memᴰ
use mathlib.Core.Option.{some-injective}
use erbridge_palu.Prelude.HashMap
use erbridge_palu.Prelude.HashMap.{HashMap}
use erbridge_palu.External.{External}
use erbridge_palu.Model.{RawHull, RawHullCatalog}
use erbridge_palu.Model.Catalog.{find_last, fill, latest, latest-some, latest-none, get-fill}
use erbridge_palu.Sde.Parse.Lines.{Rows, fold_rows, read_lines-Rows}
use erbridge_palu.Sde.Parse.{
  parsed, read_lines, RawType, retain, RawTypeDogma, attribute, attr_jump_drive_range,
  attr_jump_drive_range_bonus, jdc_skill_type_id, bonus_of, hull_of, read_dogma, parse_hull_catalog,
}

mem-append : {A : Type 0} (x : A) (xs ys : List A) → Memᴰ x (xs ++ ys) ↔ (Memᴰ x xs ⊎ Memᴰ x ys)
mem-append x [] ys = (λ m. inr m, elim [ inl m ↦ absurd (Memᴰ.not-nil m) | inr m ↦ m ])
mem-append x (y ∷ xs) ys = (
  λ m. elim (Memᴰ.cases_cons m) [
    | inl same ↦ inl (Memᴰ.head same)
    | inr later ↦ elim ((mem-append x xs ys).0 later) [
      | inl m' ↦ inl (Memᴰ.tail m')
      | inr m' ↦ inr m'
    ]
  ],
  elim [
    | inr m ↦ Memᴰ.tail ((mem-append x xs ys).1 (inr m))
    | inl m ↦ elim (Memᴰ.cases_cons m) [
      | inl same ↦ Memᴰ.head same
      | inr later ↦ Memᴰ.tail ((mem-append x xs ys).1 (inl later))
    ]
  ],
)

-- The last published type of an id.
abbrev pub published_type : List RawType → ℤ → Option RawType
published_type types id = find_last (λ t. t.id == id) (filter (λ t. t.published) types)

retain-fill :
    (from_str : Text → Option RawType) (m : HashMap ℤ (Text × ℤ)) (types : List RawType)
    → fold_rows from_str retain m types
      ≡ fill (λ t. t.id) (λ t. (t.name, t.group_id)) m (filter (λ t. t.published) types)
unfolding retain
retain-fill from_str m [] = refl
retain-fill from_str m (t ∷ ts) = elim (Bool-cases t.published) [
  | inl on ↦ rw on (retain-fill from_str (HashMap.insert t.id (t.name, t.group_id) m) ts)
  | inr off ↦ rw off (retain-fill from_str m ts)
]

module _ (from_str : Text → Option RawType) (types : List RawType) (id : ℤ) where
  abbrev pub retained : HashMap ℤ (Text × ℤ)
  retained = fold_rows from_str retain [] types

  retained_latest :
      HashMap.get id retained
      ≡ latest (λ t. t.id) (λ t. (t.name, t.group_id)) id (filter (λ t. t.published) types) none
  unfolding HashMap.get
  retained_latest =
      ap (HashMap.get id) (retain-fill from_str [] types)
      ∙ get-fill (λ t. t.id) (λ t. (t.name, t.group_id)) id [] (filter (λ t. t.published) types)

  retained_iff :
      (kept : Text × ℤ)
      → (HashMap.get id retained ≡ some kept)
        ↔ ((t : RawType) × (published_type types id ≡ some t) × (kept ≡ (t.name, t.group_id)))
  retained_iff kept = elim (Option-cases (published_type types id)) [
    | inl never ↦
        let out =
          retained_latest ∙ latest-none _ _ id (filter (λ t. t.published) types) none never in
        (λ h. cc, λ (t, at, _). cc)
    | inr (t, at) ↦
        let is = retained_latest ∙ latest-some _ _ id (filter (λ t. t.published) types) none t at in
        (
          λ h. (t, at, some-injective _ _ (sym h ∙ is)),
          λ (u, at', same).
              is
              ∙ ap some (
                  subst (λ x. (x.name, x.group_id) ≡ kept) (some-injective u t (sym at' ∙ at))
                    (sym same)),
        )
  ]

abbrev pub first_of : {A : Type 0} → Option A → Option A → Option A
first_of none other = other
first_of (some a) other = some a

first_of-none : {A : Type 0} (a : Option A) → first_of a none ≡ a
first_of-none none = refl
first_of-none (some a) = refl

first_of_assoc :
    {A : Type 0} (a b c : Option A) → first_of a (first_of b c) ≡ first_of (first_of a b) c
first_of_assoc none b c = refl
first_of_assoc (some a) b c = refl

module _ (X : External) where
  -- What the skill's row says of the bonus.
  abbrev pub own_bonus : RawTypeDogma X → Option X.F64
  own_bonus d =
      if d.id == jdc_skill_type_id
      then elim (attribute X attr_jump_drive_range_bonus d) [
        | none ↦ none
        | some v ↦ some (X.div v (X.of_nat 100))
      ]
      else none

  -- The bonus of the last row that has one.
  abbrev pub last_bonus : List (RawTypeDogma X) → Option X.F64
  last_bonus [] = none
  last_bonus (d ∷ ds) = first_of (last_bonus ds) (own_bonus d)

  -- The hulls are those of the rows with a range whose type is published, with the name and the
  -- group of the last such type; the bonus is that of the last row of the skill that has it.
  pub record IsJoin (types : List RawType) (dogmas : List (RawTypeDogma X)) (c : RawHullCatalog X)
      : Type 0 where
    pub hulls :
        (h : RawHull X)
        → Memᴰ h c.hulls ↔ (
            (d : RawTypeDogma X) × Memᴰ d dogmas
            × ((t : RawType) × (ly : X.F64) × (published_type types d.id ≡ some t)
                × (attribute X attr_jump_drive_range d ≡ some ly)
                × (h ≡ record {
                  type_id = d.id;
                  name = t.name;
                  group_id = t.group_id;
                  base_ly = ly;
                })))
    pub bonus : c.jdc_bonus_per_level ≡ last_bonus dogmas

  abbrev row_of : RawTypeDogma X → Text × ℤ → X.F64 → RawHull X
  row_of d kept ly = record { type_id = d.id; name = kept.0; group_id = kept.1; base_ly = ly }

  hull_of-mem :
      (published : HashMap ℤ (Text × ℤ)) (d : RawTypeDogma X) (h : RawHull X)
      → Memᴰ h (hull_of X published d) ↔ (
          (kept : Text × ℤ) × (ly : X.F64) × (HashMap.get d.id published ≡ some kept)
          × (attribute X attr_jump_drive_range d ≡ some ly)
          × (h ≡ record { type_id = d.id; name = kept.0; group_id = kept.1; base_ly = ly }))
  unfolding hull_of
  hull_of-mem published d h = elim (Option-cases (HashMap.get d.id published)) [
    | inl out ↦ rw (hull_of, out) (λ m. absurd (Memᴰ.not-nil m), λ (kept, ly, at, _, _). cc)
    | inr (kept, at) ↦ elim (Option-cases (attribute X attr_jump_drive_range d)) [
      | inl out ↦ rw (hull_of, at, out) (λ m. absurd (Memᴰ.not-nil m), λ (kept', ly, _, has, _). cc)
      | inr (ly, has) ↦
          rw (hull_of, at, has)
            (
              λ m. (kept, ly, refl, refl, Memᴰ.eq_of_singleton m),
              λ (kept', ly', at', has', same). Memᴰ.head (
                  same
                  ∙ ap (λ k. row_of d k ly') (some-injective kept' kept (sym at'))
                  ∙ ap (row_of d kept) (some-injective ly' ly (sym has'))),
            )
    ]
  ]

  fold-hulls :
      (from_str : Text → Option (RawTypeDogma X)) (published : HashMap ℤ (Text × ℤ))
      (c : RawHullCatalog X) (dogmas : List (RawTypeDogma X)) (h : RawHull X)
      → Memᴰ h (fold_rows from_str (read_dogma X published) c dogmas).hulls
        ↔ (Memᴰ h c.hulls ⊎ ((d : RawTypeDogma X) × Memᴰ d dogmas × Memᴰ h (hull_of X published d)))
  unfolding read_dogma
  fold-hulls from_str published c [] h =
      (λ m. inl m, elim [ inl m ↦ m | inr (d, m, _) ↦ absurd (Memᴰ.not-nil m) ])
  fold-hulls from_str published c (d ∷ ds) h =
      let next = fold-hulls from_str published (read_dogma X published c d) ds h in
      let added = mem-append h c.hulls (hull_of X published d) in
      (
        λ m. elim (next.0 m) [
          | inl before ↦ elim (added.0 before) [
            | inl old ↦ inl old
            | inr own ↦ inr (d, Memᴰ.head refl, own)
          ]
          | inr (e, later, own) ↦ inr (e, Memᴰ.tail later, own)
        ],
        elim [
          | inl old ↦ next.1 (inl (added.1 (inl old)))
          | inr (e, m, own) ↦ elim (Memᴰ.cases_cons m) [
            | inl same ↦
                next.1 (inl (added.1 (inr (subst (λ x. Memᴰ h (hull_of X published x)) same own))))
            | inr later ↦ next.1 (inr (e, later, own))
          ]
        ],
      )

  bonus_of_lem :
      (d : RawTypeDogma X) (before : Option X.F64)
      → bonus_of X d before ≡ first_of (own_bonus d) before
  unfolding bonus_of
  bonus_of_lem d before = elim (Bool-cases (d.id == jdc_skill_type_id)) [
    | inr other ↦ rw other refl
    | inl skill ↦ elim (Option-cases (attribute X attr_jump_drive_range_bonus d)) [
      | inl out ↦ rw (skill, out) refl
      | inr (v, has) ↦ rw (skill, has) refl
    ]
  ]

  fold-bonus :
      (from_str : Text → Option (RawTypeDogma X)) (published : HashMap ℤ (Text × ℤ))
      (c : RawHullCatalog X) (dogmas : List (RawTypeDogma X))
      → (fold_rows from_str (read_dogma X published) c dogmas).jdc_bonus_per_level
        ≡ first_of (last_bonus dogmas) c.jdc_bonus_per_level
  unfolding read_dogma
  fold-bonus from_str published c [] = refl
  fold-bonus from_str published c (d ∷ ds) =
      fold-bonus from_str published (read_dogma X published c d) ds
      ∙ ap (first_of (last_bonus ds)) (bonus_of_lem d c.jdc_bonus_per_level)
      ∙ first_of_assoc (last_bonus ds) (own_bonus d) c.jdc_bonus_per_level

  parse_is :
      (type_from_str : Text → Option RawType) (dogma_from_str : Text → Option (RawTypeDogma X))
      (types_lines dogma_lines : List (Option Text)) (published : HashMap ℤ (Text × ℤ))
      → read_lines type_from_str retain 0 [] types_lines ≡ parsed published
      → parse_hull_catalog X type_from_str dogma_from_str types_lines dogma_lines
        ≡ read_lines dogma_from_str
            (read_dogma X published)
            0
            (record { hulls = []; jdc_bonus_per_level = none })
            dogma_lines
  unfolding parse_hull_catalog
  parse_is type_from_str dogma_from_str types_lines dogma_lines published e =
      rw (parse_hull_catalog, e) refl

  -- Where every line of the two files is blank or read as a row, the parser returns the join of the
  -- rows.
  pub parse_hull_catalog-IsJoin :
      (type_from_str : Text → Option RawType) (dogma_from_str : Text → Option (RawTypeDogma X))
      (types_lines dogma_lines : List (Option Text)) (types : List RawType)
      (dogmas : List (RawTypeDogma X))
      → Rows type_from_str types_lines types
      → Rows dogma_from_str dogma_lines dogmas
      → (c : RawHullCatalog X) × (parse_hull_catalog X type_from_str dogma_from_str types_lines
            dogma_lines
          ≡ parsed c)
        × IsJoin types dogmas c
  parse_hull_catalog-IsJoin type_from_str dogma_from_str types_lines dogma_lines types dogmas ts
        ds =
      let published = fold_rows type_from_str retain [] types in
      let before : RawHullCatalog X = record { hulls = []; jdc_bonus_per_level = none } in
      (
        fold_rows dogma_from_str (read_dogma X published) before dogmas,
        parse_is type_from_str dogma_from_str types_lines dogma_lines published
              (read_lines-Rows type_from_str retain 0 [] types_lines types ts)
            ∙ read_lines-Rows dogma_from_str (read_dogma X published) 0 before dogma_lines dogmas
                ds,
        record {
          hulls = λ h.
              let all = fold-hulls dogma_from_str published before dogmas h in
              (
                λ m. elim (all.0 m) [
                  | inl none_yet ↦ absurd (Memᴰ.not-nil none_yet)
                  | inr (d, m', own) ↦
                      let (kept, ly, at, has, same) = (hull_of-mem published d h).0 own in
                      let (t, at', is) = (retained_iff type_from_str types d.id kept).0 at in
                      (d, m', (t, ly, at', has, same ∙ ap (λ k. row_of d k ly) is))
                ],
                λ (d, m, (t, ly, at, has, same)). all.1 (
                    inr (
                      d,
                      m,
                      (hull_of-mem published d h).1 (
                        (t.name, t.group_id),
                        ly,
                        (retained_iff type_from_str types d.id (t.name, t.group_id)).1
                            (t, at, refl),
                        has,
                        same,
                      ),
                    )),
              );
          bonus =
              fold-bonus dogma_from_str published before dogmas ∙ first_of-none (last_bonus dogmas);
        },
      )
