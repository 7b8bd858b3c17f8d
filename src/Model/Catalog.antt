-- ===== src/Model/Catalog.antt =====
-- What the lookups in the hull catalog (src/model.rs) find: the last raw hull of a name or an id.
use erbridge_palu.Prelude.{
  ◌≡◌, refl, sym, ◌∙◌, ap, subst, inl, inr, Bool, true, false, Option, none, some, List, [], ◌∷◌, ℤ,
  Text, int_eq, text_eq, PartialEq, ◌==◌, Bool-cases, Option-cases, eq_of_beq, beq_self,
  if◌then◌else◌, to_ascii_lowercase,
}
use erbridge_palu.Prelude.HashMap
use erbridge_palu.Prelude.HashMap.{HashMap}
use erbridge_palu.External.{External}
use erbridge_palu.Model.{
  RawHull, RawHullCatalog, HullCatalog, entry_of, add_hull, add_hulls, from_raw, by_name,
  by_type_id,
}

-- The last element that passes.
abbrev pub find_last {ℓ} : {A : Type ℓ} → (A → Bool) → List A → Option A
find_last p [] = none
find_last p (x ∷ xs) = elim (find_last p xs) [
  | some y ↦ some y
  | none ↦ if p x then some x else none
]

module _ {ℓ} {A : Type ℓ} (p : A → Bool) (x : A) (xs : List A) where
  last_later : (y : A) → find_last p xs ≡ some y → find_last p (x ∷ xs) ≡ some y
  last_later y h = rw (find_last, h) refl

  last_here : find_last p xs ≡ none → p x ≡ true → find_last p (x ∷ xs) ≡ some x
  last_here h e = rw (find_last, h, e) refl

  last_none : find_last p xs ≡ none → p x ≡ false → find_last p (x ∷ xs) ≡ none
  last_none h e = rw (find_last, h, e) refl

-- A map filled with the entries of a list, the later ones over the earlier ones.
module _ {ℓ κ μ} {A : Type ℓ} {K : Type κ} {V : Type μ} ⦃e : PartialEq K⦄ (key : A → K)
    (value : A → V) where
  abbrev pub fill : HashMap K V → List A → HashMap K V
  fill m [] = m
  fill m (x ∷ xs) = fill (HashMap.insert (key x) (value x) m) xs

  -- What the map says of `k`, given what it said before.
  abbrev pub latest : K → List A → Option V → Option V
  latest k xs before = elim (find_last (λ x. key x == k) xs) [
    | none ↦ before
    | some x ↦ some (value x)
  ]

  pub latest-some :
      (k : K) (xs : List A) (before : Option V) (x : A)
      → find_last (λ x. key x == k) xs ≡ some x
      → latest k xs before ≡ some (value x)
  latest-some k xs before x h = rw (latest, h) refl

  pub latest-none :
      (k : K) (xs : List A) (before : Option V)
      → find_last (λ x. key x == k) xs ≡ none
      → latest k xs before ≡ before
  latest-none k xs before h = rw (latest, h) refl

  pub get-fill :
      (k : K) (m : HashMap K V) (xs : List A)
      → HashMap.get k (fill m xs) ≡ latest k xs (HashMap.get k m)
  get-fill k m [] = refl
  get-fill k m (x ∷ xs) =
      let step = get-fill k (HashMap.insert (key x) (value x) m) xs in
      elim (Option-cases (find_last (λ y. key y == k) xs)) [
        | inr (y, at) ↦
            step
            ∙ latest-some k xs _ y at
            ∙ sym (
                latest-some k (x ∷ xs) (HashMap.get k m) y (last_later (λ y. key y == k) x xs y at))
        | inl never ↦ step ∙ latest-none k xs _ never ∙ elim (Bool-cases (key x == k)) [
          | inl here ↦
              subst (λ j. HashMap.get k (HashMap.insert j (value x) m) ≡ some (value x))
                (sym (eq_of_beq (key x) k here)) (HashMap.get-insert_self k (value x) m)
              ∙ sym (
                  latest-some k (x ∷ xs) (HashMap.get k m) x
                    (last_here (λ y. key y == k) x xs never here))
          | inr apart ↦
              HashMap.get-insert_ne (key x) k (value x) m (λ same. cc (beq_self (key x)))
              ∙ sym (
                  latest-none k (x ∷ xs) (HashMap.get k m)
                    (last_none (λ y. key y == k) x xs never apart))
        ]
      ]

module _ (X : External) where
  add_hulls-names :
      (c : HullCatalog X) (hs : List (RawHull X))
      → (add_hulls X c hs).names ≡ fill (λ h. to_ascii_lowercase h.name) (entry_of X) c.names hs
  unfolding add_hulls add_hull
  add_hulls-names c [] = refl
  add_hulls-names c (h ∷ hs) = add_hulls-names (add_hull X c h) hs

  add_hulls-type_ids :
      (c : HullCatalog X) (hs : List (RawHull X))
      → (add_hulls X c hs).type_ids ≡ fill (λ h. h.type_id) (entry_of X) c.type_ids hs
  unfolding add_hulls add_hull
  add_hulls-type_ids c [] = refl
  add_hulls-type_ids c (h ∷ hs) = add_hulls-type_ids (add_hull X c h) hs

  -- A lookup by name, whatever its case, or by id finds the last raw hull of that name or id, and
  -- nothing where there is none.
  pub lookups_latest :
      (raw : RawHullCatalog X) (name : Text) (id : ℤ)
      → (by_name X (from_raw X raw) name
          ≡ latest
              (λ h. to_ascii_lowercase h.name)
              (entry_of X)
              (to_ascii_lowercase name)
              raw.hulls
              none)
        × (by_type_id X (from_raw X raw) id
            ≡ latest (λ h. h.type_id) (entry_of X) id raw.hulls none)
  unfolding by_name by_type_id from_raw HashMap.get
  lookups_latest raw name id = (
    ap (HashMap.get (to_ascii_lowercase name)) (add_hulls-names _ raw.hulls)
        ∙ get-fill (λ h. to_ascii_lowercase h.name) (entry_of X) (to_ascii_lowercase name) []
            raw.hulls,
    ap (HashMap.get id) (add_hulls-type_ids _ raw.hulls)
        ∙ get-fill (λ h. h.type_id) (entry_of X) id [] raw.hulls,
  )
