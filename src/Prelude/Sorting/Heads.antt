-- ===== src/Prelude/Sorting/Heads.antt =====
-- A sorted list has the elements of the list, and a head that is least where the comparison refines
-- a measure.
use Prim.Native.Nat.{ℕ, suc, ◌≤◌, Ordering}
use mathlib.Core.Path.{◌≡◌, refl, sym, ◌∙◌, ap, subst}
use mathlib.Core.Logic.{◌≢◌, ◌⊎◌, inl, inr}
use mathlib.Core.List.{List, [], ◌∷◌, Memᴰ}
use mathlib.Core.List.Memᴰ
use native.Mathlib.Omega.{arith}
use erbridge_palu.Prelude.Lists.{length}
use erbridge_palu.Prelude.Sorting.{place, sort_by}

pub Ordering-cases : (o : Ordering) → (o ≡ Ordering.gt) ⊎ (o ≢ Ordering.gt)
Ordering-cases Ordering.lt = inr (λ e. cc)
Ordering-cases Ordering.eq = inr (λ e. cc)
Ordering-cases Ordering.gt = inl refl

module _ {ℓ} {A : Type ℓ} (cmp : A → A → Ordering) where
  pub place_later :
      (x y : A) (ys : List A) → cmp x y ≡ Ordering.gt → place cmp x (y ∷ ys) ≡ y ∷ place cmp x ys
  unfolding place
  place_later x y ys e = rw (place, e) refl

  pub place_here :
      (x y : A) (ys : List A) → cmp x y ≢ Ordering.gt → place cmp x (y ∷ ys) ≡ x ∷ y ∷ ys
  unfolding place
  place_here x y ys ne = pick (cmp x y) refl
    where
      pick : (o : Ordering) → cmp x y ≡ o → place cmp x (y ∷ ys) ≡ x ∷ y ∷ ys
      pick Ordering.lt e = rw (place, e) refl
      pick Ordering.eq e = rw (place, e) refl
      pick Ordering.gt e = absurd (ne e)

  place-mem : (x z : A) (ys : List A) → Memᴰ z (place cmp x ys) → (z ≡ x) ⊎ Memᴰ z ys
  unfolding place
  place-mem x z [] m = inl (Memᴰ.eq_of_singleton m)
  place-mem x z (y ∷ ys) m = elim (Ordering-cases (cmp x y)) [
    | inr ne ↦ Memᴰ.cases_cons (subst (Memᴰ z) (place_here x y ys ne) m)
    | inl e ↦ elim (Memᴰ.cases_cons (subst (Memᴰ z) (place_later x y ys e) m)) [
      | inl same ↦ inr (Memᴰ.head same)
      | inr later ↦ elim (place-mem x z ys later) [
        | inl same ↦ inl same
        | inr old ↦ inr (Memᴰ.tail old)
      ]
    ]
  ]

  place-mem_intro : (x z : A) (ys : List A) → (z ≡ x) ⊎ Memᴰ z ys → Memᴰ z (place cmp x ys)
  unfolding place
  place-mem_intro x z [] (inl same) = Memᴰ.head same
  place-mem_intro x z [] (inr m) = absurd (Memᴰ.not-nil m)
  place-mem_intro x z (y ∷ ys) m = elim (Ordering-cases (cmp x y)) [
    | inr ne ↦
        subst (Memᴰ z) (sym (place_here x y ys ne))
          (elim m [ inl same ↦ Memᴰ.head same | inr old ↦ Memᴰ.tail old ])
    | inl e ↦ subst (Memᴰ z) (sym (place_later x y ys e)) (elim m [
      | inl same ↦ Memᴰ.tail (place-mem_intro x z ys (inl same))
      | inr old ↦ elim (Memᴰ.cases_cons old) [
        | inl same ↦ Memᴰ.head same
        | inr later ↦ Memᴰ.tail (place-mem_intro x z ys (inr later))
      ]
    ])
  ]

  length-place : (x : A) (ys : List A) → length (place cmp x ys) ≡ suc (length ys)
  unfolding place
  length-place x [] = refl
  length-place x (y ∷ ys) = elim (Ordering-cases (cmp x y)) [
    | inr ne ↦ ap length (place_here x y ys ne)
    | inl e ↦ ap length (place_later x y ys e) ∙ ap suc (length-place x ys)
  ]

  pub length-sort_by : (xs : List A) → length (sort_by cmp xs) ≡ length xs
  unfolding sort_by
  length-sort_by [] = refl
  length-sort_by (x ∷ xs) = length-place x (sort_by cmp xs) ∙ ap suc (length-sort_by xs)

  pub sort_by-mem : (z : A) (xs : List A) → Memᴰ z (sort_by cmp xs) → Memᴰ z xs
  unfolding sort_by
  sort_by-mem z [] m = m
  sort_by-mem z (x ∷ xs) m = elim (place-mem x z (sort_by cmp xs) m) [
    | inl same ↦ Memᴰ.head same
    | inr later ↦ Memᴰ.tail (sort_by-mem z xs later)
  ]

  pub sort_by-mem_intro : (z : A) (xs : List A) → Memᴰ z xs → Memᴰ z (sort_by cmp xs)
  unfolding sort_by
  sort_by-mem_intro z [] m = m
  sort_by-mem_intro z (x ∷ xs) m = place-mem_intro x z (sort_by cmp xs) (elim (Memᴰ.cases_cons m) [
    | inl same ↦ inl same
    | inr later ↦ inr (sort_by-mem_intro z xs later)
  ])

  module _ (measure : A → ℕ) (above : (x y : A) → cmp x y ≡ Ordering.gt → measure y ≤ measure x)
      (below : (x y : A) → cmp x y ≢ Ordering.gt → measure x ≤ measure y) where
    -- The head is least.
    abbrev pub LeastHead : List A → Type ℓ
    LeastHead [] = Unit
    LeastHead (y ∷ ys) = (z : A) → Memᴰ z (y ∷ ys) → measure y ≤ measure z

    place-LeastHead : (x : A) (ys : List A) → LeastHead ys → LeastHead (place cmp x ys)
    unfolding place
    place-LeastHead x [] h =
        λ z m. subst (λ w. measure x ≤ measure w) (sym (Memᴰ.eq_of_singleton m)) (omega arith)
    place-LeastHead x (y ∷ ys) h = elim (Ordering-cases (cmp x y)) [
      | inr ne ↦ subst LeastHead (sym (place_here x y ys ne)) (λ z m. elim (Memᴰ.cases_cons m) [
        | inl same ↦ subst (λ w. measure x ≤ measure w) (sym same) (omega arith)
        | inr later ↦ omega (arith, below x y ne, h z later)
      ])
      | inl e ↦ subst LeastHead (sym (place_later x y ys e)) (λ z m. elim (Memᴰ.cases_cons m) [
        | inl same ↦ subst (λ w. measure y ≤ measure w) (sym same) (omega arith)
        | inr later ↦ elim (place-mem x z ys later) [
          | inl same ↦ subst (λ w. measure y ≤ measure w) (sym same) (above x y e)
          | inr old ↦ h z (Memᴰ.tail old)
        ]
      ])
    ]

    pub sort_by-LeastHead : (xs : List A) → LeastHead (sort_by cmp xs)
    unfolding sort_by
    sort_by-LeastHead [] = tt
    sort_by-LeastHead (x ∷ xs) = place-LeastHead x (sort_by cmp xs) (sort_by-LeastHead xs)
