-- ===== src/Prelude/HashSet.antt =====
-- `HashSet`, as a list that holds each element once.
use mathlib.Core.Path.{◌≡◌, refl, ap, subst, ◌∙◌}
use mathlib.Core.Logic.{◌≢◌, inl, inr}
use mathlib.Core.Bool.{Bool, true, false, ◌||◌}
use mathlib.Core.List.{List, [], ◌∷◌, Memᴰ}
use mathlib.Core.List.Memᴰ
use Prim.Native.Nat.{suc}
use erbridge_palu.Prelude.Tests.{if◌then◌else◌, Bool-cases}
use erbridge_palu.Prelude.Lists.{length}
use erbridge_palu.Prelude.Keys.{PartialEq, ◌==◌, beq_self, beq_ne, eq_of_beq}
use native.Mathlib.Omega.{arith}

abbrev pub HashSet {ℓ} : Type ℓ → Type ℓ
HashSet A = List A

module _ {ℓ} {A : Type ℓ} ⦃e : PartialEq A⦄ where
  unfoldable pub contains : A → HashSet A → Bool
  contains a [] = false
  contains a (x ∷ xs) = x == a || contains a xs

  unfoldable pub insert : A → HashSet A → HashSet A
  unfolding contains
  insert a xs = if contains a xs then xs else a ∷ xs

  unfoldable pub remove : A → HashSet A → HashSet A
  remove a [] = []
  remove a (x ∷ xs) = if x == a then remove a xs else x ∷ remove a xs

  -- `collect()`
  unfoldable pub collect : List A → HashSet A
  unfolding insert
  collect [] = []
  collect (x ∷ xs) = insert x (collect xs)

  pub contains-insert_self : (a : A) (xs : HashSet A) → contains a (insert a xs) ≡ true
  unfolding insert
  contains-insert_self a xs = elim (Bool-cases (contains a xs)) [
    | inl old ↦ rw old old
    | inr new ↦ rw new (rw (beq_self a) refl)
  ]

  pub contains-insert_ne :
      (a b : A) (xs : HashSet A) → a ≢ b → contains b (insert a xs) ≡ contains b xs
  unfolding insert
  contains-insert_ne a b xs ne = elim (Bool-cases (contains a xs)) [
    | inl old ↦ rw old refl
    | inr new ↦ rw new (rw (beq_ne a b ne) refl)
  ]

  pub contains-collect : (a : A) (xs : List A) → Memᴰ a xs → contains a (collect xs) ≡ true
  unfolding collect
  contains-collect a [] m = absurd (Memᴰ.not-nil m)
  contains-collect a (x ∷ xs) m = elim (Memᴰ.cases_cons m) [
    | inl same ↦ rw same (contains-insert_self x (collect xs))
    | inr later ↦ elim (Bool-cases (x == a)) [
      | inl same ↦ rw (← eq_of_beq x a same) (contains-insert_self x (collect xs))
      | inr other ↦
          contains-insert_ne x a (collect xs) (λ e. cc (beq_self x)) ∙ contains-collect a xs later
    ]
  ]

  pub contains-remove_self : (a : A) (xs : HashSet A) → contains a (remove a xs) ≡ false
  unfolding contains remove
  contains-remove_self a [] = refl
  contains-remove_self a (x ∷ xs) = elim (Bool-cases (x == a)) [
    | inl same ↦ rw same (contains-remove_self a xs)
    | inr other ↦ rw other (rw other (contains-remove_self a xs))
  ]

  pub contains-remove_ne :
      (a b : A) (xs : HashSet A) → a ≢ b → contains b (remove a xs) ≡ contains b xs
  unfolding contains remove
  contains-remove_ne a b [] ne = refl
  contains-remove_ne a b (x ∷ xs) ne = elim (Bool-cases (x == a)) [
    | inl same ↦ rw (same, contains-remove_ne a b xs ne, eq_of_beq x a same, beq_ne a b ne) refl
    | inr other ↦ rw (other, contains-remove_ne a b xs ne) refl
  ]

  -- Each element stands in the list once.
  abbrev pub Distinct : HashSet A → Type 0
  Distinct [] = Unit
  Distinct (x ∷ xs) = (contains x xs ≡ false) × Distinct xs

  pub insert-Distinct : (a : A) (xs : HashSet A) → Distinct xs → Distinct (insert a xs)
  unfolding insert
  insert-Distinct a xs d = elim (Bool-cases (contains a xs)) [
    | inl old ↦ rw old d
    | inr new ↦ rw new (new, d)
  ]

  pub collect-Distinct : (xs : List A) → Distinct (collect xs)
  unfolding collect
  collect-Distinct [] = tt
  collect-Distinct (x ∷ xs) = insert-Distinct x (collect xs) (collect-Distinct xs)

  remove_absent : (a : A) (xs : HashSet A) → contains a xs ≡ false → remove a xs ≡ xs
  unfolding contains remove
  remove_absent a [] h = refl
  remove_absent a (x ∷ xs) h = elim (Bool-cases (x == a)) [
    | inl same ↦ cc
    | inr other ↦ rw other (ap (λ l. x ∷ l) (remove_absent a xs (rw other at h)))
  ]

  pub length-remove :
      (a : A) (xs : HashSet A)
      → Distinct xs
      → contains a xs ≡ true
      → suc (length (remove a xs)) ≡ length xs
  unfolding contains remove
  length-remove a [] d h = ground arith
  length-remove a (x ∷ xs) d h = elim (Bool-cases (x == a)) [
    | inl same ↦
        let gone : contains a xs ≡ false =
          subst (λ y. contains y xs ≡ false) (eq_of_beq x a same) d.0 in
        rw same (ap (λ l. suc (length l)) (remove_absent a xs gone))
    | inr other ↦ rw other (ap suc (length-remove a xs d.1 (rw other at h)))
  ]

  pub remove-Distinct : (a : A) (xs : HashSet A) → Distinct xs → Distinct (remove a xs)
  unfolding remove
  remove-Distinct a [] d = tt
  remove-Distinct a (x ∷ xs) d = elim (Bool-cases (x == a)) [
    | inl same ↦ rw same (remove-Distinct a xs d.1)
    | inr other ↦
        rw other (contains-remove_ne a x xs (λ e. cc (beq_self x)) ∙ d.0, remove-Distinct a xs d.1)
  ]

  pub contains_of_nil : (a : A) (xs : HashSet A) → length xs ≡ 0 → contains a xs ≡ false
  unfolding contains
  contains_of_nil a [] h = refl
  contains_of_nil a (x ∷ xs) h = absurd (omega arith)
