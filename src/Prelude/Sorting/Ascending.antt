-- ===== src/Prelude/Sorting/Ascending.antt =====
-- A sorted list ascends, where the comparison does not put each of two elements after the other.
use Prim.Native.Nat.{Ordering}
use mathlib.Core.Path.{◌≡◌, ap, sym, subst}
use mathlib.Core.Logic.{◌≢◌, inl, inr}
use mathlib.Core.Option.{Option, none, some}
use mathlib.Core.List.{List, [], ◌∷◌}
use erbridge_palu.Prelude.Sorting.{place, sort_by, or_equal}
use erbridge_palu.Prelude.Sorting.Heads.{Ordering-cases, place_later, place_here}

pub or_equal-gt : (o : Option Ordering) → or_equal o ≡ Ordering.gt → o ≡ some Ordering.gt
unfolding or_equal
or_equal-gt none e = cc
or_equal-gt (some o) e = ap some e

-- Each element is related to the next.
abbrev pub Linked {ℓ} : {A : Type ℓ} → (A → A → Type 0) → List A → Type 0
Linked R [] = Unit
Linked R (x ∷ []) = Unit
Linked R (x ∷ y ∷ ys) = R x y × Linked R (y ∷ ys)

pub Linked-mono {ℓ} :
    {A : Type ℓ} {R S : A → A → Type 0}
    → ((x y : A) → R x y → S x y)
    → (xs : List A) → Linked R xs
    → Linked S xs
Linked-mono f [] _ = tt
Linked-mono f (x ∷ []) _ = tt
Linked-mono f (x ∷ y ∷ ys) (h, rest) = (f x y h, Linked-mono f (y ∷ ys) rest)

module _ {ℓ} {A : Type ℓ} (cmp : A → A → Ordering) where
  -- No element is greater than the next.
  abbrev pub Ascending : List A → Type 0
  Ascending = Linked (λ x y. cmp x y ≢ Ordering.gt)

  module _ (asym : (x y : A) → cmp x y ≡ Ordering.gt → cmp y x ≢ Ordering.gt) where
    place-Ascending : (x : A) (ys : List A) → Ascending ys → Ascending (place cmp x ys)
    unfolding place
    place-Ascending x [] ok = tt
    place-Ascending x (y ∷ []) ok = elim (Ordering-cases (cmp x y)) [
      | inr ne ↦ subst Ascending (sym (place_here cmp x y [] ne)) (ne, tt)
      | inl gt ↦ subst Ascending (sym (place_later cmp x y [] gt)) (asym x y gt, tt)
    ]
    place-Ascending x (y ∷ z ∷ zs) (yz, ok) =
        let rest = place-Ascending x (z ∷ zs) ok in
        elim (Ordering-cases (cmp x y)) [
          | inr ne ↦ subst Ascending (sym (place_here cmp x y (z ∷ zs) ne)) (ne, (yz, ok))
          | inl gt ↦
              subst Ascending (sym (place_later cmp x y (z ∷ zs) gt))
                (elim (Ordering-cases (cmp x z)) [
                  | inr ne ↦
                      subst (λ l. Ascending (y ∷ l)) (sym (place_here cmp x z zs ne))
                        (asym x y gt, (ne, ok))
                  | inl later ↦
                      subst (λ l. Ascending (y ∷ l)) (sym (place_later cmp x z zs later))
                        (yz, subst Ascending (place_later cmp x z zs later) rest)
                ])
        ]

    pub sort_by-Ascending : (xs : List A) → Ascending (sort_by cmp xs)
    unfolding sort_by
    sort_by-Ascending [] = tt
    sort_by-Ascending (x ∷ xs) = place-Ascending x (sort_by cmp xs) (sort_by-Ascending xs)
