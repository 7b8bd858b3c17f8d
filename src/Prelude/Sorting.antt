-- ===== src/Prelude/Sorting.antt =====
-- `sort_by`: a stable sort, by a comparison.
pub mod Heads
pub mod Ascending
use Prim.Native.Nat.{ℕ, Ordering}
use mathlib.Core.Option.{Option, none, some}
use mathlib.Core.List.{List, [], ◌∷◌}
use mathlib.Core.Option
use erbridge_palu.Prelude.Tests.{ltb, nat_beq, if◌then◌else◌}

-- `a.cmp(&b)` on numbers.
unfoldable pub nat_cmp : ℕ → ℕ → Ordering
nat_cmp a b = if ltb a b then Ordering.lt else (if nat_beq a b then Ordering.eq else Ordering.gt)

-- `first.then_with(|| second)`
unfoldable pub then_with : Ordering → Ordering → Ordering
then_with Ordering.eq second = second
then_with first second = first

-- `partial_cmp(..).unwrap_or(Ordering::Equal)`
unfoldable pub or_equal : Option Ordering → Ordering
or_equal o = Option.get_or o Ordering.eq

module _ {ℓ} {A : Type ℓ} (cmp : A → A → Ordering) where
  -- Before the first element that is not less.
  unfoldable pub place : A → List A → List A
  place x [] = x ∷ []
  place x (y ∷ ys) =
      let later = y ∷ place x ys in elim (cmp x y) [ Ordering.gt ↦ later | _ ↦ x ∷ y ∷ ys ]

  unfoldable pub sort_by : List A → List A
  unfolding place
  sort_by [] = []
  sort_by (x ∷ xs) = place x (sort_by xs)
