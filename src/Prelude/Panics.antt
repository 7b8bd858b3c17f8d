-- ===== src/Prelude/Panics.antt =====
-- The outcome of code that may panic, and that of code which returns `Result`. A loop that is
-- given rounds to go says `out_of_fuel` where they are used up.
use Prim.Native.Nat.{ℕ}
use mathlib.Core.Option.{Option, none, some}
use mathlib.Core.List.{List}
use erbridge_palu.Prelude.Lists.{get_elem?, set}

pub data Outcome {ℓ} (A : Type ℓ) : Type ℓ where
  done : A → Outcome A
  panicked : Outcome A
  out_of_fuel : Outcome A

infixl 5 ◌>>=◌
abbrev pub ◌>>=◌ {ℓ κ} : {A : Type ℓ} {B : Type κ} → Outcome A → (A → Outcome B) → Outcome B
done a >>= f = f a
panicked >>= f = panicked
out_of_fuel >>= f = out_of_fuel

abbrev pub or_panic {ℓ} : {A : Type ℓ} → Option A → Outcome A
or_panic none = panicked
or_panic (some a) = done a

-- `xs[i]`, which panics out of range.
abbrev pub index {ℓ} : {A : Type ℓ} → List A → ℕ → Outcome A
index xs i = or_panic (get_elem? xs i)

-- `xs[i] = v`, which panics out of range.
abbrev pub store {ℓ} : {A : Type ℓ} → List A → ℕ → A → Outcome (List A)
store xs i v = elim (get_elem? xs i) [ none ↦ panicked | some _ ↦ done (set xs i v) ]
