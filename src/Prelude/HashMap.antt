-- ===== src/Prelude/HashMap.antt =====
-- `HashMap`: the entry of a key is replaced by a later one.
use mathlib.Core.Path.{◌≡◌, refl, sym, ◌∙◌}
use mathlib.Core.Bool.{Bool, not}
use mathlib.Core.Logic.{◌≢◌, inl, inr}
use mathlib.Core.List.{List, [], ◌∷◌}
use mathlib.Core.Option.{Option, none, some}
use erbridge_palu.Prelude.Tests.{if◌then◌else◌, Bool-cases}
use erbridge_palu.Prelude.Keys.{PartialEq, ◌==◌, beq_self, beq_ne, eq_of_beq}

abbrev pub HashMap {ℓ κ} : Type ℓ → Type κ → Type (ℓ ⊔ κ)
HashMap K V = List (K × V)

module _ {ℓ κ} {K : Type ℓ} {V : Type κ} ⦃e : PartialEq K⦄ where
  unfoldable pub get : K → HashMap K V → Option V
  get k [] = none
  get k ((j, v) ∷ m) = if j == k then some v else get k m

  unfoldable pub insert : K → V → HashMap K V → HashMap K V
  insert k v [] = (k, v) ∷ []
  insert k v ((j, w) ∷ m) = if j == k then (k, v) ∷ m else (j, w) ∷ insert k v m

  pub get-insert_self : (k : K) (v : V) (m : HashMap K V) → get k (insert k v m) ≡ some v
  unfolding get insert
  get-insert_self k v [] = rw (beq_self k) refl
  get-insert_self k v ((j, w) ∷ m) = elim (Bool-cases (j == k)) [
    | inl same ↦ rw same (rw (beq_self k) refl)
    | inr other ↦ rw other (rw other (get-insert_self k v m))
  ]

  pub get-insert_ne : (k j : K) (v : V) (m : HashMap K V) → k ≢ j → get j (insert k v m) ≡ get j m
  unfolding get insert
  get-insert_ne k j v [] ne = rw (beq_ne k j ne) refl
  get-insert_ne k j v ((i, w) ∷ m) ne = elim (Bool-cases (i == k)) [
    | inl same ↦ rw same (rw (beq_ne k j ne, eq_of_beq i k same, beq_ne k j ne) refl)
    | inr other ↦ rw other (elim (Bool-cases (i == j)) [
      | inl here ↦ rw here refl
      | inr there ↦ rw there (get-insert_ne k j v m ne)
    ])
  ]

  unfoldable pub retain : (K → Bool) → HashMap K V → HashMap K V
  retain keep [] = []
  retain keep ((j, v) ∷ m) = if keep j then (j, v) ∷ retain keep m else retain keep m

  unfoldable pub remove : K → HashMap K V → HashMap K V
  unfolding retain
  remove k m = retain (λ j. not (j == k)) m

  pub get-retain :
      (keep : K → Bool) (k : K) (m : HashMap K V)
      → get k (retain keep m) ≡ (if keep k then get k m else none)
  unfolding get retain
  get-retain keep k [] = elim (Bool-cases (keep k)) [ inl e ↦ rw e refl | inr e ↦ rw e refl ]
  get-retain keep k ((j, v) ∷ m) = elim (Bool-cases (j == k)) [
    | inl same ↦
        let at = eq_of_beq j k same in
        elim (Bool-cases (keep k)) [
          | inl on ↦ rw (at, on, beq_self k) refl
          | inr off ↦ rw (at, off) (get-retain keep k m ∙ rw off refl)
        ]
    | inr other ↦ elim (Bool-cases (keep j)) [
      | inl on ↦ rw (on, other) (get-retain keep k m)
      | inr off ↦ rw (off, other) (get-retain keep k m)
    ]
  ]

  pub get-remove_ne : (k j : K) (m : HashMap K V) → k ≢ j → get j (remove k m) ≡ get j m
  unfolding remove
  get-remove_ne k j m ne =
      get-retain (λ i. not (i == k)) j m ∙ rw (beq_ne j k (λ e. ne (sym e))) refl
