-- ===== src/Error/Traversal.antt =====
-- A pass over a list with a function that never panics on its elements.
use erbridge_palu.Prelude.{
  ◌≡◌, refl, sym, ◌∙◌, ap, inl, inr, List, [], ◌∷◌, Memᴰ, length, suc, Outcome, done,
}
use mathlib.Core.List.Memᴰ
use erbridge_palu.Error.{traverse}

-- A pass that never panics: its results, each from an element.
module _ {ℓ κ} {A : Type ℓ} {B : Type κ} (f : A → Outcome B) where
  traverse_next :
      (x : A) (xs : List A) (y : B) (ys : List B)
      → f x ≡ done y
      → traverse f xs ≡ done ys
      → traverse f (x ∷ xs) ≡ done (y ∷ ys)
  traverse_next x xs y ys e e' = rw (traverse, e, e') refl

  unfoldable pub Images : List A → List B → Type (ℓ ⊔ κ)
  Images xs ys =
      ((y : B) → Memᴰ y ys → (x : A) × Memᴰ x xs × (f x ≡ done y))
      × ((x : A) → Memᴰ x xs → (y : B) × Memᴰ y ys × (f x ≡ done y))
      × (length ys ≡ length xs)

  pub traverse-Images :
      (xs : List A)
      → ((x : A) → Memᴰ x xs → (y : B) × (f x ≡ done y))
      → (ys : List B) × (traverse f xs ≡ done ys) × Images xs ys
  unfolding Images
  traverse-Images [] each =
      ([], refl, (λ y m. absurd (Memᴰ.not-nil m), λ x m. absurd (Memᴰ.not-nil m), refl))
  traverse-Images (x ∷ xs) each =
      let (y, e) = each x (Memᴰ.head refl) in
      let (ys, e', (from, to, count)) = traverse-Images xs (λ z m. each z (Memᴰ.tail m)) in
      (
        y ∷ ys,
        traverse_next x xs y ys e e',
        (
          λ z m. elim (Memᴰ.cases_cons m) [
            | inl same ↦ (x, Memᴰ.head refl, e ∙ ap done (sym same))
            | inr later ↦ let (w, m', h) = from z later in (w, Memᴰ.tail m', h)
          ],
          λ z m. elim (Memᴰ.cases_cons m) [
            | inl same ↦ (y, Memᴰ.head refl, ap f same ∙ e)
            | inr later ↦ let (w, m', h) = to z later in (w, Memᴰ.tail m', h)
          ],
          ap suc count,
        ),
      )
