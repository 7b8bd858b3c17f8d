-- ===== src/Graph/Indexes.antt =====
-- The lookups of `build_graph_data`: each key leads to the last system that has it.
use erbridge_palu.Prelude.{
  ℕ, zero, suc, ◌≤◌, ◌≡◌, ◌≢◌, refl, sym, ◌∙◌, ap, subst, ◌⊎◌, inl, inr, none, some, List, [], ◌∷◌,
  ◌++◌, length, get_elem?, lt-length_of_get_elem?, PartialEq, ◌==◌, Bool-cases, eq_of_beq, beq_self,
  arith,
}
use mathlib.Core.Option.{some-injective}
use erbridge_palu.Prelude.HashMap
use erbridge_palu.Prelude.HashMap.{HashMap}

module _ {ℓ} {S : Type ℓ} where
  pub snoc_last : (xs : List S) (x : S) → get_elem? (xs ++ x ∷ []) (length xs) ≡ some x
  snoc_last [] x = refl
  snoc_last (y ∷ ys) x = snoc_last ys x

  pub snoc_old :
      (xs : List S) (x t : S) (j : ℕ)
      → get_elem? xs j ≡ some t
      → get_elem? (xs ++ x ∷ []) j ≡ some t
  snoc_old [] x t j e = cc
  snoc_old (y ∷ ys) x t zero e = e
  snoc_old (y ∷ ys) x t (suc j) e = snoc_old ys x t j e

  pub snoc_cases :
      (xs : List S) (x t : S) (j : ℕ)
      → get_elem? (xs ++ x ∷ []) j ≡ some t
      → (get_elem? xs j ≡ some t) ⊎ (j ≡ length xs) × (x ≡ t)
  snoc_cases [] x t zero e = inr (refl, some-injective x t e)
  snoc_cases [] x t (suc j) e = cc
  snoc_cases (y ∷ ys) x t zero e = inl e
  snoc_cases (y ∷ ys) x t (suc j) e = elim (snoc_cases ys x t j e) [
    | inl old ↦ inl old
    | inr (last, same) ↦ inr (ap suc last, same)
  ]

module _ {ℓ κ} {S : Type ℓ} {K : Type κ} ⦃e : PartialEq K⦄ (key : S → K) where
  pub record Indexes (m : HashMap K ℕ) (ss : List S) : Type (ℓ ⊔ κ) where
    pub found :
        (k : K) (i : ℕ)
        → HashMap.get k m ≡ some i
        → (s : S) × (get_elem? ss i ≡ some s)
          × (key s ≡ k)
          × ((j : ℕ) (t : S) → get_elem? ss j ≡ some t → key t ≡ k → j ≤ i)
    pub missing :
        (k : K) → HashMap.get k m ≡ none → (j : ℕ) (t : S) → get_elem? ss j ≡ some t → key t ≢ k

  pub Indexes-nil : Indexes [] []
  unfolding HashMap.get
  Indexes-nil = record { found = λ k i h. cc; missing = λ k h j t at same. cc }

  pub insert-Indexes :
      (m : HashMap K ℕ) (ss : List S) (s : S)
      → Indexes m ss
      → Indexes (HashMap.insert (key s) (length ss) m) (ss ++ s ∷ [])
  insert-Indexes m ss s ok = record {
    found = λ k i h. elim (Bool-cases (key s == k)) [
      | inl here ↦
          let same = eq_of_beq (key s) k here in
          let last : length ss ≡ i = some-injective _ _ (
            sym (HashMap.get-insert_self (key s) (length ss) m)
            ∙ subst (λ x. HashMap.get x (HashMap.insert (key s) (length ss) m) ≡ some i) (sym same)
                h) in
          (
            s,
            subst (λ x. get_elem? (ss ++ s ∷ []) x ≡ some s) last (snoc_last ss s),
            same,
            λ j t at _. elim (snoc_cases ss s t j at) [
              | inl old ↦ omega (arith, lt-length_of_get_elem? ss j t old, last)
              | inr (end, _) ↦ omega arith
            ],
          )
      | inr other ↦
          let apart : key s ≢ k = λ same. cc (beq_self (key s)) in
          let (t, at, same, best) =
            ok.found k i (sym (HashMap.get-insert_ne (key s) k (length ss) m apart) ∙ h) in
          (
            t,
            snoc_old ss s t i at,
            same,
            λ j u at' same'. elim (snoc_cases ss s u j at') [
              | inl old ↦ best j u old same'
              | inr (_, is) ↦ absurd (apart (ap key is ∙ same'))
            ],
          )
    ];
    missing = λ k h j t at same. elim (Bool-cases (key s == k)) [
      | inl here ↦ cc (eq_of_beq (key s) k here, HashMap.get-insert_self (key s) (length ss) m)
      | inr other ↦
          let apart : key s ≢ k = λ is. cc (beq_self (key s)) in
          elim (snoc_cases ss s t j at) [
            | inl old ↦
                ok.missing k (sym (HashMap.get-insert_ne (key s) k (length ss) m apart) ∙ h) j t old
                  same
            | inr (_, is) ↦ apart (ap key is ∙ same)
          ]
    ];
  }
