-- ===== src/Dijkstra/Heap.antt =====
-- `BinaryHeap::pop` of the search: it takes a least item, and leaves the others.
use erbridge_palu.Prelude.{
  suc, ◌≤◌, ◌≡◌, refl, ap, ◌⊎◌, inl, inr, true, false, some, List, [], ◌∷◌, Memᴰ, arith, length,
  Bool-cases, subst,
}
use mathlib.Core.List.Memᴰ
use erbridge_palu.Dijkstra.{HeapItem, less, pop}

pub record Pops (xs : List HeapItem) (top : HeapItem) (rest : List HeapItem) : Type 0 where
  pub taken : Memᴰ top xs
  pub kept : (item : HeapItem) → Memᴰ item xs → (item ≡ top) ⊎ Memᴰ item rest
  pub old : (item : HeapItem) → Memᴰ item rest → Memᴰ item xs
  pub least : (item : HeapItem) → Memᴰ item xs → top.dist ≤ item.dist
  pub shorter : suc (length rest) ≡ length xs

less-le : (x top : HeapItem) → less x top ≡ true → top.dist ≤ x.dist
unfolding less
less-le x top h = ground arith

not_less-le : (x top : HeapItem) → less x top ≡ false → x.dist ≤ top.dist
unfolding less
not_less-le x top h = ground arith

Pops-later :
    (x top : HeapItem) (xs rest : List HeapItem)
    → Pops xs top rest
    → less x top ≡ true
    → Pops (x ∷ xs) top (x ∷ rest)
Pops-later x top xs rest p h = record {
  taken = Memᴰ.tail p.taken;
  kept = λ item m. elim (Memᴰ.cases_cons m) [
    | inl e ↦ inr (Memᴰ.head e)
    | inr later ↦ elim (p.kept item later) [ inl e ↦ inl e | inr r ↦ inr (Memᴰ.tail r) ]
  ];
  old = λ item m. elim (Memᴰ.cases_cons m) [
    | inl e ↦ Memᴰ.head e
    | inr later ↦ Memᴰ.tail (p.old item later)
  ];
  least = λ item m. elim (Memᴰ.cases_cons m) [
    | inl e ↦ rw e (less-le x top h)
    | inr later ↦ p.least item later
  ];
  shorter = ap suc p.shorter;
}

Pops-first :
    (x : HeapItem) (xs : List HeapItem)
    → ((item : HeapItem) → Memᴰ item xs → x.dist ≤ item.dist)
    → Pops (x ∷ xs) x xs
Pops-first x xs h = record {
  taken = Memᴰ.head refl;
  kept = λ item m. Memᴰ.cases_cons m;
  old = λ item m. Memᴰ.tail m;
  least =
      λ item m. elim (Memᴰ.cases_cons m) [ inl e ↦ rw e (omega arith) | inr later ↦ h item later ];
  shorter = refl;
}

pub pop-cases :
    (xs : List HeapItem)
    → (xs ≡ [])
      ⊎ ((top : HeapItem) × (rest : List HeapItem) × (pop xs ≡ some (top, rest)) × Pops xs top rest)
unfolding pop
pop-cases [] = inl refl
pop-cases (x ∷ xs) = elim (pop-cases xs) [
  | inl e ↦
      inr
        (x, xs, rw e refl, Pops-first x xs λ item m. absurd (Memᴰ.not-nil (subst (Memᴰ item) e m)))
  | inr (top, rest, e, p) ↦ elim (Bool-cases (less x top)) [
    | inl h ↦ inr (top, x ∷ rest, rw (e, h) refl, Pops-later x top xs rest p h)
    | inr h ↦ inr (
      x,
      xs,
      rw (e, h) refl,
      Pops-first x xs λ item m. omega (arith, not_less-le x top h, p.least item m),
    )
  ]
]
