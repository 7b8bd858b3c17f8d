-- ===== src/External/Sample.antt =====
-- A concrete choice of the parameters, that meets the laws: whole numbers for `f64`, hundredths for
-- `f32`, seconds for times, a graph as the list of its edges, a tree as the list of its points.
use erbridge_palu.Prelude.{
  ℕ, suc, ◌+◌, ◌-◌, ◌*◌, ◌/◌, ◌≡◌, refl, sym, ◌↔◌, ◌⊎◌, inl, inr, Bool, true, not, some, List, [],
  ◌∷◌, map, filter, Memᴰ, length, ltb, leb, nat_beq, nat_beq_iff, nat_eq, Bool-cases, if◌then◌else◌,
  arith,
}
use Prim.Native.Nat.{Ordering}
use mathlib.Core.List.Memᴰ
use erbridge_palu.Prelude.HashSet
use erbridge_palu.Prelude.Sorting.{nat_cmp}
use erbridge_palu.External.{External, IsPetgraph, IsIeee, IsKdTree}

pub record Sketch : Type 0 where
  pub count : ℕ
  pub edges : List (ℕ × ℕ)

abbrev pub ends_at : List (ℕ × ℕ) → ℕ → List ℕ
ends_at [] v = []
ends_at ((a, b) ∷ es) v =
    let rest = ends_at es v in
    if nat_beq a v then b ∷ rest else (if nat_beq b v then a ∷ rest else rest)

abbrev pub distance : ℕ → ℕ → ℕ
distance a b = if leb a b then b - a else a - b

abbrev pub squares : ℕ × ℕ × ℕ → ℕ × ℕ × ℕ → ℕ
squares (ax, ay, az) (bx, by', bz) =
    distance ax bx * distance ax bx
    + distance ay by' * distance ay by'
    + distance az bz * distance az bz

abbrev pub sample : External
sample = record {
  F32 = ℕ;
  at_least_045 = leb 45;
  above_zero = ltb 0;
  F64 = ℕ;
  of_nat = λ n. n;
  ly_in_meters = 1;
  add = λ a b. a + b;
  sub = distance;
  mul = λ a b. a * b;
  div = λ a b. a / b;
  sqrt = λ a. a;
  round = λ a. a;
  lt = ltb;
  partial_cmp = λ a b. some (nat_cmp a b);
  DateTime = ℕ;
  after = λ a b. ltb b a;
  UnGraph = Sketch;
  new_graph = record { count = 0; edges = [] };
  add_node = λ g. (record { count = suc g.count; edges = g.edges }, g.count);
  add_edge = λ g a b. record { count = g.count; edges = (a, b) ∷ g.edges };
  neighbors = λ g v. ends_at g.edges v;
  contains_edge = λ g a b. HashSet.contains b (ends_at g.edges a);
  node_count = λ g. g.count;
  edge_count = λ g. length g.edges;
  KdTree = List ((ℕ × ℕ × ℕ) × ℕ);
  new_tree = [];
  add_point = λ t p i. (p, i) ∷ t;
  within_unsorted = λ t q r. map (λ e. e.1) (filter (λ e. not (ltb r (squares e.0 q))) t);
  squared_euclidean = squares;
}

ends_at-cons :
    (es : List (ℕ × ℕ)) (a b u v : ℕ)
    → Memᴰ v (ends_at ((a, b) ∷ es) u)
      ↔ (Memᴰ v (ends_at es u) ⊎ (u ≡ a) × (v ≡ b) ⊎ (u ≡ b) × (v ≡ a))
ends_at-cons es a b u v = elim (Bool-cases (nat_beq a u)) [
  | inl first ↦ rw first (
    λ m. elim (Memᴰ.cases_cons m) [
      | inl same ↦ inr (inl (sym ((nat_beq_iff a u).0 first), same))
      | inr later ↦ inl later
    ],
    elim [
      | inl old ↦ Memᴰ.tail old
      | inr (inl (_, same)) ↦ Memᴰ.head same
      | inr (inr (e, e')) ↦ Memᴰ.head (omega (arith, (nat_beq_iff a u).0 first))
    ],
  )
  | inr apart ↦ elim (Bool-cases (nat_beq b u)) [
    | inl second ↦
        rw (apart, second)
          (
            λ m. elim (Memᴰ.cases_cons m) [
              | inl same ↦ inr (inr (sym ((nat_beq_iff b u).0 second), same))
              | inr later ↦ inl later
            ],
            elim [
              | inl old ↦ Memᴰ.tail old
              | inr (inl (e, _)) ↦ cc ((nat_beq_iff a u).1 (sym e))
              | inr (inr (_, same)) ↦ Memᴰ.head same
            ],
          )
    | inr neither ↦
        rw (apart, neither)
          (
            λ m. inl m,
            elim [
              | inl old ↦ old
              | inr (inl (e, _)) ↦ cc ((nat_beq_iff a u).1 (sym e))
              | inr (inr (e, _)) ↦ cc ((nat_beq_iff b u).1 (sym e))
            ],
          )
  ]
]

contains_mem : (b : ℕ) (xs : List ℕ) → (HashSet.contains b xs ≡ true) ↔ Memᴰ b xs
unfolding HashSet.contains
contains_mem b [] = (λ h. cc, λ m. absurd (Memᴰ.not-nil m))
contains_mem b (x ∷ xs) = elim (Bool-cases (nat_beq x b)) [
  | inl same ↦ rw same (λ h. Memᴰ.head (sym ((nat_beq_iff x b).0 same)), λ m. refl)
  | inr apart ↦ rw apart (
    λ h. Memᴰ.tail ((contains_mem b xs).0 h),
    λ m. elim (Memᴰ.cases_cons m) [
      | inl same ↦ cc ((nat_beq_iff x b).1 (sym same))
      | inr later ↦ (contains_mem b xs).1 later
    ],
  )
]

pub sample-IsPetgraph : IsPetgraph sample
sample-IsPetgraph = record {
  count_new = refl;
  new_index = λ g. refl;
  count_node = λ g. refl;
  count_edge = λ g a b ha hb. refl;
  neighbors_new = λ v. refl;
  neighbors_node = λ g v. refl;
  neighbors_edge = λ g a b u v ha hb. ends_at-cons g.edges a b u v;
  contains_iff = λ g a b. contains_mem b (ends_at g.edges a);
  edges_new = refl;
  edges_node = λ g. refl;
  edges_edge = λ g a b ha hb. refl;
}

nat_cmp_gt : (a b : ℕ) → (some (nat_cmp a b) ≡ some Ordering.gt) ↔ (ltb b a ≡ true)
unfolding nat_cmp
nat_cmp_gt a b = elim (Bool-cases (ltb a b)) [
  | inl less ↦ rw less (λ e. cc, λ h. ground arith)
  | inr late ↦ elim (Bool-cases (nat_beq a b)) [
    | inl same ↦ rw (late, same) (λ e. cc, λ h. ground arith)
    | inr apart ↦ rw (late, apart) (λ e. ground arith, λ h. refl)
  ]
]

pub sample-IsIeee : IsIeee sample
sample-IsIeee = record {
  lt_irrefl = λ a. ground arith;
  lt_trans = λ a b c h h'. ground arith;
  cmp_gt = nat_cmp_gt;
}

abbrev pub close : ℕ → ℕ → Bool
close d r = not (ltb r d)

abbrev found : List ((ℕ × ℕ × ℕ) × ℕ) → ℕ × ℕ × ℕ → ℕ → List ℕ
found t q r = map (λ e. e.1) (filter (λ e. not (ltb r (squares e.0 q))) t)

found-cons :
    (t : List ((ℕ × ℕ × ℕ) × ℕ)) (p : ℕ × ℕ × ℕ) (i : ℕ) (q : ℕ × ℕ × ℕ) (r v : ℕ)
    → Memᴰ v (found ((p, i) ∷ t) q r)
      ↔ (Memᴰ v (found t q r) ⊎ (v ≡ i) × (close (squares p q) r ≡ true))
found-cons t p i q r v = elim (Bool-cases (close (squares p q) r)) [
  | inl near ↦ rw near (
    λ m. elim (Memᴰ.cases_cons m) [ inl same ↦ inr (same, refl) | inr later ↦ inl later ],
    elim [ inl old ↦ Memᴰ.tail old | inr (same, _) ↦ Memᴰ.head same ],
  )
  | inr far ↦ rw far (λ m. inl m, elim [ inl old ↦ old | inr (_, e) ↦ cc ])
]

pub sample-IsKdTree : IsKdTree sample
sample-IsKdTree = record {
  is_within = close;
  within_new = λ q r v m. Memᴰ.not-nil m;
  within_point = λ t p i q r v. found-cons t p i q r v;
}
