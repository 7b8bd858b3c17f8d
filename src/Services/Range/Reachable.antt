-- ===== src/Services/Range/Reachable.antt =====
-- `compute_reachable` over a built graph: exactly the systems in range.
use erbridge_palu.Prelude.{
  ℕ, true, false, ◌≡◌, ◌≢◌, refl, sym, ◌∙◌, ap, subst, ◌↔◌, inl, inr, Option, some, List, [], ◌∷◌,
  ◌++◌, Memᴰ, map, length, length-map, get_elem?, nat_beq, nat_beq_iff, nat_eq, Bool-cases, Text,
  done,
}
use Prim.Native.Nat.{Ordering}
use erbridge_palu.Prelude.Sorting.{sort_by, or_equal}
use erbridge_palu.Prelude.Sorting.Heads.{sort_by-mem, sort_by-mem_intro}
use erbridge_palu.Prelude.Sorting.Ascending.{or_equal-gt, Linked, Linked-mono, sort_by-Ascending}
use mathlib.Core.List.Memᴰ
use mathlib.Core.Option
use mathlib.Core.Option.{some-injective}
use erbridge_palu.External.{External, IsPetgraph, IsKdTree, IsIeee}
use erbridge_palu.Dto.{RangeHull, RangeResponse}
use erbridge_palu.Model.{System, GraphData, RawSdeData, is_highsec, is_wormhole}
use erbridge_palu.Range.{radius_m2, round2}
use erbridge_palu.Graph.{build_graph_data}
use erbridge_palu.Graph.Spatial.{Within, spatial_index-Within}
use erbridge_palu.Services.Range.{
  Entry, entry_of, entries, nearer, range_system, response_of, build_summary, last,
  compute_reachable,
}
use erbridge_palu.Services.Range.Tally.{of_class, tallied, tally-of_class}

last-append : {A : Type 0} (front : List A) (e : A) → last (front ++ e ∷ []) ≡ some e
unfolding last
last-append [] e = refl
last-append (x ∷ []) e = refl
last-append (x ∷ y ∷ ys) e = last-append (y ∷ ys) e

mem-append_last : {A : Type 0} (front : List A) (e : A) → Memᴰ e (front ++ e ∷ [])
mem-append_last [] e = Memᴰ.head refl
mem-append_last (x ∷ xs) e = Memᴰ.tail (mem-append_last xs e)

module _ (X : External) where
  -- The entry is that of an item other than the source and outside of high security.
  abbrev pub Kept : List (System X) → ℕ → X.F64 × X.F64 × X.F64 → List ℕ → Entry X → Type 0
  Kept ss source src items e =
      (v : ℕ) × Memᴰ v items
      × (v ≢ source)
      × ((s : System X) × (get_elem? ss v ≡ some s)
          × (is_highsec s.sec_class ≡ false)
          × (e ≡ entry_of X src s))

  module _ (graph : GraphData X) (source : ℕ) (src : X.F64 × X.F64 × X.F64) where
    Kept-cons :
        (item : ℕ) (items : List ℕ) (e : Entry X)
        → Kept graph.systems source src items e
        → Kept graph.systems source src (item ∷ items) e
    Kept-cons item items e (v, m, apart, found) = (v, Memᴰ.tail m, apart, found)

    pub entries-Kept :
        (items : List ℕ)
        → ((v : ℕ) → Memᴰ v items → (s : System X) × (get_elem? graph.systems v ≡ some s))
        → (es : List (Entry X)) × (entries X graph source src items ≡ done es)
          × ((e : Entry X) → Memᴰ e es ↔ Kept graph.systems source src items e)
    unfolding entries
    entries-Kept [] known =
        ([], refl, λ e. (λ m. absurd (Memᴰ.not-nil m), λ (v, m, _, _). absurd (Memᴰ.not-nil m)))
    entries-Kept (item ∷ items) known =
        let (es, ran, holds) = entries-Kept items (λ v m. known v (Memᴰ.tail m)) in
        elim (Bool-cases (nat_beq item source)) [
          | inl here ↦ (
            es,
            rw (ran, here) refl,
            λ e. (
              λ m. Kept-cons item items e ((holds e).0 m),
              λ (v, m, apart, found). elim (Memᴰ.cases_cons m) [
                | inl same ↦ absurd (apart (same ∙ (nat_beq_iff item source).0 here))
                | inr later ↦ (holds e).1 (v, later, apart, found)
              ],
            ),
          )
          | inr other ↦
              let (s, at) = known item (Memᴰ.head refl) in
              elim (Bool-cases (is_highsec s.sec_class)) [
                | inl high ↦ (
                  es,
                  rw (ran, other, at, high) refl,
                  λ e. (
                    λ m. Kept-cons item items e ((holds e).0 m),
                    λ (v, m, apart, (t, at', low, is)). elim (Memᴰ.cases_cons m) [
                      | inl same ↦ cc
                      | inr later ↦ (holds e).1 (v, later, apart, (t, at', low, is))
                    ],
                  ),
                )
                | inr low ↦ (
                  entry_of X src s ∷ es,
                  rw (ran, other, at, low) refl,
                  λ e. (
                    λ m. elim (Memᴰ.cases_cons m) [
                      | inl same ↦ (
                        item,
                        Memᴰ.head refl,
                        (λ is. cc ((nat_beq_iff item source).1 is)),
                        (s, at, low, same),
                      )
                      | inr later ↦ Kept-cons item items e ((holds e).0 later)
                    ],
                    λ (v, m, apart, (t, at', low', is)). elim (Memᴰ.cases_cons m) [
                      | inl same ↦ Memᴰ.head (cc)
                      | inr later ↦ Memᴰ.tail ((holds e).1 (v, later, apart, (t, at', low', is)))
                    ],
                  ),
                )
              ]
        ]

  module _ (P : IsPetgraph X) (D : IsKdTree X) (I : IsIeee X) where
    -- The entry is that of a system other than the source, outside of J-space and of high security,
    -- within the range.
    abbrev pub InRange : List (System X) → ℕ → System X → X.F64 → Entry X → Type 0
    InRange ss source src ly e =
        (v : ℕ) × (v ≢ source)
        × ((s : System X) × (get_elem? ss v ≡ some s)
            × (is_wormhole X s ≡ false)
            × (is_highsec s.sec_class ≡ false)
            × (D.is_within (X.squared_euclidean s.coords src.coords) (radius_m2 X ly) ≡ true)
            × (e ≡ entry_of X src.coords s))

    pub record Reaches (ss : List (System X)) (source : ℕ) (src : System X) (hull : RangeHull X)
        (jdc_level : ℕ) (ly : X.F64) (r : RangeResponse X) : Type 0 where
      -- The systems in range with their distances, the nearest first.
      pub ranked : List (Entry X)
      pub members : (e : Entry X) → Memᴰ e ranked ↔ InRange ss source src ly e
      pub nearest_first : Linked (λ a b. X.lt b.1 a.1 ≡ false) ranked
      pub listed : r.reachable ≡ map (λ e. e.0) ranked
      pub counted : r.summary.reachable_count ≡ length r.reachable
      pub by_class : (c : Text) → tallied c r.summary.by_sec_class ≡ of_class X c r.reachable
      pub farthest :
          (front : List (Entry X)) (e : Entry X)
          → ranked ≡ front ++ e ∷ []
          → r.summary.farthest_ly ≡ e.0.jump_ly
      pub echoed :
          (r.source ≡ range_system X src)
          × (r.hull ≡ hull)
          × (r.jdc_level ≡ jdc_level)
          × (r.effective_ly ≡ ly)

    nearer_gt : (a b : Entry X) → nearer X a b ≡ Ordering.gt → X.lt b.1 a.1 ≡ true
    unfolding nearer
    nearer_gt a b e = (I.cmp_gt a.1 b.1).0 (or_equal-gt (X.partial_cmp a.1 b.1) e)

    nearer_asym : (a b : Entry X) → nearer X a b ≡ Ordering.gt → nearer X b a ≢ Ordering.gt
    nearer_asym a b e e' =
        cc (I.lt_trans a.1 b.1 a.1 (nearer_gt b a e') (nearer_gt a b e), I.lt_irrefl a.1)

    nearer_lt : (a b : Entry X) → nearer X a b ≢ Ordering.gt → X.lt b.1 a.1 ≡ false
    unfolding nearer or_equal
    nearer_lt a b ne = elim (Bool-cases (X.lt b.1 a.1)) [
      | inl less ↦ absurd (ne (rw ((I.cmp_gt a.1 b.1).1 less) refl))
      | inr near ↦ near
    ]

    jump_ly_lem :
        (ss : List (System X)) (source : ℕ) (src : System X) (ly : X.F64) (e : Entry X)
        → InRange ss source src ly e
        → round2 X e.1 ≡ e.0.jump_ly
    unfolding entry_of
    jump_ly_lem ss source src ly e (v, _, (s, _, _, _, _, same)) =
        subst (λ x. round2 X x.1 ≡ x.0.jump_ly) (sym same) refl

    response_of-Reaches :
        (g : GraphData X) (ss : List (System X)) (source : ℕ) (src : System X) (hull : RangeHull X)
        (jdc_level : ℕ) (ly : X.F64) (found : List (Entry X))
        → ((e : Entry X) → Memᴰ e found ↔ InRange ss source src ly e)
        → Reaches ss source src hull jdc_level ly (response_of X g src hull jdc_level ly found)
    unfolding response_of build_summary
    response_of-Reaches g ss source src hull jdc_level ly found holds =
        let ranked = sort_by (nearer X) found in
        let members : (e : Entry X) → Memᴰ e ranked ↔ InRange ss source src ly e = λ e. (
          λ m. (holds e).0 (sort_by-mem (nearer X) e found m),
          λ h. sort_by-mem_intro (nearer X) e found ((holds e).1 h),
        ) in
        record {
          ranked = ranked;
          members = members;
          nearest_first =
              Linked-mono nearer_lt ranked (sort_by-Ascending (nearer X) nearer_asym found);
          listed = refl;
          counted = sym (length-map (λ e. e.0) ranked);
          by_class = λ c. tally-of_class X c ranked;
          farthest = λ front e is.
              ap
                (λ (o : Option (Entry X)).
                  Option.get_or (Option.map (λ r. round2 X r.1) o) (X.of_nat 0))
                (ap last is ∙ last-append front e)
              ∙ jump_ly_lem ss source src ly e
                  ((members e).0 (subst (Memᴰ e) (sym is) (mem-append_last front e)));
          echoed = (refl, refl, refl, refl);
        }

    -- For a kd-tree that spans the systems of the graph.
    reachable-Reaches :
        (g : GraphData X) (source : ℕ) (src : System X) (hull : RangeHull X) (jdc_level : ℕ)
        (ly : X.F64)
        → get_elem? g.systems source ≡ some src
        → ((v : ℕ)
            → Memᴰ v (X.within_unsorted g.spatial_index src.coords (radius_m2 X ly))
              ↔ Within X P D g.systems src.coords (radius_m2 X ly) v)
        → (r : RangeResponse X) × (compute_reachable X g source hull jdc_level ly ≡ done r)
          × Reaches g.systems source src hull jdc_level ly r
    unfolding compute_reachable
    reachable-Reaches g source src hull jdc_level ly at spans =
        let hits = X.within_unsorted g.spatial_index src.coords (radius_m2 X ly) in
        let (found, ran, holds) =
          entries-Kept g source src.coords hits
            (λ v m. let (s, at', _, _) = (spans v).0 m in (s, at')) in
        (
          response_of X g src hull jdc_level ly found,
          rw (at, ran) refl,
          response_of-Reaches g g.systems source src hull jdc_level ly found (λ e. (
            λ m.
                let (v, hit, apart, (s, at', low, same)) = (holds e).0 m in
                let (t, at'', space, near) = (spans v).0 hit in
                let is : t ≡ s = some-injective t s (sym at'' ∙ at') in
                (
                  v,
                  apart,
                  (
                    s,
                    at',
                    subst (λ x. is_wormhole X x ≡ false) is space,
                    low,
                    subst
                        (λ x.
                          D.is_within (X.squared_euclidean x.coords src.coords) (radius_m2 X ly)
                          ≡ true)
                        is near,
                    same,
                  ),
                ),
            λ (v, apart, (s, at', space, low, near, same)).
                (holds e).1 (v, (spans v).1 (s, at', space, near), apart, (s, at', low, same)),
          )),
        )

    -- On a built graph, and from any of its systems, `compute_reachable` returns a response that
    -- lists exactly the systems in range, the nearest first, with their number, the number of each
    -- class and the distance of the last one; the source, the hull, the level and the range are
    -- echoed.
    pub compute_reachable-Reaches :
        (raw : RawSdeData X) (build_number source : ℕ) (src : System X) (hull : RangeHull X)
        (jdc_level : ℕ) (ly : X.F64)
        → get_elem? raw.systems source ≡ some src
        → (r : RangeResponse X) × (compute_reachable X
              (build_graph_data X raw build_number)
              source
              hull
              jdc_level
              ly
            ≡ done r)
          × Reaches raw.systems source src hull jdc_level ly r
    unfolding build_graph_data
    compute_reachable-Reaches raw build_number source src hull jdc_level ly at =
        reachable-Reaches (build_graph_data X raw build_number) source src hull jdc_level ly at
          (spatial_index-Within X P D raw build_number src.coords (radius_m2 X ly))
