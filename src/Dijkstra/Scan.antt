-- ===== src/Dijkstra/Scan.antt =====
-- The loop over the neighbours: it does not panic, it keeps the invariant, and afterwards every
-- neighbour is within reach over the node that is expanded.
use erbridge_palu.Prelude.{
  ℕ, suc, ◌+◌, ◌≤◌, ◌<◌, ◌≡◌, refl, sym, ◌∙◌, ap, inl, inr, true, false, Option, none, some, List,
  [], ◌∷◌, Memᴰ, arith, length, get_elem?, get_elem?_lt, Bool-cases, get_elem?-set_self, done,
  subst,
}
use mathlib.Core.List.Memᴰ
use mathlib.Core.Option.{some-injective}
use erbridge_palu.F32.{add_f32, lt_f32}
use erbridge_palu.Dijkstra.{Net, Search, relax, relax_all, improve}
use erbridge_palu.Dijkstra.Routes.{IsNet, Edge}
use erbridge_palu.Dijkstra.Chains.{Chain-Route, Route-grows}
use erbridge_palu.Dijkstra.Invariant.{Inv, Dist, Seen, Within, Seen-cases}
use erbridge_palu.Dijkstra.Relax.{Relaxed, improved, improve_done, improved-Relaxed}

lt_f32_lt : (k : ℕ) (o : Option ℕ) (b : ℕ) → lt_f32 k o ≡ true → o ≡ some b → k < b
lt_f32_lt k o b h e = ground arith

lt_f32_ge : (k : ℕ) (o : Option ℕ) → lt_f32 k o ≡ false → (b : ℕ) × (o ≡ some b) × (b ≤ k)
lt_f32_ge k none h = cc
lt_f32_ge k (some b) h = (b, refl, ground arith)

module _ (net : Net) (from d : ℕ) (ok : IsNet net) (cur : ℕ) where
  Relaxed-refl : (s : Search) → Inv net from d s → Relaxed net from d s s
  Relaxed-refl s inv = record {
    inv = inv;
    same = refl;
    lower = λ v b h. (b, h, omega arith);
    fixed = λ v b _ h. h;
  }

  -- A pass over the neighbour `nb` does not panic; afterwards `nb` is within reach over `cur`.
  Passes : Search → ℕ → ℕ → Type 0
  Passes s nb w =
      (t : Search) × (relax net cur d s nb ≡ done t)
      × Relaxed net from d s t
      × Within t nb (add_f32 d w)
      × (length t.heap ≤ suc (length s.heap))

  relax-Passes :
      (s : Search) (nb w : ℕ)
      → Inv net from d s
      → Seen s cur
      → Dist s cur d
      → Edge net cur nb w
      → Passes s nb w
  unfolding relax Passes improve
  relax-Passes s nb w inv seen dist edge =
      let in_range = ok.in_range cur nb edge.0 in
      let (nodes, chain, _) = inv.chained cur d dist in
      let grows = Route-grows (Chain-Route chain) w in
      elim (Seen-cases s nb (omega (arith, inv.visited_size))) [
        | inl old ↦
            let (b, h, le) = inv.below nb old in
            (s, rw (relax, old) refl, Relaxed-refl s inv, (b, h, omega arith), omega arith)
        | inr unseen ↦
            let (o, at) = get_elem?_lt s.dist nb (omega (arith, inv.dist_size)) in
            let (p, before) = get_elem?_lt s.prev nb (omega (arith, inv.prev_size)) in
            elim (Bool-cases (lt_f32 (add_f32 d w) o)) [
              | inl less ↦ (
                improved s cur nb (add_f32 d w),
                rw (relax, unseen, edge.1, at, less)
                    (improve_done s cur nb (add_f32 d w) o p at before),
                improved-Relaxed net from d s cur nb w (add_f32 d w) inv refl seen dist edge
                    in_range unseen grows
                    (λ b h. lt_f32_lt (add_f32 d w) o b less (some-injective _ _ (sym at ∙ h))),
                (
                  add_f32 d w,
                  get_elem?-set_self s.dist nb (some (add_f32 d w)) (omega (arith, inv.dist_size)),
                  omega arith,
                ),
                omega arith,
              )
              | inr more ↦
                  let (b, e, le) = lt_f32_ge (add_f32 d w) o more in
                  (
                    s,
                    rw (relax, unseen, edge.1, at, more) refl,
                    Relaxed-refl s inv,
                    (b, at ∙ ap some e, le),
                    omega arith,
                  )
            ]
      ]

  -- After the whole loop over `nbs` every one of them is within reach over `cur`.
  pub record Scanned (s t : Search) (nbs : List ℕ) : Type 0 where
    pub after : Relaxed net from d s t
    pub followed : (v w : ℕ) → Memᴰ v nbs → net.weight cur v ≡ some w → Within t v (add_f32 d w)
    pub pushes : length t.heap ≤ length nbs + length s.heap

  Scanned-cons :
      (s t u : Search) (nb w : ℕ) (nbs : List ℕ)
      → net.weight cur nb ≡ some w
      → Relaxed net from d s t
      → Within t nb (add_f32 d w)
      → length t.heap ≤ suc (length s.heap)
      → Scanned t u nbs
      → Scanned s u (nb ∷ nbs)
  Scanned-cons s t u nb w nbs weight first reached push rest = record {
    after = record {
      inv = rest.after.inv;
      same = rest.after.same ∙ first.same;
      lower = λ v b h.
          let (b', h', le) = first.lower v b h in
          let (c, h'', le') = rest.after.lower v b' h' in (c, h'', omega arith);
      fixed = λ v b seen h.
          rest.after.fixed v b (ap (λ l. get_elem? l v) first.same ∙ seen) (first.fixed v b seen h);
    };
    followed = λ v x m e. elim (Memᴰ.cases_cons m) [
      | inl same ↦
          let (b, h, le) = reached in
          let (c, h', le') = rest.after.lower nb b h in
          let w' : w ≡ x =
            some-injective _ _ (sym weight ∙ subst (λ y. net.weight cur y ≡ some x) same e) in
          subst (λ y. Within u y (add_f32 d x)) (sym same)
            (c, h', subst (λ y. c ≤ add_f32 d y) w' (omega arith))
      | inr later ↦ rest.followed v x later e
    ];
    pushes = omega (arith, rest.pushes);
  }

  pub relax_all_scans :
      (s : Search) (nbs : List ℕ)
      → Inv net from d s
      → Seen s cur
      → Dist s cur d
      → ((v : ℕ) → Memᴰ v nbs → Memᴰ v (net.neighbors cur))
      → (t : Search) × (relax_all net cur d s nbs ≡ done t) × Scanned s t nbs
  unfolding relax_all Passes
  relax_all_scans s [] inv seen dist sub = (
    s,
    refl,
    record {
      after = Relaxed-refl s inv;
      followed = λ v w m. absurd (Memᴰ.not-nil m);
      pushes = omega arith;
    },
  )
  relax_all_scans s (nb ∷ nbs) inv seen dist sub =
      let edge = sub nb (Memᴰ.head refl) in
      let (w, weight) = ok.weighed cur nb edge in
      let (t, e, first, reached, push) = relax-Passes s nb w inv seen dist (edge, weight) in
      let (u, e', rest) =
        relax_all_scans t nbs first.inv (ap (λ l. get_elem? l cur) first.same ∙ seen)
          (first.fixed cur d seen dist) (λ v m. sub v (Memᴰ.tail m)) in
      (u, rw (relax_all, e) e', Scanned-cons s t u nb w nbs weight first reached push rest)
