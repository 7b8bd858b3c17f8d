-- ===== src/Dijkstra/Relax.antt =====
-- An entry is improved: the invariant still holds, and no distance grew.
use erbridge_palu.Prelude.{
  ℕ, suc, ◌≤◌, ◌<◌, ◌≡◌, ◌≢◌, refl, sym, ◌∙◌, ◌⊎◌, inl, inr, Option, some, List, ◌∷◌, Memᴰ, arith,
  length, get_elem?, set, length-set, get_elem?-set_self, get_elem?-set_ne, ℕ_discrete, done, subst,
}
use mathlib.Core.List.Memᴰ
use erbridge_palu.F32.{add_f32}
use erbridge_palu.Dijkstra.{Net, Search, improve}
use erbridge_palu.Dijkstra.Routes.{Edge}
use erbridge_palu.Dijkstra.Chains.{Chain, link, Chain-keep}
use erbridge_palu.Dijkstra.Invariant.{Inv, Dist, Seen, Unseen, Within, count_seen, Dist-unique}

-- What a pass leaves: the invariant, the visited nodes, and distances that are no larger.
pub record Relaxed (net : Net) (from level : ℕ) (s t : Search) : Type 0 where
  pub inv : Inv net from level t
  pub same : t.visited ≡ s.visited
  pub lower : (v b : ℕ) → Dist s v b → Within t v b
  pub fixed : (v b : ℕ) → Seen s v → Dist s v b → Dist t v b

abbrev pub improved : Search → ℕ → ℕ → ℕ → Search
improved s cur nb k = record {
  scratch = record { dist = set s.dist nb (some k); prev = set s.prev nb cur; visited = s.visited };
  heap = record { dist = k; node = nb } ∷ s.heap;
}

pub improve_done :
    (s : Search) (cur nb k : ℕ) (o : Option ℕ) (p : ℕ)
    → get_elem? s.dist nb ≡ some o
    → get_elem? s.prev nb ≡ some p
    → improve s cur nb k ≡ done (improved s cur nb k)
unfolding improve
improve_done s cur nb k o p at before = ground arith

module _ (net : Net) (from d : ℕ) (s : Search) (cur nb w k : ℕ) (inv : Inv net from d s)
    (sum : k ≡ add_f32 d w) (seen : Seen s cur) (dist : Dist s cur d) (edge : Edge net cur nb w)
    (in_range : nb < net.size) (unseen : Unseen s nb) (grows : d ≤ k)
    (better : (b : ℕ) → Dist s nb b → k < b) where
  new_self : Dist (improved s cur nb k) nb k
  new_self = get_elem?-set_self s.dist nb (some k) (omega (arith, inv.dist_size))

  new_dist :
      (v : ℕ)
      → (v ≡ nb) × Dist (improved s cur nb k) v k
        ⊎ (v ≢ nb) × (get_elem? (set s.dist nb (some k)) v ≡ get_elem? s.dist v)
  new_dist v = elim (ℕ_discrete v nb) [
    | yes e ↦ inl (e, rw e new_self)
    | no ne ↦ inr (ne, get_elem?-set_ne s.dist nb v (some k) (λ e. ne (sym e)))
  ]

  Seen-ne : (v : ℕ) → Seen s v → v ≢ nb
  Seen-ne v h e = cc

  nb-ne_source : nb ≢ from
  nb-ne_source e = absurd (omega (arith, better 0 (rw e inv.source)))

  new_fixed : (v b : ℕ) → v ≢ nb → Dist s v b → Dist (improved s cur nb k) v b
  new_fixed v b ne h = get_elem?-set_ne s.dist nb v (some k) (λ e. ne (sym e)) ∙ h

  new_lower : (v b : ℕ) → Dist s v b → Within (improved s cur nb k) v b
  new_lower v b h = elim (new_dist v) [
    | inl (e, now) ↦ (k, now, omega (arith, better b (subst (λ x. Dist s x b) e h)))
    | inr (ne, same) ↦ (b, same ∙ h, omega arith)
  ]

  prev_self : get_elem? (set s.prev nb cur) nb ≡ some cur
  prev_self = get_elem?-set_self s.prev nb cur (omega (arith, inv.prev_size))

  Chain-improved :
      {v c : ℕ} {nodes : List ℕ}
      → v ≢ nb
      → Chain net from s.scratch v nodes c
      → Chain net from (improved s cur nb k).scratch v nodes c
  Chain-improved {v} ne chain =
      Chain-keep (λ u h. h) (λ u h. get_elem?-set_ne s.prev nb u cur (λ e. Seen-ne u h (sym e)))
        (get_elem?-set_ne s.prev nb v cur (λ e. ne (sym e))) chain

  Chained : ℕ → ℕ → Type 0
  Chained v b =
      (nodes : List ℕ) × Chain net from (improved s cur nb k).scratch v nodes b
      × (length nodes ≤ suc (count_seen s.visited))

  -- The chain of `nb` goes over `cur` now.
  Chained-new : (v b : ℕ) → v ≡ nb → b ≡ k → Chained v b
  unfolding Chained
  Chained-new v b e same =
      let (nodes, chain, short) = inv.chained_seen cur d seen dist in
      let over = link seen prev_self nb-ne_source edge (Chain-improved (Seen-ne cur seen) chain) in
      let cost : add_f32 d w ≡ b = sym (same ∙ sum) in
      subst (λ x. Chained x b) (sym e)
        (
          nb ∷ nodes,
          subst (Chain net from (improved s cur nb k).scratch nb (nb ∷ nodes)) cost over,
          omega arith,
        )

  improved-Inv : Inv net from d (improved s cur nb k)
  unfolding Chained
  improved-Inv = record {
    dist_size = length-set s.dist nb (some k) ∙ inv.dist_size;
    prev_size = length-set s.prev nb cur ∙ inv.prev_size;
    visited_size = inv.visited_size;
    source = new_fixed from 0 (λ e. nb-ne_source (sym e)) inv.source;
    queued = λ item m. elim (Memᴰ.cases_cons m) [
      | inl e ↦
          subst (λ x. Within (improved s cur nb k) x.node x.dist) (sym e) (k, new_self, omega arith)
      | inr old ↦
          let (b, h, le) = inv.queued item old in
          let (b', h', le') = new_lower item.node b h in (b', h', omega arith)
    ];
    above =
        λ item m. elim (Memᴰ.cases_cons m) [ inl e ↦ rw e grows | inr old ↦ inv.above item old ];
    waiting = λ v b un h. elim (new_dist v) [
      | inl (e, now) ↦
          Memᴰ.head
            (λ i. record { dist = Dist-unique (improved s cur nb k) v b k h now i; node = e i })
      | inr (ne, same) ↦ Memᴰ.tail (inv.waiting v b un (sym same ∙ h))
    ];
    below = λ v h. let (b, old, le) = inv.below v h in (b, new_fixed v b (Seen-ne v h) old, le);
    chained = λ v b h. elim (new_dist v) [
      | inl (e, now) ↦ Chained-new v b e (Dist-unique (improved s cur nb k) v b k h now)
      | inr (ne, same) ↦
          let (nodes, chain, short) = inv.chained v b (sym same ∙ h) in
          (nodes, Chain-improved ne chain, short)
    ];
    chained_seen = λ v b h e.
        let ne = Seen-ne v h in
        let same = get_elem?-set_ne s.dist nb v (some k) (λ e. ne (sym e)) in
        let (nodes, chain, short) = inv.chained_seen v b h (sym same ∙ e) in
        (nodes, Chain-improved ne chain, short);
  }

  pub improved-Relaxed : Relaxed net from d s (improved s cur nb k)
  improved-Relaxed = record {
    inv = improved-Inv;
    same = refl;
    lower = new_lower;
    fixed = λ v b h. new_fixed v b (Seen-ne v h);
  }
