-- ===== src/Dijkstra/Mark.antt =====
-- A node is popped and marked: its distance is final, and the invariant still holds.
use erbridge_palu.Prelude.{
  ℕ, zero, suc, ◌+◌, ◌≤◌, ◌≡◌, ◌≢◌, refl, sym, ◌∙◌, ap, inl, inr, Bool, true, false, some, List, [],
  ◌∷◌, arith, length, get_elem?, set, length-set, get_elem?-set_self, get_elem?-set_ne, ℕ_discrete,
  done, subst, lt-length_of_get_elem?,
}
use erbridge_palu.Dijkstra.{Net, Search, HeapItem, mark, is_stale, owed}
use erbridge_palu.Dijkstra.Heap.{Pops}
use erbridge_palu.Dijkstra.Routes.{IsNet}
use erbridge_palu.Dijkstra.Chains.{Chain, Chain-keep}
use erbridge_palu.Dijkstra.Invariant.{
  Inv, Dist, Seen, Unseen, Within, count_seen, Closed, ClosedBut, Optimal, Dist-unique, frontier,
}

-- Between two rounds.
pub record Sound (net : Net) (from : ℕ) (s : Search) : Type 0 where
  pub level : ℕ
  pub inv : Inv net from level s
  pub closed : Closed net s
  pub optimal : Optimal net from s

-- `item.node` was marked, and is not expanded yet.
pub record Marked (net : Net) (from : ℕ) (item : HeapItem) (s : Search) : Type 0 where
  pub inv : Inv net from item.dist s
  pub closed : ClosedBut net s item.node
  pub optimal : Optimal net from s
  pub seen : Seen s item.node
  pub dist : Dist s item.node item.dist

-- What is left to do: the items in the heap, and the neighbours that may be pushed.
abbrev pub work : Net → Search → ℕ
work net s = length s.heap + owed net 0 s.visited

count_seen-set :
    (vs : List Bool) (i : ℕ)
    → get_elem? vs i ≡ some false
    → count_seen (set vs i true) ≡ suc (count_seen vs)
count_seen-set [] i h = ground arith
count_seen-set (true ∷ vs) zero h = ground arith
count_seen-set (false ∷ vs) zero h = refl
count_seen-set (true ∷ vs) (suc i) h = ap suc (count_seen-set vs i h)
count_seen-set (false ∷ vs) (suc i) h = count_seen-set vs i h

pub count_seen-le-length : (vs : List Bool) → count_seen vs ≤ length vs
count_seen-le-length [] = omega arith
count_seen-le-length (true ∷ vs) = omega (arith, count_seen-le-length vs)
count_seen-le-length (false ∷ vs) = omega (arith, count_seen-le-length vs)

owed-set :
    (net : Net) (vs : List Bool) (k i : ℕ)
    → get_elem? vs i ≡ some false
    → owed net k (set vs i true) + length (net.neighbors (k + i)) ≡ owed net k vs
owed-set net [] k i h = ground arith
owed-set net (true ∷ vs) k zero h = ground arith
owed-set net (false ∷ vs) k zero h = let e : k + 0 ≡ k = omega arith in rw e (omega arith)
owed-set net (b ∷ vs) k (suc i) h =
    let e : k + suc i ≡ k + 1 + i = omega arith in rw e (omega (arith, owed-set net vs (k + 1) i h))

pub owed-set_start :
    (net : Net) (vs : List Bool) (i : ℕ)
    → get_elem? vs i ≡ some false
    → owed net 0 (set vs i true) + length (net.neighbors i) ≡ owed net 0 vs
owed-set_start net vs i h = let e : 0 + i ≡ i = omega arith in rw e at (owed-set net vs 0 i h)

pub not_stale : (d : ℕ) → is_stale d (some d) ≡ false
unfolding is_stale
not_stale d = ground arith

abbrev pub marked : Search → ℕ → List HeapItem → Search
marked s node rest = record {
  scratch = record { dist = s.dist; prev = s.prev; visited = set s.visited node true };
  heap = rest;
}

pub mark_done :
    (s : Search) (node : ℕ) (rest : List HeapItem)
    → Unseen s node
    → mark s node rest ≡ done (marked s node rest)
unfolding mark
mark_done s node rest h = ground arith

module _ (net : Net) (from level : ℕ) (s : Search) (item : HeapItem) (rest : List HeapItem)
    (ok : IsNet net) (inv : Inv net from level s) (pops : Pops s.heap item rest)
    (unseen : Unseen s item.node) where
  -- The entry that is popped is not stale.
  popped_dist : Dist s item.node item.dist
  popped_dist =
      let (b, h, le) = inv.queued item pops.taken in
      let ge =
        pops.least (record { dist = b; node = item.node }) (inv.waiting item.node b unseen h) in
      let e : b ≡ item.dist = omega arith in subst (Dist s item.node) e h

  now-Seen : Seen (marked s item.node rest) item.node
  now-Seen =
      get_elem?-set_self s.visited item.node true
        (lt-length_of_get_elem? s.visited item.node false unseen)

  pub still-Seen : (v : ℕ) → Seen s v → Seen (marked s item.node rest) v
  still-Seen v h = get_elem?-set_ne s.visited item.node v true (λ e. cc) ∙ h

  pub Seen-before : (v : ℕ) → v ≢ item.node → Seen (marked s item.node rest) v → Seen s v
  Seen-before v ne h = sym (get_elem?-set_ne s.visited item.node v true (λ e. ne (sym e))) ∙ h

  Chain-marked :
      {v c : ℕ} {nodes : List ℕ}
      → Chain net from s.scratch v nodes c
      → Chain net from (marked s item.node rest).scratch v nodes c
  Chain-marked chain = Chain-keep still-Seen (λ u h. refl) refl chain

  marked-Inv : Inv net from item.dist (marked s item.node rest)
  marked-Inv = record {
    dist_size = inv.dist_size;
    prev_size = inv.prev_size;
    visited_size = length-set s.visited item.node true ∙ inv.visited_size;
    source = inv.source;
    queued = λ x m. inv.queued x (pops.old x m);
    above = λ x m. pops.least x (pops.old x m);
    waiting = λ v b un h.
        let ne : v ≢ item.node = λ e. cc now-Seen in
        let before = sym (get_elem?-set_ne s.visited item.node v true (λ e. ne (sym e))) ∙ un in
        elim (pops.kept (record { dist = b; node = v }) (inv.waiting v b before h)) [
          | inl e ↦ absurd (ne (ap (λ x. x.node) e))
          | inr m ↦ m
        ];
    below = λ v seen. elim (ℕ_discrete v item.node) [
      | yes e ↦
          subst (λ x. Within (marked s item.node rest) x item.dist) (sym e)
            (item.dist, popped_dist, omega arith)
      | no ne ↦
          let (b, h, le) = inv.below v (Seen-before v ne seen) in
          (b, h, omega (arith, inv.above item pops.taken))
    ];
    chained = λ v b h.
        let (nodes, chain, short) = inv.chained v b h in
        (nodes, Chain-marked chain, omega (arith, count_seen-set s.visited item.node unseen));
    chained_seen = λ v b seen h.
        let (nodes, chain, short) = inv.chained v b h in
        (nodes, Chain-marked chain, omega (arith, count_seen-set s.visited item.node unseen));
  }

  pub marked-Marked :
      Closed net s → Optimal net from s → Marked net from item (marked s item.node rest)
  marked-Marked closed best = record {
    inv = marked-Inv;
    closed = λ u ne seen v w b e h. closed u (Seen-before u ne seen) v w b e h;
    optimal = λ v b c nodes seen h r. elim (ℕ_discrete v item.node) [
      | yes e ↦ elim (frontier ok inv closed r) [
        | inl (before, _) ↦ cc
        | inr (x, m, le) ↦
            let same =
              Dist-unique s v b item.dist h (subst (λ y. Dist s y item.dist) (sym e) popped_dist) in
            omega (arith, pops.least x m)
      ]
      | no ne ↦ best v b c nodes (Seen-before v ne seen) h r
    ];
    seen = now-Seen;
    dist = popped_dist;
  }
