-- ===== src/Dijkstra/Single.antt =====
-- `shortest_path`: it always ends, and returns a cheapest route exactly when there is a route.
use erbridge_palu.Prelude.{
  ◌↔◌, ℕ, zero, suc, ◌≤◌, ◌<◌, ◌≡◌, refl, sym, ◌∙◌, ap, inl, inr, true, false, Option, none, some,
  List, [], ◌∷◌, Memᴰ, arith, length, get_elem?, set, Bool-cases, length-set, replicate, reverse,
  get_elem?-set_self, get_elem?-set_ne, ℕ_discrete, done, subst, nat_beq_iff, length-replicate,
  get_elem?-replicate, get_elem?-replicate_eq, Outcome,
}
use mathlib.Core.List.Memᴰ
use mathlib.Core.Option.{some-injective}
use erbridge_palu.F32.{infinity}
use erbridge_palu.Dijkstra.{
  Net, Search, HeapItem, DijkstraScratch, loop, rounds, begin, search_path, reset, no_prev,
  reconstruct_path, owed, is_target, next_round, expand, settled,
}
use erbridge_palu.Dijkstra.Routes.{IsNet, Route}
use erbridge_palu.Dijkstra.Chains.{Chain, at_source, Chain-Route, Chain-reconstruct}
use erbridge_palu.Dijkstra.Invariant.{Dist, Seen, Within, frontier}
use erbridge_palu.Dijkstra.Mark.{Sound, Marked, work, count_seen-le-length}
use erbridge_palu.Dijkstra.Settle.{empties, skips, settles, Head-cases, expand_lem}

module _ (net : Net) (from : ℕ) where
  -- The state before the first round.
  abbrev pub first : Search
  first = record {
    scratch = record {
      dist = set (replicate net.size infinity) from (some 0);
      prev = replicate net.size no_prev;
      visited = replicate net.size false;
    };
    heap = record { dist = 0; node = from } ∷ [];
  }

  first-unseen : (v : ℕ) → ¬ Seen first v
  first-unseen v h = cc (get_elem?-replicate_eq net.size v false true h)

  pub begin_lem :
      (scratch : DijkstraScratch) → from < net.size → begin net from scratch ≡ done first
  unfolding begin reset
  begin_lem scratch h = ground (arith, get_elem?-replicate net.size from infinity h)

  module _ (h : from < net.size) where
    first_source : Dist first from 0
    first_source =
        get_elem?-set_self (replicate net.size infinity) from (some 0)
          (omega (arith, length-replicate net.size infinity))

    first-Dist : (v b : ℕ) → Dist first v b → (v ≡ from) × (b ≡ 0)
    first-Dist v b e = elim (ℕ_discrete v from) [
      | yes same ↦ (
        same,
        some-injective _ _
            (some-injective _ _ (sym e ∙ subst (λ x. Dist first x 0) (sym same) first_source)),
      )
      | no ne ↦ cc (
          get_elem?-replicate_eq net.size v infinity (some b) (
            sym (get_elem?-set_ne (replicate net.size infinity) from v (some 0) (λ x. ne (sym x)))
            ∙ e))
    ]

    pub first-Sound : Sound net from first
    first-Sound = record {
      level = 0;
      inv = record {
        dist_size = length-set _ from (some 0) ∙ length-replicate net.size infinity;
        prev_size = length-replicate net.size no_prev;
        visited_size = length-replicate net.size false;
        source = first_source;
        queued = λ item m.
            subst (λ x. Within first x.node x.dist) (sym (Memᴰ.eq_of_singleton m))
              (0, first_source, omega arith);
        above = λ item m. omega arith;
        waiting = λ v b un e.
            let (same, none_yet) = first-Dist v b e in
            Memᴰ.head (λ i. record { dist = none_yet i; node = same i });
        below = λ v seen. absurd (first-unseen v seen);
        chained = λ v b e.
            let (same, zero_yet) = first-Dist v b e in
            (
              v ∷ [],
              subst (λ x. Chain net from first.scratch x (x ∷ []) b) (sym same)
                  (subst (Chain net from first.scratch from (from ∷ [])) (sym zero_yet) at_source),
              omega arith,
            );
        chained_seen = λ v b seen e. absurd (first-unseen v seen);
      };
      closed = λ u seen. absurd (first-unseen u seen);
      optimal = λ v b c nodes seen. absurd (first-unseen v seen);
    }

-- The path has the nodes of a route, from its source to its target.
abbrev pub OnRoute : Net → ℕ → ℕ → List ℕ → Type 0
OnRoute net from to path =
    (nodes : List ℕ) × (c : ℕ) × Route net from to nodes c × (path ≡ reverse nodes)

-- What the answer has to be: no route, or a route that no other undercuts.
abbrev pub IsCheapest : Net → ℕ → ℕ → Option (List ℕ) → Type 0
IsCheapest net from to none = (nodes : List ℕ) (c : ℕ) → ¬ Route net from to nodes c
IsCheapest net from to (some path) =
    (nodes : List ℕ) × (c : ℕ) × Route net from to nodes c
    × (path ≡ reverse nodes)
    × ((others : List ℕ) (cost : ℕ) → Route net from to others cost → c ≤ cost)

is_target_iff : (item : HeapItem) (to : ℕ) → (is_target item to ≡ true) ↔ (item.node ≡ to)
unfolding is_target
is_target_iff item to = nat_beq_iff item.node to

module _ (net : Net) (from to : ℕ) (ok : IsNet net) where
  Answers : Outcome (Option (List ℕ)) → Type 0
  Answers o = (r : Option (List ℕ)) × (o ≡ done r) × IsCheapest net from to r

  found :
      (item : HeapItem) (t : Search)
      → Marked net from item t
      → item.node ≡ to
      → (path : List ℕ) × (reconstruct_path t.prev from to ≡ done path)
        × IsCheapest net from to (some path)
  found item t m e =
      let (nodes, chain, short) = m.inv.chained_seen item.node item.dist m.seen m.dist in
      let fits : length nodes ≤ suc (length t.prev) =
        omega (arith, count_seen-le-length t.visited, m.inv.visited_size, m.inv.prev_size) in
      let chain' = subst (λ v. Chain net from t.scratch v nodes item.dist) e chain in
      let best = λ (others : List ℕ) (cost : ℕ) (r : Route net from to others cost).
        m.optimal to item.dist cost others (subst (Seen t) e m.seen)
          (subst (λ v. Dist t v item.dist) e m.dist) r in
      (
        reverse nodes,
        Chain-reconstruct chain' fits,
        (nodes, item.dist, Chain-Route chain', refl, best),
      )

  loop_found :
      (fuel : ℕ) (s : Search) (item : HeapItem) (t : Search) (path : List ℕ)
      → next_round s ≡ done (settled item t)
      → is_target item to ≡ true
      → reconstruct_path t.prev from to ≡ done path
      → loop net (suc fuel) from to s ≡ done (some path)
  unfolding loop
  loop_found fuel s item t path e here built = ground arith

  loop_goes_on :
      (fuel : ℕ) (s : Search) (item : HeapItem) (t u : Search)
      → next_round s ≡ done (settled item t)
      → is_target item to ≡ false
      → expand net item t ≡ done u
      → loop net (suc fuel) from to s ≡ loop net fuel from to u
  unfolding loop
  loop_goes_on fuel s item t u e other e' = ground arith

  loop-Answers :
      (fuel : ℕ) (s : Search)
      → Sound net from s
      → ¬ Seen s to
      → work net s < fuel
      → Answers (loop net fuel from to s)
  unfolding loop Answers
  loop-Answers zero s sound un h = absurd (omega arith)
  loop-Answers (suc fuel) s sound un h = elim (Head-cases net from ok s sound) [
    | empties e empty ↦ (
      none,
      rw (loop, e) refl,
      λ nodes c r. elim (frontier ok sound.inv sound.closed r) [
        | inl (seen, _) ↦ un seen
        | inr (item, m, _) ↦ Memᴰ.not-nil (subst (Memᴰ item) empty m)
      ],
    )
    | skips t e sound' same less ↦
        let (r, ends, good) =
          loop-Answers fuel t sound'
            (λ seen. un (ap (λ x. get_elem? x.visited to) (sym same) ∙ seen)) (omega arith) in
        (r, rw (loop, e) ends, good)
    | settles item t e m _ before less ↦ elim (Bool-cases (is_target item to)) [
      | inl here ↦
          let (path, built, best) = found item t m ((is_target_iff item to).0 here) in
          (some path, loop_found fuel s item t path e here built, best)
      | inr other ↦
          let (u, e', sound', same, pushed) = expand_lem net from ok item t m in
          let un' : ¬ Seen u to = λ seen. un (
            before to (λ x. cc ((is_target_iff item to).1 (sym x)))
              (ap (λ l. get_elem? l to) (sym same) ∙ seen)) in
          let (r, ends, good) =
            loop-Answers fuel u sound' un' (omega (arith, ap (owed net 0) same)) in
          (r, loop_goes_on fuel s item t u e other e' ∙ ends, good)
    ]
  ]

  -- From a source in range the search always returns, and what it returns is a cheapest route,
  -- or `none` where no route leads to the target.
  pub search_path-IsCheapest :
      (scratch : DijkstraScratch)
      → from < net.size
      → (r : Option (List ℕ)) × (search_path net from to scratch ≡ done r)
        × IsCheapest net from to r
  unfolding search_path rounds Answers
  search_path-IsCheapest scratch h =
      let (r, e, good) =
        loop-Answers (rounds net) (first net from) (first-Sound net from h)
          (first-unseen net from to) (omega arith) in
      (r, rw (search_path, begin_lem net from scratch h) e, good)
