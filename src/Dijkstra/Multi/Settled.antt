-- ===== src/Dijkstra/Multi/Settled.antt =====
-- The search for many targets returns, for each one that a route leads to, a cheapest route, and
-- leaves the others out.
use erbridge_palu.Prelude.{
  nat_eq, ℕ, zero, suc, ◌-◌, ◌≤◌, ◌<◌, ◌≡◌, refl, sym, ◌∙◌, ap, ◌⊎◌, inl, inr, true, false, none,
  some, List, [], ◌∷◌, Memᴰ, arith, length, get_elem?, Bool-cases, reverse, ℕ_discrete, done, subst,
}
use mathlib.Core.List.Memᴰ
use erbridge_palu.Prelude.HashSet
use erbridge_palu.Prelude.HashSet.{HashSet}
use erbridge_palu.Dijkstra.{
  Net, Search, HeapItem, DijkstraScratch, rounds, reconstruct_path, next_round, drained, skipped,
  settled, expand, owed,
}
use erbridge_palu.Dijkstra.Routes.{IsNet, Route}
use erbridge_palu.Dijkstra.Chains.{Chain-Route, Chain-reconstruct}
use erbridge_palu.Dijkstra.Invariant.{Inv, Seen, Unseen, Optimal, frontier, Seen-cases}
use erbridge_palu.Dijkstra.Mark.{Sound, Marked, work, count_seen-le-length}
use erbridge_palu.Dijkstra.Settle.{empties, skips, settles, Head-cases, expand_lem}
use erbridge_palu.Dijkstra.Single.{IsCheapest, first, first-Sound, begin_lem}
use erbridge_palu.Dijkstra.Multi.{
  SettledTarget, count_down, collect_settled, multi_loop, search_multi,
}

-- What is returned for the targets: the cheapest routes of those that can be reached.
pub data Settles (net : Net) (from : ℕ) : List ℕ → List SettledTarget → Type 0 where
  nothing : Settles net from [] []
  reached :
      {t : ℕ} {ts path : List ℕ} {out : List SettledTarget}
      → IsCheapest net from t (some path)
      → Settles net from ts out
      → Settles net from (t ∷ ts) (record { node = t; jumps = length path - 1; path = path } ∷ out)
  missed :
      {t : ℕ} {ts : List ℕ} {out : List SettledTarget}
      → IsCheapest net from t none
      → Settles net from ts out
      → Settles net from (t ∷ ts) out

module _ (net : Net) (from : ℕ) (ok : IsNet net) where
  NoRoute : ℕ → Type 0
  NoRoute t = (nodes : List ℕ) (c : ℕ) → ¬ Route net from t nodes c

  -- Where the loop ends, it is known of each target whether a route leads to it.
  record Finished (targets : List ℕ) (s : Search) : Type 0 where
    level : ℕ
    inv : Inv net from level s
    optimal : Optimal net from s
    decided :
        (t : ℕ)
        → Memᴰ t targets
        → Seen s t ⊎ ((nodes : List ℕ) (c : ℕ) → ¬ Route net from t nodes c)

  Awaits : List ℕ → HashSet ℕ → Search → Type 0
  Awaits targets want s = (t : ℕ) → Memᴰ t targets → (HashSet.contains t want ≡ true) ⊎ Seen s t

  module _ (fuel : ℕ) (s : Search) (want : HashSet ℕ) (r : ℕ) where
    multi_drained : next_round s ≡ done drained → multi_loop net (suc fuel) s want r ≡ done s
    unfolding multi_loop
    multi_drained e = ground arith

    multi_skipped :
        (t : Search)
        → next_round s ≡ done (skipped t)
        → multi_loop net (suc fuel) s want r ≡ multi_loop net fuel t want r
    unfolding multi_loop
    multi_skipped t e = ground arith

    module _ (item : HeapItem) (t : Search) (e : next_round s ≡ done (settled item t)) where
      multi_last :
          HashSet.contains item.node want ≡ true
          → r ≡ 1
          → multi_loop net (suc fuel) s want r ≡ done t
      unfolding multi_loop count_down
      multi_last w last = ground arith

      multi_wanted :
          (u : Search) (left : ℕ)
          → HashSet.contains item.node want ≡ true
          → r ≡ suc (suc left)
          → expand net item t ≡ done u
          → multi_loop net (suc fuel) s want r
            ≡ multi_loop net fuel u (HashSet.remove item.node want) (suc left)
      unfolding multi_loop count_down
      multi_wanted u left w more e' = ground arith

      multi_other :
          (u : Search)
          → HashSet.contains item.node want ≡ false
          → expand net item t ≡ done u
          → multi_loop net (suc fuel) s want r ≡ multi_loop net fuel u want r
      unfolding multi_loop
      multi_other u w e' = ground arith

  -- One less is awaited when a wanted node is settled.
  Awaits-settled :
      (targets : List ℕ) (want : HashSet ℕ) (node : ℕ) (s u : Search)
      → Awaits targets want s
      → ((v : ℕ) → Seen s v → Seen u v)
      → Seen u node
      → Awaits targets (HashSet.remove node want) u
  unfolding Awaits
  Awaits-settled targets want node s u a keep now t m = elim (a t m) [
    | inl wanted ↦ elim (ℕ_discrete t node) [
      | yes e ↦ inr (subst (Seen u) (sym e) now)
      | no ne ↦ inl (HashSet.contains-remove_ne node t want (λ e. ne (sym e)) ∙ wanted)
    ]
    | inr seen ↦ inr (keep t seen)
  ]

  Awaits-kept :
      (targets : List ℕ) (want : HashSet ℕ) (s u : Search)
      → Awaits targets want s
      → ((v : ℕ) → Seen s v → Seen u v)
      → Awaits targets want u
  unfolding Awaits
  Awaits-kept targets want s u a keep t m = elim (a t m) [
    | inl wanted ↦ inl wanted
    | inr seen ↦ inr (keep t seen)
  ]

  Finished-drained :
      (targets : List ℕ) (s : Search)
      → ((t : ℕ) → Memᴰ t targets → t < net.size)
      → Sound net from s
      → s.heap ≡ []
      → Finished targets s
  Finished-drained targets s within sound empty = record {
    level = sound.level;
    inv = sound.inv;
    optimal = sound.optimal;
    decided = λ t m. elim (Seen-cases s t (omega (arith, within t m, sound.inv.visited_size))) [
      | inl seen ↦ inl seen
      | inr unseen ↦ inr λ nodes c r. elim (frontier ok sound.inv sound.closed r) [
        | inl (seen, _) ↦ cc
        | inr (item, here, _) ↦ Memᴰ.not-nil (subst (Memᴰ item) empty here)
      ]
    ];
  }

  -- The last wanted node was settled: every target is visited.
  Finished-last :
      (targets : List ℕ) (want : HashSet ℕ) (item : HeapItem) (s t : Search)
      → Marked net from item t
      → Awaits targets want s
      → ((v : ℕ) → Seen s v → Seen t v)
      → HashSet.Distinct want
      → HashSet.contains item.node want ≡ true
      → length want ≡ 1
      → Finished targets t
  unfolding Awaits
  Finished-last targets want item s t m a keep d w last = record {
    level = item.dist;
    inv = m.inv;
    optimal = m.optimal;
    decided = λ x here. inl (elim (Awaits-settled targets want item.node s t a keep m.seen x here) [
      | inl wanted ↦
          let none_left =
            HashSet.contains_of_nil x (HashSet.remove item.node want)
              (omega (arith, HashSet.length-remove item.node want d w)) in
          cc
      | inr seen ↦ seen
    ]);
  }

  multi_finishes :
      (fuel : ℕ) (s : Search) (want : HashSet ℕ) (r : ℕ) (targets : List ℕ)
      → ((t : ℕ) → Memᴰ t targets → t < net.size)
      → Sound net from s
      → Awaits targets want s
      → HashSet.Distinct want
      → r ≡ length want
      → work net s < fuel
      → (end : Search) × (multi_loop net fuel s want r ≡ done end) × Finished targets end
  multi_finishes zero s want r targets within sound a d count h = absurd (omega arith)
  multi_finishes (suc fuel) s want r targets within sound a d count h =
      elim (Head-cases net from ok s sound) [
        | empties e empty ↦
            (s, multi_drained fuel s want r e, Finished-drained targets s within sound empty)
        | skips t e sound' same less ↦
            let (end, ends, fin) =
              multi_finishes fuel t want r targets within sound'
                (Awaits-kept targets want s t a
                  (λ v seen. ap (λ x. get_elem? x.visited v) same ∙ seen))
                d count (omega arith) in
            (end, multi_skipped fuel s want r t e ∙ ends, fin)
        | settles item t e m keep _ less ↦
            let (u, e', sound', same, pushed) = expand_lem net from ok item t m in
            let keep_u = λ (v : ℕ) (seen : Seen s v). ap (λ l. get_elem? l v) same ∙ keep v seen in
            let now = ap (λ l. get_elem? l item.node) same ∙ m.seen in
            let fewer : work net u < fuel = omega (arith, ap (owed net 0) same) in
            elim (Bool-cases (HashSet.contains item.node want)) [
              | inl w ↦ elim (ℕ_discrete r 1) [
                | yes one ↦ (
                  t,
                  multi_last fuel s want r item t e w one,
                  Finished-last targets want item s t m a keep d w (omega arith),
                )
                | no ne ↦
                    let fits = HashSet.length-remove item.node want d w in
                    let two : r ≡ suc (suc (r - 2)) = omega arith in
                    let rest = HashSet.remove item.node want in
                    let (end, ends, fin) =
                      multi_finishes fuel u rest (suc (r - 2)) targets within sound'
                        (Awaits-settled targets want item.node s u a keep_u now)
                        (HashSet.remove-Distinct item.node want d) (omega arith) fewer in
                    (end, multi_wanted fuel s want r item t e u (r - 2) w two e' ∙ ends, fin)
              ]
              | inr other ↦
                  let (end, ends, fin) =
                    multi_finishes fuel u want r targets within sound'
                      (Awaits-kept targets want s u a keep_u) d count fewer in
                  (end, multi_other fuel s want r item t e u other e' ∙ ends, fin)
            ]
      ]

  module _ (targets : List ℕ) (end : Search) (fin : Finished targets end) where
    IsCheapest-of_Seen :
        (t : ℕ)
        → Seen end t
        → (path : List ℕ) × (reconstruct_path end.prev from t ≡ done path)
          × IsCheapest net from t (some path)
    IsCheapest-of_Seen t seen =
        let (b, at, _) = fin.inv.below t seen in
        let (nodes, chain, short) = fin.inv.chained_seen t b seen at in
        let fits : length nodes ≤ suc (length end.prev) =
          omega
            (arith, count_seen-le-length end.visited, fin.inv.visited_size, fin.inv.prev_size) in
        let best = λ (others : List ℕ) (cost : ℕ) (r : Route net from t others cost).
          fin.optimal t b cost others seen at r in
        (reverse nodes, Chain-reconstruct chain fits, (nodes, b, Chain-Route chain, refl, best))

    collect_reached :
        (t : ℕ) (ts path : List ℕ) (out : List SettledTarget)
        → Seen end t
        → reconstruct_path end.prev from t ≡ done path
        → collect_settled from end ts ≡ done out
        → collect_settled from end (t ∷ ts)
          ≡ done (record { node = t; jumps = length path - 1; path = path } ∷ out)
    unfolding collect_settled
    collect_reached t ts path out seen e e' = ground arith

    collect_missed :
        (t : ℕ) (ts : List ℕ) (out : List SettledTarget)
        → Unseen end t
        → collect_settled from end ts ≡ done out
        → collect_settled from end (t ∷ ts) ≡ done out
    unfolding collect_settled
    collect_missed t ts out unseen e = ground arith

    collect-Settles :
        (ts : List ℕ)
        → ((t : ℕ) → Memᴰ t ts → Memᴰ t targets)
        → ((t : ℕ) → Memᴰ t ts → t < net.size)
        → (out : List SettledTarget) × (collect_settled from end ts ≡ done out)
          × Settles net from ts out
    unfolding collect_settled
    collect-Settles [] sub within = ([], refl, nothing)
    collect-Settles (t ∷ ts) sub within =
        let (out, e, rest) =
          collect-Settles ts (λ x m. sub x (Memᴰ.tail m)) (λ x m. within x (Memᴰ.tail m)) in
        elim (Seen-cases end t (omega (arith, within t (Memᴰ.head refl), fin.inv.visited_size))) [
          | inl seen ↦
              let (path, built, best) = IsCheapest-of_Seen t seen in
              (
                record { node = t; jumps = length path - 1; path = path } ∷ out,
                collect_reached t ts path out seen built e,
                reached best rest,
              )
          | inr unseen ↦ (
            out,
            collect_missed t ts out unseen e,
            missed
                (elim (fin.decided t (sub t (Memᴰ.head refl))) [
                  | inl seen ↦ λ nodes c _. cc
                  | inr none_leads ↦ none_leads
                ])
                rest,
          )
        ]

  -- From a source in range, with targets in range, the search always returns: a cheapest route
  -- for each target that a route leads to, in the order of the targets, and nothing for the
  -- others.
  pub search_multi-Settles :
      (targets : List ℕ) (scratch : DijkstraScratch)
      → from < net.size
      → ((t : ℕ) → Memᴰ t targets → t < net.size)
      → (out : List SettledTarget) × (search_multi net from targets scratch ≡ done out)
        × Settles net from targets out
  unfolding search_multi Awaits rounds
  search_multi-Settles targets scratch h within =
      let want = HashSet.collect targets in
      let (end, e, fin) =
        multi_finishes (rounds net) (first net from) want (length want) targets within
          (first-Sound net from h) (λ t m. inl (HashSet.contains-collect t targets m))
          (HashSet.collect-Distinct targets) refl (omega arith) in
      let (out, e', good) = collect-Settles targets end fin targets (λ t m. m) within in
      (out, rw (begin_lem net from scratch h, e) e', good)
