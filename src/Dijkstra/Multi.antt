-- ===== src/Dijkstra/Multi.antt =====
-- `shortest_path_multi` of src/routing.rs: one search that settles every target.
pub mod Settled
use erbridge_palu.Prelude.{
  nat_eq, ℕ, zero, suc, ◌-◌, Bool, true, false, List, [], ◌∷◌, length, Outcome, done, panicked,
  out_of_fuel, ◌>>=◌, index, ltb, nat_beq, if◌then◌else◌,
}
use erbridge_palu.Prelude.HashSet
use erbridge_palu.Prelude.HashSet.{HashSet}
use erbridge_palu.Dijkstra.{
  Net, HeapItem, DijkstraScratch, Search, drained, skipped, settled, next_round, expand, begin,
  rounds, reconstruct_path,
}

pub record SettledTarget : Type 0 where
  pub node : ℕ
  pub jumps : ℕ
  pub path : List ℕ

-- `remaining -= 1`, with the overflow check of a debug build.
count_down : ℕ → Outcome ℕ
count_down zero = panicked
count_down (suc n) = done n

-- The targets that were visited, with their routes, in the order of `targets`.
collect_settled : ℕ → Search → List ℕ → Outcome (List SettledTarget)
collect_settled from s [] = done []
collect_settled from s (t ∷ ts) = do
  seen ← index s.visited t
  rest ← collect_settled from s ts
  elim seen [
    | true ↦ do
      path ← reconstruct_path s.prev from t
      done (record { node = t; jumps = length path - 1; path = path } ∷ rest)
    | false ↦ done rest
  ]

module _ (net : Net) where
  -- The loop breaks when the last target is settled, and ends when the heap is empty.
  multi_loop : ℕ → Search → HashSet ℕ → ℕ → Outcome Search
  multi_loop zero s want remaining = out_of_fuel
  multi_loop (suc fuel) s want remaining = next_round s >>= elim [
    | drained ↦ done s
    | skipped s' ↦ multi_loop fuel s' want remaining
    | settled item s' ↦ elim (HashSet.contains item.node want) [
      | true ↦ count_down remaining >>= elim [
        | zero ↦ done s'
        | suc left ↦
            expand net item s' >>= λ u. multi_loop fuel u (HashSet.remove item.node want) (suc left)
      ]
      | false ↦ expand net item s' >>= λ u. multi_loop fuel u want remaining
    ]
  ]

  pub search_multi : ℕ → List ℕ → DijkstraScratch → Outcome (List SettledTarget)
  unfolding multi_loop collect_settled
  search_multi from targets scratch = do
    s ← begin net from scratch
    let want = HashSet.collect targets
    end ← multi_loop (rounds net) s want (length want)
    collect_settled from end targets
