-- ===== src/Dijkstra.antt =====
-- The search of src/routing.rs: the scratch buffers, the heap, the loops of `shortest_path` and
-- `shortest_path_multi`, and `reconstruct_path`. They see the routing context through `Net`.
-- Its `debug_assert!`s are left out.
mod Heap
pub mod Routes
mod Chains
mod Invariant
mod Relax
mod Scan
mod Mark
mod Settle
pub mod Single
pub mod Multi
use erbridge_palu.Prelude.{
  ℕ, zero, suc, ◌+◌, Bool, true, false, ◌||◌, ◌&&◌, Option, none, some, List, [], ◌∷◌, reverse,
  length, replicate, Outcome, done, out_of_fuel, ◌>>=◌, or_panic, index, store, ltb, nat_beq,
  if◌then◌else◌,
}
use erbridge_palu.F32.{add_f32, lt_f32, infinity}

-- What the search reads of the routing context. `weight` is `none` where the code panics.
pub record Net : Type 0 where
  pub size : ℕ
  pub neighbors : ℕ → List ℕ
  pub weight : ℕ → ℕ → Option ℕ

pub record HeapItem : Type 0 where
  pub dist : ℕ
  pub node : ℕ

-- `none` is `f32::INFINITY`.
pub record DijkstraScratch : Type 0 where
  pub dist : List (Option ℕ)
  pub prev : List ℕ
  pub visited : List Bool

-- `u32::MAX`
abbrev pub no_prev : ℕ
no_prev = 4294967295

pub new : DijkstraScratch
new = record { dist = []; prev = []; visited = [] }

-- The buffers are cleared first, so nothing is left of the search before.
pub reset : DijkstraScratch → ℕ → DijkstraScratch
reset scratch n = record {
  dist = replicate n infinity;
  prev = replicate n no_prev;
  visited = replicate n false;
}

-- `a < b` as `Ord for HeapItem` has it: by distance, then by node, both reversed.
pub less : HeapItem → HeapItem → Bool
less a b = ltb b.dist a.dist || nat_beq b.dist a.dist && ltb b.node a.node

-- `BinaryHeap::pop`: a greatest item, and the others.
pub pop : List HeapItem → Option (HeapItem × List HeapItem)
unfolding less
pop [] = none
pop (x ∷ xs) = elim (pop xs) [
  | none ↦ some (x, [])
  | some (top, rest) ↦ if less x top then some (top, x ∷ rest) else some (x, xs)
]

pub record Search : Type 0 where
  pub scratch : DijkstraScratch
  pub open scratch use *
  pub heap : List HeapItem

-- A shorter way to `nb` was found, over `node`.
pub improve : Search → ℕ → ℕ → ℕ → Outcome Search
improve s node nb new_dist = do
  dist ← store s.dist nb (some new_dist)
  prev ← store s.prev nb node
  done (record {
    scratch = record { dist = dist; prev = prev; visited = s.visited };
    heap = record { dist = new_dist; node = nb } ∷ s.heap;
  })

pub mark : Search → ℕ → List HeapItem → Outcome Search
mark s node rest = do
  visited ← store s.visited node true
  done
      (record { scratch = record { dist = s.dist; prev = s.prev; visited = visited }; heap = rest })

-- What the head of a round of `while let Some(..) = heap.pop()` finds: the heap is empty, the
-- node was visited before, or the node is settled now.
pub data Round : Type 0 where
  drained : Round
  skipped : Search → Round
  settled : HeapItem → Search → Round

pub next_round : Search → Outcome Round
unfolding pop mark
next_round s = elim (pop s.heap) [
  | none ↦ done drained
  | some (item, rest) ↦ do
    seen ← index s.visited item.node
    elim seen [
      | true ↦ done (skipped (record { scratch = s.scratch; heap = rest }))
      | false ↦ mark s item.node rest >>= λ s'. done (settled item s')
    ]
]

-- `dist > scratch.dist[idx]`
pub is_stale : ℕ → Option ℕ → Bool
is_stale d none = false
is_stale d (some best) = ltb best d

-- `node == to_u`
pub is_target : HeapItem → ℕ → Bool
is_target item to = nat_beq item.node to

-- The nodes that `reconstruct_path` pushes after `cur`.
pub walk_back : ℕ → List ℕ → ℕ → ℕ → Outcome (List ℕ)
walk_back zero prev from cur = out_of_fuel
walk_back (suc fuel) prev from cur = elim (nat_beq cur from) [
  | true ↦ done []
  | false ↦ do p ← index prev cur; rest ← walk_back fuel prev from p; done (p ∷ rest)
]

pub reconstruct_path : List ℕ → ℕ → ℕ → Outcome (List ℕ)
unfolding walk_back
reconstruct_path prev from to = do
  rest ← walk_back (suc (length prev)) prev from to
  done (reverse (to ∷ rest))

module _ (net : Net) where
  -- One pass of the loop over the neighbours of `cur`.
  pub relax : ℕ → ℕ → Search → ℕ → Outcome Search
  unfolding improve
  relax cur d s nb = do
    seen ← index s.visited nb
    elim seen [
      | true ↦ done s
      | false ↦ do
        w ← or_panic (net.weight cur nb)
        old ← index s.dist nb
        if lt_f32 (add_f32 d w) old then improve s cur nb (add_f32 d w) else done s
    ]

  pub relax_all : ℕ → ℕ → Search → List ℕ → Outcome Search
  relax_all cur d s [] = done s
  relax_all cur d s (nb ∷ nbs) = do s' ← relax cur d s nb; relax_all cur d s' nbs

  -- The rest of a round, after `item.node` is marked: a stale entry is skipped.
  pub expand : HeapItem → Search → Outcome Search
  unfolding relax_all relax is_stale
  expand item s = do
    best ← index s.dist item.node
    if is_stale item.dist best
        then done s
        else relax_all item.node item.dist s (net.neighbors item.node)

  pub loop : ℕ → ℕ → ℕ → Search → Outcome (Option (List ℕ))
  loop zero from to s = out_of_fuel
  loop (suc fuel) from to s = next_round s >>= elim [
    | drained ↦ done none
    | skipped s' ↦ loop fuel from to s'
    | settled item s' ↦ elim (is_target item to) [
      | true ↦ reconstruct_path s'.prev from to >>= λ path. done (some path)
      | false ↦ expand item s' >>= loop fuel from to
    ]
  ]

  -- The sizes of the neighbour lists of the nodes that are not visited, from node `i` on.
  abbrev pub owed : ℕ → List Bool → ℕ
  owed i [] = 0
  owed i (seen ∷ rest) = (if seen then 0 else length (net.neighbors i)) + owed (i + 1) rest

  -- Each round takes an item off the heap, and a node's neighbours are pushed once at most.
  pub rounds : ℕ
  rounds = suc (suc (owed 0 (replicate net.size false)))

  -- `scratch.reset(n)`, the source's distance and the first push.
  pub begin : ℕ → DijkstraScratch → Outcome Search
  unfolding reset
  begin from scratch = do
    let clean = reset scratch net.size
    dist ← store clean.dist from (some 0)
    done (record {
      scratch = record { dist = dist; prev = clean.prev; visited = clean.visited };
      heap = record { dist = 0; node = from } ∷ [];
    })

  pub search_path : ℕ → ℕ → DijkstraScratch → Outcome (Option (List ℕ))
  unfolding begin rounds loop
  search_path from to scratch = do s ← begin from scratch; loop rounds from to s
