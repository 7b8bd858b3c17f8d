-- ===== src/Dijkstra/Invariant.antt =====
-- The invariant of the search loop, and why it makes settled distances the least ones.
use erbridge_palu.Prelude.{
  ℕ, suc, ◌≤◌, ◌<◌, ◌≡◌, ◌≢◌, ◌∙◌, ap, ◌⊎◌, inl, inr, Bool, true, false, some, List, [], ◌∷◌, Memᴰ,
  arith, length, get_elem?, get_elem?_lt, Bool-cases, lt-length_of_get_elem?,
}
use erbridge_palu.F32.{add_f32}
use erbridge_palu.F32.Laws.{add_f32_mono}
use erbridge_palu.Dijkstra.{Net, Search, HeapItem}
use erbridge_palu.Dijkstra.Routes.{IsNet, Edge, Route, here, step}
use erbridge_palu.Dijkstra.Chains.{Chain, Route-grows}

-- The nodes that are visited.
abbrev pub count_seen : List Bool → ℕ
count_seen [] = 0
count_seen (true ∷ bs) = suc (count_seen bs)
count_seen (false ∷ bs) = count_seen bs

-- The tentative distance of `v` is `b`.
abbrev pub Dist : Search → ℕ → ℕ → Type 0
Dist s v b = get_elem? s.dist v ≡ some (some b)

abbrev pub Seen : Search → ℕ → Type 0
Seen s v = get_elem? s.visited v ≡ some true

abbrev pub Unseen : Search → ℕ → Type 0
Unseen s v = get_elem? s.visited v ≡ some false

-- The tentative distance of `v` is at most `k`.
abbrev pub Within : Search → ℕ → ℕ → Type 0
Within s v k = (b : ℕ) × Dist s v b × (b ≤ k)

-- What holds at the head of a round and within it; `level` lies between the distances of the
-- visited nodes and the keys in the heap.
pub record Inv (net : Net) (from level : ℕ) (s : Search) : Type 0 where
  pub dist_size : length s.dist ≡ net.size
  pub prev_size : length s.prev ≡ net.size
  pub visited_size : length s.visited ≡ net.size
  pub source : Dist s from 0
  pub queued : (item : HeapItem) → Memᴰ item s.heap → Within s item.node item.dist
  pub above : (item : HeapItem) → Memᴰ item s.heap → level ≤ item.dist
  pub waiting : (v b : ℕ) → Unseen s v → Dist s v b → Memᴰ (record { dist = b; node = v }) s.heap
  pub below : (v : ℕ) → Seen s v → Within s v level
  pub chained :
      (v b : ℕ)
      → Dist s v b
      → (nodes : List ℕ) × Chain net from s.scratch v nodes b
        × (length nodes ≤ suc (count_seen s.visited))
  pub chained_seen :
      (v b : ℕ)
      → Seen s v
      → Dist s v b
      → (nodes : List ℕ) × Chain net from s.scratch v nodes b
        × (length nodes ≤ count_seen s.visited)

-- The edges out of `u` were followed.
abbrev pub Followed : Net → Search → ℕ → Type 0
Followed net s u = (v w b : ℕ) → Edge net u v w → Dist s u b → Within s v (add_f32 b w)

-- Every visited node, but for `cur`, was expanded.
abbrev pub ClosedBut : Net → Search → ℕ → Type 0
ClosedBut net s cur = (u : ℕ) → u ≢ cur → Seen s u → Followed net s u

abbrev pub Closed : Net → Search → Type 0
Closed net s = (u : ℕ) → Seen s u → Followed net s u

-- No route to a visited node is cheaper than its distance.
abbrev pub Optimal : Net → ℕ → Search → Type 0
Optimal net from s =
    (v b c : ℕ) (nodes : List ℕ) → Seen s v → Dist s v b → Route net from v nodes c → b ≤ c

pub Dist-unique : (s : Search) (v b c : ℕ) → Dist s v b → Dist s v c → b ≡ c
Dist-unique s v b c p q = cc

pub Seen-cases : (s : Search) (v : ℕ) → v < length s.visited → Seen s v ⊎ Unseen s v
Seen-cases s v h =
    let (b, e) = get_elem?_lt s.visited v h in
    elim (Bool-cases b) [ inl t ↦ inl (e ∙ ap some t) | inr f ↦ inr (e ∙ ap some f) ]

module _ {net : Net} {from level : ℕ} {s : Search} (ok : IsNet net)
    (inv : Inv net from level s) where
  open inv use {dist_size, visited_size, source, queued, above, waiting, below}

  pub size-source : from < net.size
  size-source = omega (arith, lt-length_of_get_elem? s.dist from (some 0) source, dist_size)

  pub Route-in_range : {v c : ℕ} {nodes : List ℕ} → Route net from v nodes c → v < net.size
  Route-in_range here = size-source
  Route-in_range (step {u = u} {v = v} r e) = ok.in_range u v e.0

  Reaches : ℕ → ℕ → Type 0
  Reaches v c = Seen s v × Within s v c ⊎ ((item : HeapItem) × Memᴰ item s.heap × (item.dist ≤ c))

  arrive : (v b c : ℕ) → v < net.size → Dist s v b → b ≤ c → Reaches v c
  unfolding Reaches
  arrive v b c h d le = elim (Seen-cases s v (omega (arith, visited_size))) [
    | inl seen ↦ inl (seen, (b, d, le))
    | inr unseen ↦ inr (record { dist = b; node = v }, waiting v b unseen d, le)
  ]

  -- A route leads to a visited node, or its cost is that of a heap item or more.
  pub frontier :
      Closed net s
      → {v c : ℕ} {nodes : List ℕ} → Route net from v nodes c
      → Seen s v × Within s v c ⊎ ((item : HeapItem) × Memᴰ item s.heap × (item.dist ≤ c))
  unfolding arrive Reaches
  frontier closed here = arrive from 0 0 size-source source (omega arith)
  frontier closed (step {u = u} {v = v} {w = w} {c = c} r e) = elim (frontier closed r) [
    | inl (seen, (b, d, le)) ↦
        let (b', d', le') = closed u seen v w b e d in
        arrive v b' (add_f32 c w) (ok.in_range u v e.0) d' (omega (arith, add_f32_mono b c w le))
    | inr (item, m, le) ↦ inr (item, m, omega (arith, Route-grows r w))
  ]
