-- ===== src/Dijkstra/Chains.antt =====
-- The chains of predecessors in `prev`: each stands for a route, `reconstruct_path` reads it off,
-- and marking or improving other nodes leaves it as it is.
use erbridge_palu.Prelude.{
  ℕ, zero, suc, ◌≤◌, ◌≡◌, ◌≢◌, refl, ◌∙◌, ap, true, false, some, List, [], ◌∷◌, reverse, arith,
  length, get_elem?, tail, done, nat_beq, nat_beq_iff, cond_false,
}
use erbridge_palu.F32.{add_f32}
use erbridge_palu.F32.Laws.{add_f32-grows}
use erbridge_palu.Dijkstra.{Net, DijkstraScratch, walk_back, reconstruct_path}
use erbridge_palu.Dijkstra.Routes.{Edge, Route, here, step}

pub data Chain (net : Net) (from : ℕ) (s : DijkstraScratch) : ℕ → List ℕ → ℕ → Type 0 where
  at_source : Chain net from s from (from ∷ []) zero
  link :
      {v u w c : ℕ} {nodes : List ℕ}
      → get_elem? s.visited u ≡ some true
      → get_elem? s.prev v ≡ some u
      → v ≢ from
      → Edge net u v w
      → Chain net from s u nodes c
      → Chain net from s v (v ∷ nodes) (add_f32 c w)

module _ {net : Net} {from : ℕ} where
  pub Chain-Route :
      {s : DijkstraScratch} {v c : ℕ} {nodes : List ℕ}
      → Chain net from s v nodes c
      → Route net from v nodes c
  Chain-Route at_source = here
  Chain-Route (link _ _ _ e rest) = step (Chain-Route rest) e

  -- The cost of a route is a rounded sum, so adding to it does not make it smaller.
  pub Route-grows :
      {v c : ℕ} {nodes : List ℕ} → Route net from v nodes c → (w : ℕ) → c ≤ add_f32 c w
  Route-grows here w = omega arith
  Route-grows (step {w = x} {c = c} _ _) w = add_f32-grows c x w

  pub Chain-keep :
      {s t : DijkstraScratch} {v c : ℕ} {nodes : List ℕ}
      → ((u : ℕ) → get_elem? s.visited u ≡ some true → get_elem? t.visited u ≡ some true)
      → ((u : ℕ) → get_elem? s.visited u ≡ some true → get_elem? t.prev u ≡ get_elem? s.prev u)
      → get_elem? t.prev v ≡ get_elem? s.prev v
      → Chain net from s v nodes c
      → Chain net from t v nodes c
  Chain-keep seen same head at_source = at_source
  Chain-keep seen same head (link {u = u} vis prev ne e rest) =
      link (seen u vis) (head ∙ prev) ne e (Chain-keep seen same (same u vis) rest)

  Chain-head :
      {s : DijkstraScratch} {v c : ℕ} {nodes : List ℕ}
      → Chain net from s v nodes c
      → v ∷ tail nodes ≡ nodes
  Chain-head at_source = refl
  Chain-head (link _ _ _ _ _) = refl

  Chain-walk_back :
      {s : DijkstraScratch} {v c : ℕ} {nodes : List ℕ}
      → Chain net from s v nodes c
      → (fuel : ℕ) → length nodes ≤ fuel
      → walk_back fuel s.prev from v ≡ done (tail nodes)
  unfolding walk_back
  Chain-walk_back at_source zero h = absurd (omega arith)
  Chain-walk_back at_source (suc fuel) h = rw ((nat_beq_iff from from).1 refl, walk_back)
  Chain-walk_back (link _ _ _ _ _) zero h = absurd (omega arith)
  Chain-walk_back {s} (link {v = v} {u = u} {nodes = nodes} vis prev ne e rest) (suc fuel) h =
      let other : nat_beq v from ≡ false = cond_false _ (λ t. ne ((nat_beq_iff v from).0 t)) in
      rw (other, walk_back, prev, Chain-walk_back rest fuel (omega arith))
        (ap done (Chain-head rest))

  pub Chain-reconstruct :
      {s : DijkstraScratch} {v c : ℕ} {nodes : List ℕ}
      → Chain net from s v nodes c
      → length nodes ≤ suc (length s.prev)
      → reconstruct_path s.prev from v ≡ done (reverse nodes)
  unfolding reconstruct_path
  Chain-reconstruct {s} {nodes = nodes} chain h =
      rw (Chain-walk_back chain (suc (length s.prev)) h)
        (ap (λ l. done (reverse l)) (Chain-head chain))
