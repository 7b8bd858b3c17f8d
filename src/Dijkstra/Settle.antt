-- ===== src/Dijkstra/Settle.antt =====
-- A whole round of the search: what its head can find, and the expansion of the marked node.
use erbridge_palu.Prelude.{
  ℕ, ◌+◌, ◌≤◌, ◌<◌, ◌≡◌, ◌≢◌, refl, sym, ◌∙◌, ap, inl, inr, some, List, [], arith, length,
  get_elem?, ℕ_discrete, done, subst, lt-length_of_get_elem?,
}
use erbridge_palu.F32.{add_f32}
use erbridge_palu.Dijkstra.{Net, Search, HeapItem, drained, skipped, settled, next_round, expand}
use erbridge_palu.Dijkstra.Heap.{Pops, pop-cases}
use erbridge_palu.Dijkstra.Routes.{IsNet, Edge}
use erbridge_palu.Dijkstra.Invariant.{Dist, Seen, Within, Dist-unique, Seen-cases}
use erbridge_palu.Dijkstra.Scan.{Scanned, relax_all_scans}
use erbridge_palu.Dijkstra.Mark.{
  Sound, Marked, work, owed-set_start, not_stale, marked, mark_done, still-Seen, Seen-before,
  marked-Marked,
}

-- How the head of a round can end. It never panics.
pub data Head (net : Net) (from : ℕ) (s : Search) : Type 0 where
  empties : next_round s ≡ done drained → s.heap ≡ [] → Head net from s
  skips :
      (t : Search)
      → next_round s ≡ done (skipped t)
      → Sound net from t
      → t.scratch ≡ s.scratch
      → work net t < work net s
      → Head net from s
  settles :
      (item : HeapItem) (t : Search)
      → next_round s ≡ done (settled item t)
      → Marked net from item t
      → ((v : ℕ) → Seen s v → Seen t v)
      → ((v : ℕ) → v ≢ item.node → Seen t v → Seen s v)
      → work net t + length (net.neighbors item.node) < work net s
      → Head net from s

module _ (net : Net) (from : ℕ) (ok : IsNet net) where
  Sound-skipped :
      (s : Search) (item : HeapItem) (rest : List HeapItem)
      → Sound net from s
      → Pops s.heap item rest
      → Seen s item.node
      → Sound net from (record { scratch = s.scratch; heap = rest })
  Sound-skipped s item rest sound pops seen = record {
    level = sound.level;
    inv = record {
      dist_size = sound.inv.dist_size;
      prev_size = sound.inv.prev_size;
      visited_size = sound.inv.visited_size;
      source = sound.inv.source;
      queued = λ x m. sound.inv.queued x (pops.old x m);
      above = λ x m. sound.inv.above x (pops.old x m);
      waiting = λ v b un h.
          elim (pops.kept (record { dist = b; node = v }) (sound.inv.waiting v b un h)) [
            | inl e ↦ let same : v ≡ item.node = ap (λ x. x.node) e in cc
            | inr m ↦ m
          ];
      below = sound.inv.below;
      chained = sound.inv.chained;
      chained_seen = sound.inv.chained_seen;
    };
    closed = sound.closed;
    optimal = sound.optimal;
  }

  pub Head-cases : (s : Search) → Sound net from s → Head net from s
  unfolding next_round
  Head-cases s sound = elim (pop-cases s.heap) [
    | inl e ↦ empties (rw (e, next_round) refl) e
    | inr (item, rest, e, pops) ↦
        let (b, at, _) = sound.inv.queued item pops.taken in
        let in_range = lt-length_of_get_elem? s.dist item.node (some b) at in
        elim (Seen-cases s item.node (omega (arith, sound.inv.dist_size, sound.inv.visited_size))) [
          | inl seen ↦
              skips (record { scratch = s.scratch; heap = rest }) (rw (next_round, e, seen) refl)
                (Sound-skipped s item rest sound pops seen) refl (omega (arith, pops.shorter))
          | inr unseen ↦
              settles item (marked s item.node rest)
                (rw (next_round, e, unseen, mark_done s item.node rest unseen) refl)
                (marked-Marked net from sound.level s item rest ok sound.inv pops unseen
                  sound.closed sound.optimal)
                (still-Seen net from sound.level s item rest ok sound.inv pops unseen)
                (Seen-before net from sound.level s item rest ok sound.inv pops unseen)
                (omega (arith, pops.shorter, owed-set_start net s.visited item.node unseen))
        ]
  ]

  module _ (item : HeapItem) (t u : Search) (m : Marked net from item t)
      (scan : Scanned net from item.dist ok item.node t u (net.neighbors item.node)) where
    -- The distance of a visited node is the one that it had.
    settled_before : (v b : ℕ) → Seen u v → Dist u v b → Seen t v × Dist t v b
    settled_before v b seen h =
        let before = ap (λ l. get_elem? l v) (sym scan.after.same) ∙ seen in
        let (b', h', _) = m.inv.below v before in
        let e = Dist-unique u v b' b (scan.after.fixed v b' before h') h in
        (before, subst (Dist t v) e h')

    Sound-expanded : Sound net from u
    Sound-expanded = record {
      level = item.dist;
      inv = scan.after.inv;
      closed = λ x seen v w b edge h.
          let (before, h') = settled_before x b seen h in
          elim (ℕ_discrete x item.node) [
            | yes e ↦
                let at =
                  Dist-unique t item.node b item.dist (subst (λ y. Dist t y b) e h') m.dist in
                let (near, weight) = subst (λ y. Edge net y v w) e edge in
                subst (λ y. Within u v (add_f32 y w)) (sym at) (scan.followed v w near weight)
            | no ne ↦
                let (c, now, le) = m.closed x ne before v w b edge h' in
                let (c', now', le') = scan.after.lower v c now in (c', now', omega arith)
          ];
      optimal = λ v b c nodes seen h r.
          let (before, h') = settled_before v b seen h in m.optimal v b c nodes before h' r;
    }

  pub expand_lem :
      (item : HeapItem) (t : Search)
      → Marked net from item t
      → (u : Search) × (expand net item t ≡ done u)
        × Sound net from u
        × (u.visited ≡ t.visited)
        × (length u.heap ≤ length t.heap + length (net.neighbors item.node))
  unfolding expand
  expand_lem item t m =
      let (u, e, scan) =
        relax_all_scans net from item.dist ok item.node t (net.neighbors item.node) m.inv m.seen
          m.dist (λ v h. h) in
      (
        u,
        rw (expand, m.dist, not_stale item.dist) e,
        Sound-expanded item t u m scan,
        scan.after.same,
        omega (arith, scan.pushes),
      )
