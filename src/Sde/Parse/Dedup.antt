-- ===== src/Sde/Parse/Dedup.antt =====
-- `parse_gate_pairs`: what it returns are the links of the rows, each once.
use erbridge_palu.Prelude.{
  ◌≡◌, ◌≢◌, refl, sym, ◌∙◌, ap, subst, ◌↔◌, ◌⊎◌, inl, inr, true, false, ◌||◌, Option, List, [], ◌∷◌,
  ◌++◌, Memᴰ, ℤ, pos, negsuc, leb_ℤ, Text, int_eq, pair_eq, ◌==◌, Bool-cases, eq_of_beq, beq_self,
  beq_ne, arith,
}
use mathlib.Core.List.Memᴰ
use erbridge_palu.Prelude.HashSet
use erbridge_palu.Sde.Parse.Lines.{Rows, fold_rows, read_lines-Rows}
use erbridge_palu.Sde.Parse.{
  parsed, read_lines, RawStargate, Pairs, pair_key, push_pair, no_pairs, parse_gate_pairs,
  map_parsed,
}

-- A link as it is kept: the smaller id first.
abbrev pub Ordered : ℤ × ℤ → Type 0
Ordered p = leb_ℤ p.0 p.1 ≡ true

leb_ℤ_flip : (a b : ℤ) → leb_ℤ a b ≡ false → leb_ℤ b a ≡ true
leb_ℤ_flip (pos a) (pos b) h = ground arith
leb_ℤ_flip (pos a) (negsuc b) h = refl
leb_ℤ_flip (negsuc a) (pos b) h = cc
leb_ℤ_flip (negsuc a) (negsuc b) h = ground arith

pair_key-Ordered : (a b : ℤ) → Ordered (pair_key a b)
unfolding pair_key
pair_key-Ordered a b = elim (Bool-cases (leb_ℤ a b)) [
  | inl le ↦ rw le le
  | inr gt' ↦ rw gt' (leb_ℤ_flip a b gt')
]

abbrev pub link_of : RawStargate → ℤ × ℤ
link_of r = pair_key r.solar_system_id r.destination

-- The links of the rows, each once and ordered.
pub record IsLinks (rows : List RawStargate) (pairs : List (ℤ × ℤ)) : Type 0 where
  pub ordered : (p : ℤ × ℤ) → Memᴰ p pairs → Ordered p
  pub once : HashSet.Distinct pairs
  pub exactly : (p : ℤ × ℤ) → Memᴰ p pairs ↔ ((r : RawStargate) × Memᴰ r rows × (p ≡ link_of r))

contains-snoc :
    (a b : ℤ × ℤ) (xs : List (ℤ × ℤ))
    → HashSet.contains a (xs ++ b ∷ []) ≡ (HashSet.contains a xs || b == a)
unfolding HashSet.contains
contains-snoc a b [] = elim (Bool-cases (b == a)) [ inl e ↦ rw e refl | inr e ↦ rw e refl ]
contains-snoc a b (x ∷ xs) = elim (Bool-cases (x == a)) [
  | inl e ↦ rw e refl
  | inr e ↦ rw e (contains-snoc a b xs)
]

Distinct-snoc :
    (b : ℤ × ℤ) (xs : List (ℤ × ℤ))
    → HashSet.Distinct xs
    → HashSet.contains b xs ≡ false
    → HashSet.Distinct (xs ++ b ∷ [])
unfolding HashSet.contains
Distinct-snoc b [] d h = (refl, tt)
Distinct-snoc b (x ∷ xs) (new, d) h = elim (Bool-cases (x == b)) [
  | inl e ↦ cc
  | inr e ↦ (
    contains-snoc x b xs ∙ rw (new, beq_ne b x (λ same. cc (beq_self b))) refl,
    Distinct-snoc b xs d (rw e at h),
  )
]

snoc-mem : (p b : ℤ × ℤ) (xs : List (ℤ × ℤ)) → Memᴰ p (xs ++ b ∷ []) ↔ (Memᴰ p xs ⊎ (p ≡ b))
snoc-mem p b [] = (
  λ m. inr (Memᴰ.eq_of_singleton m),
  elim [ inl m ↦ absurd (Memᴰ.not-nil m) | inr e ↦ Memᴰ.head e ],
)
snoc-mem p b (x ∷ xs) = (
  λ m. elim (Memᴰ.cases_cons m) [
    | inl same ↦ inl (Memᴰ.head same)
    | inr later ↦ elim ((snoc-mem p b xs).0 later) [ inl m' ↦ inl (Memᴰ.tail m') | inr e ↦ inr e ]
  ],
  elim [
    | inr e ↦ Memᴰ.tail ((snoc-mem p b xs).1 (inr e))
    | inl m ↦ elim (Memᴰ.cases_cons m) [
      | inl same ↦ Memᴰ.head same
      | inr later ↦ Memᴰ.tail ((snoc-mem p b xs).1 (inl later))
    ]
  ],
)

-- The pairs so far are those that were seen, each once.
record Held (p : Pairs) : Type 0 where
  seen_iff : (k : ℤ × ℤ) → (HashSet.contains k p.seen ≡ true) ↔ Memᴰ k p.pairs
  once : HashSet.Distinct p.pairs

contains_of_mem : (k : ℤ × ℤ) (xs : List (ℤ × ℤ)) → HashSet.contains k xs ≡ true → Memᴰ k xs
unfolding HashSet.contains
contains_of_mem k [] h = cc
contains_of_mem k (x ∷ xs) h = elim (Bool-cases (x == k)) [
  | inl e ↦ Memᴰ.head (sym (eq_of_beq x k e))
  | inr e ↦ Memᴰ.tail (contains_of_mem k xs (rw e at h))
]

link-cases : (k j : ℤ × ℤ) → (k ≡ j) ⊎ (k ≢ j)
link-cases k j = elim (Bool-cases (k == j)) [
  | inl e ↦ inl (eq_of_beq k j e)
  | inr e ↦ inr (λ same. cc (beq_self k))
]

push_seen :
    (p : Pairs) (r : RawStargate) → HashSet.contains (link_of r) p.seen ≡ true → push_pair p r ≡ p
unfolding push_pair
push_seen p r h = rw h refl

push_unseen :
    (p : Pairs) (r : RawStargate)
    → HashSet.contains (link_of r) p.seen ≡ false
    → push_pair p r
      ≡ record { seen = HashSet.insert (link_of r) p.seen; pairs = p.pairs ++ link_of r ∷ [] }
unfolding push_pair
push_unseen p r h = rw h refl

Held-new :
    (p : Pairs) (k : ℤ × ℤ)
    → Held p
    → HashSet.contains k p.seen ≡ false
    → Held (record { seen = HashSet.insert k p.seen; pairs = p.pairs ++ k ∷ [] })
Held-new p k ok new = record {
  seen_iff = λ j. elim (link-cases k j) [
    | inl same ↦ (
      λ h. (snoc-mem j k p.pairs).1 (inr (sym same)),
      λ m.
          subst (λ x. HashSet.contains x (HashSet.insert k p.seen) ≡ true) same
            (HashSet.contains-insert_self k p.seen),
    )
    | inr apart ↦ (
      λ h.
          (snoc-mem j k p.pairs).1
            (inl ((ok.seen_iff j).0 (sym (HashSet.contains-insert_ne k j p.seen apart) ∙ h))),
      λ m. elim ((snoc-mem j k p.pairs).0 m) [
        | inl old ↦ HashSet.contains-insert_ne k j p.seen apart ∙ (ok.seen_iff j).1 old
        | inr same ↦ absurd (apart (sym same))
      ],
    )
  ];
  once = Distinct-snoc k p.pairs ok.once (elim (Bool-cases (HashSet.contains k p.pairs)) [
    | inl old ↦ cc ((ok.seen_iff k).1 (contains_of_mem k p.pairs old))
    | inr absent ↦ absent
  ]);
}

push_lem :
    (p : Pairs) (r : RawStargate)
    → Held p
    → Held (push_pair p r)
      × ((k : ℤ × ℤ) → Memᴰ k (push_pair p r).pairs ↔ (Memᴰ k p.pairs ⊎ (k ≡ link_of r)))
push_lem p r ok = elim (Bool-cases (HashSet.contains (link_of r) p.seen)) [
  | inl old ↦
      subst (λ q. Held q × ((k : ℤ × ℤ) → Memᴰ k q.pairs ↔ (Memᴰ k p.pairs ⊎ (k ≡ link_of r))))
        (sym (push_seen p r old))
        (
          ok,
          λ k. (
            λ m. inl m,
            elim [
              | inl m ↦ m
              | inr same ↦
                  (ok.seen_iff k).0 (subst (λ x. HashSet.contains x p.seen ≡ true) (sym same) old)
            ],
          ),
        )
  | inr new ↦
      subst (λ q. Held q × ((k : ℤ × ℤ) → Memᴰ k q.pairs ↔ (Memᴰ k p.pairs ⊎ (k ≡ link_of r))))
        (sym (push_unseen p r new))
        (Held-new p (link_of r) ok new, λ k. snoc-mem k (link_of r) p.pairs)
]

fold_lem :
    (from_str : Text → Option RawStargate) (p : Pairs) (rows : List RawStargate)
    → Held p
    → Held (fold_rows from_str push_pair p rows)
      × ((k : ℤ × ℤ)
          → Memᴰ k (fold_rows from_str push_pair p rows).pairs
            ↔ (Memᴰ k p.pairs ⊎ ((r : RawStargate) × Memᴰ r rows × (k ≡ link_of r))))
fold_lem from_str p [] ok =
    (ok, λ k. (λ m. inl m, elim [ inl m ↦ m | inr (r, m, _) ↦ absurd (Memᴰ.not-nil m) ]))
fold_lem from_str p (r ∷ rs) ok =
    let (ok', step) = push_lem p r ok in
    let (ok'', rest) = fold_lem from_str (push_pair p r) rs ok' in
    (
      ok'',
      λ k. (
        λ m. elim ((rest k).0 m) [
          | inl before ↦ elim ((step k).0 before) [
            | inl old ↦ inl old
            | inr same ↦ inr (r, Memᴰ.head refl, same)
          ]
          | inr (q, m', same) ↦ inr (q, Memᴰ.tail m', same)
        ],
        elim [
          | inl old ↦ (rest k).1 (inl ((step k).1 (inl old)))
          | inr (q, m', same) ↦ elim (Memᴰ.cases_cons m') [
            | inl here ↦ (rest k).1 (inl ((step k).1 (inr (same ∙ ap link_of here))))
            | inr later ↦ (rest k).1 (inr (q, later, same))
          ]
        ],
      ),
    )

no_pairs-Held : Held no_pairs
unfolding HashSet.contains
no_pairs-Held = record { seen_iff = λ k. (λ h. cc, λ m. absurd (Memᴰ.not-nil m)); once = tt }

parse_is :
    (from_str : Text → Option RawStargate) (lines : List (Option Text)) (s : Pairs)
    → read_lines from_str push_pair 0 no_pairs lines ≡ parsed s
    → parse_gate_pairs from_str lines ≡ parsed s.pairs
unfolding parse_gate_pairs map_parsed
parse_is from_str lines s e = rw e refl

-- Where every line is blank or read as a stargate, the parser returns the links of those
-- stargates: each link once, its smaller system id first, and no others.
pub parse_gate_pairs-IsLinks :
    (from_str : Text → Option RawStargate) (lines : List (Option Text)) (rows : List RawStargate)
    → Rows from_str lines rows
    → (pairs : List (ℤ × ℤ)) × (parse_gate_pairs from_str lines ≡ parsed pairs) × IsLinks rows pairs
parse_gate_pairs-IsLinks from_str lines rows rs =
    let (held, mem) = fold_lem from_str no_pairs rows no_pairs-Held in
    (
      (fold_rows from_str push_pair no_pairs rows).pairs,
      parse_is from_str lines _ (read_lines-Rows from_str push_pair 0 no_pairs lines rows rs),
      record {
        ordered = λ k m. elim ((mem k).0 m) [
          | inl none_yet ↦ absurd (Memᴰ.not-nil none_yet)
          | inr (r, _, same) ↦
              subst Ordered (sym same) (pair_key-Ordered r.solar_system_id r.destination)
        ];
        once = held.once;
        exactly = λ k. (
          λ m. elim ((mem k).0 m) [
            | inl none_yet ↦ absurd (Memᴰ.not-nil none_yet)
            | inr found ↦ found
          ],
          λ found. (mem k).1 (inr found),
        );
      },
    )
