-- ===== src/Services/Route/Checked.antt =====
-- The header of a request: what it holds once nothing fails.
use erbridge_palu.Prelude.{
  ℕ, ◌≤◌, ◌<◌, ◌≡◌, refl, sym, ◌∙◌, subst, ◌⊎◌, inl, inr, true, false, List, [], ◌∷◌, length, All,
  nat_eq, ltb, nat_beq, arith, Bool-cases,
}
use erbridge_palu.Prelude.HashSet
use erbridge_palu.Prelude.HashSet.{HashSet}
use erbridge_palu.External.{External}
use erbridge_palu.Error.{AppError, Reply, ok, err, collect}
use erbridge_palu.Dto.{Connection, max_destinations, GateRouteRequest}
use erbridge_palu.EveScout.{EveScoutSnapshot}
use erbridge_palu.Model.{GraphData}
use erbridge_palu.Services.Route.{
  OverlayInputs, inputs_of, Link, resolve_system, resolve_connection, resolve_connections,
  assemble_avoid_set, edge_kind,
}
use erbridge_palu.Services.Route.Compute.{Header, header, no_destination, too_many}
use erbridge_palu.Services.Route.Endpoints.{Serves, resolve_system_bound}
use erbridge_palu.Services.Route.Overlaid.{LinkIn}

pub Reply-cases {ℓ} :
    {A : Type ℓ} (r : Reply A) → ((e : AppError) × (r ≡ err e)) ⊎ ((a : A) × (r ≡ ok a))
Reply-cases (ok a) = inr (a, refl)
Reply-cases (err e) = inl (e, refl)

pub ok-injective {ℓ} : {A : Type ℓ} (a b : A) → ok a ≡ ok b → a ≡ b
ok-injective a b e = cc

module _ {ℓ κ} {A : Type ℓ} {B : Type κ} (f : A → Reply B) (x : A) (xs : List A) where
  pub collect_bad : (e : AppError) → f x ≡ err e → collect f (x ∷ xs) ≡ err e
  collect_bad e h = rw (collect, h) refl

  pub collect_later :
      (y : B) (e : AppError) → f x ≡ ok y → collect f xs ≡ err e → collect f (x ∷ xs) ≡ err e
  collect_later y e h h' = rw (collect, h, h') refl

  pub collect_good :
      (y : B) (ys : List B) → f x ≡ ok y → collect f xs ≡ ok ys → collect f (x ∷ xs) ≡ ok (y ∷ ys)
  collect_good y ys h h' = rw (collect, h, h') refl

collect-All {ℓ κ} :
    {A : Type ℓ} {B : Type κ} (P : B → Type 0) (f : A → Reply B) (xs : List A) (ys : List B)
    → ((x : A) (y : B) → f x ≡ ok y → P y)
    → collect f xs ≡ ok ys
    → All P ys
collect-All P f [] ys each e = subst (All P) (ok-injective [] ys e) tt
collect-All P f (x ∷ xs) ys each e = elim (Reply-cases (f x)) [
  | inl (x', bad) ↦ cc (collect_bad f x xs x' bad)
  | inr (y, good) ↦ elim (Reply-cases (collect f xs)) [
    | inl (e', bad) ↦ cc (collect_later f x xs y e' good bad)
    | inr (zs, good') ↦
        subst (All P) (ok-injective _ _ (sym (collect_good f x xs y zs good good') ∙ e))
          (each x y good, collect-All P f xs zs each good')
  ]
]

module _ (X : External) (graph : GraphData X) (serves : Serves X graph) where
  from_bad :
      (c : Connection) (e : AppError)
      → resolve_system X graph c.from ≡ err e
      → resolve_connection X graph c ≡ err e
  unfolding resolve_connection
  from_bad c e h = rw (resolve_connection, h) refl

  to_bad :
      (c : Connection) (a : ℕ) (e : AppError)
      → resolve_system X graph c.from ≡ ok a
      → resolve_system X graph c.to ≡ err e
      → resolve_connection X graph c ≡ err e
  unfolding resolve_connection
  to_bad c a e h h' = rw (resolve_connection, h, h') refl

  ends :
      (c : Connection) (a b : ℕ)
      → resolve_system X graph c.from ≡ ok a
      → resolve_system X graph c.to ≡ ok b
      → resolve_connection X graph c ≡ ok (a, b, edge_kind c.kind)
  unfolding resolve_connection
  ends c a b h h' = rw (resolve_connection, h, h') refl

  resolve_connection_in :
      (c : Connection) (l : Link) → resolve_connection X graph c ≡ ok l → LinkIn X graph serves l
  resolve_connection_in c l e = elim (Reply-cases (resolve_system X graph c.from)) [
    | inl (e', bad) ↦ cc (from_bad c e' bad)
    | inr (a, at) ↦ elim (Reply-cases (resolve_system X graph c.to)) [
      | inl (e', bad) ↦ cc (to_bad c a e' at bad)
      | inr (b, bt) ↦
          subst (LinkIn X graph serves) (ok-injective _ _ (sym (ends c a b at bt) ∙ e)) (
            resolve_system_bound X graph serves c.from a at,
            resolve_system_bound X graph serves c.to b bt,
          )
    ]
  ]

  pub resolve_connections_in :
      (inputs : OverlayInputs) (links : List Link)
      → resolve_connections X graph inputs ≡ ok links
      → All (LinkIn X graph serves) links
  unfolding resolve_connections
  resolve_connections_in inputs links e =
      collect-All (LinkIn X graph serves) (resolve_connection X graph) inputs.connections links
        resolve_connection_in e

  module _ (scout : EveScoutSnapshot X) (req : GateRouteRequest) where
    -- A header that was accepted: it has the source, the avoid set without it and the connections,
    -- and the number of destinations is in its bounds.
    pub record Checks (h : Header X graph scout) : Type 0 where
      pub some_to : 1 ≤ length req.to
      pub not_too_many : length req.to ≤ max_destinations
      pub from_is : resolve_system X graph req.from ≡ ok h.from
      pub from_in : h.from < length graph.systems
      pub avoid : HashSet ℕ
      pub avoid_is : assemble_avoid_set X graph (inputs_of req) ≡ ok avoid
      pub shared_is : h.shared_avoid ≡ HashSet.remove h.from avoid
      pub links_are : resolve_connections X graph (inputs_of req) ≡ ok h.connections
      pub links_in : All (LinkIn X graph serves) h.connections

    -- The header of a request with a number of destinations in the bounds.
    header_empty : nat_beq (length req.to) 0 ≡ true → header X graph scout req ≡ err no_destination
    unfolding header
    header_empty n = rw (header, n) refl

    header_many :
        nat_beq (length req.to) 0 ≡ false
        → ltb max_destinations (length req.to) ≡ true
        → header X graph scout req ≡ err (too_many (length req.to))
    unfolding header too_many
    header_many n m = rw (header, n, m) refl

    module _ (n : nat_beq (length req.to) 0 ≡ false)
        (m : ltb max_destinations (length req.to) ≡ false) where
      header_from :
          (e : AppError)
          → resolve_system X graph req.from ≡ err e
          → header X graph scout req ≡ err e
      unfolding header
      header_from e h = rw (header, n, m, h) refl

      module _ (from : ℕ) (at : resolve_system X graph req.from ≡ ok from) where
        header_avoid :
            (e : AppError)
            → assemble_avoid_set X graph (inputs_of req) ≡ err e
            → header X graph scout req ≡ err e
        unfolding header
        header_avoid e h = rw (header, n, m, at, h) refl

        module _ (avoid : HashSet ℕ)
            (set : assemble_avoid_set X graph (inputs_of req) ≡ ok avoid) where
          header_links :
              (e : AppError)
              → resolve_connections X graph (inputs_of req) ≡ err e
              → header X graph scout req ≡ err e
          unfolding header
          header_links e h = rw (header, n, m, at, set, h) refl

          header_all :
              (links : List Link)
              → resolve_connections X graph (inputs_of req) ≡ ok links
              → header X graph scout req
                ≡ ok (record {
                  from = from;
                  shared_avoid = HashSet.remove from avoid;
                  connections = links;
                })
          unfolding header
          header_all links h = rw (header, n, m, at, set, h) refl

    Checks-of :
        (from : ℕ) (avoid : HashSet ℕ) (links : List Link)
        → nat_beq (length req.to) 0 ≡ false
        → ltb max_destinations (length req.to) ≡ false
        → resolve_system X graph req.from ≡ ok from
        → assemble_avoid_set X graph (inputs_of req) ≡ ok avoid
        → resolve_connections X graph (inputs_of req) ≡ ok links
        → Checks
            (record { from = from; shared_avoid = HashSet.remove from avoid; connections = links })
    Checks-of from avoid links n m at set made = record {
      some_to = ground arith;
      not_too_many = ground arith;
      from_is = at;
      from_in = resolve_system_bound X graph serves req.from from at;
      avoid = avoid;
      avoid_is = set;
      shared_is = refl;
      links_are = made;
      links_in = resolve_connections_in (inputs_of req) links made;
    }

    -- A header that is accepted has 1 to 1000 destinations; its source and its connections are
    -- resolved and in range, and its avoid set is the assembled one without the source.
    pub header-Checks : (h : Header X graph scout) → header X graph scout req ≡ ok h → Checks h
    header-Checks h e = elim (Bool-cases (nat_beq (length req.to) 0)) [
      | inl n ↦ cc (header_empty n)
      | inr n ↦ elim (Bool-cases (ltb max_destinations (length req.to))) [
        | inl m ↦ cc (header_many n m)
        | inr m ↦ elim (Reply-cases (resolve_system X graph req.from)) [
          | inl (x, bad) ↦ cc (header_from n m x bad)
          | inr (from, at) ↦ elim (Reply-cases (assemble_avoid_set X graph (inputs_of req))) [
            | inl (x, bad) ↦ cc (header_avoid n m from at x bad)
            | inr (avoid, set) ↦ elim (Reply-cases (resolve_connections X graph (inputs_of req))) [
              | inl (x, bad) ↦ cc (header_links n m from at avoid set x bad)
              | inr (links, made) ↦
                  subst Checks
                    (ok-injective _ _ (sym (header_all n m from at avoid set links made) ∙ e))
                    (Checks-of from avoid links n m at set made)
            ]
          ]
        ]
      ]
    ]
