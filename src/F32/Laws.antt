-- ===== src/F32/Laws.antt =====
-- What the search needs of `f32` sums: they are monotone, and adding does not make a distance
-- smaller. Below 2 ^ 24 they are exact.
use erbridge_palu.Prelude.{
  ℕ, zero, suc, ◌≤◌, ◌<◌, ◌+◌, ◌*◌, ◌/◌, ◌%◌, ◌≡◌, refl, ◌∙◌, subst, inl, inr, arith, ltb,
  Bool-cases, lt→ltb, nat_beq, dec_lt,
}
use native.Mathlib.Nat.{
  div-add-mod', div-mul-le_self, mul-div_cancel, mul-mod_left, mul-le-mul_right, le-div_iff_mul-le,
  le_trans, mul-one, le_of_mul-le-mul_right,
}
use erbridge_palu.F32.{pick, nearest, round_from, round, add_f32, significand_end}

pick_bounds : (u q r : ℕ) → (q * u ≤ pick u q r) × (pick u q r ≤ q * u + u)
unfolding pick
pick_bounds u q r = ground arith

pick_mono : (u q r r' : ℕ) → r ≤ r' → pick u q r ≤ pick u q r'
unfolding pick
pick_mono u q r r' h = ground arith

pick_exact : (u q : ℕ) → 0 < u → pick u q 0 ≡ q * u
unfolding pick
pick_exact u q h = ground arith

pick_multiple : (u q r : ℕ) → (m : ℕ) × (pick u q r ≡ m * u)
unfolding pick
pick_multiple u q r = elim (Bool-cases (ltb (2 * r) u)) [
  | inl e ↦ (q, rw e refl)
  | inr e ↦ elim (Bool-cases (ltb u (2 * r))) [
    | inl e' ↦ (q + 1, rw (e, e') refl)
    | inr e' ↦ elim (Bool-cases (nat_beq (q % 2) 0)) [
      | inl e'' ↦ (q, rw (e, e', e'') refl)
      | inr e'' ↦ (q + 1, rw (e, e', e'') refl)
    ]
  ]
]

div_mono : (u x y : ℕ) → 0 < u → x ≤ y → x / u ≤ y / u
div_mono u x y h le = (le-div_iff_mul-le h).1 (le_trans (div-mul-le_self x u) le)

module _ (u : ℕ) (h : 0 < u) where
  suc_multiple : (p q : ℕ) → p < q → p * u + u ≤ q * u
  suc_multiple p q le = omega (arith, mul-le-mul_right u le)

  nearest-ge : (q n : ℕ) → q * u ≤ n → q * u ≤ nearest u n
  unfolding nearest
  nearest-ge q n le =
      le_trans (mul-le-mul_right u ((le-div_iff_mul-le h).1 le)) ((pick_bounds u (n / u) (n % u)).0)

  nearest-le : (q n : ℕ) → n ≤ q * u → nearest u n ≤ q * u
  unfolding nearest
  nearest-le q n le = elim (dec_lt (n / u) q) [
    | yes less ↦ omega (arith, (pick_bounds u (n / u) (n % u)).1, suc_multiple (n / u) q less)
    | no more ↦
        let ge : q * u ≤ n / u * u = mul-le-mul_right u (omega arith) in
        let exact : n % u ≡ 0 = omega (arith, div-add-mod' n u) in
        rw (exact, pick_exact u (n / u) h) (omega (arith, div-add-mod' n u))
  ]

  nearest_mono : (x y : ℕ) → x ≤ y → nearest u x ≤ nearest u y
  unfolding nearest
  nearest_mono x y le = elim (dec_lt (x / u) (y / u)) [
    | yes less ↦ omega (
      arith,
      (pick_bounds u (x / u) (x % u)).1,
      (pick_bounds u (y / u) (y % u)).0,
      suc_multiple (x / u) (y / u) less,
    )
    | no more ↦
        let same : x / u ≡ y / u = omega (arith, div_mono u x y h le) in
        let parts : y / u * u + x % u ≡ x = rw same at (div-add-mod' x u) in
        rw same (pick_mono u (y / u) (x % u) (y % u) (omega (arith, div-add-mod' y u)))
  ]

  nearest_exact : (m : ℕ) → nearest u (m * u) ≡ m * u
  unfolding nearest
  nearest_exact m = rw (mul-div_cancel m h, mul-mod_left m u) (pick_exact u m h)

  -- The result is a multiple of the unit in the last place.
  nearest_multiple : (n : ℕ) → (m : ℕ) × (nearest u n ≡ m * u)
  unfolding nearest
  nearest_multiple n = pick_multiple u (n / u) (n % u)

module _ (f u n : ℕ) where
  narrow : n < significand_end * u → round_from (suc f) u n ≡ nearest u n
  unfolding round_from
  narrow h = rw (lt→ltb n (significand_end * u) h) refl

  wide : significand_end * u ≤ n → round_from (suc f) u n ≡ round_from f (2 * u) n
  unfolding round_from
  wide h = ground arith

widest : (u n : ℕ) → round_from zero u n ≡ nearest u n
unfolding round_from
widest u n = refl

-- What was rounded in a wider binade is not below it.
round_from-ge :
    (f u n : ℕ) → 0 < u → significand_end * u ≤ n → significand_end * u ≤ round_from f (2 * u) n
round_from-ge zero u n h le =
    rw (widest (2 * u) n) (omega (arith, nearest-ge (2 * u) (omega arith) 8388608 n (omega arith)))
round_from-ge (suc f) u n h le = elim (dec_lt n (significand_end * (2 * u))) [
  | yes less ↦
      rw (narrow f (2 * u) n less)
        (omega (arith, nearest-ge (2 * u) (omega arith) 8388608 n (omega arith)))
  | no more ↦
      rw (wide f (2 * u) n (omega arith))
        (omega (arith, round_from-ge f (2 * u) n (omega arith) (omega arith)))
]

round_from_mono : (f u x y : ℕ) → 0 < u → x ≤ y → round_from f u x ≤ round_from f u y
round_from_mono zero u x y h le = rw (widest u x, widest u y) (nearest_mono u h x y le)
round_from_mono (suc f) u x y h le = elim (dec_lt y (significand_end * u)) [
  | yes less ↦ rw (narrow f u x (omega arith), narrow f u y less) (nearest_mono u h x y le)
  | no more ↦ elim (dec_lt x (significand_end * u)) [
    | yes less ↦
        rw (narrow f u x less, wide f u y (omega arith))
          (le_trans (nearest-le u h significand_end x (omega arith))
            (round_from-ge f u y h (omega arith)))
    | no more' ↦
        rw (wide f u x (omega arith), wide f u y (omega arith))
          (round_from_mono f (2 * u) x y (omega arith) le)
  ]
]

-- A number with few digits is left as it is.
round_from_fixed : (f u m : ℕ) → 0 < u → m ≤ significand_end → round_from f u (m * u) ≡ m * u
round_from_fixed zero u m h le = widest u (m * u) ∙ nearest_exact u h m
round_from_fixed (suc f) u m h le = elim (dec_lt m significand_end) [
  | yes less ↦
      narrow f u (m * u) (omega (arith, suc_multiple u h m significand_end less))
      ∙ nearest_exact u h m
  | no more ↦
      let e : m * u ≡ 8388608 * (2 * u) =
        (let top : m ≡ significand_end = omega arith in rw top (omega arith)) in
      let large : significand_end * u ≤ m * u = omega arith in
      wide f u (m * u) large ∙ rw e (round_from_fixed f (2 * u) 8388608 (omega arith) (omega arith))
]

round_from_idem : (f u n : ℕ) → 0 < u → round_from f u (round_from f u n) ≡ round_from f u n
round_from_idem zero u n h =
    let (m, e) = nearest_multiple u h n in
    rw (widest u n, e, widest u (m * u)) (nearest_exact u h m)
round_from_idem (suc f) u n h = elim (dec_lt n (significand_end * u)) [
  | yes less ↦
      let (m, e) = nearest_multiple u h n in
      let top = nearest-le u h significand_end n (omega arith) in
      let small : m * u ≤ significand_end * u = rw e at top in
      rw (narrow f u n less, e) (round_from_fixed (suc f) u m h (le_of_mul-le-mul_right small h))
  | no more ↦ rw (wide f u n (omega arith)) (
      wide f u (round_from f (2 * u) n) (round_from-ge f u n h (omega arith))
      ∙ round_from_idem f (2 * u) n (omega arith))
]

pub add_f32_mono : (a b w : ℕ) → a ≤ b → add_f32 a w ≤ add_f32 b w
unfolding add_f32 round
add_f32_mono a b w h = round_from_mono 104 1 (a + w) (b + w) (omega arith) (omega arith)

pub add_f32-grows : (a b w : ℕ) → add_f32 a b ≤ add_f32 (add_f32 a b) w
unfolding add_f32 round
add_f32-grows a b w =
    let x = round_from 104 1 (a + b) in
    subst (λ y. y ≤ round_from 104 1 (x + w)) (round_from_idem 104 1 (a + b) (omega arith))
      (round_from_mono 104 1 x (x + w) (omega arith) (omega arith))

pub add_f32_exact : (a b : ℕ) → a + b ≤ significand_end → add_f32 a b ≡ a + b
unfolding add_f32 round
add_f32_exact a b h = rw (mul-one (a + b)) at (round_from_fixed 104 1 (a + b) (omega arith) h)

-- From 2 ^ 24 on, adding one is lost.
pub add_f32_full : add_f32 significand_end 1 ≡ significand_end
unfolding add_f32 round round_from nearest pick
add_f32_full = refl
