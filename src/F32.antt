-- ===== src/F32.antt =====
-- The arithmetic of `f32` on the distances of src/routing.rs. Every distance is a sum of the
-- weights 1, 2 and 10000, so it is a natural number; an `f32` holds 24 significant binary digits
-- and a sum is rounded to the nearest such number, ties to the even one.
-- `none` stands for `f32::INFINITY`. The exponent ends at 2 ^ 104 units in the last place.
pub mod Laws
use erbridge_palu.Prelude.{
  ℕ, zero, suc, ◌+◌, ◌*◌, ◌/◌, ◌%◌, ◌^◌, Bool, true, Option, none, some, ltb, nat_beq,
  if◌then◌else◌,
}

-- The significands of an `f32` lie below this bound.
abbrev pub significand_end : ℕ
significand_end = 16777216

-- The multiple of `ulp` nearest to `down * ulp + rest`, the even multiple on a tie.
pub pick : ℕ → ℕ → ℕ → ℕ
pick ulp down rest =
    if ltb (2 * rest) ulp
    then down * ulp
    else if ltb ulp (2 * rest)
    then (down + 1) * ulp
    else if nat_beq (down % 2) 0
    then down * ulp
    else (down + 1) * ulp

pub nearest : ℕ → ℕ → ℕ
unfolding pick
nearest ulp n = pick ulp (n / ulp) (n % ulp)

-- Looks for the binade of `n`, from the unit in the last place `ulp` on.
pub round_from : ℕ → ℕ → ℕ → ℕ
round_from zero ulp n = nearest ulp n
round_from (suc binades) ulp n =
    let wider = round_from binades (2 * ulp) n in
    if ltb n (significand_end * ulp) then nearest ulp n else wider

pub round : ℕ → ℕ
round n = round_from 104 1 n

-- `a + b` on `f32`.
pub add_f32 : ℕ → ℕ → ℕ
add_f32 a b = round (a + b)

-- `a < b`, where `b` may be infinite.
abbrev pub lt_f32 : ℕ → Option ℕ → Bool
lt_f32 a none = true
lt_f32 a (some b) = ltb a b

-- `f32::INFINITY`
abbrev pub infinity : Option ℕ
infinity = none
