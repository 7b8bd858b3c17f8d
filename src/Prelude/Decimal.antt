-- ===== src/Prelude/Decimal.antt =====
-- `str::parse::<u64>`, and that it reads what `to_string` prints.
use Prim.Native.Nat.{ℕ, zero, suc, ◌+◌, ◌-◌, ◌*◌, ◌/◌, ◌%◌, ◌^◌, ◌<◌}
use mathlib.Core.Path.{◌≡◌, refl}
use mathlib.Core.Logic.{◌≢◌, inl, inr}
use mathlib.Core.Bool.{◌&&◌}
use mathlib.Core.Option.{Option, none, some}
use mathlib.Core.List.{[], ◌∷◌, ◌++◌}
use native.Mathlib.Omega.{arith}
use erbridge_palu.Prelude.Tests.{ltb, lt→ltb, leb, nat_beq, if◌then◌else◌, Bool-cases, Option-cases}
use erbridge_palu.Prelude.Keys.{Text, digits_from, nat_to_string}

-- The number with one more digit, if it is a digit and the number fits.
unfoldable pub next_digit : ℕ → ℕ → Option ℕ
next_digit n c =
    if leb b'0' c && leb c b'9' && ltb (n * 10 + (c - b'0')) (2 ^ 64)
    then some (n * 10 + (c - b'0'))
    else none

unfoldable pub parse_digits : ℕ → Text → Option ℕ
unfolding next_digit
parse_digits n [] = some n
parse_digits n (c ∷ s) = elim (next_digit n c) [ none ↦ none | some m ↦ parse_digits m s ]

unfoldable pub parse_u64 : Text → Option ℕ
unfolding parse_digits
parse_u64 [] = none
parse_u64 (c ∷ []) = parse_digits 0 (c ∷ [])
parse_u64 (c ∷ d ∷ s) =
    if nat_beq c b'+' then parse_digits 0 (d ∷ s) else parse_digits 0 (c ∷ d ∷ s)

digits-last :
    (n m k c : ℕ) (s : Text)
    → parse_digits n s ≡ some m
    → next_digit m c ≡ some k
    → parse_digits n (s ++ c ∷ []) ≡ some k
unfolding parse_digits
digits-last n m k c [] h h' = let e : n ≡ m = cc in rw (parse_digits, e, h') refl
digits-last n m k c (b ∷ s) h h' = elim (Option-cases (next_digit n b)) [
  | inl e ↦ cc (rw (parse_digits, e) at h)
  | inr (j, e) ↦ rw (parse_digits, e) (digits-last j m k c s (rw (parse_digits, e) at h) h')
]

ten_to : ℕ → ℕ
ten_to zero = 1
ten_to (suc fuel) = 10 * ten_to fuel

next_digit_last : (n : ℕ) → n < 2 ^ 64 → next_digit (n / 10) (b'0' + n % 10) ≡ some n
unfolding next_digit
next_digit_last n h = ground arith

next_digit_first : (n : ℕ) → n < 10 → next_digit 0 (b'0' + n) ≡ some n
unfolding next_digit
next_digit_first n h = ground arith

parse-one : (n : ℕ) → n < 10 → parse_digits 0 ((b'0' + n) ∷ []) ≡ some n
unfolding parse_digits
parse-one n h = rw (parse_digits, next_digit_first n h) refl

parse-digits_from :
    (fuel n : ℕ)
    → n < ten_to (suc fuel)
    → n < 2 ^ 64
    → parse_digits 0 (digits_from (suc fuel) n) ≡ some n
unfolding digits_from ten_to parse_digits
parse-digits_from zero n h fits =
    let small : n < 10 = omega arith in rw (lt→ltb n 10 small) (parse-one n small)
parse-digits_from (suc fuel) n h fits = elim (Bool-cases (ltb n 10)) [
  | inl small ↦ rw small (parse-one n (ground arith))
  | inr large ↦ rw large (
      digits-last 0 (n / 10) n (b'0' + n % 10) (digits_from (suc fuel) (n / 10))
        (parse-digits_from fuel (n / 10) (omega arith) (omega arith)) (next_digit_last n fits))
]

parse_u64-digits : (s : Text) (n : ℕ) → s ≢ [] → parse_digits 0 s ≡ some n → parse_u64 s ≡ some n
unfolding parse_u64
parse_u64-digits [] n ne h = absurd (ne refl)
parse_u64-digits (c ∷ []) n ne h = h
parse_u64-digits (c ∷ d ∷ s) n ne h = elim (Bool-cases (nat_beq c b'+')) [
  | inr other ↦ rw other h
  | inl plus ↦ let at : c ≡ b'+' = ground arith in cc (rw at at h)
]

append-ne-nil : (s : Text) (c : ℕ) → s ++ c ∷ [] ≢ []
append-ne-nil [] c = λ e. cc
append-ne-nil (x ∷ s) c = λ e. cc

digits_from-ne-nil : (fuel n : ℕ) → digits_from (suc fuel) n ≢ []
unfolding digits_from
digits_from-ne-nil fuel n = elim (Bool-cases (ltb n 10)) [
  | inl small ↦ rw small (λ e. cc)
  | inr large ↦ rw large (append-ne-nil (digits_from fuel (n / 10)) (b'0' + n % 10))
]

-- A number of 64 bits is read back from its decimal print.
pub parse_u64-nat_to_string : (n : ℕ) → n < 2 ^ 64 → parse_u64 (nat_to_string n) ≡ some n
unfolding nat_to_string ten_to
parse_u64-nat_to_string n h =
    parse_u64-digits (digits_from 20 n) n (digits_from-ne-nil 19 n)
      (parse-digits_from 19 n (omega arith) h)
