-- ===== src/Prelude/Keys.antt =====
-- Keys: equality tests as an interface, integers of 64 bits, and texts as lists of code points.
use Prim.Native.Char.{code}
use Prim.Native.String.{String}
use Prim.Native.Nat.{ℕ, zero, suc, ◌+◌, ◌/◌, ◌%◌}
use mathlib.Core.Path.{◌≡◌, refl}
use mathlib.Core.Logic.{◌↔◌, ◌≢◌, inl, inr}
use mathlib.Core.Bool.{Bool, true, false, ◌&&◌}
use mathlib.Core.List.{List, [], ◌∷◌, ◌++◌, map}
use native.Mathlib.Omega.{arith}
use erbridge_palu.Prelude.Tests.{
  ltb, leb, nat_beq, nat_beq_iff, if◌then◌else◌, cond_false, Bool-cases,
}

-- The trait, with the law that its equality is that of the type.
pub record PartialEq {ℓ} (Key : Type ℓ) : Type ℓ where
  pub eq : Key → Key → Bool
  pub eq_iff : (j k : Key) → (eq j k ≡ true) ↔ (j ≡ k)

infix 50 ◌==◌
abbrev pub ◌==◌ {ℓ} : {Key : Type ℓ} ⦃keys : PartialEq Key⦄ → Key → Key → Bool
◌==◌ ⦃keys⦄ j k = keys.eq j k

module _ {ℓ} {A : Type ℓ} ⦃e : PartialEq A⦄ where
  pub beq_self : (a : A) → (a == a) ≡ true
  beq_self a = (e.eq_iff a a).1 refl

  pub beq_ne : (a b : A) → a ≢ b → (a == b) ≡ false
  beq_ne a b h = cond_false (a == b) (λ t. h ((e.eq_iff a b).0 t))

  pub eq_of_beq : (a b : A) → (a == b) ≡ true → a ≡ b
  eq_of_beq a b h = (e.eq_iff a b).0 h

instance abbrev pub nat_eq : PartialEq ℕ
nat_eq = record { eq = nat_beq; eq_iff = nat_beq_iff }

-- `i64`; `negsuc n` is -(n + 1).
pub data ℤ : Type 0 where
  pos : ℕ → ℤ
  negsuc : ℕ → ℤ

unfoldable pub int_beq : ℤ → ℤ → Bool
int_beq (pos a) (pos b) = nat_beq a b
int_beq (negsuc a) (negsuc b) = nat_beq a b
int_beq _ _ = false

pub int_beq_iff : (a b : ℤ) → (int_beq a b ≡ true) ↔ (a ≡ b)
unfolding int_beq
int_beq_iff (pos a) (pos b) = ground arith
int_beq_iff (negsuc a) (negsuc b) = ground arith
int_beq_iff (pos a) (negsuc b) = ground arith
int_beq_iff (negsuc a) (pos b) = ground arith

instance abbrev pub int_eq : PartialEq ℤ
int_eq = record { eq = int_beq; eq_iff = int_beq_iff }

-- `a <= b` on `i64`.
abbrev pub leb_ℤ : ℤ → ℤ → Bool
leb_ℤ (pos a) (pos b) = leb a b
leb_ℤ (pos a) (negsuc b) = false
leb_ℤ (negsuc a) (pos b) = true
leb_ℤ (negsuc a) (negsuc b) = leb b a

-- The code points of a text.
abbrev pub Text : Type 0
Text = List ℕ

abbrev pub text_of : String → Text
text_of String.[] = []
text_of (String.◌∷◌ first rest) = code first ∷ text_of rest

unfoldable pub text_beq : Text → Text → Bool
text_beq [] [] = true
text_beq (a ∷ as') (b ∷ bs) = nat_beq a b && text_beq as' bs
text_beq _ _ = false

pub text_beq_iff : (a b : Text) → (text_beq a b ≡ true) ↔ (a ≡ b)
unfolding text_beq
text_beq_iff [] [] = ground arith
text_beq_iff (a ∷ as') (b ∷ bs) = ground (arith, text_beq_iff as' bs)
text_beq_iff [] (b ∷ bs) = ground arith
text_beq_iff (a ∷ as') [] = ground arith

instance abbrev pub text_eq : PartialEq Text
text_eq = record { eq = text_beq; eq_iff = text_beq_iff }

-- `to_ascii_lowercase` on one code point and on a text.
unfoldable pub lower_code : ℕ → ℕ
lower_code c = if leb b'A' c && leb c b'Z' then c + 32 else c

unfoldable pub to_ascii_lowercase : Text → Text
unfolding lower_code
to_ascii_lowercase = map lower_code

lower_code_idem : (c : ℕ) → lower_code (lower_code c) ≡ lower_code c
unfolding lower_code
lower_code_idem c = ground arith

pub to_ascii_lowercase_idem :
    (s : Text) → to_ascii_lowercase (to_ascii_lowercase s) ≡ to_ascii_lowercase s
unfolding to_ascii_lowercase
to_ascii_lowercase_idem [] = refl
to_ascii_lowercase_idem (c ∷ s) = cc (lower_code_idem c, to_ascii_lowercase_idem s)

-- The decimal digits of `n`, the last ones first; the fuel is the number of digits at most.
unfoldable pub digits_from : ℕ → ℕ → Text
digits_from zero n = []
digits_from (suc fuel) n =
    let rest = digits_from fuel (n / 10) in
    if ltb n 10 then (b'0' + n) ∷ [] else rest ++ (b'0' + n % 10) ∷ []

-- `to_string` on `i64` and on unsigned numbers, which have 20 digits at most.
unfoldable pub nat_to_string : ℕ → Text
unfolding digits_from
nat_to_string n = digits_from 20 n

unfoldable pub to_string : ℤ → Text
unfolding nat_to_string
to_string (pos n) = nat_to_string n
to_string (negsuc n) = b'-' ∷ nat_to_string (n + 1)

unfoldable pub pair_beq {ℓ κ} :
    {A : Type ℓ} {B : Type κ} ⦃e : PartialEq A⦄ ⦃f : PartialEq B⦄ → A × B → A × B → Bool
pair_beq p q = p.0 == q.0 && p.1 == q.1

pub pair_beq_iff {ℓ κ} :
    {A : Type ℓ} {B : Type κ} ⦃e : PartialEq A⦄ ⦃f : PartialEq B⦄ (p q : A × B)
    → (pair_beq p q ≡ true) ↔ (p ≡ q)
unfolding pair_beq
pair_beq_iff p q = elim (Bool-cases (p.0 == q.0)) [
  | inl same ↦
      let e = eq_of_beq p.0 q.0 same in
      (
        λ h. let e' = eq_of_beq p.1 q.1 (rw same at h) in λ i. (e i, e' i),
        λ h. rw (same, h) (beq_self q.1),
      )
  | inr other ↦ (λ h. cc, λ h. cc (beq_self q.0))
]

instance abbrev pub pair_eq {ℓ κ} :
    {A : Type ℓ} {B : Type κ} ⦃e : PartialEq A⦄ ⦃f : PartialEq B⦄ → PartialEq (A × B)
pair_eq = record { eq = pair_beq; eq_iff = pair_beq_iff }
