-- ===== src/Services/Range/Tally.antt =====
-- The tally of a range response counts the systems of each class.
use erbridge_palu.Prelude.{
  ℕ, suc, ◌+◌, ◌≡◌, ◌≢◌, refl, inl, inr, List, [], ◌∷◌, map, Text, text_eq, ◌==◌, Bool-cases,
  eq_of_beq, beq_self, if◌then◌else◌, arith,
}
use erbridge_palu.Prelude.HashMap
use erbridge_palu.Prelude.HashMap.{HashMap}
use mathlib.Core.Option
use erbridge_palu.External.{External}
use erbridge_palu.Dto.{RangeReachable}
use erbridge_palu.Services.Range.{Entry, count_one, tally}

-- The number that the map has for the class, 0 where it has none.
abbrev pub tallied : Text → HashMap Text ℕ → ℕ
tallied c m = Option.get_or (HashMap.get c m) 0

count_one_self :
    (k c : Text) (m : HashMap Text ℕ) → k ≡ c → tallied c (count_one k m) ≡ tallied c m + 1
unfolding count_one
count_one_self k c m same =
    rw (same, HashMap.get-insert_self c (Option.get_or (HashMap.get c m) 0 + 1) m) refl

count_one_ne : (k c : Text) (m : HashMap Text ℕ) → k ≢ c → tallied c (count_one k m) ≡ tallied c m
unfolding count_one
count_one_ne k c m apart =
    rw (HashMap.get-insert_ne k c (Option.get_or (HashMap.get k m) 0 + 1) m apart) refl

module _ (X : External) where
  -- How many of the systems have the class.
  abbrev pub of_class : Text → List (RangeReachable X) → ℕ
  of_class c [] = 0
  of_class c (r ∷ rs) = let rest = of_class c rs in if r.sec_class == c then suc rest else rest

  tally_lem :
      (c : Text) (m : HashMap Text ℕ) (rs : List (Entry X))
      → tallied c (tally X m rs) ≡ tallied c m + of_class c (map (λ r. r.0) rs)
  unfolding tally
  tally_lem c m [] = omega arith
  tally_lem c m (r ∷ rs) =
      let step = tally_lem c (count_one r.0.sec_class m) rs in
      elim (Bool-cases (r.0.sec_class == c)) [
        | inl same ↦
            rw same (omega (arith, step, count_one_self r.0.sec_class c m (eq_of_beq _ c same)))
        | inr other ↦
            rw other (
              omega
                (arith, step, count_one_ne r.0.sec_class c m (λ e. cc (beq_self r.0.sec_class))))
      ]

  pub tally-of_class :
      (c : Text) (rs : List (Entry X)) → tallied c (tally X [] rs) ≡ of_class c (map (λ r. r.0) rs)
  unfolding HashMap.get
  tally-of_class c rs = omega (arith, tally_lem c [] rs)
