-- ===== src/Range.antt =====
-- src/range.rs: the arithmetic of jump ranges.
use erbridge_palu.Prelude.{ℕ}
use erbridge_palu.External.{External}

-- `DEFAULT_JDC_LEVEL`
abbrev pub default_jdc_level : ℕ
default_jdc_level = 5

module _ (X : External) where
  open X use {F64, of_nat, ly_in_meters, add, sub, mul, div, sqrt, round}

  unfoldable pub effective_ly : F64 → F64 → ℕ → F64
  effective_ly base_ly bonus_per_level jdc_level =
      mul base_ly (add (of_nat 1) (mul bonus_per_level (of_nat jdc_level)))

  unfoldable pub effective_ly_maxed : F64 → F64 → F64
  unfolding effective_ly
  effective_ly_maxed base_ly bonus_per_level =
      effective_ly base_ly bonus_per_level default_jdc_level

  unfoldable pub radius_m2 : F64 → F64
  radius_m2 ly = let m = mul ly ly_in_meters in mul m m

  unfoldable pub ly_between : F64 × F64 × F64 → F64 × F64 × F64 → F64
  ly_between (ax, ay, az) (bx, by', bz) =
      let dx = sub ax bx in
      let dy = sub ay by' in
      let dz = sub az bz in div (sqrt (add (add (mul dx dx) (mul dy dy)) (mul dz dz))) ly_in_meters

  -- `round2` of the two services.
  unfoldable pub round2 : F64 → F64
  round2 ly = div (round (mul ly (of_nat 100))) (of_nat 100)
