-- ===== src/Handlers/Levels.antt =====
-- The levels that the handlers accept, and what they do with the others.
use erbridge_palu.Prelude.{
  ℕ, ◌≤◌, ◌≡◌, refl, ◌∙◌, ap, ◌↔◌, true, ◌&&◌, Option, ◌++◌, text_of, nat_to_string, leb, done,
  arith, cond_false,
}
use erbridge_palu.External.{External}
use erbridge_palu.Error.{AppError, ok, err}
use erbridge_palu.Dto.{ShipRef, BlopsRouteRequest, RangeRequest}
use erbridge_palu.EveScout.{EveScoutSnapshot}
use erbridge_palu.Model.{GraphData}
use erbridge_palu.Services.Route.{Moment}
use erbridge_palu.Handlers.{validate_jdc_level, resolve_effective_ly, route_blops, route_range}

-- The error of a level.
abbrev pub bad_level : ℕ → AppError
bad_level n = AppError.invalid_param (text_of "jdc_level must be 1..=5, got " ++ nat_to_string n)

in_bounds : (n : ℕ) → (leb 1 n && leb n 5 ≡ true) ↔ (1 ≤ n × n ≤ 5)
in_bounds n = ground arith

level_good : (n : ℕ) → 1 ≤ n × n ≤ 5 → validate_jdc_level n ≡ ok tt
unfolding validate_jdc_level
level_good n h = rw ((in_bounds n).1 h) refl

level_bad : (n : ℕ) → ¬ (1 ≤ n × n ≤ 5) → validate_jdc_level n ≡ err (bad_level n)
unfolding validate_jdc_level
level_bad n h = rw (cond_false (leb 1 n && leb n 5) (λ e. h ((in_bounds n).0 e))) refl

module _ (X : External) (graph : GraphData X) where
  effective_bad :
      (ship : Option ShipRef) (n : ℕ)
      → ¬ (1 ≤ n × n ≤ 5)
      → resolve_effective_ly X graph ship n ≡ err (bad_level n)
  unfolding resolve_effective_ly
  effective_bad ship n h = rw (resolve_effective_ly, level_bad n h) refl

  blops_bad :
      (scout : EveScoutSnapshot X) (req : BlopsRouteRequest) (moment : Moment X) (e : AppError)
      → resolve_effective_ly X graph req.ship req.jdc_level ≡ err e
      → route_blops X graph scout req moment ≡ done (err e)
  unfolding route_blops
  blops_bad scout req moment e h = rw (route_blops, h) refl

  range_bad :
      (req : RangeRequest) (e : AppError)
      → validate_jdc_level req.jdc_level ≡ err e
      → route_range X graph req ≡ done (err e)
  unfolding route_range
  range_bad req e h = rw (route_range, h) refl

  -- A level outside of 1..=5 is refused by both routes, before anything else of the request is
  -- looked at; and the levels 1 to 5 are valid.
  pub levels_checked :
      (n : ℕ)
      → (1 ≤ n × n ≤ 5 → validate_jdc_level n ≡ ok tt)
        × (¬ (1 ≤ n × n ≤ 5)
            → ((scout : EveScoutSnapshot X) (req : BlopsRouteRequest) (moment : Moment X)
                → req.jdc_level ≡ n
                → route_blops X graph scout req moment ≡ done (err (bad_level n)))
              × ((req : RangeRequest)
                  → req.jdc_level ≡ n
                  → route_range X graph req ≡ done (err (bad_level n))))
  levels_checked n = (
    level_good n,
    λ bad. (
      λ scout req moment e.
          blops_bad scout req moment (bad_level req.jdc_level)
            (effective_bad req.ship req.jdc_level (λ h. bad (subst_level e h)))
          ∙ ap (λ x. done (err (bad_level x))) e,
      λ req e.
          range_bad req (bad_level req.jdc_level)
            (level_bad req.jdc_level (λ h. bad (subst_level e h)))
          ∙ ap (λ x. done (err (bad_level x))) e,
    ),
  )
    where
      subst_level : {a b : ℕ} → a ≡ b → 1 ≤ a × a ≤ 5 → 1 ≤ b × b ≤ 5
      subst_level e h = ground arith
