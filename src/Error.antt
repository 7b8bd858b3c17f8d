-- ===== src/Error.antt =====
-- src/error.rs: the application's error type and its HTTP mapping; and what a service returns,
-- a result inside an outcome that may be a panic.
pub mod Traversal
use erbridge_palu.Prelude.{
  ℕ, List, [], ◌∷◌, ◌++◌, Text, text_of, Outcome, done, panicked, out_of_fuel,
}

pub data AppError : Type 0 where
  unknown_system : Text → AppError
  unknown_hull : Text → AppError
  invalid_param : Text → AppError
  unreachable : AppError
  cyno_target_highsec : Text → AppError
  no_staging_in_range : AppError
  staging_unreachable : AppError

-- The status, the code and the message.
pub record Parts : Type 0 where
  pub status : ℕ
  pub code : Text
  pub message : Text

unfoldable pub parts : AppError → Parts
parts (unknown_system s) = record {
  status = 400;
  code = text_of "unknown_system";
  message = text_of "system not found: " ++ s;
}
parts (unknown_hull s) = record {
  status = 400;
  code = text_of "unknown_hull";
  message = text_of "hull not found: " ++ s;
}
parts (invalid_param s) = record { status = 400; code = text_of "invalid_param"; message = s }
parts unreachable = record {
  status = 404;
  code = text_of "unreachable";
  message = text_of "no gate route between the requested systems";
}
parts (cyno_target_highsec s) = record {
  status = 400;
  code = text_of "cyno_target_highsec";
  message = text_of "a cyno cannot be lit in highsec: " ++ s;
}
parts no_staging_in_range = record {
  status = 404;
  code = text_of "no_staging_in_range";
  message = text_of "no staging system within bridge range of the target";
}
parts staging_unreachable = record {
  status = 404;
  code = text_of "staging_unreachable";
  message = text_of "no in-range staging system is gate-reachable from the fleet";
}

unfoldable pub code_message : AppError → Text × Text
unfolding parts
code_message e = ((parts e).code, (parts e).message)

-- `Result<A, AppError>`
pub data Reply {ℓ} (A : Type ℓ) : Type ℓ where
  ok : A → Reply A
  err : AppError → Reply A

-- `e?`
infixl 5 ◌>>=◌
abbrev pub ◌>>=◌ {ℓ κ} : {A : Type ℓ} {B : Type κ} → Reply A → (A → Reply B) → Reply B
ok a >>= f = f a
err e >>= f = err e

-- `iter().map(f).collect::<Result<Vec<_>, _>>()`: the first error ends it.
abbrev pub collect {ℓ κ} : {A : Type ℓ} {B : Type κ} → (A → Reply B) → List A → Reply (List B)
collect f [] = ok []
collect f (x ∷ xs) = elim (f x) [
  | err e ↦ err e
  | ok y ↦ elim (collect f xs) [ err e ↦ err e | ok ys ↦ ok (y ∷ ys) ]
]

-- A service's outcome, followed by what needs its result.
abbrev pub and_then {ℓ κ} :
    {A : Type ℓ} {B : Type κ} → Outcome (Reply A) → (A → Outcome (Reply B)) → Outcome (Reply B)
and_then (done (ok a)) f = f a
and_then (done (err e)) f = done (err e)
and_then panicked f = panicked
and_then out_of_fuel f = out_of_fuel

-- `iter().map(f).collect::<Vec<_>>()`, where `f` may panic.
abbrev pub traverse {ℓ κ} : {A : Type ℓ} {B : Type κ} → (A → Outcome B) → List A → Outcome (List B)
traverse f [] = done []
traverse f (x ∷ xs) = elim (f x) [
  | panicked ↦ panicked
  | out_of_fuel ↦ out_of_fuel
  | done y ↦ elim (traverse f xs) [
    | panicked ↦ panicked
    | out_of_fuel ↦ out_of_fuel
    | done ys ↦ done (y ∷ ys)
  ]
]
