-- ===== src/Config/Read.antt =====
-- The configuration reads back what is printed in the environment, and falls back to its defaults.
use erbridge_palu.Prelude.{
  ℕ, ◌≡◌, refl, ◌<◌, ◌^◌, inl, inr, none, some, Text, text_of, lt→ltb, parse_u64, nat_to_string,
  parse_u64-nat_to_string, Option-cases, arith,
}
use erbridge_palu.Config.{Environment, default_port, parse_env_or, parse_u16, port}

u16_fits : (s : Text) (n : ℕ) → parse_u16 s ≡ some n → n < 2 ^ 16
unfolding parse_u16
u16_fits s n h = elim (Option-cases (parse_u64 s)) [
  | inl e ↦ cc (rw (parse_u16, e) at h)
  | inr (m, e) ↦ let h' = rw (parse_u16, e) at h in ground arith
]

parse_u16-nat_to_string : (n : ℕ) → n < 2 ^ 16 → parse_u16 (nat_to_string n) ≡ some n
unfolding parse_u16
parse_u16-nat_to_string n h =
    rw (parse_u16, parse_u64-nat_to_string n (omega arith), lt→ltb n (2 ^ 16) h) refl

-- The port is a number of 16 bits, whatever the environment says; a number of 16 bits that is
-- printed there is the port; and without a number of 16 bits it is the default.
pub port_lem :
    (env : Environment)
    → (port env < 2 ^ 16)
      × ((n : ℕ) → n < 2 ^ 16 → env (text_of "PALU_PORT") ≡ some (nat_to_string n) → port env ≡ n)
      × (((raw : Text) → env (text_of "PALU_PORT") ≡ some raw → parse_u16 raw ≡ none)
          → port env ≡ default_port)
unfolding port parse_env_or
port_lem env = (
  elim (Option-cases (env (text_of "PALU_PORT"))) [
    | inl e ↦ rw (port, parse_env_or, e) (omega arith)
    | inr (raw, e) ↦ elim (Option-cases (parse_u16 raw)) [
      | inl e' ↦ rw (port, parse_env_or, e, e') (omega arith)
      | inr (n, e') ↦ rw (port, parse_env_or, e, e') (u16_fits raw n e')
    ]
  ],
  λ n fits e. rw (port, parse_env_or, e, parse_u16-nat_to_string n fits) refl,
  λ bad. elim (Option-cases (env (text_of "PALU_PORT"))) [
    | inl e ↦ rw (port, parse_env_or, e) refl
    | inr (raw, e) ↦ rw (port, parse_env_or, e, bad raw e) refl
  ],
)
