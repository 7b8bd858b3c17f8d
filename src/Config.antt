-- ===== src/Config.antt =====
-- src/config.rs: what the environment says, with defaults. An environment is the value of each
-- variable that is set; a log line is left out.
pub mod Read
use erbridge_palu.Prelude.{ℕ, ◌^◌, Option, none, some, Text, text_of, ltb, parse_u64, if◌then◌else◌}
use mathlib.Core.Option

abbrev pub Environment : Type 0
Environment = Text → Option Text

abbrev pub default_port : ℕ
default_port = 5001

abbrev pub default_sde_reload_interval_secs : ℕ
default_sde_reload_interval_secs = 3600

abbrev pub default_eve_scout_interval_secs : ℕ
default_eve_scout_interval_secs = 600

-- `T::from_str` is an argument, as the type is in the code.
unfoldable pub parse_env_or {ℓ} : {T : Type ℓ} → (Text → Option T) → Environment → Text → T → T
parse_env_or from_str env key default = elim (env key) [
  | none ↦ default
  | some raw ↦ Option.get_or (from_str raw) default
]

-- `str::parse::<u16>`: the digits are those of a `u64`, and the number fits.
unfoldable pub parse_u16 : Text → Option ℕ
unfolding parse_u64
parse_u16 s = elim (parse_u64 s) [ none ↦ none | some n ↦ if ltb n (2 ^ 16) then some n else none ]

-- `Some` for a positive interval, in seconds.
unfoldable pub interval_from_secs : ℕ → Option ℕ
interval_from_secs secs = if ltb 0 secs then some secs else none

unfoldable pub port : Environment → ℕ
unfolding parse_env_or parse_u16
port env = parse_env_or parse_u16 env (text_of "PALU_PORT") default_port

unfoldable pub sde_reload_interval : Environment → Option ℕ
unfolding parse_env_or interval_from_secs parse_u64
sde_reload_interval env = interval_from_secs (
    parse_env_or parse_u64 env (text_of "PALU_SDE_RELOAD_INTERVAL_SECS")
      default_sde_reload_interval_secs)

unfoldable pub eve_scout_interval : Environment → Option ℕ
unfolding parse_env_or interval_from_secs parse_u64
eve_scout_interval env = interval_from_secs (
    parse_env_or parse_u64 env (text_of "PALU_EVE_SCOUT_INTERVAL_SECS")
      default_eve_scout_interval_secs)

-- The crate's version is what the build puts in.
unfoldable pub app_version : Text → Environment → Text
app_version crate_version env = Option.get_or (env (text_of "PALU_APP_VERSION")) crate_version

unfoldable pub git_commit : Environment → Text
git_commit env = Option.get_or (env (text_of "PALU_GIT_COMMIT_SHA")) (text_of "unknown")
