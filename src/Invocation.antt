-- ===== src/Invocation.antt =====
-- The contract of one review invocation: internal/engine/validate.go.
pub mod Modes
use miu_cr.Base.{
  ℕ, ◌+◌, String, Bool, true, false, ◌||◌, not, Option, none, some, str_eq, ltb, ◌==◌,
  if◌then◌else◌,
}

-- clierr.CLIError, without its texts for people.
pub record CliError : Type 0 where
  pub code : String
  pub exit : ℕ

-- The map `validGates`.
unfoldable pub valid_gate : String → Bool
valid_gate gate =
    str_eq gate "none"
    || str_eq gate "info"
    || str_eq gate "low"
    || str_eq gate "medium"
    || str_eq gate "high"
    || str_eq gate "critical"

abbrev is_set : String → Bool
is_set s = not (str_eq s "")

abbrev bool_ne : Bool → Bool → Bool
bool_ne true b = not b
bool_ne false b = b

-- The counter `modes` after the three tests.
unfoldable pub count_modes : Bool → String → String → String → ℕ
count_modes staged from to commit =
    (if staged then 1 else 0)
    + (if is_set from || is_set to then 1 else 0)
    + (if is_set commit then 1 else 0)

-- `none` is the nil error.
unfoldable pub validate_invocation : Bool → String → String → String → String → Option CliError
unfolding count_modes
validate_invocation staged from to commit gate =
    if not (valid_gate gate)
    then some (record { code = "review.bad_gate"; exit = 2 })
    else if bool_ne (str_eq from "") (str_eq to "")
    then some (record { code = "review.bad_flags"; exit = 2 })
    else if count_modes staged from to commit == 0
    then some (record { code = "review.no_mode"; exit = 2 })
    else if ltb 1 (count_modes staged from to commit)
    then some (record { code = "review.bad_flags"; exit = 2 })
    else none
