-- ===== src/Invocation/Modes.antt =====
-- An accepted invocation has one mode and a gate that the ranking knows: internal/engine/validate.go.
use miu_cr.Base.{◌≡◌, ◌≢◌, ◌↔◌, String, Bool, true, false, none, str_eq, str_eq_iff, arith}
use miu_cr.Severity.{gate_rank}
use miu_cr.Invocation.{valid_gate, validate_invocation}

-- The three ways to say which change is to be reviewed.
pub data OneMode (staged : Bool) (from to commit : String) : Type 0 where
  index : staged ≡ true → from ≡ "" → to ≡ "" → commit ≡ "" → OneMode staged from to commit
  range : staged ≡ false → from ≢ "" → to ≢ "" → commit ≡ "" → OneMode staged from to commit
  revision : staged ≡ false → from ≡ "" → to ≡ "" → commit ≢ "" → OneMode staged from to commit

str_ne : (s : String) → str_eq s "" ≡ false → s ≢ ""
str_ne s h e = cc ((str_eq_iff s "").1 e)

str_ne_eq : (s : String) → s ≢ "" → str_eq s "" ≡ false
str_ne_eq s h = ground (arith, str_eq_iff s "")

module _ (staged : Bool) (from to commit gate : String) where
  accepted-OneMode :
      validate_invocation staged from to commit gate ≡ none → OneMode staged from to commit
  unfolding validate_invocation
  accepted-OneMode h = grind (
    arith,
    OneMode.index,
    OneMode.range,
    OneMode.revision,
    str_ne,
    str_eq_iff from "",
    str_eq_iff to "",
    str_eq_iff commit "",
  )

  OneMode-accepted :
      valid_gate gate ≡ true
      → OneMode staged from to commit
      → validate_invocation staged from to commit gate ≡ none
  unfolding validate_invocation
  OneMode-accepted g (OneMode.index s f t c) =
      ground (arith, str_eq_iff from "", str_eq_iff to "", str_eq_iff commit "")
  OneMode-accepted g (OneMode.range s f t c) =
      ground (arith, str_ne_eq from, str_ne_eq to, str_eq_iff commit "")
  OneMode-accepted g (OneMode.revision s f t c) =
      ground (arith, str_eq_iff from "", str_eq_iff to "", str_ne_eq commit)

  accepted-valid_gate :
      validate_invocation staged from to commit gate ≡ none → valid_gate gate ≡ true
  unfolding validate_invocation
  accepted-valid_gate h = ground arith

-- An invocation is accepted exactly when its gate is in the closed set and it selects one mode:
-- the index, a range with both ends, or a commit.
pub validate_invocation_iff :
    (staged : Bool) (from to commit gate : String)
    → (validate_invocation staged from to commit gate ≡ none)
      ↔ ((valid_gate gate ≡ true) × OneMode staged from to commit)
validate_invocation_iff staged from to commit gate = (
  λ h. (
    accepted-valid_gate staged from to commit gate h,
    accepted-OneMode staged from to commit gate h,
  ),
  λ h. OneMode-accepted staged from to commit gate h.0 h.1,
)

-- A gate of the closed set has a rank, so the gate's answer for an unknown gate is not reached.
pub valid_gate-gate_rank : (gate : String) → valid_gate gate ≡ true → gate_rank gate ≢ none
unfolding valid_gate gate_rank
valid_gate-gate_rank gate h = ground arith
