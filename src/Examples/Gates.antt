-- ===== src/Examples/Gates.antt =====
-- Tests and instances for the severity gate and the contract of an invocation.
use miu_cr.Base.{◌≡◌, ◌↔◌, refl, String, true, false, none, List, [], ◌∷◌}
use miu_cr.Severity.{rank_of, gate_rank, max_severity_rank, gate_failed}
use miu_cr.Severity.Gate.{reaches, gate_failed-eq-reaches}
use miu_cr.Invocation.{valid_gate, validate_invocation}
use miu_cr.Invocation.Modes.{OneMode, validate_invocation_iff}

abbrev mixed : List String
mixed = "low" ∷ "weird" ∷ "high" ∷ []

gate_failed_test : gate_failed mixed "medium" ≡ true
unfolding gate_failed gate_rank max_severity_rank rank_of
gate_failed_test = refl

gate_failed-eq-reaches_example : gate_failed mixed "medium" ≡ reaches (gate_rank "medium") mixed
gate_failed-eq-reaches_example = gate_failed-eq-reaches mixed "medium"

validate_invocation_iff_example :
    (validate_invocation false "main" "HEAD" "" "high" ≡ none)
    ↔ ((valid_gate "high" ≡ true) × OneMode false "main" "HEAD" "")
validate_invocation_iff_example = validate_invocation_iff false "main" "HEAD" "" "high"

valid_gate_test : valid_gate "high" ≡ true
unfolding valid_gate
valid_gate_test = refl
