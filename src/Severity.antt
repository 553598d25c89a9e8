-- ===== src/Severity.antt =====
-- Severity ranks and the gate: internal/engine/engine.go.
pub mod Gate
use miu_cr.Base.{
  ℕ, ◌<◌, ◌≤◌, String, Bool, true, false, ◌||◌, Option, none, some, List, [], ◌∷◌, str_eq,
  if◌then◌else◌, leb, ltb, ◌==◌,
}

-- The map `severityRank`.
unfoldable pub severity_rank : String → Option ℕ
severity_rank s =
    if str_eq s "info"
    then some 1
    else if str_eq s "low"
    then some 2
    else if str_eq s "medium"
    then some 3
    else if str_eq s "high"
    then some 4
    else if str_eq s "critical"
    then some 5
    else none

unfoldable pub norm_severity : String → String
norm_severity s =
    if str_eq s "info"
      || str_eq s "low"
      || str_eq s "medium"
      || str_eq s "high"
      || str_eq s "critical"
    then s
    else ""

-- A read of a missing key of a Go map yields 0.
abbrev pub or_zero : Option ℕ → ℕ
or_zero none = 0
or_zero (some n) = n

unfoldable pub rank_of : String → ℕ
unfolding severity_rank norm_severity
rank_of sev = or_zero (severity_rank (norm_severity sev))

-- `none` for a gate that is not known.
unfoldable pub gate_rank : String → Option ℕ
unfolding severity_rank
gate_rank gate = if str_eq gate "" || str_eq gate "none" then some 0 else severity_rank gate

-- The loop of `maxSeverity` over its two variables, on the severities of the findings.
unfoldable pub max_severity_loop : ℕ → String → List String → String
max_severity_loop max_rank max_sev [] = if str_eq max_sev "" then "none" else max_sev
max_severity_loop max_rank max_sev (s ∷ ss) =
    let higher = ltb max_rank (rank_of s) in
    max_severity_loop (if higher then rank_of s else max_rank)
      (if higher then norm_severity s else max_sev) ss

unfoldable pub max_severity : List String → String
unfolding max_severity_loop
max_severity ss = max_severity_loop 0 "" ss

unfoldable pub max_severity_rank_loop : ℕ → List String → ℕ
max_severity_rank_loop max [] = max
max_severity_rank_loop max (s ∷ ss) =
    max_severity_rank_loop (if ltb max (rank_of s) then rank_of s else max) ss

unfoldable pub max_severity_rank : List String → ℕ
unfolding max_severity_rank_loop
max_severity_rank ss = max_severity_rank_loop 0 ss

unfoldable pub gate_failed : List String → String → Bool
gate_failed ss gate = elim (gate_rank gate) [
  | none ↦ true
  | some g ↦ if g == 0 then false else leb g (max_severity_rank ss)
]
