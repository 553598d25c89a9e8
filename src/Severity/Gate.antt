-- ===== src/Severity/Gate.antt =====
-- The gate against the ranks of the findings: internal/engine/engine.go.
use miu_cr.Base.{
  ap, ℕ, zero, suc, ◌≡◌, ◌∙◌, refl, inl, inr, String, Bool, true, false, Option, none, some, List,
  [], ◌∷◌, str_eq, str_eq_iff, arith, leb, ltb, ◌==◌, ◌||◌, any, if◌then◌else◌, Bool-cases,
}
use miu_cr.Severity.{
  severity_rank, or_zero, rank_of, norm_severity, gate_rank, max_severity_loop, max_severity,
  max_severity_rank_loop, max_severity_rank, gate_failed,
}

norm_severity-norm_severity : (s : String) → norm_severity (norm_severity s) ≡ norm_severity s
unfolding norm_severity
norm_severity-norm_severity s =
    elim (Bool-cases (
      str_eq s "info"
      || str_eq s "low"
      || str_eq s "medium"
      || str_eq s "high"
      || str_eq s "critical")) [ inl known ↦ rw (known, known) refl | inr other ↦ rw other refl ]

rank_of-norm_severity : (s : String) → rank_of (norm_severity s) ≡ rank_of s
unfolding rank_of
rank_of-norm_severity s = ap (λ t. or_zero (severity_rank t)) (norm_severity-norm_severity s)

rank_of-none_if : (m : String) → rank_of (if str_eq m "" then "none" else m) ≡ rank_of m
rank_of-none_if m = elim (Bool-cases (str_eq m "")) [
  | inl e ↦ rw (e, (str_eq_iff m "").0 e) (unfold rank_of in refl)
  | inr e ↦ rw e
]

rank_of-max_severity_loop :
    (r : ℕ) (m : String) (ss : List String)
    → rank_of m ≡ r
    → rank_of (max_severity_loop r m ss) ≡ max_severity_rank_loop r ss
unfolding max_severity_loop max_severity_rank_loop
rank_of-max_severity_loop r m [] h = rank_of-none_if m ∙ h
rank_of-max_severity_loop r m (s ∷ ss) h =
    let higher = ltb r (rank_of s) in
    rank_of-max_severity_loop (if higher then rank_of s else r)
      (if higher then norm_severity s else m) ss (ground (arith, rank_of-norm_severity s))

-- The severity that a review reports as its highest has the rank that the gate compares: the two
-- loops agree on every list of severities, unrecognised ones included.
rank_of-max_severity : (ss : List String) → rank_of (max_severity ss) ≡ max_severity_rank ss
unfolding max_severity max_severity_rank
rank_of-max_severity ss = rank_of-max_severity_loop 0 "" ss (unfold rank_of in refl)

leb-max_severity_rank_loop :
    (k r : ℕ) (ss : List String)
    → leb k (max_severity_rank_loop r ss) ≡ (leb k r || any (λ s. leb k (rank_of s)) ss)
unfolding max_severity_rank_loop
leb-max_severity_rank_loop k r [] = ground arith
leb-max_severity_rank_loop k r (s ∷ ss) =
    ground (arith, leb-max_severity_rank_loop k (if ltb r (rank_of s) then rank_of s else r) ss)

-- What a gate of the rank asks of the findings.
abbrev pub reaches : Option ℕ → List String → Bool
reaches none ss = true
reaches (some zero) ss = false
reaches (some (suc k)) ss = any (λ s. leb (suc k) (rank_of s)) ss

gate_failed-at :
    (g : Option ℕ) (ss : List String)
    → elim g [ none ↦ true | some k ↦ if k == 0 then false else leb k (max_severity_rank ss) ]
      ≡ reaches g ss
unfolding max_severity_rank
gate_failed-at none ss = refl
gate_failed-at (some zero) ss = refl
gate_failed-at (some (suc k)) ss = ground (arith, leb-max_severity_rank_loop (suc k) 0 ss)

-- The gate fails exactly when it is unknown, or it has a positive rank that some finding reaches;
-- the gates of rank 0, "none" and the empty one, never fail.
pub gate_failed-eq-reaches :
    (ss : List String) (gate : String) → gate_failed ss gate ≡ reaches (gate_rank gate) ss
unfolding gate_failed
gate_failed-eq-reaches ss gate = gate_failed-at (gate_rank gate) ss
