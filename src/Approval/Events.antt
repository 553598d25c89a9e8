-- ===== src/Approval/Events.antt =====
-- When a review approves: internal/github/approve.go.
use miu_cr.Base.{
  ℕ, ◌<◌, ◌≡◌, ◌↔◌, refl, sym, ap, ◌∙◌, inl, inr, Bool-cases, String, Bool, true, false, not, ◌&&◌,
  ◌||◌, List, [], ◌∷◌, arith, str_eq, str_eq_iff, text_eq, if◌then◌else◌,
}
use miu_cr.Finding.{Finding}
use miu_cr.Severity.{max_severity_rank}
use miu_cr.Approval.{
  ApprovalPolicy, PrInfo, approve, trusted_author, normalize_approval_policy, severities,
  approval_priority_rank, within, is_empty, approval_findings_allowed, resolve_event,
}

-- A policy that asks for approvals, and the findings it lets through.
pub data Admits (p : ApprovalPolicy) (fs : List Finding) : Type 0 where
  clean : p.mode ≡ "clean" → fs ≡ [] → Admits p fs
  threshold :
      p.mode ≡ "threshold"
      → within
          (max_severity_rank (severities fs))
          (approval_priority_rank (if str_eq p.max_priority "" then "P4" else p.max_priority))
        ≡ true
      → Admits p fs

-- What an approval takes besides the policy.
pub record IsSafe (info : PrInfo) (gate_clean : Bool) (reviewed_files : ℕ) (head_unchanged : Bool)
    : Type 0 where
  pub clean_gate : gate_clean ≡ true
  pub own_branch : info.is_fork ≡ false
  pub trusted : trusted_author info ≡ true
  pub some_file : 0 < reviewed_files
  pub known_head : text_eq info.head_sha [] ≡ false
  pub same_head : head_unchanged ≡ true

is_not : (s a b : String) → str_eq a b ≡ false → str_eq s a ≡ true → str_eq s b ≡ false
is_not s a b k h = ap (λ x. str_eq x b) ((str_eq_iff s a).0 h) ∙ k

normalize-mode :
    (p : ApprovalPolicy)
    → (normalize_approval_policy p).mode ≡ (
        if str_eq p.mode "clean"
        then "clean"
        else if str_eq p.mode "threshold"
        then "threshold"
        else "")
unfolding normalize_approval_policy
normalize-mode p = ground (
  arith,
  is_not p.mode "" "clean" refl,
  is_not p.mode "" "threshold" refl,
  is_not p.mode "off" "clean" refl,
  is_not p.mode "off" "threshold" refl,
  is_not p.mode "clean" "threshold" refl,
  str_eq_iff p.mode "clean",
  str_eq_iff p.mode "threshold",
)

normalize-max_priority :
    (p : ApprovalPolicy)
    → str_eq p.mode "threshold" ≡ true
    → (normalize_approval_policy p).max_priority
      ≡ (if str_eq p.max_priority "" then "P4" else p.max_priority)
unfolding normalize_approval_policy
normalize-max_priority p h = ground (
  arith,
  is_not p.mode "" "clean" refl,
  is_not p.mode "" "threshold" refl,
  is_not p.mode "off" "clean" refl,
  is_not p.mode "off" "threshold" refl,
  is_not p.mode "clean" "threshold" refl,
)

is_empty-nil : (fs : List Finding) → is_empty fs ≡ true → fs ≡ []
is_empty-nil [] h = refl
is_empty-nil (f ∷ fs) h = grind arith

-- Whether the normalised policy asks for approvals and lets the findings through.
module _ (p : ApprovalPolicy) (fs : List Finding) where
  asks : Bool
  asks =
      let q = normalize_approval_policy p in
      not (str_eq q.mode "" || str_eq q.mode "off") && approval_findings_allowed q fs

  asks-clean : str_eq p.mode "clean" ≡ true → asks ≡ is_empty fs
  unfolding asks approval_findings_allowed
  asks-clean h =
      let m : (normalize_approval_policy p).mode ≡ "clean" = normalize-mode p ∙ rw h refl in
      rw m refl

  asks-threshold :
      str_eq p.mode "clean" ≡ false
      → str_eq p.mode "threshold" ≡ true
      → asks
        ≡ within
            (max_severity_rank (severities fs))
            (approval_priority_rank (if str_eq p.max_priority "" then "P4" else p.max_priority))
  unfolding asks approval_findings_allowed
  asks-threshold h k =
      let m : (normalize_approval_policy p).mode ≡ "threshold" =
        normalize-mode p ∙ rw (h, k) refl in
      rw (m, normalize-max_priority p k) refl

  asks-other : str_eq p.mode "clean" ≡ false → str_eq p.mode "threshold" ≡ false → asks ≡ false
  unfolding asks approval_findings_allowed
  asks-other h k =
      let m : (normalize_approval_policy p).mode ≡ "" = normalize-mode p ∙ rw (h, k) refl in
      rw m refl

  asks-Admits : asks ≡ true → Admits p fs
  asks-Admits h = elim (Bool-cases (str_eq p.mode "clean")) [
    | inl c ↦
        Admits.clean ((str_eq_iff p.mode "clean").0 c) (is_empty-nil fs (sym (asks-clean c) ∙ h))
    | inr c ↦ elim (Bool-cases (str_eq p.mode "threshold")) [
      | inl k ↦
          Admits.threshold ((str_eq_iff p.mode "threshold").0 k) (sym (asks-threshold c k) ∙ h)
      | inr k ↦ grind (arith, asks-other c k)
    ]
  ]

  Admits-asks : Admits p fs → asks ≡ true
  Admits-asks (Admits.clean m h) = asks-clean ((str_eq_iff p.mode "clean").1 m) ∙ ap is_empty h
  Admits-asks (Admits.threshold m h) =
      asks-threshold (ap (λ x. str_eq x "clean") m) ((str_eq_iff p.mode "threshold").1 m) ∙ h

  asks_iff : (asks ≡ true) ↔ Admits p fs
  asks_iff = (asks-Admits, Admits-asks)

-- A review approves exactly when the policy asks for it and admits the findings, the gate is clean,
-- the branch is no fork, the author is trusted, a file was reviewed, and the head is known and has
-- not moved.
pub resolve_event-approve_iff :
    (p : ApprovalPolicy) (info : PrInfo) (gate_clean : Bool) (fs : List Finding)
    (reviewed_files : ℕ) (head_unchanged : Bool)
    → ((resolve_event p info gate_clean fs reviewed_files head_unchanged).0 ≡ approve)
      ↔ (Admits p fs × IsSafe info gate_clean reviewed_files head_unchanged)
unfolding resolve_event asks
resolve_event-approve_iff p info gate_clean fs reviewed_files head_unchanged = (
  λ h. (
    ground (arith, asks_iff p fs),
    record {
      clean_gate = ground arith;
      own_branch = ground arith;
      trusted = ground arith;
      some_file = ground arith;
      known_head = ground arith;
      same_head = ground arith;
    },
  ),
  λ (a, s).
      let e = Admits-asks p fs a in
      ground (arith, s.clean_gate, s.own_branch, s.trusted, s.some_file, s.known_head, s.same_head),
)
