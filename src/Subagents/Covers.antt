-- ===== src/Subagents/Covers.antt =====
-- No selected file is left out of the plans: internal/engine/subagents.go.
use miu_cr.Base.{
  ◌≡◌, ◌≢◌, refl, Bool, true, false, not, ◌||◌, List, [], ◌∷◌, ◌++◌, arith, All, All-map,
  All-append, All-keep, Text, text_eq_iff, any, keep, Bool-cases, inl, inr,
}
use miu_cr.Finding.{Diff, review_path}
use miu_cr.Filter.{select_files}
use miu_cr.Subagents.{
  default_spec, SubagentSpec, SubagentConfig, SubagentPlan, Assigned, is_path_of, plan_for,
  files_of, plan_loop, plan_subagents,
}

-- Some plan has a file with the path.
abbrev pub is_planned : List SubagentPlan → Text → Bool
is_planned plans q = any (λ p. is_path_of q p.files) plans

any-append :
    {A : Type 0} (p : A → Bool) (xs ys : List A) → any p (xs ++ ys) ≡ (any p xs || any p ys)
any-append p [] ys = refl
any-append p (x ∷ xs) ys = ground (arith, any-append p xs ys)

is_planned-plan_for :
    (spec : SubagentSpec) (files : List Diff) (q : Text)
    → is_planned (plan_for spec files) q ≡ is_path_of q files
is_planned-plan_for spec [] q = refl
is_planned-plan_for spec (f ∷ files) q = ground arith

-- A selected file that is not assigned is among the rest.
is_path_of-keep :
    (assigned : Assigned) (d : Diff) (fs : List Diff)
    → assigned (review_path d) ≡ false
    → is_path_of (review_path d) fs ≡ true
    → is_path_of (review_path d) (keep (λ f. not (assigned (review_path f))) fs) ≡ true
is_path_of-keep assigned d [] h e = cc
is_path_of-keep assigned d (f ∷ fs) h e =
    ground (arith, text_eq_iff (review_path d) (review_path f), is_path_of-keep assigned d fs h)

is_path_of_self : (fs : List Diff) → All (λ d. is_path_of (review_path d) fs ≡ true) fs
is_path_of_self [] = tt
is_path_of_self (f ∷ fs) = (
  ground (arith, text_eq_iff (review_path f) (review_path f)),
  All-map (λ d. is_path_of (review_path d) fs ≡ true)
      (λ d. is_path_of (review_path d) (f ∷ fs) ≡ true) fs (λ d h. ground (arith, h))
      (is_path_of_self fs),
)

-- A plan has files, and only such as the property holds of.
abbrev pub IsPlanOf : (Diff → Type 0) → SubagentPlan → Type 0
IsPlanOf P p = (p.files ≢ []) × All P p.files

plan_for-IsPlanOf :
    (P : Diff → Type 0) (spec : SubagentSpec) (files : List Diff)
    → All P files
    → All (IsPlanOf P) (plan_for spec files)
plan_for-IsPlanOf P spec [] h = tt
plan_for-IsPlanOf P spec (f ∷ files) h = (((λ e. cc), h), tt)

module _ (to_lower : Text → Text) (glob_match : Text → Text → Bool) (selected : List Diff)
    (P : Diff → Type 0) (h : All P selected) where
  -- The plans so far have the assigned paths, and only selected files.
  record IsPlanning (state : Assigned × List SubagentPlan) : Type 0 where
    has : (q : Text) → state.0 q ≡ true → is_planned state.1 q ≡ true
    each : All (IsPlanOf P) state.1

  plan_loop-IsPlanning :
      (assigned : Assigned) (plans : List SubagentPlan) (agents : List SubagentSpec)
      → IsPlanning (assigned, plans)
      → IsPlanning (plan_loop to_lower glob_match selected assigned plans agents)
  unfolding plan_loop
  plan_loop-IsPlanning assigned plans [] c = c
  plan_loop-IsPlanning assigned plans (spec ∷ agents) c =
      let files = files_of to_lower glob_match selected spec in
      let chosen : All P files = unfold files_of select_files in All-keep P _ selected h in
      plan_loop-IsPlanning (λ q. is_path_of q files || assigned q) (plans ++ plan_for spec files)
        agents
        (record {
          has = λ q e. ground (
            arith,
            any-append (λ p. is_path_of q p.files) plans (plan_for spec files),
            is_planned-plan_for spec files q,
            c.has q,
          );
          each =
              All-append (IsPlanOf P) plans (plan_for spec files) c.each
                (plan_for-IsPlanOf P spec files chosen);
        })

-- The plans leave no selected file out: each has its path in some plan. And each plan has at least
-- one file, and only files that hold what all selected ones do.
pub plan_subagents-covers :
    (to_lower : Text → Text) (glob_match : Text → Text → Bool) (selected : List Diff)
    (cfg : SubagentConfig) (P : Diff → Type 0)
    → All P selected
    → let plans = plan_subagents to_lower glob_match selected cfg in
      All (λ d. is_planned plans (review_path d) ≡ true) selected × All (IsPlanOf P) plans
unfolding plan_subagents
plan_subagents-covers to_lower glob_match selected cfg P h =
    let state = plan_loop to_lower glob_match selected (λ q. false) [] cfg.agents in
    let c =
      plan_loop-IsPlanning to_lower glob_match selected P h (λ q. false) [] cfg.agents
        (record { has = λ q e. cc; each = tt }) in
    let rest = keep (λ f. not (state.0 (review_path f))) selected in
    (
      All-map (λ d. is_path_of (review_path d) selected ≡ true)
          (λ d. is_planned (state.1 ++ plan_for default_spec rest) (review_path d) ≡ true) selected
          (λ d there. elim (Bool-cases (state.0 (review_path d))) [
            | inl assigned ↦ ground (
              arith,
              any-append (λ p. is_path_of (review_path d) p.files) state.1
                  (plan_for default_spec rest),
              c.has (review_path d) assigned,
            )
            | inr free ↦ ground (
              arith,
              any-append (λ p. is_path_of (review_path d) p.files) state.1
                  (plan_for default_spec rest),
              is_planned-plan_for default_spec rest (review_path d),
              is_path_of-keep state.0 d selected free there,
            )
          ])
          (is_path_of_self selected),
      All-append (IsPlanOf P) state.1 (plan_for default_spec rest) c.each
          (plan_for-IsPlanOf P default_spec rest (All-keep P _ selected h)),
    )
