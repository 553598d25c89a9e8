-- ===== src/Review/Reported.antt =====
-- What a review reports: Review of internal/engine/engine.go with all of its passes.
use miu_cr.Base.{
  not, suc, ◌++◌, All-append, ℕ, ◌≡◌, ◌≢◌, sym, subst, String, Bool, true, false, ◌&&◌, none, some,
  List, [], ◌∷◌, map, arith, All, Text, length, Pointwise, ◌==◌, Bool-cases, Option-cases, inl, inr,
  if◌then◌else◌,
}
use miu_cr.Finding.{Finding, Diff, Usage, no_usage, add_usage}
use miu_cr.Subagents.{
  SubagentConfig, SubagentPlan, RunResult, use_subagents, plan_subagents, merge_loop, any_failed,
  merged_or_failed, merge_subagent_outputs, review_plans, review_passes,
}
use miu_cr.Filter.{select_files}
use miu_cr.Anchor.{resolve_line_numbers, clear_lines}
use miu_cr.Anchor.Lines.{resolve_line_numbers-clear_lines}
use miu_cr.Dedupe.{drop_drift, dedupe}
use miu_cr.Dedupe.Laws.{dedupe-All}
use miu_cr.Recovery.{recover_anchors}
use miu_cr.Recovery.Untouched.{Change, recover_anchors-Change}
use miu_cr.Repair.{new_file_content}
use miu_cr.Repair.Guarantee.{Repaired, repair_patches-Repaired}
use miu_cr.Suggestion.{classify_replacement_exported}
use miu_cr.Review.{
  blocks, quota_blocked, Request, Engine, ReviewResult, fails, returns, Outcome, finish, passes,
  anchor_passes, review_selected, nothing_selected, review,
}

-- What a finding says, apart from where it stands and from its patch.
pub record Claim : Type 0 where
  pub file : Text
  pub title : Text
  pub rule : Text
  pub severity : String
  pub category : Text
  pub rationale : Text

abbrev pub claim : Finding → Claim
claim f = record {
  file = f.file;
  title = f.title;
  rule = f.rule;
  severity = f.severity;
  category = f.category;
  rationale = f.rationale;
}

Pointwise-All :
    {A : Type 0} (R : A → A → Type 0) (P Q : A → Type 0) (xs ys : List A)
    → ((x y : A) → R x y → P x → Q y)
    → Pointwise R xs ys
    → All P xs
    → All Q ys
Pointwise-All R P Q [] [] f r h = tt
Pointwise-All R P Q [] (y ∷ ys) f r h = absurd r
Pointwise-All R P Q (x ∷ xs) [] f r h = absurd r
Pointwise-All R P Q (x ∷ xs) (y ∷ ys) f r h = (f x y r.0 h.0, Pointwise-All R P Q xs ys f r.1 h.1)

drop_drift-All :
    (Q : Finding → Type 0) (fs : List Finding)
    → All Q fs
    → All (λ f. (f.line ≢ 0) × Q f) (drop_drift fs)
unfolding drop_drift
drop_drift-All Q [] h = tt
drop_drift-All Q (f ∷ fs) h = elim (Bool-cases (f.line == 0)) [
  | inl z ↦ rw z (drop_drift-All Q fs h.1)
  | inr z ↦ rw z (((λ e. ground arith), h.0), drop_drift-All Q fs h.1)
]

module _ (P : Claim → Type 0) where
  abbrev pub Claims : List Finding → Type 0
  Claims fs = All (λ f. P (claim f)) fs

  clear_lines-Claims : (fs : List Finding) → Claims fs → Claims (map clear_lines fs)
  unfolding clear_lines
  clear_lines-Claims [] h = tt
  clear_lines-Claims (f ∷ fs) h = (h.0, clear_lines-Claims fs h.1)

  Claims-clear_lines : (fs : List Finding) → Claims (map clear_lines fs) → Claims fs
  unfolding clear_lines
  Claims-clear_lines [] h = tt
  Claims-clear_lines (f ∷ fs) h = (h.0, Claims-clear_lines fs h.1)

  resolve_line_numbers-Claims :
      (fs : List Finding) (d : Diff) (ds : List Diff)
      → Claims fs
      → Claims (resolve_line_numbers fs (d ∷ ds))
  resolve_line_numbers-Claims fs d ds h =
      Claims-clear_lines (resolve_line_numbers fs (d ∷ ds))
        (subst Claims (sym (resolve_line_numbers-clear_lines fs d ds).1) (clear_lines-Claims fs h))

  Change-Claims : (f g : Finding) → Change f g → P (claim f) → P (claim g)
  Change-Claims f g (Change.same e) h = subst (λ x. P (claim x)) (sym e) h
  Change-Claims f g (Change.moved q l n _ _ e) h = subst (λ x. P (claim x)) (sym e) h

  -- A reported finding has a line, and says what the agent said.
  abbrev pub IsReported : Finding → Type 0
  IsReported f = (f.line ≢ 0) × P (claim f)

  Repaired-IsReported :
      (content : Text → Text) (f g : Finding) → Repaired content f g → IsReported f → IsReported g
  Repaired-IsReported content f g (Repaired.untouched e) h = subst IsReported (sym e) h
  Repaired-IsReported content f g (Repaired.mended p new _ e _) h = subst IsReported (sym e) h

module _ (P : Claim → Type 0) where
  -- Of what a call of the agent returns, if it does not fail.
  abbrev pub SaysOnly : RunResult → Type 0
  SaysOnly none = Unit
  SaysOnly (some (found, usage)) = Claims P found

  merge_loop-Claims :
      (fs : List Finding) (usage : Usage) (n : ℕ) (results : List RunResult)
      → Claims P fs
      → All SaysOnly results
      → Claims P (merge_loop fs usage n results).0
  unfolding merge_loop
  merge_loop-Claims fs usage n [] h r = h
  merge_loop-Claims fs usage n (none ∷ results) h r = merge_loop-Claims fs usage n results h r.1
  merge_loop-Claims fs usage n (some (found, u) ∷ results) h r =
      merge_loop-Claims (fs ++ found) (add_usage usage u) (suc n) results
        (All-append (λ f. P (claim f)) fs found h r.0) r.1

  merged_or_failed-SaysOnly :
      (results : List RunResult) (m : List Finding × Usage × ℕ)
      → Claims P m.0
      → SaysOnly (merged_or_failed results m)
  merged_or_failed-SaysOnly results (fs, usage, n) h = go (n == 0 && any_failed results)
    where
      go : (b : Bool) → SaysOnly (if b then none else some (fs, usage))
      go true = tt
      go false = h

  module _ (run : SubagentPlan → RunResult)
      (said : (plan : SubagentPlan) → SaysOnly (run plan)) where
    run-SaysOnly : (plans : List SubagentPlan) → All SaysOnly (map run plans)
    run-SaysOnly [] = tt
    run-SaysOnly (p ∷ plans) = (said p, run-SaysOnly plans)

    review_plans-SaysOnly :
        (once : RunResult) (plans : List SubagentPlan)
        → SaysOnly once
        → SaysOnly (review_plans once run plans)
    unfolding review_plans merge_subagent_outputs
    review_plans-SaysOnly once [] h = h
    review_plans-SaysOnly once (p ∷ plans) h =
        let results = map run (p ∷ plans) in
        merged_or_failed-SaysOnly results (merge_subagent_outputs results)
          (merge_loop-Claims [] no_usage 0 results tt (run-SaysOnly (p ∷ plans)))

    review_passes-SaysOnly :
        (cfg : SubagentConfig) (n bytes : ℕ) (once : RunResult) (plans : List SubagentPlan)
        → SaysOnly once
        → SaysOnly (review_passes cfg n bytes once run plans)
    unfolding review_passes
    review_passes-SaysOnly cfg n bytes once plans h = go (not (use_subagents cfg n bytes))
      where
        go : (b : Bool) → SaysOnly (if b then once else review_plans once run plans)
        go true = h
        go false = review_plans-SaysOnly once plans h

-- The engine as the program wires it: with the anchor resolver and the suggestions' classifier.
abbrev pub wired : Engine → Engine
wired e = record e {
  anchorer = some resolve_line_numbers;
  classifier = some classify_replacement_exported;
}

module _ (P : Claim → Type 0) (e : Engine) (req : Request) where
  finish-IsReported :
      (n : ℕ) (d : Diff) (ds : List Diff) (found : List Finding) (usage : Usage)
      → Claims P found
      → All
          (IsReported P)
          (finish (wired e) req resolve_line_numbers n (d ∷ ds) found usage).findings
  unfolding finish
  finish-IsReported n d ds found usage h =
      let selected = d ∷ ds in
      let anchored = resolve_line_numbers found selected in
      let recovery =
        recover_anchors req.anchor_recovery e.relocate (some resolve_line_numbers) anchored
          selected in
      let kept = dedupe e.digest (drop_drift recovery.anchored) in
      let moved : Claims P recovery.anchored =
        Pointwise-All Change (λ f. P (claim f)) (λ f. P (claim f)) anchored recovery.anchored
          (Change-Claims P)
          (recover_anchors-Change req.anchor_recovery e.relocate (some resolve_line_numbers)
            anchored selected)
          (resolve_line_numbers-Claims P found d ds h) in
      let lined : All (IsReported P) kept =
        dedupe-All e.digest (IsReported P) (drop_drift recovery.anchored)
          (drop_drift-All (λ f. P (claim f)) recovery.anchored moved) in
      let content = new_file_content (λ q. []) selected in
      Pointwise-All (Repaired content) (IsReported P) (IsReported P) kept _
        (Repaired-IsReported P content)
        (repair_patches-Repaired (req.patch_repair && req.post) e.repair req.max_repair kept
          selected)
        lined

  abbrev AllReported : Outcome → Type 0
  AllReported (fails x) = Unit
  AllReported (returns r) = All (IsReported P) r.findings

  module _ (once_said : (selected : List Diff) → SaysOnly P (e.review_once selected))
      (plan_said : (plan : SubagentPlan) → SaysOnly P (e.review_plan plan)) where
    passes-SaysOnly : (selected : List Diff) → SaysOnly P (passes (wired e) req selected)
    unfolding passes
    passes-SaysOnly selected =
        review_passes-SaysOnly P e.review_plan plan_said req.subagents (length selected)
          (e.context_bytes selected) (e.review_once selected)
          (plan_subagents e.to_lower e.glob_match selected req.subagents) (once_said selected)

    anchor_passes-AllReported :
        (n : ℕ) (d : Diff) (ds : List Diff) (o : RunResult)
        → SaysOnly P o
        → AllReported (anchor_passes (wired e) req (some resolve_line_numbers) n (d ∷ ds) o)
    unfolding anchor_passes
    anchor_passes-AllReported n d ds none h = tt
    anchor_passes-AllReported n d ds (some (found, usage)) h =
        finish-IsReported n d ds found usage h

    review_selected-AllReported :
        (n : ℕ) (selected : List Diff) → AllReported (review_selected (wired e) req n selected)
    unfolding review_selected nothing_selected
    review_selected-AllReported n [] = tt
    review_selected-AllReported n (d ∷ ds) = go (blocks (wired e) req e.quota)
      where
        go :
            (b : Bool)
            → AllReported (
                if b
                then fails quota_blocked
                else anchor_passes
                    (wired e)
                    req
                    (some resolve_line_numbers)
                    n
                    (d ∷ ds)
                    (passes (wired e) req (d ∷ ds)))
        go true = tt
        go false =
            anchor_passes-AllReported n d ds (passes (wired e) req (d ∷ ds))
              (passes-SaysOnly (d ∷ ds))

    review-AllReported : AllReported (review (wired e) req)
    unfolding review
    review-AllReported = elim (Option-cases e.get_diff) [
      | inl h ↦ rw (h, review) tt
      | inr (diffs, h) ↦
          rw (h, review)
            (review_selected-AllReported (length diffs)
              (select_files e.to_lower e.glob_match diffs req.filter))
    ]

-- Through all passes of a review, with or without subagents, with the anchor resolver and the
-- classifier that the program wires in, and whatever git and the second passes answer: each reported
-- finding has a line, and whatever holds of what the agent's findings say (their file, title, rule,
-- severity, category and rationale) holds of what the reported ones say.
pub review-IsReported :
    (P : Claim → Type 0) (e : Engine) (req : Request) (r : ReviewResult)
    → ((selected : List Diff) → SaysOnly P (e.review_once selected))
    → ((plan : SubagentPlan) → SaysOnly P (e.review_plan plan))
    → review (wired e) req ≡ returns r
    → All (IsReported P) r.findings
review-IsReported P e req r once_said plan_said h =
    subst (AllReported P e req) h (review-AllReported P e req once_said plan_said)
