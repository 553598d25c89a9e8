-- ===== src/Review.antt =====
-- The passes of one review in their order: Review of internal/engine/engine.go.
pub mod Reported
use miu_cr.Base.{
  ℕ, ◌-◌, String, Bool, true, false, not, ◌&&◌, Option, none, some, List, [], ◌∷◌, Text, map,
  length, if◌then◌else◌,
}
use miu_cr.Finding.{Finding, Diff, Usage, no_usage, add_usage}
use miu_cr.Filter.{FilterOptions, select_files}
use miu_cr.Severity.{max_severity}
use miu_cr.Subagents.{SubagentConfig, SubagentPlan, RunResult, plan_subagents, review_passes}
use miu_cr.Dedupe.{drop_drift, dedupe}
use miu_cr.Recovery.{Relocate, Anchorer, recover_anchors}
use miu_cr.Repair.{RepairPatch, CleanReplacement, repair_patches}

-- The fields of a request that decide what is done with the findings.
pub record Request : Type 0 where
  pub filter : FilterOptions
  pub subagents : SubagentConfig
  pub anchor_recovery : Bool
  pub patch_repair : Bool
  pub post : Bool
  pub max_repair : ℕ
  pub gate : String

-- What the engine has, and what the calls of others answer: the diffs of git, the size of the
-- assembled context, the reviews of the agent over all selected diffs or over a plan, the quota (`none` without one, else whether its Check lets the
-- review through), and the functions that the wiring injects.
pub record Engine : Type 0 where
  pub to_lower : Text → Text
  pub glob_match : Text → Text → Bool
  pub digest : Text → Text
  pub get_diff : Option (List Diff)
  pub context_bytes : List Diff → ℕ
  pub review_once : List Diff → RunResult
  pub review_plan : SubagentPlan → RunResult
  pub relocate : Option Relocate
  pub repair : Option RepairPatch
  pub quota : Option Bool
  pub anchorer : Option Anchorer
  pub classifier : Option CleanReplacement

pub data ReviewError : Type 0 where
  diff_failed quota_blocked agent_failed no_anchorer : ReviewError

-- The result with the statistics about files and findings; `recorded` is the usage that the quota
-- meters.
pub record ReviewResult : Type 0 where
  pub findings : List Finding
  pub files_changed : ℕ
  pub files_reviewed : ℕ
  pub findings_dropped : ℕ
  pub highest_severity : String
  pub gate : String
  pub usage : Usage
  pub recorded : Option Usage

pub data Outcome : Type 0 where
  fails : ReviewError → Outcome
  returns : ReviewResult → Outcome

abbrev severities : List Finding → List String
severities fs = map (λ f. f.severity) fs

unfoldable pub nothing_selected : Request → ℕ → ReviewResult
unfolding max_severity
nothing_selected req files_changed = record {
  findings = [];
  files_changed = files_changed;
  files_reviewed = 0;
  findings_dropped = 0;
  highest_severity = max_severity [];
  gate = req.gate;
  usage = no_usage;
  recorded = none;
}

abbrev metered : Option Bool → Usage → Option Usage
metered none u = none
metered (some allowed) u = some u

module _ (e : Engine) (req : Request) where
  -- From the anchored findings on.
  unfoldable pub finish : Anchorer → ℕ → List Diff → List Finding → Usage → ReviewResult
  unfolding recover_anchors drop_drift dedupe repair_patches max_severity add_usage
  finish anchor files_changed selected found usage =
      let anchored = anchor found selected in
      let recovery = recover_anchors req.anchor_recovery e.relocate e.anchorer anchored selected in
      let kept = dedupe e.digest (drop_drift recovery.anchored) in
      let repair =
        repair_patches (req.patch_repair && req.post) e.repair e.classifier req.max_repair kept
          selected in
      let total = add_usage (add_usage usage recovery.out.usage) repair.usage in
      record {
        findings = repair.kept;
        files_changed = files_changed;
        files_reviewed = length selected;
        findings_dropped = length recovery.anchored - length kept;
        highest_severity = max_severity (severities kept);
        gate = req.gate;
        usage = total;
        recorded = metered e.quota total;
      }

  unfoldable pub passes : List Diff → RunResult
  unfolding review_passes plan_subagents
  passes selected =
      review_passes req.subagents (length selected) (e.context_bytes selected)
        (e.review_once selected) e.review_plan
        (plan_subagents e.to_lower e.glob_match selected req.subagents)

  unfoldable pub anchor_passes : Option Anchorer → ℕ → List Diff → RunResult → Outcome
  unfolding finish
  anchor_passes anchorer files_changed selected none = fails agent_failed
  anchor_passes none files_changed selected (some (found, usage)) = fails no_anchorer
  anchor_passes (some anchor) files_changed selected (some (found, usage)) =
      returns (finish anchor files_changed selected found usage)

  abbrev pub blocks : Option Bool → Bool
  blocks none = false
  blocks (some allowed) = not allowed

  unfoldable pub review_selected : ℕ → List Diff → Outcome
  unfolding anchor_passes nothing_selected passes
  review_selected files_changed [] = returns (nothing_selected req files_changed)
  review_selected files_changed (d ∷ ds) =
      if blocks e.quota
      then fails quota_blocked
      else anchor_passes e.anchorer files_changed (d ∷ ds) (passes (d ∷ ds))

  abbrev review_diffs : Option (List Diff) → Outcome
  review_diffs none = fails diff_failed
  review_diffs (some diffs) =
      review_selected (length diffs) (select_files e.to_lower e.glob_match diffs req.filter)

  unfoldable pub review : Outcome
  unfolding review_selected select_files
  review = review_diffs e.get_diff
