-- ===== src/Subagents.antt =====
-- Splitting a review over subagents: internal/engine/subagents.go.
pub mod Covers
use miu_cr.Base.{
  ℕ, zero, suc, ◌+◌, String, Bool, true, false, not, ◌&&◌, ◌||◌, map, Option, none, some, List, [],
  ◌∷◌, ◌++◌, Text, codes, text_eq, str_eq, any, keep, length, leb, ltb, ◌==◌, if◌then◌else◌,
}
use miu_cr.Finding.{Finding, Diff, review_path, Usage, no_usage, add_usage}
use miu_cr.Filter.{FilterOptions, select_files}

abbrev default_subagent_max_parallel : ℕ
default_subagent_max_parallel = 2

abbrev default_subagent_min_files : ℕ
default_subagent_min_files = 8

abbrev default_subagent_min_context_bytes : ℕ
default_subagent_min_context_bytes = 60000

abbrev max_subagent_parallel : ℕ
max_subagent_parallel = 8

pub record SubagentSpec : Type 0 where
  pub name : Text
  pub operator_prompt : Text
  pub include_globs : List Text
  pub exclude_globs : List Text

pub record SubagentConfig : Type 0 where
  pub mode : String
  pub agents : List SubagentSpec
  pub max_parallel : ℕ
  pub min_files : ℕ
  pub min_context_bytes : ℕ

pub record SubagentPlan : Type 0 where
  pub name : Text
  pub operator_prompt : Text
  pub files : List Diff

abbrev has_agents : List SubagentSpec → Bool
has_agents [] = false
has_agents (a ∷ agents) = true

abbrev or_default : ℕ → ℕ → ℕ
or_default n fallback = if n == 0 then fallback else n

unfoldable pub use_subagents : SubagentConfig → ℕ → ℕ → Bool
use_subagents cfg file_count context_bytes =
    if not (has_agents cfg.agents)
    then false
    else if str_eq cfg.mode "always"
    then true
    else if str_eq cfg.mode "auto"
    then leb (or_default cfg.min_files default_subagent_min_files) file_count
      || leb (or_default cfg.min_context_bytes default_subagent_min_context_bytes) context_bytes
    else false

-- The keys of `assigned`, as a function.
abbrev pub Assigned : Type 0
Assigned = Text → Bool

abbrev pub is_path_of : Text → List Diff → Bool
is_path_of q files = any (λ f. text_eq q (review_path f)) files

-- A plan for the files, unless there is none.
abbrev pub plan_for : SubagentSpec → List Diff → List SubagentPlan
plan_for spec [] = []
plan_for spec (f ∷ files) =
    record { name = spec.name; operator_prompt = spec.operator_prompt; files = f ∷ files } ∷ []

abbrev pub default_spec : SubagentSpec
default_spec = record {
  name = codes "default";
  operator_prompt = [];
  include_globs = [];
  exclude_globs = [];
}

module _ (to_lower : Text → Text) (glob_match : Text → Text → Bool) (selected : List Diff) where
  unfoldable pub files_of : SubagentSpec → List Diff
  unfolding select_files
  files_of spec =
      select_files to_lower glob_match selected
        (record { extensions = []; include = spec.include_globs; exclude = spec.exclude_globs })

  -- The loop over the agents, with its two variables.
  unfoldable pub plan_loop :
      Assigned → List SubagentPlan → List SubagentSpec → Assigned × List SubagentPlan
  unfolding files_of
  plan_loop assigned plans [] = (assigned, plans)
  plan_loop assigned plans (spec ∷ agents) =
      let files = files_of spec in
      plan_loop (λ q. is_path_of q files || assigned q) (plans ++ plan_for spec files) agents

  unfoldable pub plan_subagents : SubagentConfig → List SubagentPlan
  unfolding plan_loop
  plan_subagents cfg =
      let (assigned, plans) = plan_loop (λ q. false) [] cfg.agents in
      plans ++ plan_for default_spec (keep (λ f. not (assigned (review_path f))) selected)

-- How many plans run at once.
unfoldable pub parallel_limit : SubagentConfig → List SubagentPlan → ℕ
parallel_limit cfg plans =
    let limit = or_default cfg.max_parallel default_subagent_max_parallel in
    let capped = if ltb max_subagent_parallel limit then max_subagent_parallel else limit in
    if ltb (length plans) capped then length plans else capped

-- What a plan's review returns, `none` for an error.
abbrev pub RunResult : Type 0
RunResult = Option (List Finding × Usage)

-- The loop of `mergeSubagentOutputs` over the findings, the usage and the count of successes.
unfoldable pub merge_loop : List Finding → Usage → ℕ → List RunResult → List Finding × Usage × ℕ
unfolding add_usage
merge_loop fs usage ok_count [] = (fs, usage, ok_count)
merge_loop fs usage ok_count (none ∷ results) = merge_loop fs usage ok_count results
merge_loop fs usage ok_count (some (found, u) ∷ results) =
    merge_loop (fs ++ found) (add_usage usage u) (suc ok_count) results

unfoldable pub merge_subagent_outputs : List RunResult → List Finding × Usage × ℕ
unfolding merge_loop
merge_subagent_outputs results = merge_loop [] no_usage 0 results

abbrev pub any_failed : List RunResult → Bool
any_failed [] = false
any_failed (none ∷ results) = true
any_failed (some r ∷ results) = any_failed results

abbrev pub merged_or_failed : List RunResult → List Finding × Usage × ℕ → RunResult
merged_or_failed results (fs, usage, ok_count) =
    if ok_count == 0 && any_failed results then none else some (fs, usage)

-- `once` is the review of all selected files at once, `run` that of a plan.
unfoldable pub review_plans : RunResult → (SubagentPlan → RunResult) → List SubagentPlan → RunResult
unfolding merge_subagent_outputs
review_plans once run [] = once
review_plans once run (p ∷ plans) =
    let results = map run (p ∷ plans) in merged_or_failed results (merge_subagent_outputs results)

unfoldable pub review_passes :
    SubagentConfig → ℕ → ℕ → RunResult → (SubagentPlan → RunResult) → List SubagentPlan → RunResult
unfolding use_subagents review_plans
review_passes cfg file_count context_bytes once run plans =
    if not (use_subagents cfg file_count context_bytes) then once else review_plans once run plans
