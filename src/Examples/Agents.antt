-- ===== src/Examples/Agents.antt =====
-- Tests and instances for subagents.
use miu_cr.Base.{◌≡◌, refl, true, false, none, some, [], ◌∷◌, All, Text, codes, text_eq, map}
use miu_cr.Finding.{Diff, review_path, no_usage}
use miu_cr.Subagents.{
  SubagentConfig, plan_subagents, use_subagents, parallel_limit, merge_subagent_outputs,
}
use miu_cr.Subagents.Covers.{is_planned, IsPlanOf, plan_subagents-covers}
use miu_cr.Examples.{finding_of, added_line}

abbrev same : Text → Text
same s = s

abbrev config : SubagentConfig
config = record {
  mode = "auto";
  agents =
      record {
        name = codes "api";
        operator_prompt = [];
        include_globs = codes "b.go" ∷ [];
        exclude_globs = [];
      }
      ∷ [];
  max_parallel = 0;
  min_files = 2;
  min_context_bytes = 0;
}

abbrev other : Diff
other = record added_line { new_path = codes "b.go" }

-- The agent takes its file, and the default plan the rest.
plans_test :
    map (λ p. p.files) (plan_subagents same text_eq (added_line ∷ other ∷ []) config)
    ≡ (other ∷ []) ∷ (added_line ∷ []) ∷ []
unfolding plan_subagents text_eq
plans_test = refl

use_test : use_subagents config 2 0 ≡ true
unfolding use_subagents
use_test = refl

limit_test :
    parallel_limit config (plan_subagents same text_eq (added_line ∷ other ∷ []) config) ≡ 2
unfolding parallel_limit plan_subagents text_eq
limit_test = refl

merge_test :
    merge_subagent_outputs (none ∷ some (finding_of "x" 1 "low" ∷ [], no_usage) ∷ [])
    ≡ (finding_of "x" 1 "low" ∷ [], no_usage, 1)
unfolding merge_subagent_outputs
merge_test = refl

abbrev IsText : Diff → Type 0
IsText d = d.is_binary ≡ false

plan_subagents-covers_example :
    let plans = plan_subagents same text_eq (added_line ∷ other ∷ []) config in
    All (λ d. is_planned plans (review_path d) ≡ true) (added_line ∷ other ∷ [])
    × All (IsPlanOf IsText) plans
plan_subagents-covers_example =
    plan_subagents-covers same text_eq (added_line ∷ other ∷ []) config IsText (refl, (refl, tt))
