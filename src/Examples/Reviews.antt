-- ===== src/Examples/Reviews.antt =====
-- Tests and instances for a whole review.
use miu_cr.Base.{
  ◌≡◌, refl, true, false, none, some, List, [], ◌∷◌, All, codes, text_eq, trim_space, join_lines,
  has_prefix, trim_prefix,
}
use miu_cr.Finding.{Diff, no_usage}
use miu_cr.Subagents.{SubagentPlan}
use miu_cr.Review.{Request, Engine, ReviewResult, finish, returns, review}
use miu_cr.Review.Reported.{Claim, SaysOnly, IsReported, wired, review-IsReported}
use miu_cr.Anchor.{resolve_line_numbers}
use miu_cr.Examples.{finding_of, added_line}

abbrev request : Request
request = record {
  filter = record { extensions = codes ".go" ∷ []; include = []; exclude = [] };
  anchor_recovery = false;
  patch_repair = false;
  post = false;
  max_repair = 0;
  gate = "high";
  subagents = record {
    mode = "always";
    agents =
        record { name = codes "go"; operator_prompt = []; include_globs = []; exclude_globs = [] }
        ∷ [];
    max_parallel = 0;
    min_files = 0;
    min_context_bytes = 0;
  };
}

-- A subagent that reports one finding that anchors and one that does not.
abbrev engine : Engine
engine = record {
  to_lower = λ s. s;
  glob_match = λ g p. false;
  digest = λ s. s;
  get_diff = some (added_line ∷ []);
  context_bytes = λ selected. 0;
  review_once = λ selected. none;
  review_plan =
      λ plan. some (finding_of "x := 1" 9 "high" ∷ finding_of "nowhere" 2 "high" ∷ [], no_usage);
  relocate = none;
  repair = none;
  quota = some true;
  anchorer = none;
  classifier = none;
}

abbrev result : ReviewResult
result =
    finish (wired engine) request resolve_line_numbers 1 (added_line ∷ [])
      (finding_of "x := 1" 9 "high" ∷ finding_of "nowhere" 2 "high" ∷ []) no_usage

review_test : review (wired engine) request ≡ returns result
unfolding review text_eq trim_space join_lines has_prefix trim_prefix
review_test = refl

abbrev IsHigh : Claim → Type 0
IsHigh c = c.severity ≡ "high"

once_said : (selected : List Diff) → SaysOnly IsHigh (engine.review_once selected)
once_said selected = tt

plan_said : (plan : SubagentPlan) → SaysOnly IsHigh (engine.review_plan plan)
plan_said plan = (refl, (refl, tt))

review-IsReported_example : All (IsReported IsHigh) result.findings
review-IsReported_example =
    review-IsReported IsHigh engine request result once_said plan_said review_test
