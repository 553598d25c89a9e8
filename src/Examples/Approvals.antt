-- ===== src/Examples/Approvals.antt =====
-- Tests and instances for approvals.
use miu_cr.Base.{
  ℕ, zero, suc, ◌≡◌, ◌↔◌, refl, Bool, true, false, Option, none, some, List, [], ◌∷◌, codes,
  text_eq, trim_space, All,
}
use miu_cr.Severity.{rank_of, max_severity_rank}
use miu_cr.Approval.{
  ApprovalPolicy, PrInfo, approve, Pages, CheckRun, CommitStatus, approval_checks_green, Host,
  Review, created, resolve_event, approve_resolved_ledger, approved,
}
use miu_cr.Approval.Events.{Admits, IsSafe, resolve_event-approve_iff}
use miu_cr.Approval.Checks.{IsGreen, Succeeds, all_of, approval_checks_green-safe}
use miu_cr.Approval.Resolved.{Justified, approve_resolved_ledger-Justified}
use miu_cr.Examples.{finding_of}

abbrev policy : ApprovalPolicy
policy = record { mode = "threshold"; max_priority = "P3"; note = "" }

abbrev info : PrInfo
info = record { author_association = "MEMBER"; is_fork = false; head_sha = codes "abc" }

resolve_event_test :
    resolve_event policy info true (finding_of "x" 1 "low" ∷ []) 2 true ≡ (approve, approved)
unfolding resolve_event max_severity_rank rank_of text_eq
resolve_event_test = refl

resolve_event-approve_iff_example :
    ((resolve_event policy info true (finding_of "x" 1 "low" ∷ []) 2 true).0 ≡ approve)
    ↔ (Admits policy (finding_of "x" 1 "low" ∷ []) × IsSafe info true 2 true)
resolve_event-approve_iff_example =
    resolve_event-approve_iff policy info true (finding_of "x" 1 "low" ∷ []) 2 true

-- A run that was cancelled and then passed, over two pages.
abbrev runs : Pages CheckRun
runs = Pages.more (record { name = "build"; status = "completed"; conclusion = "cancelled" } ∷ []) (
    Pages.last (
      record { name = "build"; status = "completed"; conclusion = "success" }
      ∷ record { name = "miu-cr"; status = "queued"; conclusion = "" }
      ∷ []))

abbrev statuses : Pages CommitStatus
statuses = Pages.last (record { context = "ci"; state = "success" } ∷ [])

green_test : approval_checks_green runs statuses ≡ some true
unfolding approval_checks_green
green_test = refl

approval_checks_green-safe_example :
    All (IsGreen (all_of runs)) (all_of runs) × All Succeeds (all_of statuses)
approval_checks_green-safe_example = approval_checks_green-safe runs statuses green_test

-- The second fetch knows that the pull request can be merged.
abbrev mergeable_at : ℕ → Option Bool
mergeable_at zero = none
mergeable_at (suc n) = some true

abbrev host : Host
host = record {
  get_pr = λ n. some (record { head = some (codes "abc"); mergeable = mergeable_at n });
  cancelled = λ n. false;
  check_runs = runs;
  statuses = statuses;
}

abbrev reviews : Option (List Review)
reviews = some (record { state = "APPROVED"; commit_id = codes "old" } ∷ [])

submitted_test : (approve_resolved_ledger host (some info) policy reviews created).0 ≡ true
unfolding approve_resolved_ledger text_eq max_severity_rank rank_of trim_space
submitted_test = refl

approve_resolved_ledger-Justified_example : Justified host policy reviews info
approve_resolved_ledger-Justified_example =
    approve_resolved_ledger-Justified host info policy reviews created submitted_test
