-- ===== src/Approval.antt =====
-- The approval of a pull request: internal/github/approve.go.
pub mod Events
pub mod Checks
pub mod Resolved
use miu_cr.Base.{
  ℕ, zero, suc, String, Bool, true, false, not, ◌&&◌, ◌||◌, Option, none, some, List, [], ◌∷◌, Text,
  codes, text_eq, trim_space, str_eq, map, leb, ◌==◌, if◌then◌else◌,
}
use miu_cr.Finding.{Finding}
use miu_cr.Severity.{max_severity_rank}

abbrev pub check_run_name : String
check_run_name = "miu-cr"

pub record ApprovalPolicy : Type 0 where
  pub mode : String
  pub max_priority : String
  pub note : String

abbrev pub no_policy : ApprovalPolicy
no_policy = record { mode = ""; max_priority = ""; note = "" }

-- The fields of PRInfo that the approval reads.
pub record PrInfo : Type 0 where
  pub author_association : String
  pub is_fork : Bool
  pub head_sha : Text

pub data ApproveReason : Type 0 where
  approved not_requested gate_failed threshold_failed fork untrusted nothing_done head_unknown
        head_moved merge_conflict checks_not_green readiness_unverified self_forbidden forbidden
        rejected list_reviews_failed create_review_failed :
      ApproveReason

pub data Event : Type 0 where
  approve comment : Event

unfoldable pub trusted_author : PrInfo → Bool
trusted_author info =
    str_eq info.author_association "OWNER"
    || str_eq info.author_association "MEMBER"
    || str_eq info.author_association "COLLABORATOR"

abbrev default_note : ApprovalPolicy → ApprovalPolicy
default_note p = if str_eq p.note "" then record p { note = "always" } else p

unfoldable pub normalize_approval_policy : ApprovalPolicy → ApprovalPolicy
normalize_approval_policy p =
    if str_eq p.mode "" || str_eq p.mode "off"
    then no_policy
    else if str_eq p.mode "clean"
    then default_note (record p { max_priority = "" })
    else if str_eq p.mode "threshold"
    then default_note (if str_eq p.max_priority "" then record p { max_priority = "P4" } else p)
    else no_policy

abbrev pub severities : List Finding → List String
severities fs = map (λ f. f.severity) fs

-- `none` is -1.
unfoldable pub approval_priority_rank : String → Option ℕ
approval_priority_rank priority =
    if str_eq priority "P0"
    then some (max_severity_rank ("critical" ∷ []))
    else if str_eq priority "P1"
    then some (max_severity_rank ("high" ∷ []))
    else if str_eq priority "P2"
    then some (max_severity_rank ("medium" ∷ []))
    else if str_eq priority "P3"
    then some (max_severity_rank ("low" ∷ []))
    else if str_eq priority "P4"
    then some (max_severity_rank ("info" ∷ []))
    else none

abbrev pub within : ℕ → Option ℕ → Bool
within n none = false
within n (some m) = leb n m

abbrev pub is_empty : List Finding → Bool
is_empty [] = true
is_empty (f ∷ fs) = false

unfoldable pub approval_findings_allowed : ApprovalPolicy → List Finding → Bool
unfolding approval_priority_rank
approval_findings_allowed p fs =
    if str_eq p.mode "clean"
    then is_empty fs
    else if str_eq p.mode "threshold"
    then within (max_severity_rank (severities fs)) (approval_priority_rank p.max_priority)
    else false

unfoldable pub resolve_event :
    ApprovalPolicy → PrInfo → Bool → List Finding → ℕ → Bool → Event × ApproveReason
unfolding normalize_approval_policy approval_findings_allowed trusted_author
resolve_event approval info gate_clean fs reviewed_files head_unchanged =
    let policy = normalize_approval_policy approval in
    if str_eq policy.mode "" || str_eq policy.mode "off"
    then (comment, not_requested)
    else if not gate_clean
    then (comment, gate_failed)
    else if not (approval_findings_allowed policy fs)
    then (comment, threshold_failed)
    else if info.is_fork
    then (comment, fork)
    else if not (trusted_author info)
    then (comment, untrusted)
    else if leb reviewed_files 0
    then (comment, nothing_done)
    else if text_eq info.head_sha []
    then (comment, head_unknown)
    else if not head_unchanged
    then (comment, head_moved)
    else (approve, approved)

abbrev is_approve : Event → Bool
is_approve approve = true
is_approve comment = false

unfoldable pub approval_would_approve : PrInfo → ApprovalPolicy → Bool → List Finding → ℕ → Bool
unfolding resolve_event
approval_would_approve info policy gate_clean fs reviewed_files =
    is_approve (resolve_event policy info gate_clean fs reviewed_files true).0

-- The answers of a listing call, page by page.
pub data Pages (A : Type 0) : Type 0 where
  failed : Pages A
  last : List A → Pages A
  more : List A → Pages A → Pages A

pub record CheckRun : Type 0 where
  pub name : String
  pub status : String
  pub conclusion : String

pub record CommitStatus : Type 0 where
  pub context : String
  pub state : String

unfoldable pub check_conclusion_clear : String → Bool
check_conclusion_clear c =
    str_eq c "success" || str_eq c "neutral" || str_eq c "skipped" || str_eq c "cancelled"

pub record CheckNameState : Type 0 where
  pub pending : Bool
  pub passed : Bool
  pub failing : Bool

abbrev pub fresh_state : CheckNameState
fresh_state = record { pending = false; passed = false; failing = false }

-- The body of `noteCheckRun` on the state of the run's name.
unfoldable pub note_state : CheckNameState → CheckRun → CheckNameState
unfolding check_conclusion_clear
note_state st run =
    if not (str_eq run.status "completed")
    then record st { pending = true }
    else if str_eq run.conclusion "cancelled"
    then st
    else if check_conclusion_clear run.conclusion
    then record st { passed = true }
    else record st { failing = true }

abbrev pub StateMap : Type 0
StateMap = List (String × CheckNameState)

unfoldable pub note_check_run : StateMap → CheckRun → StateMap
unfolding note_state
note_check_run [] run = (run.name, note_state fresh_state run) ∷ []
note_check_run ((n, st) ∷ rest) run =
    let later = note_check_run rest run in
    if str_eq n run.name then (n, note_state st run) ∷ rest else (n, st) ∷ later

unfoldable pub note_runs : StateMap → List CheckRun → StateMap
unfolding note_check_run
note_runs by_name [] = by_name
note_runs by_name (run ∷ runs) =
    note_runs (if str_eq run.name check_run_name then by_name else note_check_run by_name run) runs

-- The loop over the pages of check runs, `none` on an error.
unfoldable pub collect_runs : StateMap → Pages CheckRun → Option StateMap
unfolding note_runs
collect_runs by_name Pages.failed = none
collect_runs by_name (Pages.last runs) = some (note_runs by_name runs)
collect_runs by_name (Pages.more runs rest) = collect_runs (note_runs by_name runs) rest

unfoldable pub all_names_pass : StateMap → Bool
all_names_pass [] = true
all_names_pass ((n, st) ∷ rest) =
    not (st.failing || st.pending || not st.passed) && all_names_pass rest

unfoldable pub statuses_succeed : List CommitStatus → Bool
statuses_succeed [] = true
statuses_succeed (s ∷ ss) =
    (str_eq s.context check_run_name || str_eq s.state "success") && statuses_succeed ss

unfoldable pub status_pages_succeed : Pages CommitStatus → Option Bool
unfolding statuses_succeed
status_pages_succeed Pages.failed = none
status_pages_succeed (Pages.last ss) = some (statuses_succeed ss)
status_pages_succeed (Pages.more ss rest) =
    let later = status_pages_succeed rest in if statuses_succeed ss then later else some false

unfoldable pub approval_checks_green : Pages CheckRun → Pages CommitStatus → Option Bool
unfolding collect_runs all_names_pass status_pages_succeed
approval_checks_green runs statuses = elim (collect_runs [] runs) [
  | none ↦ none
  | some by_name ↦ if all_names_pass by_name then status_pages_succeed statuses else some false
]

-- What a fetch of the pull request yields: its head, if it has one, and whether it can be merged.
pub record FreshPr : Type 0 where
  pub head : Option Text
  pub mergeable : Option Bool

-- The host as the code sees it during one approval: the answer of each fetch (`none` on an error),
-- whether the context is done after it, and the listings.
pub record Host : Type 0 where
  pub get_pr : ℕ → Option FreshPr
  pub cancelled : ℕ → Bool
  pub check_runs : Pages CheckRun
  pub statuses : Pages CommitStatus

abbrev pub approval_readiness_attempts : ℕ
approval_readiness_attempts = 3

abbrev same_text : Text → Option Text → Bool
same_text t none = false
same_text t (some u) = text_eq u t

-- What follows the loop of `approvalReadiness`.
unfoldable pub readiness_of : Host → Option Bool → ApproveReason
unfolding approval_checks_green
readiness_of host none = readiness_unverified
readiness_of host (some false) = merge_conflict
readiness_of host (some true) = elim (approval_checks_green host.check_runs host.statuses) [
  | none ↦ readiness_unverified
  | some false ↦ checks_not_green
  | some true ↦ approved
]

-- The loop, with the attempts that are left.
unfoldable pub readiness_loop : Host → PrInfo → ℕ → ℕ → ApproveReason
unfolding readiness_of
readiness_loop host info attempt zero = readiness_of host none
readiness_loop host info attempt (suc left) = elim (host.get_pr attempt) [
  | none ↦ readiness_unverified
  | some fresh ↦ elim (same_text info.head_sha fresh.head) [
    | false ↦ head_moved
    | true ↦ elim fresh.mergeable [
      | some m ↦ readiness_of host (some m)
      | none ↦ elim (not (left == 0) && host.cancelled attempt) [
        | true ↦ readiness_unverified
        | false ↦ readiness_loop host info (suc attempt) left
      ]
    ]
  ]
]

unfoldable pub approval_readiness : Host → PrInfo → ApproveReason
unfolding readiness_loop
approval_readiness host info = readiness_loop host info 0 approval_readiness_attempts

pub record Review : Type 0 where
  pub state : String
  pub commit_id : Text

pub record ApprovalReviewState : Type 0 where
  pub current : Bool
  pub prior : Bool

-- The reviews are those of one page, of at most 100; the code reads no other.
unfoldable pub approval_reviews : Text → ApprovalReviewState → List Review → ApprovalReviewState
approval_reviews head st [] = st
approval_reviews head st (r ∷ rs) =
    let commit = trim_space r.commit_id in
    let at_head = not (text_eq head []) && text_eq commit head in
    let next =
      if at_head
      then record st { current = true }
      else if not (text_eq commit [])
      then record st { prior = true }
      else st in
    elim (str_eq r.state "APPROVED") [
      | false ↦ approval_reviews head st rs
      | true ↦ elim (next.current && next.prior) [
        | true ↦ next
        | false ↦ approval_reviews head next rs
      ]
    ]

-- The answer of CreateReview.
pub data CreateAnswer : Type 0 where
  created self_approve_422 other_422 denied other_error : CreateAnswer

unfoldable pub create_outcome : CreateAnswer → Bool × ApproveReason
create_outcome created = (true, approved)
create_outcome self_approve_422 = (false, self_forbidden)
create_outcome other_422 = (false, rejected)
create_outcome denied = (false, forbidden)
create_outcome other_error = (false, create_review_failed)

-- The result, and whether a review was submitted. `none` stands for a nil info, and for an error
-- of the listing of the reviews.
unfoldable pub approve_resolved_ledger :
    Host
    → Option PrInfo
    → ApprovalPolicy
    → Option (List Review)
    → CreateAnswer
    → Bool × Bool × ApproveReason
unfolding approval_would_approve approval_reviews approval_readiness create_outcome
approve_resolved_ledger host none policy reviews answer = (false, false, head_unknown)
approve_resolved_ledger host (some info) policy reviews answer =
    if text_eq info.head_sha []
    then (false, false, head_unknown)
    else if not (approval_would_approve info policy true [] 1)
    then (false, false, threshold_failed)
    else elim reviews [
      | none ↦ (false, false, list_reviews_failed)
      | some rs ↦
          if (approval_reviews info.head_sha (record { current = false; prior = false }) rs).current
          then (false, false, approved)
          else elim (approval_readiness host info) [
            | approved ↦ let (done, reason) = create_outcome answer in (true, done, reason)
            | reason ↦ (false, false, reason)
          ]
    ]
