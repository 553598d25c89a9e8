-- ===== src/Poller/Enumerate.antt =====
-- The candidates of a tick: internal/serve/poller.go.
use miu_cr.Base.{
  ◌>>=◌, ℕ, ◌*◌, ◌%◌, ◌^◌, Bool, not, ◌&&◌, ◌||◌, String, Option, none, some, List, [], ◌∷◌, ◌++◌,
  Text, codes, text_eq, cut_prefix, trim_prefix, digits_value, scan_digits, leb, ltb, ◌==◌,
  if◌then◌else◌,
}
use miu_cr.Anchor.{is_text}
use miu_cr.Hunk.{max_int}
use miu_cr.Poller.{Candidate}
use miu_cr.Poller.Allowlist.{RepoRef, allows, sorted}

-- The fields of a notification that are read; `repository` is the login of its owner and its name,
-- `updated_at` the time as it is formatted.
pub record Notification : Type 0 where
  pub subject_type : Text
  pub url : Text
  pub repository : Option (Text × Text)
  pub updated_at : Text

abbrev add_char : ℕ → Text × Text → Text × Text
add_char c (segment, rest) = (c ∷ segment, rest)

-- [^/]*
unfoldable pub scan_segment : Text → Text × Text
scan_segment [] = ([], [])
scan_segment (c ∷ s) =
    let later = scan_segment s in if c == b'/' then ([], c ∷ s) else add_char c later

abbrev at_least_one : Text × Text → Option (Text × Text)
at_least_one ([], rest) = none
at_least_one (c ∷ segment, rest) = some (c ∷ segment, rest)

-- subjectURLRe at the start of a text, with its groups: `/repos/([^/]+)/([^/]+)/pulls/(\d+)`.
unfoldable pub match_subject : Text → Option (Text × Text × Text)
unfolding cut_prefix scan_segment scan_digits
match_subject s = do
  s ← cut_prefix (codes "/repos/") s
  (owner, s) ← at_least_one (scan_segment s)
  s ← cut_prefix (codes "/") s
  (repo, s) ← at_least_one (scan_segment s)
  s ← cut_prefix (codes "/pulls/") s
  (number, s) ← at_least_one (scan_digits s)
  some (owner, repo, number)

-- FindStringSubmatch: the leftmost match.
unfoldable pub find_subject : Text → Option (Text × Text × Text)
unfolding match_subject
find_subject [] = none
find_subject (c ∷ s) =
    let later = find_subject s in elim (match_subject (c ∷ s)) [ some m ↦ some m | none ↦ later ]

-- The repository of the notification, when both of its names are there.
unfoldable pub named_or : Option (Text × Text) → Text × Text → Text × Text
named_or none names = names
named_or (some (owner, repo)) names = if is_text owner && is_text repo then (owner, repo) else names

-- strconv.Atoi of the third group, refused when it is out of range or 0.
unfoldable pub pr_number : Text → Option ℕ
unfolding digits_value
pr_number ds = let n = digits_value 0 ds in if leb n max_int && not (n == 0) then some n else none

unfoldable pub parse_pr_subject : Notification → Option (Text × Text × ℕ)
unfolding find_subject pr_number named_or
parse_pr_subject n = do
  (owner, repo, ds) ← find_subject n.url
  number ← pr_number ds
  (let names = named_or n.repository (owner, repo) in some (names.0, names.1, number))

-- One round of the loop over the notifications.
unfoldable pub candidate_of : List RepoRef → Notification → Option Candidate
unfolding parse_pr_subject allows text_eq
candidate_of allow n = if not (text_eq n.subject_type (codes "PullRequest")) then none else do
  (owner, repo, number) ← parse_pr_subject n
  (if not (allows allow (record { owner = owner; repo = repo }))
      then none
      else some (record {
        owner = owner;
        repo = repo;
        number = number;
        head_sha = "";
        notif_updated = n.updated_at;
      }))

abbrev pub appended {ℓ} : {A : Type ℓ} → Option A → List A → List A
appended none rest = rest
appended (some x) rest = x ∷ rest

-- The candidates of `enumerateNotifications`, when the request succeeds.
unfoldable pub enumerate_notifications : List RepoRef → List Notification → List Candidate
unfolding candidate_of
enumerate_notifications allow [] = []
enumerate_notifications allow (n ∷ notifs) =
    appended (candidate_of allow n) (enumerate_notifications allow notifs)

-- An open pull request: its number and its head.
pub record PullRequest : Type 0 where
  pub number : ℕ
  pub head_sha : String

-- The answer of ListOpenPRs for a repository: the interval asked for, the pull requests unless it
-- fails, and whether the context is done by then.
pub record PullsAnswer : Type 0 where
  pub poll_interval : ℕ
  pub prs : Option (List PullRequest)
  pub ctx_done : Bool

unfoldable pub candidates_of : RepoRef → List PullRequest → List Candidate
candidates_of r [] = []
candidates_of r (pr ∷ prs) =
    record {
      owner = r.owner;
      repo = r.repo;
      number = pr.number;
      head_sha = pr.head_sha;
      notif_updated = [];
    }
    ∷ candidates_of r prs

abbrev later_of : ℕ → ℕ → ℕ
later_of w last_wait = if ltb last_wait w then w else last_wait

-- The loop of `enumeratePulls` over its two variables; `none` for the error of a done context.
unfoldable pub pulls_loop :
    (RepoRef → PullsAnswer) → List RepoRef → List Candidate → ℕ → Option (List Candidate) × ℕ
unfolding candidates_of
pulls_loop ask [] cands last_wait = (some cands, last_wait)
pulls_loop ask (r ∷ rs) cands last_wait =
    let a = ask r in
    let wait = later_of a.poll_interval last_wait in
    let skipped = pulls_loop ask rs cands wait in
    elim a.prs [
      | none ↦ if a.ctx_done then (none, wait) else skipped
      | some prs ↦ pulls_loop ask rs (cands ++ candidates_of r prs) wait
    ]

unfoldable pub enumerate_pulls :
    (RepoRef → PullsAnswer) → List RepoRef → Option (List Candidate) × ℕ
unfolding pulls_loop sorted
enumerate_pulls ask allow = pulls_loop ask (sorted allow) [] 0

-- The header X-Poll-Interval as strconv.Atoi reads it: an optional sign, then digits only.
unfoldable pub seconds_of : Text → ℕ
unfolding scan_digits digits_value trim_prefix
seconds_of v =
    let unsigned = trim_prefix v (codes "+") in
    let (ds, rest) = scan_digits unsigned in
    if is_text rest || not (is_text ds) || not (leb (digits_value 0 ds) max_int)
    then 0
    else digits_value 0 ds

-- The interval in nanoseconds; what wraps around to a negative number is never the larger of two
-- intervals, and stands as 0.
unfoldable pub poll_interval_of : Text → ℕ
unfolding seconds_of
poll_interval_of v = let d = seconds_of v * 1000000000 % 2 ^ 64 in if ltb d (2 ^ 63) then d else 0
