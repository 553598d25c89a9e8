-- ===== src/Examples/Polls.antt =====
-- Tests and instances for the poller.
use miu_cr.Base.{
  text_eq, ℕ, ◌*◌, ◌<◌, ◌≤◌, min, ◌≡◌, refl, true, false, none, some, List, [], ◌∷◌, All, Text,
  codes, is_digit,
}
use miu_cr.Poller.{
  succeeded, pruned, Candidate, new_cursor, Closure, dispatch_candidate, on_done, Poller, Step,
  Reach, backoff_cap,
}
use miu_cr.Poller.Allowlist.{RepoRef, new_repo_allowlist}
use miu_cr.Poller.Enumerate.{
  Notification, enumerate_notifications, PullsAnswer, enumerate_pulls, parse_pr_subject,
}
use miu_cr.Poller.Allowed.{IsAllowed, AllAllowed, enumerate-IsAllowed}
use miu_cr.Poller.Backoff.{backoff_after, handle_err-transient}
use miu_cr.Poller.Recorded.{known_seen, known_notif, idle, Reach-IsRecorded}

abbrev candidate : Candidate
candidate = record {
  owner = codes "o";
  repo = codes "r";
  number = 1;
  head_sha = "abc";
  notif_updated = [];
}

abbrev job : Closure
job = record { ref = codes "o/r#1"; sha = "abc"; notif_updated = [] }

dispatch_test : dispatch_candidate candidate new_cursor new_cursor none ≡ some job
unfolding dispatch_candidate new_cursor
dispatch_test = refl

abbrev reviewed : Poller
reviewed = record {
  cursor = on_done 7 true job new_cursor;
  pending = [];
  changes = succeeded job 7 ∷ [];
}

reviewed-Reach : Reach (idle new_cursor) reviewed
reviewed-Reach =
    Reach.next
      (Reach.next Reach.start (Step.dispatches candidate new_cursor none job dispatch_test refl))
      (Step.completes [] job [] 7 true refl refl)

-- A tick more than 14 days later forgets the review.
known_test :
    known_seen (codes "o/r#1") new_cursor [] (pruned 1209600000000008 ∷ succeeded job 7 ∷ []) ≡ none
unfolding known_seen text_eq
known_test = refl

Reach-IsRecorded_example :
    (reviewed.cursor.seen (codes "o/r#1")
      ≡ known_seen (codes "o/r#1") new_cursor [] reviewed.changes)
    × (reviewed.cursor.notif_seen (codes "o/r#1")
        ≡ known_notif (codes "o/r#1") new_cursor [] reviewed.changes)
Reach-IsRecorded_example = Reach-IsRecorded new_cursor reviewed (codes "o/r#1") reviewed-Reach

abbrev repos : List Text
repos = codes "o/r" ∷ []

abbrev notification : Notification
notification = record {
  subject_type = codes "PullRequest";
  url = codes "https://api.github.com/repos/o/r/pulls/12";
  repository = none;
  updated_at = codes "now";
}

parse_test : parse_pr_subject notification ≡ some (codes "o", codes "r", 12)
unfolding parse_pr_subject is_digit
parse_test = refl

abbrev ask : RepoRef → PullsAnswer
ask r = record {
  poll_interval = 60;
  prs = some (record { number = 3; head_sha = "abc" } ∷ []);
  ctx_done = false;
}

enumerate-IsAllowed_example :
    All (IsAllowed repos) (enumerate_notifications (new_repo_allowlist repos) (notification ∷ []))
    × AllAllowed repos (enumerate_pulls ask (new_repo_allowlist repos)).0
enumerate-IsAllowed_example = enumerate-IsAllowed repos (notification ∷ []) ask

abbrev no_jitter : ℕ → ℕ → ℕ
no_jitter n k = 0

in_range : (n k : ℕ) → 0 < k → no_jitter n k < k
in_range n k h = h

handle_err-transient_example :
    (min (2 * backoff_after no_jitter 3) backoff_cap ≤ backoff_after no_jitter 4)
    × (1000000000 ≤ backoff_after no_jitter 4)
    × (2 * backoff_after no_jitter 4 ≤ 3 * backoff_cap)
handle_err-transient_example = handle_err-transient no_jitter in_range 3
