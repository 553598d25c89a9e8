-- ===== src/Poller.antt =====
-- The poll-mode trigger with its cursor: internal/serve/poller.go and internal/serve/cursor.go.
pub mod Allowlist
pub mod Enumerate
pub mod Allowed
pub mod Backoff
pub mod Recorded
use miu_cr.Base.{
  ℕ, zero, suc, ◌+◌, ◌-◌, ◌*◌, ◌/◌, ◌≡◌, String, Bool, true, false, not, ◌&&◌, Option, none, some,
  List, [], ◌∷◌, ◌++◌, Text, codes, text_eq, str_eq, decimal, leb, if◌then◌else◌,
}
use miu_cr.Anchor.{is_text}

-- A PR to consider, with "" for a head or a notification time that its source does not carry.
pub record Candidate : Type 0 where
  pub owner : Text
  pub repo : Text
  pub number : ℕ
  pub head_sha : String
  pub notif_updated : Text

unfoldable pub ref : Candidate → Text
unfolding decimal
ref c = c.owner ++ (codes "/" ++ (c.repo ++ (codes "#" ++ decimal c.number)))

-- Cursor, its maps as functions of the ref; times are nanoseconds.
pub record Cursor : Type 0 where
  pub since : ℕ
  pub seen : Text → Option String
  pub notif_seen : Text → Option Text
  pub touched : Text → Option ℕ

unfoldable pub new_cursor : Cursor
new_cursor = record { since = 0; seen = λ r. none; notif_seen = λ r. none; touched = λ r. none }

-- m[ref] = x
unfoldable pub put {ℓ} : {A : Type ℓ} → Text → A → (Text → Option A) → Text → Option A
unfolding text_eq
put r x m q = if text_eq q r then some x else m q

unfoldable pub record_seen : ℕ → Text → String → Cursor → Cursor
unfolding put
record_seen now r sha c = record c { seen = put r sha c.seen; touched = put r now c.touched }

unfoldable pub record_notif : ℕ → Text → Text → Cursor → Cursor
unfolding put
record_notif now r updated_at c = record c {
  notif_seen = put r updated_at c.notif_seen;
  touched = put r now c.touched;
}

abbrev prune_age : ℕ
prune_age = 14 * (24 * (3600 * 1000000000))

-- Whether `prune` deletes the entries of a ref that was touched at the time.
unfoldable pub is_stale : ℕ → Option ℕ → Bool
is_stale now none = false
is_stale now (some t) = not (leb (now - t) prune_age)

unfoldable pub prune : ℕ → Cursor → Cursor
unfolding is_stale
prune now c = record c {
  seen = λ r. if is_stale now (c.touched r) then none else c.seen r;
  notif_seen = λ r. if is_stale now (c.touched r) then none else c.notif_seen r;
  touched = λ r. if is_stale now (c.touched r) then none else c.touched r;
}

-- What OnDone of a dispatched job captures.
pub record Closure : Type 0 where
  pub ref : Text
  pub sha : String
  pub notif_updated : Text

-- A read of a missing key of a Go map yields "".
abbrev text_of : Option Text → Text
text_of none = []
text_of (some t) = t

abbrev string_of : Option String → String
string_of none = ""
string_of (some s) = s

-- The head of a candidate: its own, or that of GetPR, "" when that fails.
unfoldable pub head_of : Candidate → Option String → String
head_of c get_pr = if str_eq c.head_sha "" then string_of get_pr else c.head_sha

-- The part of `dispatchCandidate` in front of `Submit`: the job, unless it returns before. The
-- lock is taken for each test, so `earlier` is the cursor as the first one saw it.
unfoldable pub dispatch_candidate : Candidate → Cursor → Cursor → Option String → Option Closure
unfolding ref head_of text_eq
dispatch_candidate c earlier cursor get_pr =
    let sha = head_of c get_pr in
    if is_text c.notif_updated && text_eq (text_of (earlier.notif_seen (ref c))) c.notif_updated
    then none
    else if str_eq sha ""
    then none
    else if str_eq (string_of (cursor.seen (ref c))) sha
    then none
    else some (record { ref = ref c; sha = sha; notif_updated = c.notif_updated })

-- The closure OnDone, for a review that succeeded or not.
unfoldable pub on_done : ℕ → Bool → Closure → Cursor → Cursor
unfolding record_seen record_notif
on_done now success j c =
    let seen = record_seen now j.ref j.sha c in
    if not success
    then c
    else if is_text j.notif_updated
    then record_notif now j.ref j.notif_updated seen
    else seen

-- The end of `tick`.
unfoldable pub advance : ℕ → ℕ → Cursor → Cursor
unfolding prune
advance tick_start now c = prune now (record c { since = tick_start })

-- What changed the entries of the cursor: a review that succeeded, and a pruning, with their times.
pub data Change : Type 0 where
  succeeded : Closure → ℕ → Change
  pruned : ℕ → Change

abbrev pub completed : Bool → Closure → ℕ → List Change → List Change
completed false j now changes = changes
completed true j now changes = succeeded j now ∷ changes

-- The poller with the jobs whose OnDone is due, and the changes so far, the latest first.
pub record Poller : Type 0 where
  pub cursor : Cursor
  pub pending : List Closure
  pub changes : List Change

-- What the ticks and the workers may do next, in any order. A job that is not accepted changes
-- nothing.
pub data Step (p q : Poller) : Type 0 where
  dispatches :
      (c : Candidate) (earlier : Cursor) (get_pr : Option String) (j : Closure)
      → dispatch_candidate c earlier p.cursor get_pr ≡ some j
      → q ≡ record p { pending = j ∷ p.pending }
      → Step p q
  completes :
      (before : List Closure) (j : Closure) (after : List Closure) (now : ℕ) (success : Bool)
      → p.pending ≡ before ++ j ∷ after
      → q ≡ record {
        cursor = on_done now success j p.cursor;
        pending = before ++ after;
        changes = completed success j now p.changes;
      }
      → Step p q
  advances :
      (tick_start now : ℕ)
      → q ≡ record p { cursor = advance tick_start now p.cursor; changes = pruned now ∷ p.changes }
      → Step p q

-- Any number of steps.
pub data Reach (p : Poller) : Poller → Type 0 where
  start : Reach p p
  next : {q r : Poller} → Reach p q → Step q r → Reach p r

-- The kinds of errors that `handleErr` tells apart.
pub data PollError : Type 0 where
  rate_limit : ℕ → PollError
  abuse_rate_limit : ℕ → PollError
  transient : PollError

abbrev second : ℕ
second = 1000000000

abbrev pub backoff_cap : ℕ
backoff_cap = 15 * (60 * second)

-- next, before the jitter
unfoldable pub next_backoff : ℕ → ℕ
next_backoff prev =
    let next = if leb (prev * 2) 0 then second else prev * 2 in
    if leb next backoff_cap then next else backoff_cap

-- The sleep that handleErr makes itself, and the backoff that it returns; `random` is rand.Int64N.
unfoldable pub handle_err : (ℕ → ℕ) → PollError → ℕ → ℕ × ℕ
unfolding next_backoff
handle_err random (rate_limit d) prev = (d, 0)
handle_err random (abuse_rate_limit d) prev = (d, 0)
handle_err random transient prev = let next = next_backoff prev in (0, next + random (next / 2 + 1))
