-- ===== src/Pool.antt =====
-- The bounded worker pool that coalesces reviews of one pull request: internal/serve/worker.go.
pub mod Invariant
pub mod Submit
pub mod Drain
use miu_cr.Base.{
  ℕ, zero, suc, ◌+◌, ◌*◌, ◌<◌, ◌≡◌, String, Bool, true, false, not, ◌&&◌, Option, none, some, List,
  [], ◌∷◌, ◌++◌, str_eq, length, keep, ltb, ◌==◌, if◌then◌else◌,
}

-- prKey
pub record PrKey : Type 0 where
  pub owner : String
  pub repo : String
  pub number : ℕ
  pub comment_id : ℕ

unfoldable pub key_eq : PrKey → PrKey → Bool
key_eq a b =
    str_eq a.owner b.owner
    && str_eq a.repo b.repo
    && a.number == b.number
    && a.comment_id == b.comment_id

-- The fields of a job that the pool reads.
pub record Job : Type 0 where
  pub key : PrKey
  pub head_sha : String

pub data SubmitResult : Type 0 where
  submit_queued submit_duplicate submit_coalesced submit_full submit_closed : SubmitResult

-- A completed review: its job, and whether its error is nil.
pub record Done : Type 0 where
  pub job : Job
  pub success : Bool

-- The pool with its goroutines: `jobs` is the buffer of the channel, `running` the jobs inside
-- reviewFn, `finishing` those whose key is cleared and whose OnDone is due, `notified` the calls of
-- OnDone so far, the latest first.
pub record Pool : Type 0 where
  pub workers : ℕ
  pub jobs : List Job
  pub inflight : List (PrKey × String)
  pub closed : Bool
  pub drops : ℕ
  pub running : List Job
  pub finishing : List Done
  pub notified : List Done

unfoldable pub new_pool_with_workers : ℕ → Pool
new_pool_with_workers workers = record {
  workers = if workers == 0 then 1 else workers;
  jobs = [];
  inflight = [];
  closed = false;
  drops = 0;
  running = [];
  finishing = [];
  notified = [];
}

unfoldable pub new_pool : ℕ → Pool
unfolding new_pool_with_workers
new_pool cpus = new_pool_with_workers (if ltb cpus 2 then 2 else cpus)

-- cap(p.jobs)
unfoldable pub capacity : Pool → ℕ
capacity p = 4 * p.workers

unfoldable pub inflight_head : PrKey → List (PrKey × String) → Option String
unfolding key_eq
inflight_head k [] = none
inflight_head k ((j, head) ∷ rest) = if key_eq k j then some head else inflight_head k rest

-- Whether two heads are known and the same.
unfoldable pub same_head : String → String → Bool
same_head head sha = not (str_eq head "") && not (str_eq sha "") && str_eq head sha

unfoldable pub submit_free : Pool → Job → Pool × SubmitResult
unfolding capacity
submit_free p j =
    if ltb (length p.jobs) (capacity p)
    then (
      record p { jobs = p.jobs ++ j ∷ []; inflight = (j.key, j.head_sha) ∷ p.inflight },
      submit_queued,
    )
    else (record p { drops = suc p.drops }, submit_full)

unfoldable pub submit : Pool → Job → Pool × SubmitResult
unfolding inflight_head same_head submit_free
submit p j = if p.closed then (p, submit_closed) else elim (inflight_head j.key p.inflight) [
  | some head ↦ (p, if same_head head j.head_sha then submit_duplicate else submit_coalesced)
  | none ↦ submit_free p j
]

-- delete(p.inflight, k)
unfoldable pub delete_key : PrKey → List (PrKey × String) → List (PrKey × String)
unfolding key_eq
delete_key k [] = []
delete_key k ((j, head) ∷ rest) =
    let later = delete_key k rest in if key_eq k j then later else (j, head) ∷ later

-- A worker receives the oldest job of the channel.
unfoldable pub receive : Pool → Job → List Job → Pool
receive p j rest = record p { jobs = rest; running = j ∷ p.running }

-- The deferred cleanup of `run`, up to the call of OnDone; a panic is one more failure.
unfoldable pub clean_up : Pool → Job → Bool → List Job → Pool
unfolding delete_key
clean_up p j success others = record p {
  inflight = delete_key j.key p.inflight;
  running = others;
  finishing = record { job = j; success = success } ∷ p.finishing;
}

unfoldable pub notify : Pool → Done → List Done → Pool
notify p d others = record p { finishing = others; notified = d ∷ p.notified }

-- The part of `Drain` under the lock.
unfoldable pub close_pool : Pool → Pool
close_pool p = record p { closed = true }

-- Whether a submission was accepted, as the list of what it added.
unfoldable pub accepted_by : Job → SubmitResult → List Job
accepted_by j submit_queued = j ∷ []
accepted_by j _ = []

-- What the callers and the workers may do next, in any order; the label holds the accepted job.
pub data Step (p : Pool) (accepted : List Job) (q : Pool) : Type 0 where
  submits :
      (j : Job) → accepted ≡ accepted_by j (submit p j).1 → q ≡ (submit p j).0 → Step p accepted q
  receives :
      (j : Job) (rest : List Job)
      → p.jobs ≡ j ∷ rest
      → length p.running + length p.finishing < p.workers
      → accepted ≡ []
      → q ≡ receive p j rest
      → Step p accepted q
  cleans :
      (before : List Job) (j : Job) (after : List Job) (success : Bool)
      → p.running ≡ before ++ j ∷ after
      → accepted ≡ []
      → q ≡ clean_up p j success (before ++ after)
      → Step p accepted q
  notifies :
      (before : List Done) (d : Done) (after : List Done)
      → p.finishing ≡ before ++ d ∷ after
      → accepted ≡ []
      → q ≡ notify p d (before ++ after)
      → Step p accepted q
  closes : accepted ≡ [] → q ≡ close_pool p → Step p accepted q

-- Any number of steps, with all jobs that were accepted.
pub data Reach (p : Pool) : List Job → Pool → Type 0 where
  here : Reach p [] p
  next :
      {accepted : List Job} {q : Pool} {more : List Job} {r : Pool}
      → Reach p accepted q
      → Step q more r
      → Reach p (more ++ accepted) r
