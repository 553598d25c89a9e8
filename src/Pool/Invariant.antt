-- ===== src/Pool/Invariant.antt =====
-- What holds of the pool after any interleaving of its callers and workers:
-- internal/serve/worker.go.
use mathlib.Core.Path.{subst₂}
use miu_cr.Base.{
  ℕ, suc, ◌+◌, ◌<◌, ◌≤◌, ◌≡◌, ◌↔◌, refl, ap, subst, sym, ◌∙◌, String, Bool, true, false, none, List,
  [], ◌∷◌, ◌++◌, arith, str_eq_iff, length, length-append, ltb, ltb→lt, Option-cases, if◌then◌else◌,
  Bool-cases, inl, inr,
}
use miu_cr.Pool.{
  PrKey, key_eq, Job, SubmitResult, submit_duplicate, submit_coalesced, submit_closed, Done, Pool,
  new_pool_with_workers, capacity, inflight_head, same_head, submit_free, submit, delete_key,
  receive, clean_up, notify, close_pool, accepted_by, Step, Reach,
}

pub key_eq_iff : (a b : PrKey) → (key_eq a b ≡ true) ↔ (a ≡ b)
unfolding key_eq
key_eq_iff a b = ground (arith, str_eq_iff a.owner b.owner, str_eq_iff a.repo b.repo)

abbrev pub one_if : Bool → ℕ
one_if b = if b then 1 else 0

-- How many of the jobs have the key.
abbrev pub count_jobs : PrKey → List Job → ℕ
count_jobs k [] = 0
count_jobs k (j ∷ js) = one_if (key_eq k j.key) + count_jobs k js

abbrev pub count_done : PrKey → List Done → ℕ
count_done k [] = 0
count_done k (d ∷ ds) = one_if (key_eq k d.job.key) + count_done k ds

abbrev pub count_keys : PrKey → List (PrKey × String) → ℕ
count_keys k [] = 0
count_keys k ((j, head) ∷ rest) = one_if (key_eq k j) + count_keys k rest

count_jobs-append :
    (k : PrKey) (xs ys : List Job) → count_jobs k (xs ++ ys) ≡ count_jobs k xs + count_jobs k ys
count_jobs-append k [] ys = omega arith
count_jobs-append k (x ∷ xs) ys = omega (arith, count_jobs-append k xs ys)

count_done-append :
    (k : PrKey) (xs ys : List Done) → count_done k (xs ++ ys) ≡ count_done k xs + count_done k ys
count_done-append k [] ys = omega arith
count_done-append k (x ∷ xs) ys = omega (arith, count_done-append k xs ys)

count_keys-inflight_head :
    (k : PrKey) (l : List (PrKey × String)) → inflight_head k l ≡ none → count_keys k l ≡ 0
unfolding inflight_head
count_keys-inflight_head k [] h = refl
count_keys-inflight_head k ((j, head) ∷ rest) h = ground (arith, count_keys-inflight_head k rest)

count_keys-delete_key :
    (j k : PrKey) (l : List (PrKey × String))
    → count_keys k (delete_key j l) ≡ (if key_eq k j then 0 else count_keys k l)
unfolding delete_key
count_keys-delete_key j k [] = ground arith
count_keys-delete_key j k ((i, head) ∷ rest) =
    ground (arith, count_keys-delete_key j k rest, key_eq_iff j i, key_eq_iff k i, key_eq_iff k j)

pub record IsConsistent (p : Pool) (accepted : List Job) : Type 0 where
  pub one_each :
      (k : PrKey) → count_jobs k p.jobs + count_jobs k p.running ≡ count_keys k p.inflight
  pub single : (k : PrKey) → count_keys k p.inflight ≤ 1
  pub buffered : length p.jobs ≤ capacity p
  pub busy : length p.running + length p.finishing ≤ p.workers
  pub accounted :
      (k : PrKey)
      → count_jobs k accepted
        ≡ count_jobs k p.jobs
          + count_jobs k p.running
          + count_done k p.finishing
          + count_done k p.notified

-- A submission is refused with the pool as it was, or finds its key free.
data Outcome (p : Pool) (j : Job) : Type 0 where
  refused : (r : SubmitResult) → accepted_by j r ≡ [] → submit p j ≡ (p, r) → Outcome p j
  free : inflight_head j.key p.inflight ≡ none → submit p j ≡ submit_free p j → Outcome p j

refused_result :
    (j : Job) (b : Bool) → accepted_by j (if b then submit_duplicate else submit_coalesced) ≡ []
unfolding accepted_by
refused_result j true = refl
refused_result j false = refl

submit_outcome : (p : Pool) (j : Job) → Outcome p j
submit_outcome p j = elim (Bool-cases p.closed) [
  | inl shut ↦
      Outcome.refused submit_closed (unfold accepted_by in refl) (unfold submit in ground arith)
  | inr up ↦ elim (Option-cases (inflight_head j.key p.inflight)) [
    | inl none_there ↦ Outcome.free none_there (unfold submit in ground arith)
    | inr (head, there) ↦
        Outcome.refused (if same_head head j.head_sha then submit_duplicate else submit_coalesced)
          (refused_result j (same_head head j.head_sha)) (unfold submit in ground arith)
  ]
]

module _ (p : Pool) (j : Job) (accepted : List Job) (c : IsConsistent p accepted) where
  enqueued : Pool
  enqueued = record p { jobs = p.jobs ++ j ∷ []; inflight = (j.key, j.head_sha) ∷ p.inflight }

  enqueued-IsConsistent :
      count_keys j.key p.inflight ≡ 0
      → length p.jobs < capacity p
      → IsConsistent enqueued (j ∷ accepted)
  unfolding enqueued
  enqueued-IsConsistent new room =
      let free : (k : PrKey) → key_eq k j.key ≡ true → count_keys k p.inflight ≡ 0 =
        λ k e. ap (λ x. count_keys x p.inflight) ((key_eq_iff k j.key).0 e) ∙ new in
      record {
        one_each = λ k. omega (arith, count_jobs-append k p.jobs (j ∷ []), c.one_each k);
        single = λ k. ground (arith, free k, c.single k);
        buffered = unfold capacity in omega (arith, length-append p.jobs (j ∷ []), room);
        busy = c.busy;
        accounted = λ k. omega (arith, count_jobs-append k p.jobs (j ∷ []), c.accounted k);
      }

  dropped-IsConsistent : IsConsistent (record p { drops = suc p.drops }) accepted
  dropped-IsConsistent = record {
    one_each = c.one_each;
    single = c.single;
    buffered = unfold capacity in c.buffered;
    busy = c.busy;
    accounted = c.accounted;
  }

  submit_free-IsConsistent :
      count_keys j.key p.inflight ≡ 0
      → IsConsistent (submit_free p j).0 (accepted_by j (submit_free p j).1 ++ accepted)
  unfolding submit_free accepted_by enqueued
  submit_free-IsConsistent new = elim (Bool-cases (ltb (length p.jobs) (capacity p))) [
    | inl room ↦ rw room (enqueued-IsConsistent new (ltb→lt (length p.jobs) (capacity p) room))
    | inr full ↦ rw full dropped-IsConsistent
  ]

  submit-IsConsistent : IsConsistent (submit p j).0 (accepted_by j (submit p j).1 ++ accepted)
  submit-IsConsistent = go (submit_outcome p j)
    where
      go : Outcome p j → IsConsistent (submit p j).0 (accepted_by j (submit p j).1 ++ accepted)
      go (Outcome.refused r n e) =
          subst (λ s. IsConsistent s.0 (accepted_by j s.1 ++ accepted)) (sym e)
            (subst (λ a. IsConsistent p (a ++ accepted)) (sym n) c)
      go (Outcome.free n e) =
          subst (λ s. IsConsistent s.0 (accepted_by j s.1 ++ accepted)) (sym e)
            (submit_free-IsConsistent (count_keys-inflight_head j.key p.inflight n))

receive-IsConsistent :
    (p : Pool) (j : Job) (rest : List Job) (accepted : List Job)
    → p.jobs ≡ j ∷ rest
    → length p.running + length p.finishing < p.workers
    → IsConsistent p accepted
    → IsConsistent (receive p j rest) accepted
unfolding receive
receive-IsConsistent p j rest accepted e room c =
    let jobs : (k : PrKey) → count_jobs k p.jobs ≡ one_if (key_eq k j.key) + count_jobs k rest =
      λ k. ap (count_jobs k) e in
    let len : length p.jobs ≡ suc (length rest) = ap length e in
    record {
      one_each = λ k. omega (arith, jobs k, c.one_each k);
      single = c.single;
      buffered = unfold capacity in omega (arith, c.buffered, len);
      busy = omega arith;
      accounted = λ k. omega (arith, jobs k, c.accounted k);
    }

module _ (p : Pool) (accepted : List Job) (c : IsConsistent p accepted) where
  -- The key of a job that runs is in flight once, so its deletion takes one away.
  clean_up-IsConsistent :
      (before : List Job) (j : Job) (after : List Job) (success : Bool)
      → p.running ≡ before ++ j ∷ after
      → IsConsistent (clean_up p j success (before ++ after)) accepted
  unfolding clean_up
  clean_up-IsConsistent before j after success e =
      let split : (k : PrKey)
          → count_jobs k p.running
            ≡ count_jobs k before + (one_if (key_eq k j.key) + count_jobs k after) =
        λ k. ap (count_jobs k) e ∙ count_jobs-append k before (j ∷ after) in
      let len : length p.running ≡ length before + suc (length after) =
        ap length e ∙ length-append before (j ∷ after) in
      record {
        one_each = λ k. ground (
          arith,
          split k,
          c.one_each k,
          c.single k,
          count_jobs-append k before after,
          count_keys-delete_key j.key k p.inflight,
        );
        single = λ k. ground (arith, c.single k, count_keys-delete_key j.key k p.inflight);
        buffered = unfold capacity in c.buffered;
        busy = omega (arith, c.busy, len, length-append before after);
        accounted = λ k. omega (arith, split k, c.accounted k, count_jobs-append k before after);
      }

  notify-IsConsistent :
      (before : List Done) (d : Done) (after : List Done)
      → p.finishing ≡ before ++ d ∷ after
      → IsConsistent (notify p d (before ++ after)) accepted
  unfolding notify
  notify-IsConsistent before d after e =
      let split : (k : PrKey)
          → count_done k p.finishing
            ≡ count_done k before + (one_if (key_eq k d.job.key) + count_done k after) =
        λ k. ap (count_done k) e ∙ count_done-append k before (d ∷ after) in
      let len : length p.finishing ≡ length before + suc (length after) =
        ap length e ∙ length-append before (d ∷ after) in
      record {
        one_each = c.one_each;
        single = c.single;
        buffered = unfold capacity in c.buffered;
        busy = omega (arith, c.busy, len, length-append before after);
        accounted = λ k. omega (arith, split k, c.accounted k, count_done-append k before after);
      }

  close_pool-IsConsistent : IsConsistent (close_pool p) accepted
  unfolding close_pool
  close_pool-IsConsistent = record {
    one_each = c.one_each;
    single = c.single;
    buffered = unfold capacity in c.buffered;
    busy = c.busy;
    accounted = c.accounted;
  }

Step-IsConsistent :
    (p q : Pool) (accepted more : List Job)
    → IsConsistent p accepted
    → Step p more q
    → IsConsistent q (more ++ accepted)
Step-IsConsistent p q accepted more c (Step.submits j m e) =
    subst₂ (λ a x. IsConsistent x (a ++ accepted)) (sym m) (sym e)
      (submit-IsConsistent p j accepted c)
Step-IsConsistent p q accepted more c (Step.receives j rest e room m f) =
    subst₂ (λ a x. IsConsistent x (a ++ accepted)) (sym m) (sym f)
      (receive-IsConsistent p j rest accepted e room c)
Step-IsConsistent p q accepted more c (Step.cleans before j after success e m f) =
    subst₂ (λ a x. IsConsistent x (a ++ accepted)) (sym m) (sym f)
      (clean_up-IsConsistent p accepted c before j after success e)
Step-IsConsistent p q accepted more c (Step.notifies before d after e m f) =
    subst₂ (λ a x. IsConsistent x (a ++ accepted)) (sym m) (sym f)
      (notify-IsConsistent p accepted c before d after e)
Step-IsConsistent p q accepted more c (Step.closes m f) =
    subst₂ (λ a x. IsConsistent x (a ++ accepted)) (sym m) (sym f)
      (close_pool-IsConsistent p accepted c)

new_pool-IsConsistent : (workers : ℕ) → IsConsistent (new_pool_with_workers workers) []
unfolding new_pool_with_workers
new_pool-IsConsistent workers = record {
  one_each = λ k. omega arith;
  single = λ k. omega arith;
  buffered = omega arith;
  busy = omega arith;
  accounted = λ k. omega arith;
}

-- After any interleaving of submissions, workers and a drain, from a new pool: no key is queued or
-- running more than once, and the in-flight map holds exactly the keys that are; the channel holds
-- at most four jobs a worker, and no more jobs run or wait for their report than there are workers;
-- and each accepted job is queued, running, about to be reported, or has been reported, as often as
-- it was accepted.
pub Reach-IsConsistent :
    (workers : ℕ) (accepted : List Job) (p : Pool)
    → Reach (new_pool_with_workers workers) accepted p
    → IsConsistent p accepted
Reach-IsConsistent workers accepted p Reach.here = new_pool-IsConsistent workers
Reach-IsConsistent workers accepted p (Reach.next {accepted = before} {q = q} {more = more} r s) =
    Step-IsConsistent q p before more (Reach-IsConsistent workers before q r) s
