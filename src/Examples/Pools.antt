-- ===== src/Examples/Pools.antt =====
-- Tests and instances for the worker pool.
use miu_cr.Base.{◌*◌, ◌<◌, ◌≡◌, ◌↔◌, refl, true, false, none, List, [], ◌∷◌, length}
use miu_cr.Pool.{
  PrKey, Job, submit_queued, submit_coalesced, Pool, new_pool_with_workers, inflight_head, submit,
  close_pool, accepted_by, Step, Reach,
}
use miu_cr.Pool.Invariant.{IsConsistent, Reach-IsConsistent}
use miu_cr.Pool.Submit.{submit-queued_iff, Reach-closed}
use miu_cr.Pool.Drain.{Drained, Reach-Drained}

abbrev key : PrKey
key = record { owner = "o"; repo = "r"; number = 7; comment_id = 0 }

abbrev job : Job
job = record { key = key; head_sha = "abc" }

abbrev later_job : Job
later_job = record { key = key; head_sha = "def" }

abbrev one_worker : Pool
one_worker = new_pool_with_workers 1

abbrev queued : Pool
queued = (submit one_worker job).0

-- A second head of a pull request in flight is folded into the first.
submit_test : (submit queued later_job).1 ≡ submit_coalesced
unfolding submit new_pool_with_workers
submit_test = refl

accepted_test : job ∷ [] ≡ accepted_by job (submit one_worker job).1
unfolding submit new_pool_with_workers accepted_by
accepted_test = refl

queued-Reach : Reach one_worker (job ∷ []) queued
queued-Reach = Reach.next Reach.here (Step.submits job accepted_test refl)

Reach-IsConsistent_example : IsConsistent queued (job ∷ [])
Reach-IsConsistent_example = Reach-IsConsistent 1 (job ∷ []) queued queued-Reach

Reach-Drained_example : Drained queued (job ∷ [])
Reach-Drained_example = Reach-Drained 1 (job ∷ []) queued queued-Reach

submit-queued_iff_example : ((submit queued later_job).1 ≡ submit_queued) ↔ (
    (queued.closed ≡ false)
    × (inflight_head later_job.key queued.inflight ≡ none)
    × (length queued.jobs < 4 * queued.workers))
submit-queued_iff_example = submit-queued_iff queued later_job

abbrev shut : Pool
shut = close_pool one_worker

shut_closed : shut.closed ≡ true
unfolding close_pool
shut_closed = refl

refused_test : [] ≡ accepted_by job (submit shut job).1
unfolding submit close_pool new_pool_with_workers accepted_by
refused_test = refl

abbrev no_job : List Job
no_job = []

Reach-closed_example : (no_job ≡ []) × ((submit shut job).0.closed ≡ true)
Reach-closed_example =
    Reach-closed shut (submit shut job).0 no_job shut_closed
      (Reach.next Reach.here (Step.submits job refused_test refl))
