-- ===== src/Pool/Submit.antt =====
-- The answers to submissions, and a closed pool: internal/serve/worker.go.
use miu_cr.Base.{◌*◌, ◌<◌, ◌≡◌, ◌↔◌, refl, true, false, none, List, [], arith, length}
use miu_cr.Pool.{
  Job, submit_queued, Pool, inflight_head, submit, receive, clean_up, notify, close_pool,
  accepted_by, Step, Reach,
}

-- A submission is queued exactly when the pool is open, the key is free and the channel has room.
pub submit-queued_iff :
    (p : Pool) (j : Job)
    → ((submit p j).1 ≡ submit_queued) ↔ (
        (p.closed ≡ false)
        × (inflight_head j.key p.inflight ≡ none)
        × (length p.jobs < 4 * p.workers))
unfolding submit
submit-queued_iff p j = (λ h. ground arith, λ h. ground arith)

Step-closed :
    (p q : Pool) (more : List Job)
    → p.closed ≡ true
    → Step p more q
    → (more ≡ []) × (q.closed ≡ true)
Step-closed p q more h (Step.submits j m e) = unfold submit accepted_by in ground arith
Step-closed p q more h (Step.receives j rest e room m f) = unfold receive in ground arith
Step-closed p q more h (Step.cleans before j after success e m f) = unfold clean_up in ground arith
Step-closed p q more h (Step.notifies before d after e m f) = unfold notify in ground arith
Step-closed p q more h (Step.closes m f) = unfold close_pool in ground arith

-- Once the pool is closed, nothing is accepted any more, whatever happens.
pub Reach-closed :
    (p q : Pool) (accepted : List Job)
    → p.closed ≡ true
    → Reach p accepted q
    → (accepted ≡ []) × (q.closed ≡ true)
Reach-closed p q accepted h Reach.here = (refl, h)
Reach-closed p q accepted h (Reach.next {accepted = before} {q = m} {more = more} r s) =
    let (none_before, still) = Reach-closed p m before h r in
    let (none_more, shut) = Step-closed m q more still s in (cc (none_before, none_more), shut)
