-- ===== src/Pool/Drain.antt =====
-- What is left to a drain can always finish: internal/serve/worker.go.
use miu_cr.Base.{ℕ, ◌<◌, ◌≡◌, refl, ap, subst, sym, ◌∙◌, true, List, [], ◌∷◌, ◌++◌, arith}
use miu_cr.Pool.{
  PrKey, Job, Done, Pool, new_pool_with_workers, submit_free, submit, receive, clean_up, notify,
  close_pool, Step, Reach,
}
use miu_cr.Pool.Invariant.{count_jobs, count_done, Reach-IsConsistent}

prepend :
    {p q r : Pool} {accepted : List Job} → Step p [] q → Reach q accepted r → Reach p accepted r
prepend s Reach.here = Reach.next Reach.here s
prepend s (Reach.next r t) = Reach.next (prepend s r) t

-- The workers can go on until the pool has nothing left to do.
record Quiesces (p : Pool) : Type 0 where
  final : Pool
  path : Reach p [] final
  no_jobs : final.jobs ≡ []
  no_running : final.running ≡ []
  no_finishing : final.finishing ≡ []

Quiesces-Step : {p q : Pool} → Step p [] q → Quiesces q → Quiesces p
Quiesces-Step s h = record {
  final = h.final;
  path = prepend s h.path;
  no_jobs = h.no_jobs;
  no_running = h.no_running;
  no_finishing = h.no_finishing;
}

-- One job at a time: it is received, reviewed, and reported.
idle-Quiesces :
    (js : List Job) (p : Pool)
    → 0 < p.workers
    → p.jobs ≡ js
    → p.running ≡ []
    → p.finishing ≡ []
    → Quiesces p
idle-Quiesces [] p w a b c = record {
  final = p;
  path = Reach.here;
  no_jobs = a;
  no_running = b;
  no_finishing = c;
}
idle-Quiesces (j ∷ js) p w a b c =
    let q = receive p j js in
    let d : Done = record { job = j; success = true } in
    let r = clean_up q j true [] in
    Quiesces-Step (Step.receives j js a (rw (b, c) w) refl refl) (
      Quiesces-Step (Step.cleans [] j [] true (unfold receive in ap (λ x. j ∷ x) b) refl refl) (
        Quiesces-Step
          (Step.notifies [] d [] (unfold clean_up receive in ap (λ x. d ∷ x) c) refl refl)
          (idle-Quiesces js (notify r d []) (unfold notify clean_up receive in w)
            (unfold notify clean_up receive in refl) (unfold notify clean_up in refl)
            (unfold notify in refl))))

finishing-Quiesces :
    (ds : List Done) (p : Pool) → 0 < p.workers → p.running ≡ [] → p.finishing ≡ ds → Quiesces p
finishing-Quiesces [] p w b c = idle-Quiesces p.jobs p w refl b c
finishing-Quiesces (d ∷ ds) p w b c = Quiesces-Step (Step.notifies [] d ds c refl refl) (
    finishing-Quiesces ds (notify p d ds) (unfold notify in w) (unfold notify in b)
      (unfold notify in refl))

busy-Quiesces : (js : List Job) (p : Pool) → 0 < p.workers → p.running ≡ js → Quiesces p
busy-Quiesces [] p w b = finishing-Quiesces p.finishing p w b refl
busy-Quiesces (j ∷ js) p w b =
    Quiesces-Step (Step.cleans [] j js true b refl refl)
      (busy-Quiesces js (clean_up p j true js) (unfold clean_up in w) (unfold clean_up in refl))

Step-workers : (p q : Pool) (more : List Job) → Step p more q → q.workers ≡ p.workers
Step-workers p q more (Step.submits j m e) = unfold submit submit_free in ground arith
Step-workers p q more (Step.receives j rest e room m f) = unfold receive in ground arith
Step-workers p q more (Step.cleans before j after success e m f) = unfold clean_up in ground arith
Step-workers p q more (Step.notifies before d after e m f) = unfold notify in ground arith
Step-workers p q more (Step.closes m f) = unfold close_pool in ground arith

Reach-workers : (p q : Pool) (accepted : List Job) → Reach p accepted q → q.workers ≡ p.workers
Reach-workers p q accepted Reach.here = refl
Reach-workers p q accepted (Reach.next {accepted = before} {q = m} {more = more} r s) =
    Step-workers m q more s ∙ Reach-workers p m before r

append-nil : (xs ys : List Job) → xs ++ ys ≡ [] → (xs ≡ []) × (ys ≡ [])
append-nil [] ys e = (refl, e)
append-nil (x ∷ xs) ys e = grind arith

extend :
    {p q r : Pool} {accepted more : List Job}
    → Reach p accepted q
    → Reach q more r
    → more ≡ []
    → Reach p accepted r
extend a Reach.here e = a
extend {p = p} {r = r} {accepted = accepted} a (Reach.next {accepted = before} {more = later} b s)
      e =
    let (no_later, no_before) = append-nil later before e in
    subst (λ x. Reach p (x ++ accepted) r) no_later (Reach.next (extend a b no_before) s)

-- What a drain waits for: nothing is left to do, and every accepted job has been reported.
pub record Drained (p : Pool) (accepted : List Job) : Type 0 where
  pub final : Pool
  pub path : Reach p [] final
  pub no_jobs : final.jobs ≡ []
  pub no_running : final.running ≡ []
  pub no_finishing : final.finishing ≡ []
  pub reported : (k : PrKey) → count_jobs k accepted ≡ count_done k final.notified

new_pool-workers : (workers : ℕ) → 0 < (new_pool_with_workers workers).workers
unfolding new_pool_with_workers
new_pool-workers workers = ground arith

-- From every state that a new pool can reach, steps that accept no further job can bring it to one
-- where the channel is empty and no job runs or waits for its report, and where every accepted job
-- has been reported as often as it was accepted.
pub Reach-Drained :
    (workers : ℕ) (accepted : List Job) (p : Pool)
    → Reach (new_pool_with_workers workers) accepted p
    → Drained p accepted
Reach-Drained workers accepted p r =
    let some_workers : 0 < p.workers =
      subst (λ n. 0 < n) (sym (Reach-workers (new_pool_with_workers workers) p accepted r))
        (new_pool-workers workers) in
    let end = busy-Quiesces p.running p some_workers refl in
    let c = Reach-IsConsistent workers accepted end.final (extend r end.path refl) in
    record {
      final = end.final;
      path = end.path;
      no_jobs = end.no_jobs;
      no_running = end.no_running;
      no_finishing = end.no_finishing;
      reported = λ k. omega (
        arith,
        c.accounted k,
        ap (count_jobs k) end.no_jobs,
        ap (count_jobs k) end.no_running,
        ap (count_done k) end.no_finishing,
      );
    }
