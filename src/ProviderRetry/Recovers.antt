-- ===== src/ProviderRetry/Recovers.antt =====
-- A provider that recovers in time: internal/engine/agent/provider_retry.go.
use miu_cr.Base.{
  ℕ, zero, suc, ◌+◌, ◌-◌, ◌<◌, ◌≤◌, ◌≡◌, ◌⊎◌, refl, ap, ◌∙◌, true, false, not, ◌||◌, min, none,
  some, List, [], ◌∷◌, arith, leb, ◌==◌, Bool-cases, inl, inr,
}
use miu_cr.ProviderRetry.{
  ProviderRetryPolicy, provider_backoff, ok, err, World, ErrorTests, returns, again, sleep,
  wait_for, after_error, after_call, round, Run, retry_loop, retry_provider_call,
}

module _ {A E : Type 0} (w : World A E) (tests : ErrorTests E) (p : ProviderRetryPolicy) where
  -- The i-th round fails with an error that is retried, and there is time to.
  pub record Retries (i : ℕ) : Type 0 where
    pub e : E
    pub failed : w.call i ≡ err e
    pub alive : w.ctx_err i ≡ none
    pub not_ctx : tests.is_ctx_err e ≡ false
    pub retried : tests.retryable e ≡ true
    pub in_time : (p.max_elapsed ≡ 0) ⊎ (w.elapsed i < p.max_elapsed)
    pub undisturbed : w.sleep_err i ≡ none

  sleep-again : (i wait : ℕ) → w.sleep_err i ≡ none → sleep w tests p i wait ≡ again wait
  unfolding sleep
  sleep-again i wait h = rw (h, sleep) refl

  wait_for-again :
      (i : ℕ) (e : E) (wait : ℕ)
      → (p.max_elapsed ≡ 0) ⊎ (w.elapsed i < p.max_elapsed)
      → w.sleep_err i ≡ none
      → (v : ℕ) × (wait_for w tests p i e wait ≡ again v)
  unfolding wait_for
  wait_for-again i e wait (inl z) h = (wait, ground (arith, sleep-again i wait h))
  wait_for-again i e wait (inr l) h = elim (Bool-cases (p.max_elapsed == 0)) [
    | inl z ↦ (wait, ground (arith, sleep-again i wait h))
    | inr z ↦
        let v = min wait (p.max_elapsed - w.elapsed i) in (v, ground (arith, sleep-again i v h))
  ]

  Retries-again : (i : ℕ) → i < p.max_retries → Retries i → (v : ℕ) × (round w tests p i ≡ again v)
  unfolding round after_call after_error
  Retries-again i l r =
      let wait = provider_backoff (w.random i) p (i + 1) 0 in
      let (v, waited) = wait_for-again i r.e wait r.in_time r.undisturbed in
      let goes_on : (not (tests.retryable r.e) || leb p.max_retries i) ≡ false =
        ground (arith, r.retried) in
      (v, rw (r.alive, r.failed, r.not_ctx, goes_on, waited, round, after_call, after_error) refl)

  -- The loop returns the answer of round n, given that it goes on until then.
  retry_loop-answer :
      (a : A) (fuel i n : ℕ) (waits : List ℕ)
      → n < i + fuel
      → i ≤ n
      → ((j : ℕ) → j < n → (v : ℕ) × (round w tests p j ≡ again v))
      → round w tests p n ≡ returns (ok a) 1
      → (r : Run A E) × (retry_loop w tests p fuel i waits ≡ some r)
        × (r.answer ≡ ok a)
        × (r.calls ≡ suc n)
  unfolding retry_loop
  retry_loop-answer a zero i n waits f l before last = absurd (omega arith)
  retry_loop-answer a (suc fuel) i n waits f l before last = elim (Bool-cases (i == n)) [
    | inl e ↦
        let same : i ≡ n = ground arith in
        let here : round w tests p i ≡ returns (ok a) 1 = ap (round w tests p) same ∙ last in
        rw (here, retry_loop) (_, refl, refl, omega arith)
    | inr e ↦
        let (v, goes_on) = before i (ground arith) in
        rw (goes_on, retry_loop)
          (retry_loop-answer a fuel (suc i) n (v ∷ waits) (omega arith) (ground arith) before last)
  ]

-- When the provider fails a number of times that the policy allows, each time with an error that is
-- retried, with time left and the context alive, and then answers, the call returns the answer,
-- after that many failed calls and one more.
pub retry_provider_call-ok :
    {A E : Type 0} (w : World A E) (tests : ErrorTests E) (p : ProviderRetryPolicy) (n : ℕ) (a : A)
    → n ≤ p.max_retries
    → ((i : ℕ) → i < n → Retries w tests p i)
    → w.ctx_err n ≡ none
    → w.call n ≡ ok a
    → (r : Run A E) × (retry_provider_call w tests p ≡ some r)
      × (r.answer ≡ ok a)
      × (r.calls ≡ suc n)
unfolding retry_provider_call
retry_provider_call-ok w tests p n a l before alive answers =
    let last : round w tests p n ≡ returns (ok a) 1 =
      unfold round after_call in rw (alive, answers, round, after_call) refl in
    retry_loop-answer w tests p a (suc p.max_retries) 0 n [] (omega arith) (omega arith)
      (λ j h. Retries-again w tests p j (omega arith) (before j h)) last
