-- ===== src/ProviderRetry/Total.antt =====
-- The retries end, and give a provider that recovers its chance:
-- internal/engine/agent/provider_retry.go.
use miu_cr.Base.{
  ℕ, zero, suc, ◌+◌, ◌-◌, ◌^◌, min, ◌<◌, ◌≤◌, ◌≡◌, ◌⊎◌, refl, ap, sym, subst, not, ◌||◌, Option,
  some, List, [], ◌∷◌, arith, length, leb, ltb, ◌&&◌, if◌then◌else◌, ◌==◌, Bool-cases, Option-cases,
  inl, inr,
}
use miu_cr.ProviderRetry.{
  ProviderRetryPolicy, provider_backoff, Answer, ok, err, World, ErrorTests, Round, returns, wakes,
  again, sleep, wait_for, after_error, after_call, round, Run, retry_loop, retry_provider_call,
}
use miu_cr.ProviderRetry.Backoff.{provider_backoff-fits, provider_backoff_bound}

module _ {A E : Type 0} (w : World A E) (p : ProviderRetryPolicy) (bound : ℕ) where
  -- A wait of the round: within the bound, and within the time that is left.
  abbrev pub IsShort : ℕ → ℕ → Type 0
  IsShort n wait = (wait ≤ bound) × ((p.max_elapsed ≡ 0) ⊎ (w.elapsed n + wait ≤ p.max_elapsed))

  -- The waits of the rounds before the n-th, the latest first.
  abbrev pub Timed : ℕ → List ℕ → Type 0
  Timed zero [] = Unit
  Timed zero (x ∷ waits) = ⊥
  Timed (suc n) [] = ⊥
  Timed (suc n) (x ∷ waits) = IsShort n x × Timed n waits

  -- What a finished run keeps to.
  pub record IsBounded (r : Run A E) : Type 0 where
    pub calls : r.calls ≤ suc p.max_retries
    pub retries : length r.waits ≤ p.max_retries
    pub timed : Timed (length r.waits) r.waits

module _ {A E : Type 0} (w : World A E) (tests : ErrorTests E) (p : ProviderRetryPolicy) (bound : ℕ)
    (short : (n : ℕ) → provider_backoff (w.random n) p (n + 1) 0 ≤ bound) where
  -- A round returns after at most one call, and only a round before the last retry goes on.
  abbrev RoundBound : ℕ → Round A E → Type 0
  RoundBound n (returns a calls) = calls ≤ 1
  RoundBound n (wakes e wait) = (n < p.max_retries) × IsShort w p bound n wait
  RoundBound n (again wait) = (n < p.max_retries) × IsShort w p bound n wait

  sleep-RoundBound :
      (n wait : ℕ)
      → n < p.max_retries
      → IsShort w p bound n wait
      → RoundBound n (sleep w tests p n wait)
  unfolding sleep
  sleep-RoundBound n wait h s = elim (Option-cases (w.sleep_err n)) [
    | inl e ↦ rw (e, RoundBound, sleep) (h, s)
    | inr (x, e) ↦ rw (e, RoundBound, sleep) (h, s)
  ]

  wait_for-RoundBound :
      (n : ℕ) (e : E) (wait : ℕ)
      → n < p.max_retries
      → wait ≤ bound
      → RoundBound n (wait_for w tests p n e wait)
  unfolding wait_for
  wait_for-RoundBound n e wait h b = elim (Bool-cases (p.max_elapsed == 0)) [
    | inl z ↦ rw z (sleep-RoundBound n wait h (b, inl (ground arith)))
    | inr z ↦ elim (Bool-cases (leb p.max_elapsed (w.elapsed n))) [
      | inl over ↦ rw (z, over) (omega arith)
      | inr left ↦
          rw (z, left)
            (sleep-RoundBound n (min wait (p.max_elapsed - w.elapsed n)) h
              (omega arith, inr (ground arith)))
    ]
  ]

  after_error-RoundBound : (n : ℕ) (e : E) → RoundBound n (after_error w tests p n e)
  unfolding after_error
  after_error-RoundBound n e = elim (Bool-cases (tests.is_ctx_err e)) [
    | inl c ↦ rw c (omega arith)
    | inr c ↦ elim (Bool-cases (not (tests.retryable e) || leb p.max_retries n)) [
      | inl s ↦ rw (c, s) (omega arith)
      | inr s ↦ rw (c, s) (wait_for-RoundBound n e _ (ground arith) (short n))
    ]
  ]

  after_call-RoundBound : (n : ℕ) (a : Answer A E) → RoundBound n (after_call w tests p n a)
  unfolding after_call
  after_call-RoundBound n (ok a) = omega arith
  after_call-RoundBound n (err e) = after_error-RoundBound n e

  round-RoundBound : (n : ℕ) → RoundBound n (round w tests p n)
  unfolding round
  round-RoundBound n = elim (Option-cases (w.ctx_err n)) [
    | inr (e, h) ↦ rw (h, RoundBound, round) (omega arith)
    | inl h ↦ rw (h, RoundBound, round) (after_call-RoundBound n (w.call n))
  ]

  length-Timed : (n : ℕ) (waits : List ℕ) → Timed w p bound n waits → length waits ≡ n
  length-Timed zero [] h = refl
  length-Timed zero (x ∷ waits) h = absurd h
  length-Timed (suc n) [] h = absurd h
  length-Timed (suc n) (x ∷ waits) h = ap suc (length-Timed n waits h.1)

  Timed-length :
      (n : ℕ) (waits : List ℕ) → Timed w p bound n waits → Timed w p bound (length waits) waits
  Timed-length n waits h = subst (λ k. Timed w p bound k waits) (sym (length-Timed n waits h)) h

  abbrev Finishes : Option (Run A E) → Type 0
  Finishes o = (r : Run A E) × (o ≡ some r) × IsBounded w p bound r

  -- What is left of the loop after one round, given its later rounds.
  after_round :
      (fuel n : ℕ) (waits : List ℕ) (x : Round A E)
      → n ≤ p.max_retries
      → Timed w p bound n waits
      → RoundBound n x
      → ((wait : ℕ)
          → suc n ≤ p.max_retries
          → Timed w p bound (suc n) (wait ∷ waits)
          → Finishes (retry_loop w tests p fuel (suc n) (wait ∷ waits)))
      → round w tests p n ≡ x
      → Finishes (retry_loop w tests p (suc fuel) n waits)
  unfolding retry_loop
  after_round fuel n waits (returns a calls) l t b later e =
      rw (e, retry_loop)
        (
          _,
          refl,
          record {
            calls = omega arith;
            retries = omega (arith, length-Timed n waits t);
            timed = Timed-length n waits t;
          },
        )
  after_round fuel n waits (wakes x wait) l t b later e =
      rw (e, retry_loop)
        (
          _,
          refl,
          record {
            calls = omega arith;
            retries = omega (arith, length-Timed n waits t, b.0);
            timed = Timed-length (suc n) (wait ∷ waits) (b.1, t);
          },
        )
  after_round fuel n waits (again wait) l t b later e =
      rw (e, retry_loop) (later wait (omega (arith, b.0)) (b.1, t))

  retry_loop-Finishes :
      (fuel n : ℕ) (waits : List ℕ)
      → p.max_retries < n + fuel
      → n ≤ p.max_retries
      → Timed w p bound n waits
      → Finishes (retry_loop w tests p fuel n waits)
  retry_loop-Finishes zero n waits f l t = absurd (omega arith)
  retry_loop-Finishes (suc fuel) n waits f l t =
      after_round fuel n waits (round w tests p n) l t (round-RoundBound n)
        (λ wait l' t'. retry_loop-Finishes fuel (suc n) (wait ∷ waits) (omega arith) l' t') refl

-- The longest wait that the policy allows: the larger of its first and its largest wait, when there
-- is a largest and doubling neither wraps around, else what an int64 holds.
abbrev pub longest_wait : ProviderRetryPolicy → ℕ
longest_wait p =
    if ltb 0 p.max_backoff && ltb p.initial_backoff (2 ^ 62) && ltb p.max_backoff (2 ^ 62)
    then (if ltb p.initial_backoff p.max_backoff then p.max_backoff else p.initial_backoff)
    else 2 ^ 63 - 1

provider_backoff-longest_wait :
    (random : ℕ → ℕ) (p : ProviderRetryPolicy) (n : ℕ)
    → ((k : ℕ) → 0 < k → random k < k)
    → provider_backoff random p n 0 ≤ longest_wait p
provider_backoff-longest_wait random p n r = ground (
  arith,
  provider_backoff-fits random p n r,
  provider_backoff_bound random p n p.max_backoff r,
  provider_backoff_bound random p n p.initial_backoff r,
)

-- Whatever the policy, and whatever the provider and the context do, with random numbers in their
-- range, the call ends: after at most one call more than the retries that the policy allows, with
-- at most that many waits, each within what was left of its time, when that is limited. A wait is
-- no longer than the larger of the policy's first and largest wait, if it has a largest and both
-- are below 2^62 ns; for every other policy, below 2^63 ns.
pub retry_provider_call-IsBounded :
    {A E : Type 0} (w : World A E) (tests : ErrorTests E) (p : ProviderRetryPolicy)
    (in_range : (n k : ℕ) → 0 < k → w.random n k < k)
    → (r : Run A E) × (retry_provider_call w tests p ≡ some r) × IsBounded w p (longest_wait p) r
unfolding retry_provider_call
retry_provider_call-IsBounded w tests p in_range =
    retry_loop-Finishes w tests p (longest_wait p)
      (λ n. provider_backoff-longest_wait (w.random n) p (n + 1) (in_range n)) (suc p.max_retries) 0
      [] (omega arith) (omega arith) tt
