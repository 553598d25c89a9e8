-- ===== src/ProviderRetry/Backoff.antt =====
-- The bound of a wait: internal/engine/agent/provider_retry.go.
use miu_cr.Base.{ℕ, zero, suc, ◌+◌, ◌-◌, ◌*◌, ◌/◌, ◌^◌, ◌<◌, ◌≤◌, ◌≡◌, arith}
use miu_cr.ProviderRetry.{ProviderRetryPolicy, is_positive, doubled, backoff_loop, provider_backoff}

-- No doubling of a duration below 2^62 wraps around.
doubled_lem : (d : ℕ) → d < 2 ^ 62 → doubled d ≡ 2 * d
unfolding doubled
doubled_lem d h = omega arith

backoff_loop_bound :
    (m i d bound : ℕ) → 0 < m → m ≤ bound → d ≤ bound → bound < 2 ^ 62 → backoff_loop m i d ≤ bound
unfolding backoff_loop
backoff_loop_bound m zero d bound z a b c = b
backoff_loop_bound m (suc i) d bound z a b c =
    ground (arith, doubled_lem d, backoff_loop_bound m i (doubled d) bound)

-- A random number in its range leaves a wait within the duration that was doubled, below 2^63.
pub provider_backoff-fits :
    (random : ℕ → ℕ) (p : ProviderRetryPolicy) (n : ℕ)
    → ((k : ℕ) → 0 < k → random k < k)
    → provider_backoff random p n 0 < 2 ^ 63
unfolding provider_backoff is_positive
provider_backoff-fits random p n r =
    let d = backoff_loop p.max_backoff (n - 1) p.initial_backoff in ground (arith, r (d / 2 + 1))

-- A wait without a suggestion is at most the larger of the first and the largest wait of the
-- policy, when there is a largest wait.
pub provider_backoff_bound :
    (random : ℕ → ℕ) (p : ProviderRetryPolicy) (n bound : ℕ)
    → ((k : ℕ) → 0 < k → random k < k)
    → 0 < p.max_backoff
    → p.max_backoff ≤ bound
    → p.initial_backoff ≤ bound
    → bound < 2 ^ 62
    → provider_backoff random p n 0 ≤ bound
unfolding provider_backoff
provider_backoff_bound random p n bound r z a b c =
    let d = backoff_loop p.max_backoff (n - 1) p.initial_backoff in
    ground (
      arith,
      backoff_loop_bound p.max_backoff (n - 1) p.initial_backoff bound z a b c,
      r (d / 2 + 1),
    )
