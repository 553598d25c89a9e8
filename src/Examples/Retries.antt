-- ===== src/Examples/Retries.antt =====
-- Tests and instances for the retries of a provider call.
use miu_cr.Base.{ℕ, zero, suc, ◌<◌, ◌≡◌, refl, arith, true, false, Bool, some, none, inr}
use miu_cr.ProviderRetry.{
  ProviderRetryPolicy, Answer, ok, err, World, ErrorTests, Run, retry_provider_call,
}
use miu_cr.ProviderRetry.Total.{IsBounded, longest_wait, retry_provider_call-IsBounded}
use miu_cr.ProviderRetry.Recovers.{Retries, retry_provider_call-ok}

abbrev policy : ProviderRetryPolicy
policy = record { max_retries = 2; initial_backoff = 5; max_backoff = 8; max_elapsed = 100 }

abbrev second_answer : ℕ → Answer Bool ℕ
second_answer zero = err 503
second_answer (suc n) = ok true

-- A provider that fails once.
abbrev world : World Bool ℕ
world = record {
  ctx_err = λ n. none;
  call = second_answer;
  elapsed = λ n. 10;
  random = λ n k. 0;
  sleep_err = λ n. none;
}

abbrev tests : ErrorTests ℕ
tests = record { is_ctx_err = λ e. false; retryable = λ e. true; classify = λ e. e }

in_range : (n k : ℕ) → 0 < k → world.random n k < k
in_range n k h = h

retry_provider_call-IsBounded_example :
    (r : Run Bool ℕ) × (retry_provider_call world tests policy ≡ some r)
    × IsBounded world policy (longest_wait policy) r
retry_provider_call-IsBounded_example = retry_provider_call-IsBounded world tests policy in_range

first_fails : (i : ℕ) → i < 1 → Retries world tests policy i
first_fails zero h = record {
  e = 503;
  failed = refl;
  alive = refl;
  not_ctx = refl;
  retried = refl;
  in_time = inr (omega arith);
  undisturbed = refl;
}
first_fails (suc i) h = absurd (omega arith)

retry_provider_call-ok_example :
    (r : Run Bool ℕ) × (retry_provider_call world tests policy ≡ some r)
    × (r.answer ≡ ok true)
    × (r.calls ≡ 2)
retry_provider_call-ok_example =
    retry_provider_call-ok world tests policy 1 true (omega arith) first_fails refl refl
