-- ===== src/ProviderRetry.antt =====
-- The retries of a provider call: internal/engine/agent/provider_retry.go. Durations are
-- nanoseconds; what doubles wraps around at 64 bits, and reads as negative from 2^63 on.
pub mod Backoff
pub mod Recovers
pub mod Total
use miu_cr.Base.{
  ℕ, zero, suc, ◌+◌, ◌-◌, ◌*◌, ◌/◌, ◌%◌, ◌^◌, min, Bool, true, false, not, ◌&&◌, ◌||◌, Option, none,
  some, List, [], ◌∷◌, Text, trim_space, ltb, leb, ◌==◌, if◌then◌else◌,
}
use miu_cr.Anchor.{is_text}

-- An int of the configuration.
pub data ℤ : Type 0 where
  pos : ℕ → ℤ
  negsuc : ℕ → ℤ

pub record ProviderRetry : Type 0 where
  pub max_retries : Option ℤ
  pub initial_backoff : Text
  pub max_backoff : Text
  pub max_elapsed : Text

-- The policy, with 0 for what is not positive: the code only asks whether it is.
pub record ProviderRetryPolicy : Type 0 where
  pub max_retries : ℕ
  pub initial_backoff : ℕ
  pub max_backoff : ℕ
  pub max_elapsed : ℕ

-- The defaults for durations that internal/config/provider.go names.
pub record Defaults : Type 0 where
  pub max_retries : ℕ
  pub initial_backoff : Text
  pub max_backoff : Text
  pub max_elapsed : Text

abbrev not_negative : ℤ → ℕ
not_negative (pos n) = n
not_negative (negsuc n) = 0

-- The duration that was parsed, 0 for an error.
abbrev duration_or_zero : Option ℤ → ℕ
duration_or_zero none = 0
duration_or_zero (some d) = not_negative d

abbrev valid_or : Option ℤ → ℕ → ℕ
valid_or (some (pos d)) fallback = d
valid_or (some (negsuc d)) fallback = fallback
valid_or none fallback = fallback

-- `parse` is time.ParseDuration, `none` for its error.
unfoldable pub provider_retry_duration : (Text → Option ℤ) → Text → Text → ℕ
provider_retry_duration parse raw fallback =
    valid_or (parse (if is_text (trim_space raw) then raw else fallback))
      (duration_or_zero (parse fallback))

abbrev configured_or : Option ℤ → ℤ → ℤ
configured_or none fallback = fallback
configured_or (some n) fallback = n

-- The fallback, or the default when that is negative.
abbrev fallback_retries : Defaults → ℤ → ℤ
fallback_retries d (pos n) = pos n
fallback_retries d (negsuc n) = pos d.max_retries

unfoldable pub resolve_provider_retry_policy :
    (Text → Option ℤ) → Defaults → ProviderRetry → ℤ → ProviderRetryPolicy
unfolding provider_retry_duration
resolve_provider_retry_policy parse d retry fallback_max_retries = record {
  max_retries =
      not_negative (configured_or retry.max_retries (fallback_retries d fallback_max_retries));
  initial_backoff = provider_retry_duration parse retry.initial_backoff d.initial_backoff;
  max_backoff = provider_retry_duration parse retry.max_backoff d.max_backoff;
  max_elapsed = provider_retry_duration parse retry.max_elapsed d.max_elapsed;
}

-- d > 0 on an int64
unfoldable pub is_positive : ℕ → Bool
is_positive d = ltb 0 d && ltb d (2 ^ 63)

-- d *= 2 on an int64
unfoldable pub doubled : ℕ → ℕ
doubled d = 2 * d % 2 ^ 64

-- The loop of `providerBackoff`, with the rounds that are left.
unfoldable pub backoff_loop : ℕ → ℕ → ℕ → ℕ
unfolding doubled
backoff_loop max_backoff zero d = d
backoff_loop max_backoff (suc i) d =
    let next = doubled d in
    let rest = backoff_loop max_backoff i next in
    if ltb 0 max_backoff && ltb next (2 ^ 63) && leb max_backoff next then max_backoff else rest

-- `random` is rand.Int63n.
unfoldable pub provider_backoff : (ℕ → ℕ) → ProviderRetryPolicy → ℕ → ℕ → ℕ
unfolding backoff_loop is_positive
provider_backoff random p retry_number suggested =
    let d = backoff_loop p.max_backoff (retry_number - 1) p.initial_backoff in
    let half = d / 2 in
    if ltb 0 suggested
    then (if ltb 0 p.max_backoff && ltb p.max_backoff suggested then p.max_backoff else suggested)
    else if not (is_positive d)
    then 0
    else if half == 0
    then d
    else half + random (half + 1)

pub data Answer (A E : Type 0) : Type 0 where
  ok : A → Answer A E
  err : E → Answer A E

-- What the rounds of the loop meet, by their number: ctx.Err() at the top, the provider's call, the
-- time since the start after it, the random numbers, and the error of `sleepCtx`.
pub record World (A E : Type 0) : Type 0 where
  pub ctx_err : ℕ → Option E
  pub call : ℕ → Answer A E
  pub elapsed : ℕ → ℕ
  pub random : ℕ → ℕ → ℕ
  pub sleep_err : ℕ → Option E

-- What the code asks of an error.
pub record ErrorTests (E : Type 0) : Type 0 where
  pub is_ctx_err : E → Bool
  pub retryable : E → Bool
  pub classify : E → E

-- How a round ends: the function returns, after so many calls in the round; the sleep is cut
-- short; or the next round starts after a sleep.
pub data Round (A E : Type 0) : Type 0 where
  returns : Answer A E → ℕ → Round A E
  wakes : E → ℕ → Round A E
  again : ℕ → Round A E

module _ {A E : Type 0} (w : World A E) (tests : ErrorTests E) (p : ProviderRetryPolicy) where
  unfoldable pub sleep : ℕ → ℕ → Round A E
  sleep attempt wait = elim (w.sleep_err attempt) [ some e ↦ wakes e wait | none ↦ again wait ]

  -- The elapsed time and the sleep, once a retry is due.
  unfoldable pub wait_for : ℕ → E → ℕ → Round A E
  unfolding sleep
  wait_for attempt e wait =
      if p.max_elapsed == 0
      then sleep attempt wait
      else if leb p.max_elapsed (w.elapsed attempt)
      then returns (err (tests.classify e)) 1
      else sleep attempt (min wait (p.max_elapsed - w.elapsed attempt))

  unfoldable pub after_error : ℕ → E → Round A E
  unfolding wait_for provider_backoff
  after_error attempt e =
      if tests.is_ctx_err e
      then returns (err e) 1
      else if not (tests.retryable e) || leb p.max_retries attempt
      then returns (err (tests.classify e)) 1
      else wait_for attempt e (provider_backoff (w.random attempt) p (attempt + 1) 0)

  unfoldable pub after_call : ℕ → Answer A E → Round A E
  unfolding after_error
  after_call attempt (ok a) = returns (ok a) 1
  after_call attempt (err e) = after_error attempt e

  unfoldable pub round : ℕ → Round A E
  unfolding after_call
  round attempt = elim (w.ctx_err attempt) [
    | some e ↦ returns (err e) 0
    | none ↦ after_call attempt (w.call attempt)
  ]

-- What the function returned, after how many calls, and the waits in front of them.
pub record Run (A E : Type 0) : Type 0 where
  pub answer : Answer A E
  pub calls : ℕ
  pub waits : List ℕ

module _ {A E : Type 0} (w : World A E) (tests : ErrorTests E) (p : ProviderRetryPolicy) where
  -- The loop of `retryProviderCall` on fuel, from the round `attempt` on.
  unfoldable pub retry_loop : ℕ → ℕ → List ℕ → Option (Run A E)
  unfolding round
  retry_loop zero attempt waits = none
  retry_loop (suc fuel) attempt waits = elim (round w tests p attempt) [
    | returns a calls ↦ some (record { answer = a; calls = attempt + calls; waits = waits })
    | wakes e wait ↦ some (record { answer = err e; calls = suc attempt; waits = wait ∷ waits })
    | again wait ↦ retry_loop fuel (suc attempt) (wait ∷ waits)
  ]

  -- One round for each retry, and one for the first call.
  unfoldable pub retry_provider_call : Option (Run A E)
  unfolding retry_loop
  retry_provider_call = retry_loop (suc p.max_retries) 0 []
