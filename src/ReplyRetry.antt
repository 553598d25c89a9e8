-- ===== src/ReplyRetry.antt =====
-- The replies that the host's poll leaves for later: internal/serve/reply_retry.go. Times are
-- nanoseconds. Each call is one step.
pub mod Latest
use miu_cr.Base.{
  ℕ, Bool, true, false, Option, none, some, List, [], ◌∷◌, ◌++◌, Text, codes, text_eq, decimal, leb,
  if◌then◌else◌,
}

-- replyRetry
abbrev pub RetryMap : Type 0
RetryMap = Text → Option ℕ

abbrev pub no_retries : RetryMap
no_retries k = none

unfoldable pub reply_retry_key : Text → ℕ → Text
unfolding decimal
reply_retry_key ref comment_id = ref ++ (codes ":" ++ decimal comment_id)

abbrev live : ℕ → Option ℕ → Option ℕ
live now none = none
live now (some until) = if leb until now then none else some until

unfoldable pub sweep_reply_retry : ℕ → RetryMap → RetryMap
sweep_reply_retry now m k = live now (m k)

-- `now` is the time at which the call sweeps.
unfoldable pub defer_reply_retry : ℕ → Text → ℕ → RetryMap → RetryMap
unfolding sweep_reply_retry text_eq
defer_reply_retry now key until m =
    sweep_reply_retry now (λ k. if text_eq k key then some until else m k)

abbrev is_none : Option ℕ → Bool
is_none none = true
is_none (some u) = false

-- The answer, and the map that the call leaves.
unfoldable pub reply_retry_ready : Text → ℕ → RetryMap → Bool × RetryMap
unfolding sweep_reply_retry
reply_retry_ready key now m = let swept = sweep_reply_retry now m in (is_none (swept key), swept)
