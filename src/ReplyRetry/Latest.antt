-- ===== src/ReplyRetry/Latest.antt =====
-- The map of deferred replies against the history of its calls: internal/serve/reply_retry.go.
use miu_cr.Base.{
  ℕ, ◌≤◌, ◌≡◌, ◌⊎◌, refl, inl, Bool, true, Option, none, some, List, [], ◌∷◌, arith, Text, text_eq,
  leb, if◌then◌else◌,
}
use miu_cr.ReplyRetry.{
  RetryMap, no_retries, sweep_reply_retry, defer_reply_retry, reply_retry_ready,
}

-- A call at a time: of DeferReplyRetry, or of ReplyRetryReady.
pub data Call : Type 0 where
  defers : (now : ℕ) (key : Text) (until : ℕ) → Call
  asks : (now : ℕ) (key : Text) → Call

abbrev time_of : Call → ℕ
time_of (defers now key until) = now
time_of (asks now key) = now

-- The map after the calls, the latest first.
abbrev pub after_calls : List Call → RetryMap
after_calls [] = no_retries
after_calls (defers now key until ∷ cs) = defer_reply_retry now key until (after_calls cs)
after_calls (asks now key ∷ cs) = (reply_retry_ready key now (after_calls cs)).1

-- The end of the latest deferral of the key.
abbrev pub latest_until : Text → List Call → Option ℕ
latest_until k [] = none
latest_until k (defers now key until ∷ cs) =
    let earlier = latest_until k cs in if text_eq k key then some until else earlier
latest_until k (asks now key ∷ cs) = latest_until k cs

-- The times do not decrease, and end by the given one.
abbrev pub IsOrdered : ℕ → List Call → Type 0
IsOrdered now [] = Unit
IsOrdered now (c ∷ cs) = (time_of c ≤ now) × IsOrdered (time_of c) cs

-- Whether a deferral is over.
abbrev pub is_past : ℕ → Option ℕ → Bool
is_past now none = true
is_past now (some until) = leb until now

-- The map has the latest deferral, or has dropped it since it was over.
after_calls-latest_until :
    (k : Text) (now : ℕ) (cs : List Call)
    → IsOrdered now cs
    → (after_calls cs k ≡ latest_until k cs)
      ⊎ ((after_calls cs k ≡ none) × (is_past now (latest_until k cs) ≡ true))
unfolding defer_reply_retry reply_retry_ready sweep_reply_retry
after_calls-latest_until k now [] h = inl refl
after_calls-latest_until k now (defers t key until ∷ cs) h =
    ground (arith, after_calls-latest_until k t cs h.1, h.0)
after_calls-latest_until k now (asks t key ∷ cs) h =
    ground (arith, after_calls-latest_until k t cs h.1, h.0)

-- After any calls for any comments at times that do not decrease, a comment is ready exactly when
-- it was never deferred, or its latest deferral is over.
pub reply_retry_ready-is_past :
    (k : Text) (now : ℕ) (cs : List Call)
    → IsOrdered now cs
    → (reply_retry_ready k now (after_calls cs)).0 ≡ is_past now (latest_until k cs)
unfolding reply_retry_ready sweep_reply_retry
reply_retry_ready-is_past k now cs h = ground (arith, after_calls-latest_until k now cs h)
