-- ===== src/Examples/Replies.antt =====
-- Tests and instances for deferred replies.
use miu_cr.Base.{◌≡◌, refl, arith, List, [], ◌∷◌, codes}
use miu_cr.ReplyRetry.{reply_retry_key, reply_retry_ready}
use miu_cr.ReplyRetry.Latest.{
  Call, after_calls, latest_until, IsOrdered, is_past, reply_retry_ready-is_past,
}

-- A comment is deferred to 10, then asked about at 7.
abbrev calls : List Call
calls = Call.asks 7 (codes "o/r#1:5") ∷ Call.defers 3 (codes "o/r#1:5") 10 ∷ []

key_test : reply_retry_key (codes "o/r#1") 5 ≡ codes "o/r#1:5"
unfolding reply_retry_key
key_test = refl

calls-IsOrdered : IsOrdered 8 calls
calls-IsOrdered = (omega arith, (omega arith, tt))

reply_retry_ready-is_past_example :
    (reply_retry_ready (codes "o/r#1:5") 8 (after_calls calls)).0
    ≡ is_past 8 (latest_until (codes "o/r#1:5") calls)
reply_retry_ready-is_past_example =
    reply_retry_ready-is_past (codes "o/r#1:5") 8 calls calls-IsOrdered
