-- ===== src/Budget.antt =====
-- The hourly budget of reply judgments: internal/serve/reply_budget.go.
pub mod Rate
use miu_cr.Base.{
  ℕ, suc, ◌-◌, ◌*◌, Bool, true, false, Option, none, some, [], Text, text_eq, leb, if◌then◌else◌,
}

abbrev pub reply_spend_per_hour : ℕ
reply_spend_per_hour = 24

abbrev pub hour : ℕ
hour = 3600000000000

-- The start in nanoseconds since some fixed time.
pub record ReplyWindow : Type 0 where
  pub start : ℕ
  pub n : ℕ

-- The map `replyBudgets`.
abbrev pub Budgets : Type 0
Budgets = Text → Option ReplyWindow

abbrev pub no_budgets : Budgets
no_budgets ref = none

-- now.Sub(b.start) >= d, for a start that may lie ahead of now.
unfoldable pub is_over : ℕ → ℕ → ReplyWindow → Bool
is_over d now b = leb d (now - b.start)

-- What the sweep leaves of a window.
unfoldable pub swept : ℕ → Option ReplyWindow → Option ReplyWindow
unfolding is_over
swept now none = none
swept now (some b) = if is_over (2 * hour) now b then none else some b

-- What becomes of the window of the pull request that asks, and the answer.
unfoldable pub spend : ℕ → Option ReplyWindow → Option ReplyWindow × Bool
unfolding is_over
spend now none = (some (record { start = now; n = 1 }), true)
spend now (some b) =
    if is_over hour now b
    then (some (record { start = now; n = 1 }), true)
    else if leb reply_spend_per_hour b.n
    then (some b, false)
    else (some (record b { n = suc b.n }), true)

-- The map is as it was only for the empty reference, which is refused before the sweep.
unfoldable pub allow_reply_spend : Budgets → Text → ℕ → Budgets × Bool
unfolding swept spend
allow_reply_spend m ref now =
    let (b, allowed) = spend now (swept now (m ref)) in
    if text_eq ref []
    then (m, false)
    else (λ q. if text_eq ref q then b else swept now (m q), allowed)
