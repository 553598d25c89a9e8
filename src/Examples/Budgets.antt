-- ===== src/Examples/Budgets.antt =====
-- Tests and instances for the reply budget.
use miu_cr.Base.{◌+◌, ◌*◌, ◌≤◌, ◌≡◌, refl, arith, [], ◌∷◌, codes, text_eq}
use miu_cr.Budget.{hour, no_budgets, allow_reply_spend}
use miu_cr.Budget.Rate.{Calls, count_allowed, IsClocked, count_allowed-hours}

-- Two pull requests, the first asking again after more than two hours.
abbrev calls : Calls
calls =
    (codes "o/r#1", 5) ∷ (codes "o/r#2", 6) ∷ (codes "o/r#1", 7) ∷ (codes "o/r#1", 3 * hour) ∷ []

count_allowed_test : count_allowed (codes "o/r#1") no_budgets calls ≡ 3
unfolding allow_reply_spend text_eq
count_allowed_test = refl

calls-IsClocked : IsClocked 0 (0 + 4 * hour) calls
calls-IsClocked = ground arith

count_allowed-hours_example : count_allowed (codes "o/r#1") no_budgets calls ≤ 24 * 4
count_allowed-hours_example = count_allowed-hours (codes "o/r#1") calls 0 4 calls-IsClocked
