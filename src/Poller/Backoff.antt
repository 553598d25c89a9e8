-- ===== src/Poller/Backoff.antt =====
-- How long the poller backs off: internal/serve/poller.go.
use miu_cr.Base.{ℕ, zero, suc, ◌+◌, ◌*◌, ◌/◌, min, ◌<◌, ◌≤◌, arith}
use miu_cr.Poller.{transient, backoff_cap, next_backoff, handle_err}

-- The backoff after n transient errors in a row, with the random numbers of each.
abbrev pub backoff_after : (ℕ → ℕ → ℕ) → ℕ → ℕ
backoff_after random zero = 0
backoff_after random (suc n) = (handle_err (random n) transient (backoff_after random n)).1

-- After one more transient error the backoff is at least a second, at least twice what it was or
-- the cap, and at most half the cap above the cap, as the jitter comes on top of the cap.
pub handle_err-transient :
    (random : ℕ → ℕ → ℕ)
    → ((n k : ℕ) → 0 < k → random n k < k)
    → (n : ℕ)
    → let prev = backoff_after random n in
      let now = backoff_after random (suc n) in
      (min (2 * prev) backoff_cap ≤ now) × (1000000000 ≤ now) × (2 * now ≤ 3 * backoff_cap)
unfolding handle_err next_backoff
handle_err-transient random r zero = ground (arith, r 0 (next_backoff 0 / 2 + 1))
handle_err-transient random r (suc n) =
    let prev = backoff_after random (suc n) in
    ground (arith, handle_err-transient random r n, r (suc n) (next_backoff prev / 2 + 1))
