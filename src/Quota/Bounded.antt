-- ===== src/Quota/Bounded.antt =====
-- How far a quota can be overrun: internal/quota/quota.go.
use miu_cr.Base.{
  ◌*◌, ◌==◌, ℕ, zero, suc, ◌+◌, ◌<◌, ◌≤◌, ◌≡◌, sym, subst, Bool, Bool-cases, inl, inr, arith, some,
}
use miu_cr.Finding.{Usage}
use miu_cr.Quota.{
  QuotaConfig, ProviderUsageCount, used, allowed, check, record_usage, cost, Meter,
  add_provider_usage, Step, Reach,
}

-- What `k` reviews cost at most.
abbrev times : ℕ → ℕ → ℕ
times zero m = 0
times (suc k) m = m + times k m

times_le : (j k m : ℕ) → j ≤ k → times j m ≤ times k m
times_le zero k m h = omega arith
times_le (suc j) zero m h = omega arith
times_le (suc j) (suc k) m h = omega (arith, times_le j k m)

used-record_usage :
    (cfg : QuotaConfig) (u : Usage) (c : ProviderUsageCount)
    → used cfg (record_usage u c) ≡ used cfg c + cost cfg u
unfolding used record_usage
used-record_usage cfg u c = ground arith

check-allowed :
    (cfg : QuotaConfig) (near : ℕ → ℕ → Bool) (warn warned : Bool) (c : ProviderUsageCount)
    → (check cfg near warn warned (some c)).0 ≡ allowed
    → used cfg c < cfg.limit
unfolding check
check-allowed cfg near warn warned c h = ground arith

pub record IsBounded (cfg : QuotaConfig) (k m : ℕ) (s : Meter) : Type 0 where
  pub few : s.flying ≤ k
  pub past : (p : ℕ) → used cfg (s.counts p) < cfg.limit + times k m
  pub now : used cfg (s.counts s.period) + times s.flying m < cfg.limit + times k m
  pub later : (p : ℕ) → s.period < p → used cfg (s.counts p) < cfg.limit

module _ (cfg : QuotaConfig) (k m : ℕ) (s : Meter) (h : IsBounded cfg k m s) where
  starts-IsBounded :
      s.flying < k
      → used cfg (s.counts s.period) < cfg.limit
      → IsBounded cfg k m (record s { flying = suc s.flying })
  starts-IsBounded room free = record {
    few = omega arith;
    past = h.past;
    now = omega (arith, times_le (suc s.flying) k m);
    later = h.later;
  }

  fails-IsBounded : (n : ℕ) → s.flying ≡ suc n → IsBounded cfg k m (record s { flying = n })
  fails-IsBounded n e = record {
    few = omega (arith, h.few);
    past = h.past;
    now = omega (arith, h.now, times_le n s.flying m);
    later = h.later;
  }

  passes_time-IsBounded : (p : ℕ) → s.period ≤ p → IsBounded cfg k m (record s { period = p })
  passes_time-IsBounded p e = record {
    few = h.few;
    past = h.past;
    now = elim (Bool-cases (p == s.period)) [
      | inl same ↦ ground (arith, h.now)
      | inr other ↦ ground (arith, h.later p, times_le s.flying k m, h.few)
    ];
    later = λ q q_after. h.later q (omega arith);
  }

  records-IsBounded :
      (u : Usage) (n : ℕ)
      → s.flying ≡ suc n
      → cost cfg u ≤ m
      → IsBounded cfg k m (record s { counts = add_provider_usage u s; flying = n })
  records-IsBounded u n e cheap =
      let now_sum : used cfg (s.counts s.period) + (m + times n m) < cfg.limit + times k m =
        subst (λ f. used cfg (s.counts s.period) + times f m < cfg.limit + times k m) e h.now in
      record {
        few = omega (arith, h.few);
        past = λ p. ground (arith, h.past p, now_sum, used-record_usage cfg u (s.counts p));
        now = ground (arith, now_sum, used-record_usage cfg u (s.counts s.period));
        later = λ p after. ground (arith, h.later p after);
      }

Step-IsBounded :
    (cfg : QuotaConfig) (k m : ℕ) (s t : Meter)
    → IsBounded cfg k m s
    → Step cfg k m s t
    → IsBounded cfg k m t
Step-IsBounded cfg k m s t h (Step.starts near warn warned room said e) =
    subst (IsBounded cfg k m) (sym e) (
      starts-IsBounded cfg k m s h room
        (check-allowed cfg near warn warned (s.counts s.period) said))
Step-IsBounded cfg k m s t h (Step.records u n busy cheap e) =
    subst (IsBounded cfg k m) (sym e) (records-IsBounded cfg k m s h u n busy cheap)
Step-IsBounded cfg k m s t h (Step.fails n busy e) =
    subst (IsBounded cfg k m) (sym e) (fails-IsBounded cfg k m s h n busy)
Step-IsBounded cfg k m s t h (Step.passes_time p after e) =
    subst (IsBounded cfg k m) (sym e) (passes_time-IsBounded cfg k m s h p after)

Reach-IsBounded :
    (cfg : QuotaConfig) (k m : ℕ) (s t : Meter)
    → IsBounded cfg k m s
    → Reach cfg k m s t
    → IsBounded cfg k m t
Reach-IsBounded cfg k m s t h Reach.here = h
Reach-IsBounded cfg k m s t h (Reach.next {t = mid} r step) =
    Step-IsBounded cfg k m mid t (Reach-IsBounded cfg k m s mid h r) step

times-mul : (k m : ℕ) → times k m ≡ k * m
times-mul zero m = omega arith
times-mul (suc k) m = grind (arith, times-mul k m)

-- When at most `k` reviews of a provider run at once and each costs at most `m` in the quota's
-- dimension, and every count is below the limit at first: however their checks, records and
-- failures interleave, and though the period may end in between, the count of every period stays
-- below the limit plus `k` times `m`.
pub Reach-used :
    (cfg : QuotaConfig) (k m : ℕ) (s t : Meter)
    → s.flying ≡ 0
    → ((p : ℕ) → used cfg (s.counts p) < cfg.limit)
    → Reach cfg k m s t
    → (p : ℕ) → used cfg (t.counts p) < cfg.limit + k * m
Reach-used cfg k m s t idle below r p =
    let first : IsBounded cfg k m s = record {
      few = omega arith;
      past = λ q. omega (arith, below q);
      now = rw (idle) (omega (arith, below s.period));
      later = λ q after. below q;
    } in
    omega (arith, (Reach-IsBounded cfg k m s t first r).past p, times-mul k m)
