-- ===== src/Examples/Quotas.antt =====
-- Tests and instances for the usage quota.
use miu_cr.Base.{ℕ, ◌+◌, ◌*◌, ◌<◌, ◌≡◌, refl, true, false, none, some, arith, leb}
use miu_cr.Finding.{no_usage}
use miu_cr.Quota.{
  QuotaConfig, ProviderUsageCount, used, quota_dimension, allowed, quota_exceeded,
  store_unavailable, check, add_provider_usage, Meter, Step, Reach, record_usage,
}
use miu_cr.Quota.Bounded.{Reach-used}

abbrev config : QuotaConfig
config = record { dimension = "requests"; limit = 1 }

abbrev unused : ProviderUsageCount
unused = record { tokens = no_usage; requests = 0 }

check_warns_test : check config (λ n limit. true) true false (some unused) ≡ (allowed, true)
unfolding check
check_warns_test = refl

check_exceeded_test :
    check config leb true false (some (record { tokens = no_usage; requests = 1 }))
    ≡ (quota_exceeded, false)
unfolding check
check_exceeded_test = refl

check_unavailable_test : check config leb true false none ≡ (store_unavailable, false)
unfolding check
check_unavailable_test = refl

abbrev fresh : Meter
fresh = record { counts = λ p. unused; period = 7; flying = 0 }

abbrev one_runs : Meter
one_runs = record fresh { flying = 1 }

abbrev two_run : Meter
two_run = record fresh { flying = 2 }

abbrev one_recorded : Meter
one_recorded = record two_run { counts = add_provider_usage no_usage two_run; flying = 1 }

abbrev both_recorded : Meter
both_recorded = record one_recorded {
  counts = add_provider_usage no_usage one_recorded;
  flying = 0;
}

-- Two reviews pass the check of a quota of one, and both are recorded.
both_pass : Reach config 2 1 fresh both_recorded
unfolding check
both_pass =
    Reach.next
      (Reach.next
        (Reach.next (Reach.next Reach.here (Step.starts leb false false (omega arith) refl refl))
          (Step.starts leb false false (omega arith) refl refl))
        (Step.records no_usage 1 refl (omega arith) refl))
      (Step.records no_usage 0 refl (omega arith) refl)

both_recorded_test : used config (both_recorded.counts 7) ≡ 2
unfolding used record_usage
both_recorded_test = refl

fresh_below : (p : ℕ) → used config (fresh.counts p) < config.limit
unfolding used quota_dimension
fresh_below p = omega arith

Reach-used_example : used config (both_recorded.counts 7) < config.limit + 2 * 1
Reach-used_example = Reach-used config 2 1 fresh both_recorded refl fresh_below both_pass 7
