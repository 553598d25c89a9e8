-- ===== src/Quota.antt =====
-- The usage quota of a provider: internal/quota/quota.go.
pub mod Bounded
use miu_cr.Base.{
  ℕ, suc, ◌+◌, ◌<◌, ◌≤◌, ◌≡◌, String, Bool, true, false, ◌&&◌, ◌||◌, not, Option, none, some,
  str_eq, leb, ◌==◌, if◌then◌else◌,
}
use miu_cr.Finding.{Usage}

-- QuotaConfig without its window; the limit is not negative.
pub record QuotaConfig : Type 0 where
  pub dimension : String
  pub limit : ℕ

pub record ProviderUsageCount : Type 0 where
  pub tokens : Usage
  pub requests : ℕ

unfoldable pub quota_dimension : QuotaConfig → String
quota_dimension cfg = if str_eq cfg.dimension "" then "tokens" else cfg.dimension

abbrev pub all_tokens : Usage → ℕ
all_tokens u = u.input_tokens + u.cache_read_tokens + u.cache_creation_tokens + u.output_tokens

unfoldable pub used : QuotaConfig → ProviderUsageCount → ℕ
unfolding quota_dimension
used cfg c = if str_eq (quota_dimension cfg) "requests" then c.requests else all_tokens c.tokens

pub data Verdict : Type 0 where
  store_unavailable quota_exceeded allowed : Verdict

-- What Check returns and its `warned`. The count is `none` when the store cannot be read; `near` is
-- the comparison of floats with the warning's threshold, and `warn` whether there is a sink.
unfoldable pub check :
    QuotaConfig
    → (near : ℕ → ℕ → Bool) → (warn warned : Bool) → Option ProviderUsageCount
    → Verdict × Bool
unfolding used
check cfg near warn warned none = (store_unavailable, warned)
check cfg near warn warned (some c) =
    let n = used cfg c in
    if leb cfg.limit n
    then (quota_exceeded, warned)
    else (allowed, warned || (warn && near n cfg.limit))

-- The sums that Record asks the store for.
unfoldable pub record_usage : Usage → ProviderUsageCount → ProviderUsageCount
record_usage u c = record {
  tokens = record {
    input_tokens = c.tokens.input_tokens + u.input_tokens;
    output_tokens = c.tokens.output_tokens + u.output_tokens;
    cache_read_tokens = c.tokens.cache_read_tokens + u.cache_read_tokens;
    cache_creation_tokens = c.tokens.cache_creation_tokens + u.cache_creation_tokens;
  };
  requests = c.requests + 1;
}

-- What one recorded review adds in the quota's dimension.
abbrev pub cost : QuotaConfig → Usage → ℕ
cost cfg u = if str_eq (quota_dimension cfg) "requests" then 1 else all_tokens u

-- The counts of one provider by period, the periods in the order of time, the period of the clock,
-- and how many reviews are between their Check and their Record.
pub record Meter : Type 0 where
  pub counts : ℕ → ProviderUsageCount
  pub period : ℕ
  pub flying : ℕ

abbrev pub add_provider_usage : Usage → Meter → ℕ → ProviderUsageCount
add_provider_usage u s p = if p == s.period then record_usage u (s.counts p) else s.counts p

-- One step of the reviews of a provider, of which at most `k` run at once and each costs at most
-- `m`. A review `fails` also when its Record does, and the clock does not go back.
pub data Step (cfg : QuotaConfig) (k m : ℕ) (s t : Meter) : Type 0 where
  starts :
      (near : ℕ → ℕ → Bool) (warn warned : Bool)
      → s.flying < k
      → (check cfg near warn warned (some (s.counts s.period))).0 ≡ allowed
      → t ≡ (record s { flying = suc s.flying })
      → Step cfg k m s t
  records :
      (u : Usage) (n : ℕ)
      → s.flying ≡ suc n
      → cost cfg u ≤ m
      → t ≡ (record s { counts = add_provider_usage u s; flying = n })
      → Step cfg k m s t
  fails : (n : ℕ) → s.flying ≡ suc n → t ≡ (record s { flying = n }) → Step cfg k m s t
  passes_time : (p : ℕ) → s.period ≤ p → t ≡ (record s { period = p }) → Step cfg k m s t

pub data Reach (cfg : QuotaConfig) (k m : ℕ) (s : Meter) : Meter → Type 0 where
  here : Reach cfg k m s s
  next : {t u : Meter} → Reach cfg k m s t → Step cfg k m t u → Reach cfg k m s u
