-- ===== src/Gateway/Limiter/Tests.antt =====
-- Runs of the rate limiter, and the theorems at concrete inputs.
use ai_agent_code.Common.{◌+◌, ◌*◌, ◌-◌, ◌≤◌, ◌∷◌, arith, ℕ, List, [], string_key, refl}
use ai_agent_code.Gateway.Bucket.{unit, TokenBucket}
use ai_agent_code.Gateway.Limiter.{
  RateLimiter, TierConfig, default_tier_configs, find_bucket, get_tier_config,
}
use ai_agent_code.Gateway.Limiter.Admission.{Holds, admits, admits-quota}

abbrev rps_bucket : TokenBucket
rps_bucket = record { rate = 432_000; capacity = 10; tokens = 864_000_000; last_refill = 7 }

abbrev day_bucket : TokenBucket
day_bucket = record { rate = 50_000; capacity = 50_000; tokens = 86_400_000; last_refill = 7 }

abbrev limiter : RateLimiter
limiter = record {
  tier_configs = default_tier_configs;
  default_tier = "free";
  buckets = ("acme", ("chat:rps", rps_bucket) ∷ ("chat:tokens", day_bucket) ∷ []) ∷ [];
  tenant_tiers = [];
}

abbrev free_tier : TierConfig
free_tier = record { requests_per_second = 5; tokens_per_day = 50_000; burst_multiplier = 200 }

limiter-Holds : Holds "acme" "chat" free_tier rps_bucket day_bucket limiter
unfolding get_tier_config find_bucket
limiter-Holds = record { tier = refl; rps_bucket = refl; day_bucket = refl }

abbrev requests : List (ℕ × ℕ × ℕ)
requests = (8, 1008, 1) ∷ (9, 1009, 1) ∷ (507, 1507, 0) ∷ []

admits-quota_example :
    ((admits "acme" "chat" limiter requests).0 * unit ≤ 864_000_000 + (507 - 7) * 432_000)
    × ((admits "acme" "chat" limiter requests).1 * unit ≤ 86_400_000 + (507 - 7) * 50_000)
admits-quota_example =
    admits-quota "acme" "chat" free_tier requests limiter rps_bucket day_bucket 7 limiter-Holds refl
      refl (omega arith)
