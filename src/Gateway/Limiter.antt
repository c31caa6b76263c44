-- ===== src/Gateway/Limiter.antt =====
-- src/ai_gateway/rate_limiter.py: `RateLimiter` with its in-memory buckets (no Redis client). A
-- request reads the monotonic clock (`now`) and the wall clock (`wall`), in milliseconds.
pub mod Isolation
pub mod Spending
pub mod Admission
mod Tests
use Prim.Native.String.{◌++◌ as join}
use ai_agent_code.Common.Dict
use ai_agent_code.Common.Dict.{Dict}
use ai_agent_code.Common.{
  ℕ, zero, suc, ◌+◌, ◌-◌, ◌*◌, ◌/◌, ◌≡◌, ◌≤◌, max, Bool, true, false, ◌&&◌, Option, none, some,
  if◌then◌else◌, String, string_key, List, [], ◌∷◌,
}
use ai_agent_code.Gateway.Bucket.{
  unit, TokenBucket, make_bucket, consume, available_tokens, time_until_token,
}

pub data RateLimitResult : Type 0 where
  allowed queued rejected : RateLimitResult

-- `reset` is in seconds, as in the header.
pub record RateLimitInfo : Type 0 where
  pub limit : ℕ
  pub remaining : ℕ
  pub reset : ℕ
  pub limit_tokens : ℕ
  pub remaining_tokens : ℕ

-- `burst_multiplier` is in hundredths.
pub record TierConfig : Type 0 where
  pub requests_per_second : ℕ
  pub tokens_per_day : ℕ
  pub burst_multiplier : ℕ

abbrev tier : ℕ → ℕ → TierConfig
tier rps day = record { requests_per_second = rps; tokens_per_day = day; burst_multiplier = 200 }

-- `TIER_CONFIGS`
abbrev pub default_tier_configs : Dict String TierConfig
default_tier_configs =
    ("free", tier 5 50_000) ∷ ("pro", tier 50 500_000) ∷ ("enterprise", tier 500 5_000_000) ∷ []

pub record RateLimiter : Type 0 where
  pub tier_configs : Dict String TierConfig
  pub default_tier : String
  pub buckets : Dict String (Dict String TokenBucket)
  pub tenant_tiers : Dict String String

-- `set_tenant_tier`: an unknown tier is replaced by the default.
pub set_tenant_tier : RateLimiter → String → String → RateLimiter
set_tenant_tier l tenant tier =
    let known = if Dict.contains tier l.tier_configs then tier else l.default_tier in
    record l { tenant_tiers = Dict.insert tenant known l.tenant_tiers }

-- `get_tenant_tier`
pub get_tenant_tier : RateLimiter → String → String
get_tenant_tier l tenant = elim (Dict.lookup tenant l.tenant_tiers) [
  | none ↦ l.default_tier
  | some t ↦ t
]

-- `get_tier_config`: the default is looked up first, and its absence is a `KeyError`.
pub get_tier_config : RateLimiter → String → Option TierConfig
unfolding get_tenant_tier
get_tier_config l tenant = elim (Dict.lookup l.default_tier l.tier_configs) [
  | none ↦ none
  | some c ↦ elim (Dict.lookup (get_tenant_tier l tenant) l.tier_configs) [
    | none ↦ some c
    | some d ↦ some d
  ]
]

-- `self._buckets[tenant][key]`, if it is there.
pub find_bucket : RateLimiter → String → String → Option TokenBucket
find_bucket l tenant key = elim (Dict.lookup tenant l.buckets) [
  | none ↦ none
  | some d ↦ Dict.lookup key d
]

-- The bucket is a shared object: what a method does to it is written back.
pub store_bucket : RateLimiter → String → String → TokenBucket → RateLimiter
store_bucket l tenant key b =
    let d : Dict String TokenBucket = elim (Dict.lookup tenant l.buckets) [
      | none ↦ []
      | some d ↦ d
    ] in
    record l { buckets = Dict.insert tenant (Dict.insert key b d) l.buckets }

-- `_get_or_create_bucket`, in memory.
pub get_or_create_bucket : RateLimiter → String → String → ℕ → ℕ → ℕ → RateLimiter × TokenBucket
get_or_create_bucket l tenant key rate capacity now = elim (find_bucket l tenant key) [
  | some b ↦ (l, b)
  | none ↦ let b = make_bucket rate capacity none now in (store_bucket l tenant key b, b)
]

-- What `check` comes to: its result, or the error of a missing default tier, or that of the
-- conversion of an infinite float when the bucket's rate is 0.
pub data Checked : Type 0 where
  answer : RateLimitResult → RateLimitInfo → Checked
  key_error overflow_error : Checked

verdict : TierConfig → Bool → Bool → ℕ → Option ℕ → ℕ → ℕ → Checked
verdict c rps_ok tokens_ok wall none left left_tokens = overflow_error
verdict c rps_ok tokens_ok wall (some wait) left left_tokens =
    answer (if rps_ok && tokens_ok then allowed else rejected) (record {
      limit = c.requests_per_second;
      remaining = left / unit;
      reset = (wall + wait) / 1000;
      limit_tokens = c.tokens_per_day;
      remaining_tokens = left_tokens / unit;
    })

-- `check` once the tier is known, over the two buckets.
pub check_buckets :
    TierConfig → TokenBucket → TokenBucket → ℕ → ℕ → ℕ → TokenBucket × TokenBucket × Checked
unfolding verdict
check_buckets c rps day tokens now wall =
    let (rps₁, rps_ok) = consume rps 1 now in
    let (day₁, tokens_ok) = consume day tokens now in
    let (rps₂, left) = available_tokens rps₁ now in
    let (rps₃, wait) = time_until_token rps₂ now in
    let (day₂, left_tokens) = available_tokens day₁ now in
    (rps₃, day₂, verdict c rps_ok tokens_ok wall wait left left_tokens)

abbrev pub rps_key : String → String
rps_key endpoint = join endpoint ":rps"

abbrev pub tokens_key : String → String
tokens_key endpoint = join endpoint ":tokens"

check_tier : RateLimiter → TierConfig → String → String → ℕ → ℕ → ℕ → RateLimiter × Checked
check_tier l c tenant endpoint tokens now wall =
    let (l₁, rps) =
      get_or_create_bucket l tenant (rps_key endpoint) (c.requests_per_second * 86_400)
        (c.requests_per_second * c.burst_multiplier / 100) now in
    let (l₂, day) =
      get_or_create_bucket l₁ tenant (tokens_key endpoint) c.tokens_per_day c.tokens_per_day now in
    let (rps', day', checked) = check_buckets c rps day tokens now wall in
    let l₃ = store_bucket l₂ tenant (rps_key endpoint) rps' in
    (store_bucket l₃ tenant (tokens_key endpoint) day', checked)

-- `check`
pub check : RateLimiter → String → String → ℕ → ℕ → ℕ → RateLimiter × Checked
unfolding check_tier
check l tenant endpoint tokens now wall = elim (get_tier_config l tenant) [
  | none ↦ (l, key_error)
  | some c ↦ check_tier l c tenant endpoint tokens now wall
]
