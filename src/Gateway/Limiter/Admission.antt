-- ===== src/Gateway/Limiter/Admission.antt =====
-- src/ai_gateway/rate_limiter.py: how many requests of a tenant at one endpoint `check` admits.
use ai_agent_code.Common.{
  same_refl, ◌∙◌, ℕ, ◌+◌, ◌-◌, ◌*◌, ◌≡◌, ◌≤◌, some, String, string_key, List, [], ◌∷◌, arith, refl,
}
use ai_agent_code.Gateway.Bucket.{unit, TokenBucket}
use ai_agent_code.Gateway.Bucket.Quota.{split_span}
use ai_agent_code.Gateway.Limiter.{
  verdict, RateLimiter, TierConfig, get_tier_config, find_bucket, store_bucket,
  get_or_create_bucket, check_buckets, rps_key, tokens_key, check,
}
use ai_agent_code.Gateway.Limiter.Isolation.{find-store, keys_differ}
use ai_agent_code.Gateway.Limiter.Spending.{granted, Spends, check_buckets-Spends}

module _ (tenant endpoint : String) where
  -- The tenant's tier is known, and its two buckets for the endpoint are these.
  pub record Holds (c : TierConfig) (rps day : TokenBucket) (l : RateLimiter) : Type 0 where
    pub tier : get_tier_config l tenant ≡ some c
    pub rps_bucket : find_bucket l tenant (rps_key endpoint) ≡ some rps
    pub day_bucket : find_bucket l tenant (tokens_key endpoint) ≡ some day

  get_or_create-found :
      (l : RateLimiter) (key : String) (b : TokenBucket) (rate capacity now : ℕ)
      → find_bucket l tenant key ≡ some b
      → get_or_create_bucket l tenant key rate capacity now ≡ (l, b)
  unfolding get_or_create_bucket
  get_or_create-found l key b rate capacity now e = rw (e, get_or_create_bucket) refl

  check-held :
      (c : TierConfig) (rps day : TokenBucket) (l : RateLimiter) (tokens now wall : ℕ)
      → Holds c rps day l
      → let (rps', day', r) = check_buckets c rps day tokens now wall in
        check l tenant endpoint tokens now wall ≡ (
          store_bucket
              (store_bucket l tenant (rps_key endpoint) rps')
              tenant
              (tokens_key endpoint)
              day',
          r,
        )
  unfolding check
  check-held c rps day l tokens now wall h =
      rw (h.tier, check)
        (rw (get_or_create-found l (rps_key endpoint) rps _ _ now h.rps_bucket)
          (rw (get_or_create-found l (tokens_key endpoint) day _ _ now h.day_bucket) refl))

  store-tier :
      (l : RateLimiter) (key : String) (b : TokenBucket)
      → get_tier_config (store_bucket l tenant key b) tenant ≡ get_tier_config l tenant
  unfolding get_tier_config store_bucket
  store-tier l key b = refl

  stored-Holds :
      (c : TierConfig) (rps day rps' day' : TokenBucket) (l : RateLimiter)
      → Holds c rps day l
      → Holds c rps' day' (
          store_bucket
            (store_bucket l tenant (rps_key endpoint) rps')
            tenant
            (tokens_key endpoint)
            day')
  stored-Holds c rps day rps' day' l h = record {
    tier = store-tier _ (tokens_key endpoint) day' ∙ store-tier l (rps_key endpoint) rps' ∙ h.tier;
    rps_bucket =
        rw (find-store, same_refl tenant, keys_differ endpoint)
          (rw (find-store, same_refl tenant, same_refl (rps_key endpoint)) refl);
    day_bucket = rw (find-store, same_refl tenant, same_refl (tokens_key endpoint)) refl;
  }

  -- The requests and the tokens that `check` admits over some requests of the tenant at the endpoint,
  -- each with the time on the two clocks and its tokens.
  pub admits : RateLimiter → List (ℕ × ℕ × ℕ) → ℕ × ℕ
  admits l [] = (0, 0)
  admits l ((now, wall, tokens) ∷ rs) =
      let (l', r) = check l tenant endpoint tokens now wall in
      let (requests, total) = admits l' rs in (granted r 1 + requests, granted r tokens + total)

  abbrev pub Rising : ℕ → List (ℕ × ℕ × ℕ) → Type 0
  Rising t [] = Unit
  Rising t ((now, wall, tokens) ∷ rs) = (t ≤ now) × Rising now rs

  abbrev pub last_time : ℕ → List (ℕ × ℕ × ℕ) → ℕ
  last_time t [] = t
  last_time t ((now, wall, tokens) ∷ rs) = last_time now rs

  last_time-le : (t : ℕ) (rs : List (ℕ × ℕ × ℕ)) → Rising t rs → t ≤ last_time t rs
  last_time-le t [] h = omega arith
  last_time-le t ((now, wall, tokens) ∷ rs) h = omega (arith, last_time-le now rs h.1)

  -- What is spent in one request and later is covered by what there was and all that was gained.
  chain :
      (b b' : TokenBucket) (t now end rate n total : ℕ)
      → b.last_refill ≡ t
      → b.rate ≡ rate
      → t ≤ now
      → now ≤ end
      → Spends b now n b'
      → total * unit ≤ b'.tokens + (end - now) * rate
      → (n + total) * unit ≤ b.tokens + (end - t) * rate
  chain b b' t now end rate n total since at h k s rest =
      let span = split_span t now end rate h k in
      let spends = rw (since, at) at s.spends in omega arith

  admits_from :
      (c : TierConfig) (rs : List (ℕ × ℕ × ℕ)) (l : RateLimiter) (rps day : TokenBucket)
      → (t rate day_rate : ℕ) → Holds c rps day l
      → (rps.last_refill ≡ t) × (rps.rate ≡ rate)
      → (day.last_refill ≡ t) × (day.rate ≡ day_rate)
      → Rising t rs
      → ((admits l rs).0 * unit ≤ rps.tokens + (last_time t rs - t) * rate)
        × ((admits l rs).1 * unit ≤ day.tokens + (last_time t rs - t) * day_rate)
  unfolding admits
  admits_from c [] l rps day t rate day_rate h p q r = (omega arith, omega arith)
  admits_from c ((now, wall, tokens) ∷ rs) l rps day t rate day_rate h p q r =
      let (rps', day', verdict) = check_buckets c rps day tokens now wall in
      let (s, s') = check_buckets-Spends c rps day tokens now wall in
      let (one, all) =
        admits_from c rs _ rps' day' now rate day_rate (stored-Holds c rps day rps' day' l h)
          (s.since, s.same_rate ∙ p.1) (s'.since, s'.same_rate ∙ q.1) r.1 in
      let end = last_time now rs in
      rw (check-held c rps day l tokens now wall h) (
        chain rps rps' t now end rate _ _ p.0 p.1 r.0 (last_time-le now rs r.1) s one,
        chain day day' t now end day_rate _ _ q.0 q.1 r.0 (last_time-le now rs r.1) s' all,
      )

  -- For a tenant and one endpoint whose two buckets exist and were last refilled at time `t`: over
  -- any requests of the tenant at that endpoint, at times that do not fall, `check` admits no more
  -- requests, and no more of their tokens, than these two buckets held and were refilled with since
  -- then. Requests of the tenant at other endpoints are not counted.
  pub admits-quota :
      (c : TierConfig) (rs : List (ℕ × ℕ × ℕ)) (l : RateLimiter) (rps day : TokenBucket) (t : ℕ)
      → Holds c rps day l
      → rps.last_refill ≡ t
      → day.last_refill ≡ t
      → Rising t rs
      → ((admits l rs).0 * unit ≤ rps.tokens + (last_time t rs - t) * rps.rate)
        × ((admits l rs).1 * unit ≤ day.tokens + (last_time t rs - t) * day.rate)
  admits-quota c rs l rps day t h p q r =
      admits_from c rs l rps day t rps.rate day.rate h (p, refl) (q, refl) r
