-- ===== src/Gateway/Bucket/Tests.antt =====
-- Runs of a token bucket, and the theorems at concrete inputs.
use ai_agent_code.Gateway.Bucket.{
  true, ◌≡◌, none, unit, TokenBucket, make_bucket, consume, time_until_token,
}
use ai_agent_code.Gateway.Bucket.Quota.{Requests, time_until_token-consume}
use ai_agent_code.Common.{[], arith, ◌∷◌, refl}

-- The bucket of the free tier: five requests a second, ten at once.
abbrev free : TokenBucket
free = record { rate = 432_000; capacity = 10; tokens = 864_000_000; last_refill = 0 }

free_is_made : make_bucket 432_000 10 none 0 ≡ free
unfolding make_bucket unit
free_is_made = refl

abbrev requests : Requests
requests = (0, 8) ∷ (100, 2) ∷ (100, 3) ∷ (900, 3) ∷ []

abbrev empty : TokenBucket
empty = record free { tokens = 0 }

time_until_token-consume_example : (consume (time_until_token empty 50).0 1 500).1 ≡ true
unfolding time_until_token unit
time_until_token-consume_example =
    time_until_token-consume empty 50 150 500 (omega arith) refl (omega arith)
