-- ===== src/Gateway/Bucket.antt =====
-- src/ai_gateway/rate_limiter.py: `TokenBucket`. The float of tokens is held exactly, as a whole
-- number of units: `unit` of them make a token, so that every rate of a tier is a whole number of
-- units per millisecond. Times are milliseconds of the monotonic clock.
pub mod Quota
mod Tests
use ai_agent_code.Common.{
  ℕ, zero, suc, ◌+◌, ◌-◌, ◌*◌, ◌/◌, ◌≡◌, ◌≤◌, min, Bool, true, false, Option, none, some,
  if◌then◌else◌, leb, ltb,
}

-- 1000 milliseconds a second, 86400 seconds a day.
unfoldable pub unit : ℕ
unit = 86_400_000

pub record TokenBucket : Type 0 where
  -- units refilled per millisecond
  pub rate : ℕ
  -- tokens
  pub capacity : ℕ
  -- units
  pub tokens : ℕ
  pub last_refill : ℕ

-- `__init__`
unfoldable pub make_bucket : ℕ → ℕ → Option ℕ → ℕ → TokenBucket
make_bucket rate capacity initial_tokens now = record {
  rate = rate;
  capacity = capacity;
  tokens = elim initial_tokens [ none ↦ capacity * unit | some n ↦ n * unit ];
  last_refill = now;
}

-- `_refill`
unfoldable pub refill : TokenBucket → ℕ → TokenBucket
refill b now = record b {
  tokens = min (b.capacity * unit) (b.tokens + (now - b.last_refill) * b.rate);
  last_refill = now;
}

-- `consume`
unfoldable pub consume : TokenBucket → ℕ → ℕ → TokenBucket × Bool
unfolding refill
consume b n now =
    let b' = refill b now in
    if leb (n * unit) b'.tokens
    then (record b' { tokens = b'.tokens - n * unit }, true)
    else (b', false)

-- `time_until_token`, in whole milliseconds; `none` is the float infinity.
unfoldable pub time_until_token : TokenBucket → ℕ → TokenBucket × Option ℕ
unfolding refill
time_until_token b now =
    let b' = refill b now in
    if leb unit b'.tokens
    then (b', some 0)
    else if ltb 0 b'.rate
    then (b', some ((unit - b'.tokens) / b'.rate))
    else (b', none)

-- `available_tokens`, in units.
unfoldable pub available_tokens : TokenBucket → ℕ → TokenBucket × ℕ
unfolding refill
available_tokens b now = let b' = refill b now in (b', b'.tokens)
