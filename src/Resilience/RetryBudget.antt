-- ===== src/Resilience/RetryBudget.antt =====
-- src/resilience/retry_budget.py: `RetryBudget`, a share of the requests of a rolling window.
-- Times are ticks, and a rate is the fraction of two numbers; a quotient of counts is compared with
-- it by multiplying out.
mod Recent
mod Window
mod Tests
use ai_agent_code.Common.{
  ℕ, zero, suc, ◌+◌, ◌-◌, ◌*◌, ◌≤◌, ◌<◌, min, max, ◌≡◌, ◌≢◌, ◌⊎◌, ◌↔◌, inl, inr, refl, sym, ap, ◌∙◌,
  Bool, true, false, not, ◌&&◌, ◌||◌, Option, none, some, List, [], ◌∷◌, ◌++◌, map, reverse, arith,
  String, if◌then◌else◌, leb, ltb, ◌==◌, ◌≟◌, elem, length, drop, keep, count, get_last?,
  slice_last, All, Bool-cases, Option-cases, Key, string_key, nat_key,
}

-- A rate as `num / den`.
pub record Rate : Type 0 where
  pub num : ℕ
  pub den : ℕ

pub record RetryBudgetConfig : Type 0 where
  pub window : ℕ
  pub max_retry_rate : Rate
  pub storm_threshold : Rate

abbrev pub default_config : RetryBudgetConfig
default_config = record {
  window = 60;
  max_retry_rate = record { num = 10; den = 100 };
  storm_threshold = record { num = 50; den = 100 };
}

pub record RetryBudget : Type 0 where
  pub config : RetryBudgetConfig
  -- The times of the requests, the oldest first, and whether each was a retry.
  pub requests : List (ℕ × Bool)
  pub total_retries : ℕ
  pub storm_count : ℕ

-- `__init__`
pub init : RetryBudgetConfig → RetryBudget
init config = record { config = config; requests = []; total_retries = 0; storm_count = 0 }

-- `self._requests[0][0] < now - window_seconds`
abbrev pub stale : ℕ → ℕ → ℕ × Bool → Bool
stale window now r = ltb (r.0 + window) now

-- The loop of `_prune`: the queue loses stale requests from its front.
pub pop_stale : ℕ → ℕ → List (ℕ × Bool) → List (ℕ × Bool)
pop_stale window now [] = []
pop_stale window now (r ∷ rs) = if stale window now r then pop_stale window now rs else r ∷ rs

-- `_prune`
pub prune : RetryBudget → ℕ → RetryBudget
unfolding pop_stale
prune b now = record b { requests = pop_stale b.config.window now b.requests }

-- `record_request`
pub record_request : RetryBudget → Bool → ℕ → RetryBudget
unfolding prune
record_request b is_retry now =
    prune
      (record b {
        requests = b.requests ++ (now, is_retry) ∷ [];
        total_retries = (if is_retry then b.total_retries + 1 else b.total_retries);
      })
      now

-- `sum(1 for _, r in self._requests if r)`
abbrev pub retries : List (ℕ × Bool) → ℕ
retries rs = count (λ r. r.1) rs

-- `retries / len(requests) < rate`
abbrev pub below : Rate → List (ℕ × Bool) → Bool
below rate rs = ltb (retries rs * rate.den) (rate.num * length rs)

-- `allow_retry`
pub allow_retry : RetryBudget → ℕ → RetryBudget × Bool
unfolding prune
allow_retry b now =
    let b' = prune b now in
    (b', if length b'.requests == 0 then true else below b'.config.max_retry_rate b'.requests)

-- `is_storm`
pub is_storm : RetryBudget → ℕ → RetryBudget × Bool
unfolding prune
is_storm b now =
    let b' = prune b now in
    if length b'.requests == 0
    then (b', false)
    else if not (below b'.config.storm_threshold b'.requests)
    then (record b' { storm_count = b'.storm_count + 1 }, true)
    else (b', false)

-- A call that changes the budget.
pub data Call : Type 0 where
  records : Bool → Call
  allows storms : Call

pub step : RetryBudget → ℕ × Call → RetryBudget
unfolding record_request allow_retry is_storm
step b (now, records is_retry) = record_request b is_retry now
step b (now, allows) = (allow_retry b now).0
step b (now, storms) = (is_storm b now).0

pub run : RetryBudget → List (ℕ × Call) → RetryBudget
unfolding step
run b [] = b
run b (c ∷ cs) = run (step b c) cs
