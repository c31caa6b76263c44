-- ===== src/Gateway/Limiter/Spending.antt =====
-- What one `check` spends from the two buckets of an endpoint.
use ai_agent_code.Common.{
  ◌∙◌, ℕ, ◌+◌, ◌-◌, ◌*◌, ◌≡◌, ◌≤◌, Bool, Option, if◌then◌else◌, string_key, arith,
}
use ai_agent_code.Gateway.Bucket.{unit, TokenBucket, consume, available_tokens, time_until_token}
use ai_agent_code.Gateway.Bucket.Quota.{consume-keeps, consume-spends}
use ai_agent_code.Gateway.Limiter.{
  verdict, queued, allowed, rejected, TierConfig, Checked, answer, key_error, overflow_error,
  check_buckets,
}

-- What a request counts for when it is admitted.
abbrev pub granted : Checked → ℕ → ℕ
granted (answer allowed info) n = n
granted (answer rejected info) n = 0
granted (answer queued info) n = 0
granted key_error n = 0
granted overflow_error n = 0

-- A bucket after some reads at a time: of the same rate, refilled then, and with no more tokens
-- than it had and gained, less `spent`.
pub record Spends (b : TokenBucket) (now spent : ℕ) (b' : TokenBucket) : Type 0 where
  pub same_rate : b'.rate ≡ b.rate
  pub since : b'.last_refill ≡ now
  pub spends : spent * unit + b'.tokens ≤ b.tokens + (now - b.last_refill) * b.rate

available_tokens-Spends : (b : TokenBucket) (now : ℕ) → Spends b now 0 (available_tokens b now).0
unfolding available_tokens
available_tokens-Spends b now = ground arith

time_until_token-Spends : (b : TokenBucket) (now : ℕ) → Spends b now 0 (time_until_token b now).0
unfolding time_until_token
time_until_token-Spends b now = ground arith

consume-Spends :
    (b : TokenBucket) (n now : ℕ)
    → Spends b now (if (consume b n now).1 then n else 0) (consume b n now).0
consume-Spends b n now =
    let keeps = consume-keeps b n now in
    record { same_rate = keeps.0; since = keeps.2; spends = consume-spends b n now }

Spends-again :
    (b b' b'' : TokenBucket) (now n : ℕ)
    → Spends b now n b'
    → Spends b' now 0 b''
    → Spends b now n b''
Spends-again b b' b'' now n h k = record {
  same_rate = k.same_rate ∙ h.same_rate;
  since = k.since;
  spends =
      let none_since : now - b'.last_refill ≡ 0 = omega (arith, h.since) in
      let still = rw none_since at k.spends in omega (arith, h.spends, still);
}

Spends-less : (b b' : TokenBucket) (now m n : ℕ) → m ≤ n → Spends b now n b' → Spends b now m b'
Spends-less b b' now m n le h = record {
  same_rate = h.same_rate;
  since = h.since;
  spends = grind (arith, h.spends);
}

verdict-granted :
    (c : TierConfig) (rps_ok tokens_ok : Bool) (wall : ℕ) (wait : Option ℕ) (left left_tokens n : ℕ)
    → let r = verdict c rps_ok tokens_ok wall wait left left_tokens in
      (granted r n ≤ (if rps_ok then n else 0)) × (granted r n ≤ (if tokens_ok then n else 0))
unfolding verdict
verdict-granted c rps_ok tokens_ok wall wait left left_tokens n = ground arith

-- An admitted request has its token from the one bucket and its tokens from the other.
pub check_buckets-Spends :
    (c : TierConfig) (rps day : TokenBucket) (tokens now wall : ℕ)
    → let (rps', day', r) = check_buckets c rps day tokens now wall in
      Spends rps now (granted r 1) rps' × Spends day now (granted r tokens) day'
unfolding check_buckets
check_buckets-Spends c rps day tokens now wall =
    let (rps₁, rps_ok) = consume rps 1 now in
    let (day₁, tokens_ok) = consume day tokens now in
    let rps₂ = (available_tokens rps₁ now).0 in
    let rps_all =
      Spends-again rps rps₂ (time_until_token rps₂ now).0 now (if rps_ok then 1 else 0)
        (Spends-again rps rps₁ rps₂ now (if rps_ok then 1 else 0) (consume-Spends rps 1 now)
          (available_tokens-Spends rps₁ now))
        (time_until_token-Spends rps₂ now) in
    let day_all =
      Spends-again day day₁ (available_tokens day₁ now).0 now (if tokens_ok then tokens else 0)
        (consume-Spends day tokens now) (available_tokens-Spends day₁ now) in
    (
      Spends-less rps _ now _ _ (verdict-granted c rps_ok tokens_ok wall _ _ _ 1).0 rps_all,
      Spends-less day _ now _ _ (verdict-granted c rps_ok tokens_ok wall _ _ _ tokens).1 day_all,
    )
