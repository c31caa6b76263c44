-- ===== src/Gateway/Breaker/Backoff.antt =====
-- The exponential backoff of an open breaker.
use ai_agent_code.Common.{
  ℕ, zero, suc, ◌+◌, ◌-◌, ◌*◌, ◌^◌, ◌≤◌, ◌≡◌, refl, ap, min, arith, not-le→leb,
}
use native.Mathlib.Nat.{two-pow-succ, one-le-pow}
use ai_agent_code.Gateway.Breaker.{CircuitBreaker, compute_backoff}

-- `timeout * 2^(open_count - 1)`, capped from the first opening on.
backoff_capped :
    (b : CircuitBreaker) (k : ℕ)
    → b.open_count ≡ suc k
    → b.config.timeout ≤ b.config.max_timeout
    → compute_backoff b ≡ min (b.config.timeout * 2 ^ k) b.config.max_timeout
unfolding compute_backoff
backoff_capped b zero e le = ground arith
backoff_capped b (suc k) e le =
    let same : b.open_count - 1 ≡ suc k = omega arith in
    rw (not-le→leb b.open_count 1 (omega arith), same) refl

doubled : (t k m : ℕ) → min (t * 2 ^ suc k) m ≡ min (2 * min (t * 2 ^ k) m) m
doubled t k m = omega (arith, ap (λ (p : ℕ). t * p) (two-pow-succ k))

within : (t k m : ℕ) → t ≤ m → (t ≤ min (t * 2 ^ k) m) × (min (t * 2 ^ k) m ≤ m)
within t k m le = grind (arith, one-le-pow k 2 (omega arith))

-- Each further opening doubles the backoff, up to `max_timeout`, and no backoff is outside
-- `timeout` and `max_timeout`, for a breaker that has opened and a `timeout` of at most
-- `max_timeout`.
pub compute_backoff_lem :
    (b : CircuitBreaker)
    → 1 ≤ b.open_count
    → b.config.timeout ≤ b.config.max_timeout
    → let next = record b { open_count = b.open_count + 1 } in
      (compute_backoff next ≡ min (2 * compute_backoff b) b.config.max_timeout)
      × (b.config.timeout ≤ compute_backoff b)
      × (compute_backoff b ≤ b.config.max_timeout)
compute_backoff_lem b h le =
    let k = b.open_count - 1 in
    let now = backoff_capped b k (omega arith) le in
    let next =
      backoff_capped (record b { open_count = b.open_count + 1 }) (suc k) (omega arith) le in
    let (lower, upper) = within b.config.timeout k b.config.max_timeout le in
    rw (now, next) (doubled b.config.timeout k b.config.max_timeout, lower, upper)
