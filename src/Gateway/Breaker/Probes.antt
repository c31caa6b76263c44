-- ===== src/Gateway/Breaker/Probes.antt =====
-- How many requests `before_call` lets through while the breaker is open or on trial.
use ai_agent_code.Common.{
  ◌∙◌, ◌≢◌, ℕ, ◌+◌, ◌≤◌, ◌<◌, ◌≡◌, refl, min, true, false, List, [], ◌∷◌, arith, length,
  if◌then◌else◌,
}
use ai_agent_code.Gateway.Breaker.{
  CircuitBreaker, open_circuit, half_open, Call, asks, succeeds, fails, counts, resets,
  compute_backoff, timeout_elapsed, before_call, on_success, on_failure, failure_count, step, run,
}

-- The number of requests admitted, when one is made at each of the times.
pub admitted : CircuitBreaker → List ℕ → ℕ
admitted b [] = 0
admitted b (now ∷ ts) =
    let (b', allowed) = before_call b now in (if allowed then 1 else 0) + admitted b' ts

half_open-step :
    (b : CircuitBreaker) (now : ℕ)
    → b.state ≡ half_open
    → let (b', allowed) = before_call b now in
      (b'.state ≡ half_open)
      × ((if allowed then 1 else 0) + b'.half_open_allowed ≡ b.half_open_allowed)
      × ((if allowed then 1 else 0) ≡ min 1 b.half_open_allowed)
unfolding before_call
half_open-step b now e = ground arith

half_open-admitted :
    (b : CircuitBreaker) (ts : List ℕ)
    → b.state ≡ half_open
    → admitted b ts ≡ min (length ts) b.half_open_allowed
unfolding admitted
half_open-admitted b [] e = omega arith
half_open-admitted b (now ∷ ts) e =
    let (e', left, one) = half_open-step b now e in
    omega (arith, half_open-admitted (before_call b now).0 ts e')

open-step :
    (b : CircuitBreaker) (now : ℕ)
    → b.state ≡ open_circuit
    → timeout_elapsed b now ≡ true
    → let (b', allowed) = before_call b now in
      (b'.state ≡ half_open)
      × (b'.half_open_allowed ≡ b.config.half_open_max_requests)
      × (allowed ≡ true)
unfolding before_call timeout_elapsed compute_backoff
open-step b now e h = ground arith

-- An open breaker whose timeout has passed admits the request that finds it so, and then as many
-- more as `half_open_max_requests`, until an outcome is reported: one more than that limit.
pub trial-admitted :
    (b : CircuitBreaker) (now : ℕ) (ts : List ℕ)
    → b.state ≡ open_circuit
    → timeout_elapsed b now ≡ true
    → admitted b (now ∷ ts) ≡ min (length ts + 1) (b.config.half_open_max_requests + 1)
unfolding admitted
trial-admitted b now ts e h =
    let (e', left, yes') = open-step b now e h in
    rw yes' (omega (arith, half_open-admitted (before_call b now).0 ts e'))

-- Every call of the list is made before the given time, and none resets the breaker.
abbrev pub Early : ℕ → List (ℕ × Call) → Type 0
Early limit [] = Unit
Early limit ((now, call) ∷ cs) = (now < limit) × (call ≢ resets) × Early limit cs

-- The number of requests admitted by a list of calls of every kind.
pub admissions : CircuitBreaker → List (ℕ × Call) → ℕ
admissions b [] = 0
admissions b ((now, asks) ∷ cs) =
    let (b', allowed) = before_call b now in (if allowed then 1 else 0) + admissions b' cs
admissions b (c ∷ cs) = admissions (step b c) cs

-- What a call before the end of the backoff leaves as it was.
abbrev Same : CircuitBreaker → CircuitBreaker → Type 0
Same b b' =
    (b'.state ≡ b.state)
    × (b'.open_count ≡ b.open_count)
    × (b'.last_state_change ≡ b.last_state_change)
    × (b'.config ≡ b.config)

early-step :
    (b : CircuitBreaker) (now : ℕ) (call : Call)
    → b.state ≡ open_circuit
    → now < b.last_state_change + compute_backoff b
    → call ≢ resets
    → Same b (step b (now, call)) × ((before_call b now).1 ≡ false)
unfolding step before_call on_success on_failure failure_count timeout_elapsed compute_backoff
early-step b now asks e h ne = ground arith
early-step b now succeeds e h ne = ground arith
early-step b now fails e h ne = ground arith
early-step b now counts e h ne = ground arith
early-step b now resets e h ne = absurd (ne refl)

backoff_end : CircuitBreaker → ℕ
backoff_end b = b.last_state_change + compute_backoff b

Same-backoff_end : (b b' : CircuitBreaker) → Same b b' → backoff_end b' ≡ backoff_end b
unfolding backoff_end compute_backoff
Same-backoff_end b b' k = ground arith

admissions-early :
    (b : CircuitBreaker) (now : ℕ) (call : Call) (cs : List (ℕ × Call))
    → (before_call b now).1 ≡ false
    → admissions b ((now, call) ∷ cs) ≡ admissions (step b (now, call)) cs
unfolding admissions step
admissions-early b now asks cs e = rw e (omega arith)
admissions-early b now _ cs e = refl

Early-idle :
    (limit : ℕ) (b : CircuitBreaker) (cs : List (ℕ × Call))
    → b.state ≡ open_circuit
    → limit ≤ backoff_end b
    → Early limit cs
    → (admissions b cs ≡ 0) × ((run b cs).state ≡ open_circuit)
unfolding run
Early-idle limit b [] e le h = (unfold admissions in refl, e)
Early-idle limit b ((now, call) ∷ cs) e le (lt, ne, h) =
    let (same, refused) = early-step b now call e (unfold backoff_end in omega arith) ne in
    let b' = step b (now, call) in
    rw (admissions-early b now call cs refused)
      (Early-idle limit b' cs (same.0 ∙ e) (omega (arith, Same-backoff_end b b' same)) h)

-- While the backoff of an open breaker lasts, no mix of requests and reported outcomes gets a
-- request through or moves it out of the open state.
pub open-admissions :
    (b : CircuitBreaker) (cs : List (ℕ × Call))
    → b.state ≡ open_circuit
    → Early (b.last_state_change + compute_backoff b) cs
    → (admissions b cs ≡ 0) × ((run b cs).state ≡ open_circuit)
open-admissions b cs e h =
    Early-idle (b.last_state_change + compute_backoff b) b cs e (unfold backoff_end in omega arith)
      h
