-- ===== src/Gateway/Breaker/Invariant.antt =====
-- What holds of every circuit breaker that the program can reach.
use ai_agent_code.Common.{
  [], ◌∷◌, List, ℕ, ◌+◌, ◌≤◌, ◌<◌, ◌≡◌, max, arith, leb, length, length-keep-le,
}
use ai_agent_code.Gateway.Breaker.{
  resets, counts, fails, succeeds, asks, failure_count, Call, step, run, CircuitConfig,
  CircuitBreaker, CircuitState, closed, open_circuit, half_open, init, prune_failures, before_call,
  on_success, on_failure, reset,
}

-- The counters agree with the state: nothing is counted while closed but fewer failures than
-- would trip the breaker, and a breaker on trial has not yet succeeded often enough to close.
abbrev pub Agrees : CircuitState → CircuitBreaker → Type 0
Agrees closed b =
    (b.success_count ≡ 0)
    × (b.open_count ≡ 0)
    × (b.half_open_allowed ≡ 0)
    × (length b.failure_timestamps < max 1 b.config.failure_threshold)
Agrees open_circuit b = (b.success_count ≡ 0) × (b.half_open_allowed ≡ 0) × (1 ≤ b.open_count)
Agrees half_open b =
    (1 ≤ b.open_count)
    × (b.success_count < max 1 b.config.success_threshold)
    × (b.half_open_allowed ≤ b.config.half_open_max_requests)

abbrev pub IsValid : CircuitBreaker → Type 0
IsValid b = Agrees b.state b

init-IsValid : (c : CircuitConfig) (now : ℕ) → IsValid (init c now)
unfolding init
init-IsValid c now = ground arith

prune_failures-IsValid : (b : CircuitBreaker) (now : ℕ) → IsValid b → IsValid (prune_failures b now)
unfolding prune_failures
prune_failures-IsValid b now v = ground (
  arith,
  length-keep-le {0} (λ (ts : ℕ). leb now (ts + b.config.failure_window)) b.failure_timestamps,
)

before_call-IsValid : (b : CircuitBreaker) (now : ℕ) → IsValid b → IsValid (before_call b now).0
unfolding before_call
before_call-IsValid b now v = ground (arith, prune_failures-IsValid b now v)

on_success-IsValid : (b : CircuitBreaker) (now : ℕ) → IsValid b → IsValid (on_success b now)
unfolding on_success
on_success-IsValid b now v = ground arith

on_failure-IsValid : (b : CircuitBreaker) (now : ℕ) → IsValid b → IsValid (on_failure b now)
unfolding on_failure
on_failure-IsValid b now v = ground arith

reset-IsValid : (b : CircuitBreaker) (now : ℕ) → IsValid b → IsValid (reset b now)
unfolding reset
reset-IsValid b now v = ground arith

-- Every call keeps a valid breaker valid.
pub step-IsValid : (b : CircuitBreaker) (c : ℕ × Call) → IsValid b → IsValid (step b c)
unfolding step failure_count
step-IsValid b (now, asks) v = before_call-IsValid b now v
step-IsValid b (now, succeeds) v = on_success-IsValid b now v
step-IsValid b (now, fails) v = on_failure-IsValid b now v
step-IsValid b (now, counts) v = prune_failures-IsValid b now v
step-IsValid b (now, resets) v = reset-IsValid b now v

run_keeps : (b : CircuitBreaker) (cs : List (ℕ × Call)) → IsValid b → IsValid (run b cs)
unfolding run
run_keeps b [] v = v
run_keeps b (c ∷ cs) v = run_keeps (step b c) cs (step-IsValid b c v)

-- Whatever is called, and at whatever times, the counters of a new breaker agree with its state.
pub run-IsValid :
    (c : CircuitConfig) (now : ℕ) (cs : List (ℕ × Call)) → IsValid (run (init c now) cs)
run-IsValid c now cs = run_keeps (init c now) cs (init-IsValid c now)
