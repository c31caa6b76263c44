-- ===== src/Gateway/Breaker.antt =====
-- src/ai_gateway/circuit_breaker.py: `CircuitBreaker`, method by method. Times are whole ticks of
-- the monotonic clock; each method reads the clock once, as its argument `now`. The methods hold
-- the breaker's lock and never suspend while they hold it, so each is one atomic step.
pub mod Window
pub mod Invariant
pub mod Backoff
pub mod Probes
pub mod Manager
mod Tests
use ai_agent_code.Common.{
  ℕ, suc, ◌+◌, ◌-◌, ◌*◌, ◌^◌, ◌≤◌, ◌≡◌, min, Bool, true, false, List, [], ◌∷◌, ◌++◌, Option, none,
  some, arith, leb, ltb, if◌then◌else◌, length, keep,
}

pub data CircuitState : Type 0 where
  closed open_circuit half_open : CircuitState

pub record CircuitConfig : Type 0 where
  pub failure_threshold : ℕ
  pub failure_window : ℕ
  pub timeout : ℕ
  pub half_open_max_requests : ℕ
  pub success_threshold : ℕ
  pub max_timeout : ℕ

-- The defaults of the dataclass, in seconds.
abbrev pub default_config : CircuitConfig
default_config = record {
  failure_threshold = 5;
  failure_window = 60;
  timeout = 30;
  half_open_max_requests = 3;
  success_threshold = 2;
  max_timeout = 300;
}

pub record CircuitBreaker : Type 0 where
  pub config : CircuitConfig
  pub state : CircuitState
  pub failure_timestamps : List ℕ
  pub success_count : ℕ
  pub open_count : ℕ
  pub last_state_change : ℕ
  pub half_open_allowed : ℕ

-- `__init__`
pub init : CircuitConfig → ℕ → CircuitBreaker
init config now = record {
  config = config;
  state = closed;
  failure_timestamps = [];
  success_count = 0;
  open_count = 0;
  last_state_change = now;
  half_open_allowed = 0;
}

-- `ts >= now - failure_window`, without the subtraction.
abbrev pub in_window : CircuitConfig → ℕ → ℕ → Bool
in_window config now ts = leb now (ts + config.failure_window)

-- `_prune_failures`
pub prune_failures : CircuitBreaker → ℕ → CircuitBreaker
prune_failures b now = record b {
  failure_timestamps = keep (in_window b.config now) b.failure_timestamps;
}

-- `_compute_backoff`
pub compute_backoff : CircuitBreaker → ℕ
compute_backoff b =
    if leb b.open_count 1
    then b.config.timeout
    else min (b.config.timeout * 2 ^ (b.open_count - 1)) b.config.max_timeout

-- `_timeout_elapsed`: `now - last_state_change >= backoff`.
pub timeout_elapsed : CircuitBreaker → ℕ → Bool
timeout_elapsed b now = leb (b.last_state_change + compute_backoff b) now

abbrev same_state : CircuitState → CircuitState → Bool
same_state closed closed = true
same_state open_circuit open_circuit = true
same_state half_open half_open = true
same_state _ _ = false

-- The counters that a transition resets, by the new state.
enter : CircuitState → CircuitBreaker → CircuitBreaker
enter closed b = record b {
  failure_timestamps = [];
  success_count = 0;
  open_count = 0;
  half_open_allowed = 0;
}
enter open_circuit b = record b {
  open_count = b.open_count + 1;
  success_count = 0;
  half_open_allowed = 0;
}
enter half_open b = record b {
  success_count = 0;
  half_open_allowed = b.config.half_open_max_requests;
}

-- `_transition_to`
pub transition_to : CircuitState → CircuitBreaker → ℕ → CircuitBreaker
unfolding enter
transition_to new_state b now =
    if same_state b.state new_state
    then b
    else enter new_state (record b { state = new_state; last_state_change = now })

admit_open : CircuitBreaker → ℕ → CircuitBreaker × Bool
unfolding transition_to
admit_open b now =
    if timeout_elapsed b now
    then (
      let b' = transition_to half_open b now in
          record b' { half_open_allowed = b'.config.half_open_max_requests },
      true,
    )
    else (b, false)

admit_half_open : CircuitBreaker → CircuitBreaker × Bool
admit_half_open b =
    if ltb 0 b.half_open_allowed
    then (record b { half_open_allowed = b.half_open_allowed - 1 }, true)
    else (b, false)

admit : CircuitState → CircuitBreaker → ℕ → CircuitBreaker × Bool
unfolding admit_open admit_half_open
admit closed b now = (b, true)
admit open_circuit b now = admit_open b now
admit half_open b now = admit_half_open b

-- `before_call`: the breaker afterwards, and whether the request may proceed.
pub before_call : CircuitBreaker → ℕ → CircuitBreaker × Bool
unfolding admit prune_failures
before_call b now = let b' = prune_failures b now in admit b'.state b' now

succeed : CircuitState → CircuitBreaker → ℕ → CircuitBreaker
unfolding transition_to
succeed half_open b now =
    let b' = record b { success_count = b.success_count + 1 } in
    if leb b.config.success_threshold b'.success_count then transition_to closed b' now else b'
succeed closed b now = b
succeed open_circuit b now = b

-- `on_success`
pub on_success : CircuitBreaker → ℕ → CircuitBreaker
unfolding succeed
on_success b now = succeed b.state b now

fail : CircuitState → CircuitBreaker → ℕ → CircuitBreaker
unfolding transition_to prune_failures
fail closed b now =
    let b' =
      prune_failures (record b { failure_timestamps = b.failure_timestamps ++ now ∷ [] }) now in
    if leb b.config.failure_threshold (length b'.failure_timestamps)
    then transition_to open_circuit b' now
    else b'
fail half_open b now = transition_to open_circuit b now
fail open_circuit b now = b

-- `on_failure`
pub on_failure : CircuitBreaker → ℕ → CircuitBreaker
unfolding fail
on_failure b now = fail b.state b now

-- `failure_count`: the property prunes, and then counts.
pub failure_count : CircuitBreaker → ℕ → CircuitBreaker × ℕ
unfolding prune_failures
failure_count b now = let b' = prune_failures b now in (b', length b'.failure_timestamps)

-- `CircuitBreakerManager.reset` on the breaker that it finds.
pub reset : CircuitBreaker → ℕ → CircuitBreaker
unfolding transition_to
reset b now = transition_to closed b now

-- The calls that a client makes, each with its time.
pub data Call : Type 0 where
  asks succeeds fails counts resets : Call

pub step : CircuitBreaker → ℕ × Call → CircuitBreaker
step b (now, asks) = (before_call b now).0
step b (now, succeeds) = on_success b now
step b (now, fails) = on_failure b now
step b (now, counts) = (failure_count b now).0
step b (now, resets) = reset b now

pub run : CircuitBreaker → List (ℕ × Call) → CircuitBreaker
run b [] = b
run b (c ∷ cs) = run (step b c) cs
