-- ===== src/Gateway/Breaker/Tests.antt =====
-- Runs of the circuit breaker, and the theorems at concrete inputs.
use ai_agent_code.Common.Dict
use ai_agent_code.Common.{ℕ, ◌≡◌, none, some, string_key, List, [], ◌∷◌, arith, refl, min}
use ai_agent_code.Gateway.Breaker.{
  on_failure, before_call, CircuitBreaker, open_circuit, half_open, Call, asks, fails,
  default_config, init, run, step, timeout_elapsed, compute_backoff,
}
use ai_agent_code.Gateway.Breaker.Invariant.{IsValid, run-IsValid}
use ai_agent_code.Gateway.Breaker.Window.{opens, trips, opens-trips}
use ai_agent_code.Gateway.Breaker.Probes.{admitted, admissions, trial-admitted, open-admissions}
use ai_agent_code.Gateway.Breaker.Manager.{
  ManagerCall, calls, creates, resets_all, init_manager, manage_all, alone, events_of,
  manage_all-lookup,
}

-- Five failures in a minute, a request that is refused, and one after the backoff.
abbrev outage : List (ℕ × Call)
outage =
    (1, fails)
    ∷ (2, fails)
    ∷ (3, fails)
    ∷ (4, asks)
    ∷ (5, fails)
    ∷ (6, fails)
    ∷ (7, asks)
    ∷ (40, asks)
    ∷ []

five_failures : (run (init default_config 0) outage).state ≡ half_open
unfolding run step init before_call on_failure timeout_elapsed compute_backoff
five_failures = refl

run-IsValid_example : IsValid (run (init default_config 0) outage)
run-IsValid_example = run-IsValid default_config 0 outage

opens-trips_example : opens (init default_config 0) outage ≡ trips default_config [] outage
opens-trips_example = opens-trips default_config 0 outage (omega arith)

-- The breaker after its first opening, at time 6.
abbrev tripped : CircuitBreaker
tripped = record {
  config = default_config;
  state = open_circuit;
  failure_timestamps = 1 ∷ 2 ∷ 3 ∷ 5 ∷ 6 ∷ [];
  success_count = 0;
  open_count = 1;
  last_state_change = 6;
  half_open_allowed = 0;
}

-- Four requests pass, where the configuration names three.
trial-admitted_example : admitted tripped (36 ∷ 37 ∷ 37 ∷ 38 ∷ 39 ∷ 40 ∷ []) ≡ min 6 4
unfolding timeout_elapsed compute_backoff
trial-admitted_example = trial-admitted tripped 36 (37 ∷ 37 ∷ 38 ∷ 39 ∷ 40 ∷ []) refl refl

open-admissions_example :
    (admissions tripped ((7, asks) ∷ (8, fails) ∷ (35, asks) ∷ []) ≡ 0)
    × ((run tripped ((7, asks) ∷ (8, fails) ∷ (35, asks) ∷ [])).state ≡ open_circuit)
unfolding compute_backoff
open-admissions_example =
    open-admissions tripped ((7, asks) ∷ (8, fails) ∷ (35, asks) ∷ []) refl
      (omega arith, (λ e. cc), (omega arith, (λ e. cc), (omega arith, (λ e. cc), tt)))

-- One provider is made with a configuration of its own; then all are reset.
abbrev shared_calls : List (ℕ × ManagerCall)
shared_calls =
    (0, creates "openai" (some (record default_config { failure_threshold = 1 })))
    ∷ (1, calls "openai" fails)
    ∷ (2, calls "anthropic" asks)
    ∷ (3, calls "openai" asks)
    ∷ (4, resets_all)
    ∷ []

manage_all-lookup_example :
    Dict.lookup "openai" (manage_all (init_manager default_config) shared_calls).breakers
    ≡ alone default_config none (events_of default_config "openai" shared_calls)
unfolding init_manager
manage_all-lookup_example = manage_all-lookup "openai" (init_manager default_config) shared_calls
