-- ===== src/Gateway/Retry/Tests.antt =====
-- Runs of the retry handler, and the theorems at concrete inputs.
use ai_agent_code.Common.{
  pos, negsuc, ◌+◌, ◌≡◌, ◌∷◌, if◌then◌else◌, leb, ℕ, true, false, some, none, [], String,
  string_key, refl,
}
use ai_agent_code.Gateway.Retry.{
  PyException, is_retryable, RetryHandler, Attempt, success, failure, returned, loop_ended,
  execute_with_retry, compute_delay,
}
use ai_agent_code.Gateway.Retry.Attempts.{Executes, execute_with_retry-Runs}

abbrev rate_limited : PyException
rate_limited = record {
  status_code = some 429;
  response_status = none;
  body_status = none;
  type_name = "APIStatusError";
  module_name = "openai";
  is_timeout_or_connection = false;
  message = "slow down";
}

abbrev not_found : PyException
not_found = record rate_limited { status_code = some 404; message = "no such model" }

retried : is_retryable rate_limited ≡ true
unfolding is_retryable
retried = refl

refused : is_retryable not_found ≡ false
unfolding is_retryable
refused = refl

-- Fails twice and then returns; the world counts the calls.
abbrev third_time : ℕ → ℕ × Attempt String
third_time n = (n + 1, if leb 2 n then success "done" else failure rate_limited)

abbrev handler : RetryHandler
handler = record { base_delay = 1000; max_delay = 60_000; max_retries = pos 3; jitter = false }

two_retries :
    execute_with_retry third_time handler (λ attempt d. d) 0
    ≡ record { world = 3; slept = 1000 ∷ 2000 ∷ []; outcome = returned "done" }
unfolding execute_with_retry is_retryable compute_delay
two_retries = refl

-- Two draws for the same delay may differ.
abbrev jittered : RetryHandler
jittered = record handler { max_delay = 1000; jitter = true }

two_draws :
    (execute_with_retry third_time jittered (λ attempt d. d + attempt) 0).slept ≡ 1000 ∷ 1001 ∷ []
unfolding execute_with_retry is_retryable compute_delay
two_draws = refl

-- No attempt is made for a negative number of retries.
no_round :
    (execute_with_retry third_time
      (record handler { max_retries = negsuc 0 })
      (λ attempt d. d)
      0).outcome
    ≡ loop_ended
unfolding execute_with_retry
no_round = refl

execute_with_retry-Runs_example :
    Executes third_time jittered
      (λ attempt d. d + attempt)
      (pos 3)
      0
      (execute_with_retry third_time jittered (λ attempt d. d + attempt) 0)
execute_with_retry-Runs_example =
    execute_with_retry-Runs third_time jittered (λ attempt d. d + attempt) 0
