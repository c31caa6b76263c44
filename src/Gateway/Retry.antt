-- ===== src/Gateway/Retry.antt =====
-- src/ai_gateway/retry.py: `is_retryable` and `RetryHandler.execute_with_retry`. What the handler
-- reads of an exception is a record; `find` and `lower` on its texts are done by Python, and here
-- the message is already in lower case. Delays are whole milliseconds, the grid that
-- `round(delay, 3)` keeps. The random draws are a parameter, by the number of the attempt: an
-- execution computes the delay of an attempt at most once. `tenacity` (`get_retry_decorator`) is not
-- modelled.
pub mod Attempts
mod Tests
use Prim.Native.String.{◌++◌ as join}
use text.Mathlib.Text.{find?}
use ai_agent_code.Common.{
  ℕ, ℤ, pos, negsuc, zero, suc, ◌+◌, ◌-◌, ◌*◌, ◌^◌, ◌≡◌, min, Bool, true, false, not, ◌||◌, List,
  [], ◌∷◌, ◌++◌, Option, none, some, String, string_key, nat_key, elem, if◌then◌else◌, leb,
}

-- The attributes of an exception: `none` where there is no such attribute, or it is None. The body
-- status is the integer that a dict `body` holds under "status_code", or else "status".
pub record PyException : Type 0 where
  pub status_code : Option ℕ
  pub response_status : Option ℕ
  pub body_status : Option ℕ
  pub type_name : String
  pub module_name : String
  -- an instance of `TimeoutError` or `ConnectionError`
  pub is_timeout_or_connection : Bool
  -- `str(exception).lower()`
  pub message : String

abbrev pub retryable_status_codes : List ℕ
retryable_status_codes = 429 ∷ 500 ∷ 502 ∷ 503 ∷ 504 ∷ []

abbrev pub retryable_exception_types : List String
retryable_exception_types =
    "RateLimitError" ∷ "APITimeoutError" ∷ "APIConnectionError" ∷ "InternalServerError"
    ∷ "ServiceUnavailableError" ∷ "Timeout" ∷ "ConnectionError" ∷ "ReadTimeout" ∷ "ConnectTimeout"
    ∷ []

abbrev pub transient_keywords : List String
transient_keywords =
    "timeout" ∷ "rate limit" ∷ "too many requests" ∷ "service unavailable" ∷ "server error"
    ∷ "internal error" ∷ "connection" ∷ "capacity" ∷ "overloaded" ∷ "throttle" ∷ []

status_retryable : Option ℕ → Bool
status_retryable none = false
status_retryable (some code) = elem code retryable_status_codes

-- `sub in text`
is_in : String → String → Bool
is_in text sub = elim (find? text sub) [ none ↦ false | some i ↦ true ]

any_in : String → List String → Bool
unfolding is_in
any_in text [] = false
any_in text (sub ∷ subs) = is_in text sub || any_in text subs

-- `is_retryable`
pub is_retryable : PyException → Bool
unfolding status_retryable any_in
is_retryable e =
    if status_retryable e.status_code
    then true
    else if status_retryable e.response_status
    then true
    else if status_retryable e.body_status
    then true
    else if elem e.type_name retryable_exception_types
    then true
    else if any_in (join (join e.module_name ".") e.type_name) retryable_exception_types
    then true
    else if e.is_timeout_or_connection
    then true
    else any_in e.message transient_keywords

pub record RetryHandler : Type 0 where
  pub base_delay : ℕ
  pub max_delay : ℕ
  pub max_retries : ℤ
  pub jitter : Bool

-- `_compute_delay`: `random attempt delay` is the delay times the factor that `random.uniform` draws
-- for this attempt, rounded; another attempt draws anew.
pub compute_delay : RetryHandler → (ℕ → ℕ → ℕ) → ℕ → ℕ
compute_delay r random attempt =
    let delay = min r.max_delay (r.base_delay * 2 ^ attempt) in
    if r.jitter then random attempt delay else delay

-- The length of `range(max_retries + 1)`.
pub rounds_of : ℤ → ℕ
rounds_of (pos n) = n + 1
rounds_of (negsuc n) = 0

-- `attempt >= max_retries`
pub exhausted : ℤ → ℕ → Bool
exhausted (pos n) attempt = leb n attempt
exhausted (negsuc n) attempt = true

-- What an awaited call comes to.
pub data Attempt (A : Type 0) : Type 0 where
  success : A → Attempt A
  failure : PyException → Attempt A

-- What `execute_with_retry` comes to; `loop_ended` is the `RuntimeError` behind the loop.
pub data Outcome (A : Type 0) : Type 0 where
  returned : A → Outcome A
  raised : PyException → Outcome A
  loop_ended : Outcome A

-- The state of the world at the end, the delays slept, and the outcome.
pub record Execution (W A : Type 0) : Type 0 where
  pub world : W
  pub slept : List ℕ
  pub outcome : Outcome A

module _ {W A : Type 0} (func : W → W × Attempt A) (r : RetryHandler) (random : ℕ → ℕ → ℕ) where
  -- The loop over `attempt` in `range(max_retries + 1)`, with the rounds left, the exception of the
  -- last round and the delays so far.
  attempt_loop : ℕ → ℕ → Option PyException → List ℕ → W → Execution W A
  unfolding exhausted
  attempt_loop zero attempt last_exception slept w = record {
    world = w;
    slept = slept;
    outcome = elim last_exception [ none ↦ loop_ended | some e ↦ raised e ];
  }
  attempt_loop (suc rounds) attempt last_exception slept w =
      let (w', a) = func w in
      let on_failure : PyException → Execution W A = λ e.
        let retry =
          attempt_loop rounds (attempt + 1) (some e) (slept ++ compute_delay r random attempt ∷ [])
            w' in
        if not (is_retryable e)
        then record { world = w'; slept = slept; outcome = raised e }
        else if exhausted r.max_retries attempt
        then record { world = w'; slept = slept; outcome = raised e }
        else retry in
      elim a [
        | success v ↦ record { world = w'; slept = slept; outcome = returned v }
        | failure e ↦ on_failure e
      ]

  -- `execute_with_retry`
  pub execute_with_retry : W → Execution W A
  unfolding attempt_loop rounds_of
  execute_with_retry w = attempt_loop (rounds_of r.max_retries) 0 none [] w
