-- ===== src/Gateway/Retry/Attempts.antt =====
-- How often `execute_with_retry` calls the function, and how long it waits in between.
use mathlib.Core.List.{append-nil, append_assoc}
use ai_agent_code.Common.{
  subst, ap, negsuc, ℤ, pos, ◌∙◌, sym, ℕ, zero, suc, ◌+◌, ◌-◌, ◌≡◌, ◌≤◌, refl, true, false, List,
  [], ◌∷◌, ◌++◌, Option, none, some, arith, Bool-cases, inl, inr, ◌⊎◌,
}
use ai_agent_code.Gateway.Retry.{
  rounds_of, PyException, is_retryable, RetryHandler, compute_delay, exhausted, Attempt, success,
  failure, Outcome, returned, raised, loop_ended, Execution, attempt_loop, execute_with_retry,
}

Attempt-cases :
    {A : Type 0} (a : Attempt A)
    → ((v : A) × (a ≡ success v)) ⊎ ((e : PyException) × (a ≡ failure e))
Attempt-cases (success v) = inl (v, refl)
Attempt-cases (failure e) = inr (e, refl)

module _ {W A : Type 0} (func : W → W × Attempt A) (r : RetryHandler) (random : ℕ → ℕ → ℕ) where
  -- From one state of the world to another the function is called so often, and each call raises
  -- an exception that may be retried.
  abbrev pub Transient : ℕ → W → W → Type 0
  Transient zero w w' = w ≡ w'
  Transient (suc k) w w' =
      (e : PyException) × ((func w).1 ≡ failure e)
      × (is_retryable e ≡ true)
      × Transient k (func w).0 w'

  -- The delays before the retries from number `attempt` on.
  abbrev pub delays : ℕ → ℕ → List ℕ
  delays attempt zero = []
  delays attempt (suc k) = compute_delay r random attempt ∷ delays (attempt + 1) k

  -- The last call, in state `w`: it returns, or raises what may not be retried, or what may be
  -- and no retry is left.
  abbrev pub Ends : ℕ → W → Outcome A → Type 0
  Ends left w (returned v) = (func w).1 ≡ success v
  Ends left w (raised e) = ((func w).1 ≡ failure e) × ((is_retryable e ≡ false) ⊎ (left ≡ 0))
  Ends left w loop_ended = ⊥

  -- A run of the loop with `left` retries to go: some calls that raise and are retried after their
  -- delays, and then a last call.
  abbrev pub Runs : ℕ → ℕ → List ℕ → W → Execution W A → Type 0
  Runs left attempt before w x =
      (k : ℕ) × (k ≤ left)
      × (w' : W) × Transient k w w'
      × Ends (left - k) w' x.outcome
      × (x.world ≡ (func w').0)
      × (x.slept ≡ before ++ delays attempt k)

  module _ (left attempt : ℕ) (last : Option PyException) (before : List ℕ) (w : W) where
    abbrev round : Execution W A
    round = attempt_loop func r random (suc left) attempt last before w

    round_returned :
        (v : A)
        → (func w).1 ≡ success v
        → round ≡ record { world = (func w).0; slept = before; outcome = returned v }
    unfolding attempt_loop
    round_returned v e = ground arith

    round_fatal :
        (x : PyException)
        → (func w).1 ≡ failure x
        → is_retryable x ≡ false
        → round ≡ record { world = (func w).0; slept = before; outcome = raised x }
    unfolding attempt_loop
    round_fatal x e fatal = ground arith

    round_last :
        (x : PyException)
        → (func w).1 ≡ failure x
        → is_retryable x ≡ true
        → exhausted r.max_retries attempt ≡ true
        → round ≡ record { world = (func w).0; slept = before; outcome = raised x }
    unfolding attempt_loop
    round_last x e again h = ground arith

    round_retried :
        (x : PyException)
        → (func w).1 ≡ failure x
        → is_retryable x ≡ true
        → exhausted r.max_retries attempt ≡ false
        → round
          ≡ attempt_loop func r random left
              (attempt + 1)
              (some x)
              (before ++ compute_delay r random attempt ∷ [])
              (func w).0
    unfolding attempt_loop
    round_retried x e again h = ground arith

  Runs-later :
      (left attempt : ℕ) (before : List ℕ) (w : W) (e : PyException) (x : Execution W A)
      → (func w).1 ≡ failure e
      → is_retryable e ≡ true
      → Runs left (attempt + 1) (before ++ compute_delay r random attempt ∷ []) (func w).0 x
      → Runs (suc left) attempt before w x
  Runs-later left attempt before w e x f again (k, le, w', t, ends, world, slept) = (
    suc k,
    omega arith,
    w',
    (e, f, again, t),
    ends',
    world,
    slept ∙ append_assoc before (compute_delay r random attempt ∷ []) (delays (attempt + 1) k),
  )
    where
      same : suc left - suc k ≡ left - k
      same = omega arith

      ends' : Ends (suc left - suc k) w' x.outcome
      ends' = rw same ends

  round-Runs :
      (left attempt : ℕ) (last : Option PyException) (before : List ℕ) (w : W) (max : ℕ)
      → r.max_retries ≡ pos max
      → attempt + left ≡ max
      → Runs left attempt before w (attempt_loop func r random (suc left) attempt last before w)
  unfolding exhausted
  round-Runs zero attempt last before w max m h = elim (Attempt-cases (func w).1) [
    | inl (v, e) ↦
        rw (round_returned zero attempt last before w v e)
          (0, omega arith, w, refl, e, refl, sym (append-nil before))
    | inr (x, e) ↦ elim (Bool-cases (is_retryable x)) [
      | inr fatal ↦
          rw (round_fatal zero attempt last before w x e fatal)
            (0, omega arith, w, refl, (e, inl fatal), refl, sym (append-nil before))
      | inl again ↦
          rw (round_last zero attempt last before w x e again (rw m (ground arith)))
            (0, omega arith, w, refl, (e, inr refl), refl, sym (append-nil before))
    ]
  ]
  round-Runs (suc left) attempt last before w max m h = elim (Attempt-cases (func w).1) [
    | inl (v, e) ↦
        rw (round_returned (suc left) attempt last before w v e)
          (0, omega arith, w, refl, e, refl, sym (append-nil before))
    | inr (x, e) ↦ elim (Bool-cases (is_retryable x)) [
      | inr fatal ↦
          rw (round_fatal (suc left) attempt last before w x e fatal)
            (0, omega arith, w, refl, (e, inl fatal), refl, sym (append-nil before))
      | inl again ↦
          rw (round_retried (suc left) attempt last before w x e again (rw m (ground arith))) (
            Runs-later left attempt before w x _ e again (
              round-Runs left (attempt + 1) (some x) (before ++ compute_delay r random attempt ∷ [])
                (func w).0 max m (omega arith)))
    ]
  ]

  -- What `execute_with_retry` comes to, by `max_retries`: a run of the loop, or for a negative number
  -- the error behind the loop, with no call and no delay.
  abbrev pub Executes : ℤ → W → Execution W A → Type 0
  Executes (pos n) w x = Runs n 0 [] w x
  Executes (negsuc n) w x = x ≡ record { world = w; slept = []; outcome = loop_ended }

  execute_rounds :
      (rounds : ℕ) (w : W)
      → rounds_of r.max_retries ≡ rounds
      → execute_with_retry func r random w ≡ attempt_loop func r random rounds 0 none [] w
  unfolding execute_with_retry
  execute_rounds rounds w e = ap (λ k. attempt_loop func r random k 0 none [] w) e

  execute-Executes :
      (max : ℤ) (w : W) → r.max_retries ≡ max → Executes max w (execute_with_retry func r random w)
  unfolding rounds_of
  execute-Executes (pos n) w m =
      let e = execute_rounds (suc n) w (ap rounds_of m ∙ omega arith) in
      subst (λ x. Runs n 0 [] w x) (sym e) (round-Runs n 0 none [] w n m (omega arith))
  execute-Executes (negsuc n) w m =
      execute_rounds 0 w (ap rounds_of m) ∙ (unfold attempt_loop in refl)

  -- For `max_retries` from 0, `execute_with_retry` calls the function at most `max_retries + 1`
  -- times: it goes on only after an exception that `is_retryable` accepts, sleeps once before each
  -- retry, for the delay of its number and whatever was drawn for it, and ends with the first return,
  -- the first exception that may not be retried, or the exception of the last attempt. For a negative
  -- `max_retries`, and only then, it raises the error behind the loop, and never calls the function.
  pub execute_with_retry-Runs :
      (w : W) → Executes r.max_retries w (execute_with_retry func r random w)
  execute_with_retry-Runs w = execute-Executes r.max_retries w refl
