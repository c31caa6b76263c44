-- ===== src/Resilience/RetryBudget/Window.antt =====
-- src/resilience/retry_budget.py: the queue of a budget against a log that forgets nothing.
use ai_agent_code.Common.{
  count-append, ℕ, ◌≤◌, ◌≡◌, refl, sym, ◌∙◌, Bool, true, false, not, List, [], ◌∷◌, ◌++◌, arith,
  if◌then◌else◌, ◌==◌, length, string_key, nat_key,
}
use mathlib.Core.List.{append-nil, append_assoc}
use ai_agent_code.Resilience.RetryBudget.{
  RetryBudgetConfig, RetryBudget, init, prune, record_request, retries, below, allow_retry,
  is_storm, Call, records, allows, storms, step, run,
}
use ai_agent_code.Resilience.RetryBudget.Recent.{
  Ascending, Until, fresh, pop_stale-fresh, Ascending-keep, Ascending-snoc, Until-snoc,
  Until-weaken, Until-keep, fresh-fresh, fresh-snoc,
}

-- Times of calls that do not fall.
unfoldable pub Rising : ℕ → List (ℕ × Call) → Type 0
Rising t [] = Unit
Rising t (c ∷ cs) = (t ≤ c.0) × Rising c.0 cs

unfoldable pub last_time : ℕ → List (ℕ × Call) → ℕ
last_time t [] = t
last_time t (c ∷ cs) = last_time c.0 cs

-- Every request recorded.
pub log : List (ℕ × Call) → List (ℕ × Bool)
log [] = []
log ((now, records is_retry) ∷ cs) = (now, is_retry) ∷ log cs
log ((now, allows) ∷ cs) = log cs
log ((now, storms) ∷ cs) = log cs

-- The budget holds the fresh requests of a log whose last call was at a time.
record Tracks (c : RetryBudgetConfig) (t : ℕ) (h : List (ℕ × Bool)) (b : RetryBudget) : Type 0 where
  config : b.config ≡ c
  queue : b.requests ≡ fresh c.window t h
  total : b.total_retries ≡ retries h
  ascending : Ascending 0 h
  until : Until t h

prune-Tracks :
    (c : RetryBudgetConfig) (t now : ℕ) (h : List (ℕ × Bool)) (b : RetryBudget)
    → t ≤ now
    → Tracks c t h b
    → Tracks c now h (prune b now)
unfolding prune
prune-Tracks c t now h b le k = record {
  config = k.config;
  queue =
      rw
        (
          k.config,
          k.queue,
          pop_stale-fresh c.window now 0 (fresh c.window t h)
              (unfold fresh in Ascending-keep _ 0 h k.ascending),
        )
        (fresh-fresh c.window t now h le);
  total = k.total;
  ascending = k.ascending;
  until = Until-weaken t now h le k.until;
}

record-Tracks :
    (c : RetryBudgetConfig) (t now : ℕ) (h : List (ℕ × Bool)) (b : RetryBudget) (is_retry : Bool)
    → t ≤ now
    → Tracks c t h b
    → Tracks c now (h ++ (now, is_retry) ∷ []) (record_request b is_retry now)
unfolding record_request prune
record-Tracks c t now h b is_retry le k =
    let x : ℕ × Bool = (now, is_retry) in
    let asc = Ascending-snoc 0 t h x k.ascending k.until (omega arith) le in
    let until' : Until t (fresh c.window t h) = unfold fresh in Until-keep _ t h k.until in
    let asc' : Ascending 0 (fresh c.window t h ++ x ∷ []) =
      Ascending-snoc 0 t (fresh c.window t h) x (unfold fresh in Ascending-keep _ 0 h k.ascending)
        until' (omega arith) le in
    record {
      config = k.config;
      queue =
          rw (k.config, k.queue, pop_stale-fresh c.window now 0 (fresh c.window t h ++ x ∷ []) asc')
            (fresh-snoc c.window t now h x le);
      total = grind (arith, k.total, count-append (λ (r : ℕ × Bool). r.1) h (x ∷ []));
      ascending = asc;
      until = Until-snoc t h x k.until le;
    }

is_storm-prune :
    (b : RetryBudget) (now : ℕ)
    → let b' = (is_storm b now).0 in
      (b'.requests ≡ (prune b now).requests)
      × (b'.config ≡ (prune b now).config)
      × (b'.total_retries ≡ (prune b now).total_retries)
unfolding is_storm
is_storm-prune b now = ground arith

-- The requests recorded by one call.
recorded : ℕ × Call → List (ℕ × Bool)
recorded (now, records is_retry) = (now, is_retry) ∷ []
recorded (now, allows) = []
recorded (now, storms) = []

step-Tracks :
    (c : RetryBudgetConfig) (t : ℕ) (h : List (ℕ × Bool)) (b : RetryBudget) (call : ℕ × Call)
    → t ≤ call.0
    → Tracks c t h b
    → Tracks c call.0 (h ++ recorded call) (step b call)
unfolding step recorded allow_retry
step-Tracks c t h b (now, records is_retry) le k = record-Tracks c t now h b is_retry le k
step-Tracks c t h b (now, allows) le k = rw (append-nil h) (prune-Tracks c t now h b le k)
step-Tracks c t h b (now, storms) le k =
    let s = is_storm-prune b now in
    let p = prune-Tracks c t now h b le k in
    rw (append-nil h) (record {
      config = s.1 ∙ p.config;
      queue = s.0 ∙ p.queue;
      total = s.2 ∙ p.total;
      ascending = p.ascending;
      until = p.until;
    })

log-cons : (call : ℕ × Call) (cs : List (ℕ × Call)) → log (call ∷ cs) ≡ recorded call ++ log cs
unfolding log recorded
log-cons (now, records is_retry) cs = refl
log-cons (now, allows) cs = refl
log-cons (now, storms) cs = refl

init-Tracks : (c : RetryBudgetConfig) → Tracks c 0 [] (init c)
unfolding init fresh Ascending Until
init-Tracks c = record { config = refl; queue = refl; total = refl; ascending = tt; until = tt }

run-Tracks :
    (c : RetryBudgetConfig) (t : ℕ) (h : List (ℕ × Bool)) (b : RetryBudget) (cs : List (ℕ × Call))
    → Rising t cs
    → Tracks c t h b
    → Tracks c (last_time t cs) (h ++ log cs) (run b cs)
unfolding run Rising last_time log
run-Tracks c t h b [] r k = rw (append-nil h) k
run-Tracks c t h b (call ∷ cs) r k =
    let rest =
      run-Tracks c call.0 (h ++ recorded call) (step b call) cs r.1
        (step-Tracks c t h b call r.0 k) in
    rw (log-cons call cs, sym (append_assoc h (recorded call) (log cs))) rest

allow_retry-prune :
    (b : RetryBudget) (now : ℕ)
    → let b' = prune b now in
      (allow_retry b now).1
      ≡ (if length b'.requests == 0 then true else below b'.config.max_retry_rate b'.requests)
unfolding allow_retry
allow_retry-prune b now = refl

is_storm-answer :
    (b : RetryBudget) (now : ℕ)
    → let b' = prune b now in
      (is_storm b now).1 ≡ (
        if length b'.requests == 0
        then false
        else not (below b'.config.storm_threshold b'.requests))
unfolding is_storm
is_storm-answer b now = ground arith

-- After any calls at times that do not fall, the budget allows a retry exactly when no request, or
-- a share of retries below `max_retry_rate`, was recorded in the window that ends now, and reports
-- a storm exactly when that share is at least `storm_threshold`; it has counted every retry.
pub allow_retry-window :
    (c : RetryBudgetConfig) (cs : List (ℕ × Call)) (now : ℕ)
    → Rising 0 cs
    → last_time 0 cs ≤ now
    → let b = run (init c) cs in
      let recent = fresh c.window now (log cs) in
      ((allow_retry b now).1 ≡ (if length recent == 0 then true else below c.max_retry_rate recent))
      × ((is_storm b now).1
          ≡ (if length recent == 0 then false else not (below c.storm_threshold recent)))
      × (b.total_retries ≡ retries (log cs))
allow_retry-window c cs now r le =
    let k' = run-Tracks c 0 [] (init c) cs r (init-Tracks c) in
    let k = prune-Tracks c _ now (log cs) _ le k' in
    rw
      (
        allow_retry-prune (run (init c) cs) now,
        is_storm-answer (run (init c) cs) now,
        k.queue,
        k.config,
      )
      (refl, refl, k'.total)
