-- ===== src/Resilience/RetryBudget/Tests.antt =====
-- Runs of the retry budget, and the theorem at a concrete input.
use ai_agent_code.Common.{
  ℕ, ◌≡◌, refl, true, false, not, List, [], ◌∷◌, arith, if◌then◌else◌, ◌==◌, length, string_key,
  nat_key,
}
use ai_agent_code.Resilience.RetryBudget.{
  default_config, init, retries, below, allow_retry, is_storm, Call, records, allows, storms, run,
}
use ai_agent_code.Resilience.RetryBudget.Recent.{fresh}
use ai_agent_code.Resilience.RetryBudget.Window.{Rising, last_time, log, allow_retry-window}

abbrev calls : List (ℕ × Call)
calls =
    (1, records true) ∷ (30, records false) ∷ (40, records true) ∷ (50, storms) ∷ (62, allows) ∷ []

stormy : (run (init default_config) calls).storm_count ≡ 1
unfolding run init
stormy = refl

pruned : (run (init default_config) calls).requests ≡ (30, false) ∷ (40, true) ∷ []
unfolding run init
pruned = refl

allow_retry-window_example :
    let b = run (init default_config) calls in
    let recent = fresh 60 95 (log calls) in
    ((allow_retry b 95).1
      ≡ (if length recent == 0 then true else below default_config.max_retry_rate recent))
    × ((is_storm b 95).1
        ≡ (if length recent == 0 then false else not (below default_config.storm_threshold recent)))
    × (b.total_retries ≡ retries (log calls))
allow_retry-window_example =
    allow_retry-window default_config calls 95
      (unfold Rising in
        (omega arith, (omega arith, (omega arith, (omega arith, (omega arith, tt))))))
      (unfold last_time in omega arith)
