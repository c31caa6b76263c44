-- ===== src/Harness/Checkpoint/Tests.antt =====
-- Runs of the snapshot store, and the theorem at a concrete input.
use ai_agent_code.Common.{
  ℕ, ◌≤◌, ◌≡◌, refl, List, [], ◌∷◌, arith, String, length, get_last?, slice_last, string_key,
  nat_key,
}
use ai_agent_code.Harness.Checkpoint.{Snapshot, init, history, latest, Call, saves, clears, run}
use ai_agent_code.Harness.Checkpoint.Retention.{log, run-retains}

abbrev snapshot : String → ℕ → Snapshot String
snapshot task step = record {
  task_id = task;
  step_index = step;
  state = "running";
  cost_usd = 0;
  tokens_used = 10;
  timestamp = step;
}

abbrev calls : List (Call String)
calls =
    saves (snapshot "a" 1)
    ∷ saves (snapshot "b" 1)
    ∷ clears "b"
    ∷ saves (snapshot "a" 2)
    ∷ saves (snapshot "a" 3)
    ∷ []

last_two : history (run (init 2) calls) "a" ≡ snapshot "a" 2 ∷ snapshot "a" 3 ∷ []
unfolding history run init
last_two = refl

-- A cap of 0 keeps every snapshot: `snaps[-0:]` is the whole list.
uncapped : length (history (run (init 0) calls) "a") ≡ 3
unfolding history run init
uncapped = refl

run-retains_example :
    (history (run (init 2) calls) "a" ≡ slice_last 2 (log "a" calls []))
    × (latest (run (init 2) calls) "a" ≡ get_last? (log "a" calls []))
    × (length (history (run (init 2) calls) "a") ≤ 2)
run-retains_example = run-retains 2 "a" calls (omega arith)
