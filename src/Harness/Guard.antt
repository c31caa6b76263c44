-- ===== src/Harness/Guard.antt =====
-- src/harness/guard.py: `Harness`, the hard limits around an agent loop, over a `SafetyGuard`.
-- Costs are whole units of money. A check returns whether it passed; `track_tokens` and `track_cost`
-- return whether they raised `HarnessViolation`.
mod Budget
mod Tests
use ai_agent_code.Common.{
  ℕ, zero, suc, ◌+◌, ◌-◌, ◌*◌, ◌≤◌, ◌<◌, min, max, ◌≡◌, ◌≢◌, ◌⊎◌, ◌↔◌, inl, inr, refl, sym, ap, ◌∙◌,
  Bool, true, false, not, ◌&&◌, ◌||◌, Option, none, some, List, [], ◌∷◌, ◌++◌, map, reverse, arith,
  String, if◌then◌else◌, leb, ltb, ◌==◌, ◌≟◌, elem, length, drop, keep, count, get_last?,
  slice_last, All, Bool-cases, Option-cases, Key, string_key, nat_key,
}
use ai_agent_code.Agents.Safety as Safety
use ai_agent_code.Agents.Safety.{SafetyGuard}

pub record HarnessConfig : Type 0 where
  pub max_steps : ℕ
  pub loop_threshold : ℕ
  pub max_cost_usd : ℕ
  pub max_tokens : ℕ
  pub blocked_tools : List String
  pub require_approval_for : List String
  pub output_validator : Option (String → Bool × String)

pub record Harness : Type 0 where
  pub config : HarnessConfig
  pub safety : SafetyGuard
  pub cumulative_tokens : ℕ
  pub cumulative_cost : ℕ
  pub step_count : ℕ

-- `__init__`
pub init : HarnessConfig → Harness
init config = record {
  config = config;
  safety =
      Safety.init config.max_steps config.loop_threshold
        (record { max_tokens = none; max_file_ops = none; max_search_calls = none })
        config.blocked_tools;
  cumulative_tokens = 0;
  cumulative_cost = 0;
  step_count = 0;
}

-- `check_step`
pub check_step : Harness → ℕ → Harness × Bool
check_step h step =
    let (safety, passed) = Safety.check_steps h.safety step in
    (record h { step_count = step; safety = safety }, passed)

-- `check_loop`
pub check_loop : (String → String) → Harness → List String → Harness × Bool
check_loop clip h actions =
    let (safety, passed) = Safety.detect_loop clip h.safety actions in
    (record h { safety = safety }, passed)

-- `check_tool`
pub check_tool : Harness → String → Harness × Bool
check_tool h tool =
    let (safety, passed) = Safety.check_tool_permission h.safety tool in
    if elem tool h.config.require_approval_for
    then (h, false)
    else (record h { safety = safety }, passed)

-- `track_tokens`
pub track_tokens : Harness → ℕ → ℕ → Harness × Bool
track_tokens h input output =
    let total = h.cumulative_tokens + (input + output) in
    (
      record h { cumulative_tokens = total; safety = Safety.track_tokens h.safety input output },
      ltb 0 h.config.max_tokens && ltb h.config.max_tokens total,
    )

-- `track_cost`
pub track_cost : Harness → ℕ → Harness × Bool
track_cost h cost =
    let total = h.cumulative_cost + cost in
    (
      record h { cumulative_cost = total },
      ltb 0 h.config.max_cost_usd && ltb h.config.max_cost_usd total,
    )

-- `validate_output`
pub validate_output : Harness → String → Bool × String
validate_output h answer = elim h.config.output_validator [
  | none ↦ (true, "no validator configured")
  | some validator ↦ validator answer
]

-- `reset`
pub reset : Harness → Harness
reset h = record h {
  cumulative_tokens = 0;
  cumulative_cost = 0;
  step_count = 0;
  safety = Safety.reset h.safety;
}

-- A call that changes the harness.
pub data Call : Type 0 where
  steps : ℕ → Call
  loops : List String → Call
  tools : String → Call
  uses : ℕ → ℕ → Call
  costs : ℕ → Call
  resets : Call

module _ (clip : String → String) where
  -- The harness after a call, and whether the call stopped the agent: the check did not pass, or
  -- it raised.
  pub step : Harness → Call → Harness × Bool
  unfolding check_step check_loop check_tool track_tokens track_cost reset
  step h (steps n) = let (h', passed) = check_step h n in (h', not passed)
  step h (loops actions) = let (h', passed) = check_loop clip h actions in (h', not passed)
  step h (tools tool) = let (h', passed) = check_tool h tool in (h', not passed)
  step h (uses input output) = track_tokens h input output
  step h (costs cost) = track_cost h cost
  step h resets = (reset h, false)

  -- An agent that goes on until a call stops it: the harness, and whether it was stopped.
  pub run : Harness → List Call → Harness × Bool
  unfolding step
  run h [] = (h, false)
  run h (c ∷ cs) =
      let rest = run (step h c).0 cs in if (step h c).1 then ((step h c).0, true) else rest
