-- ===== src/Harness/Guard/Tests.antt =====
-- Runs of an agent under the harness, and the theorem at a concrete input.
use ai_agent_code.Common.{
  ◌≡◌, refl, true, false, none, List, [], ◌∷◌, String, All, string_key, nat_key,
}
use ai_agent_code.Agents.Safety as Safety
use ai_agent_code.Harness.Guard.{
  HarnessConfig, init, validate_output, Call, steps, tools, uses, costs, resets, step, run,
}
use ai_agent_code.Harness.Guard.Budget.{used_all, Allowed, Within, run-Within}

abbrev clip : String → String
clip a = a

abbrev config : HarnessConfig
config = record {
  max_steps = 25;
  loop_threshold = 3;
  max_cost_usd = 10;
  max_tokens = 100;
  blocked_tools = "shell" ∷ [];
  require_approval_for = "file_write" ∷ [];
  output_validator = none;
}

abbrev calls : List Call
calls = steps 1 ∷ tools "calculator" ∷ uses 40 20 ∷ costs 7 ∷ resets ∷ steps 2 ∷ uses 50 50 ∷ []

goes_on : (run clip (init config) calls).1 ≡ false
unfolding run step init Safety.init Safety.check_steps Safety.check_tool_permission Safety.limit
    Safety.reset Safety.track_tokens Safety.over_budget Safety.record_violation
goes_on = refl

-- The use that breaks the budget is counted, and then the agent is stopped.
stopped :
    let (h, stop) = run clip (init config) (uses 90 0 ∷ uses 20 0 ∷ steps 1 ∷ []) in
    (h.cumulative_tokens ≡ 110) × (stop ≡ true)
unfolding run step init
stopped = (refl, refl)

unchecked : (validate_output (init config) "42").0 ≡ true
unfolding validate_output init
unchecked = refl

run-Within_example :
    All (Allowed config) calls
    × ((run clip (init config) calls).0.cumulative_tokens ≡ (used_all (0, 0) calls).0)
    × ((run clip (init config) calls).0.cumulative_cost ≡ (used_all (0, 0) calls).1)
    × Within 100 (used_all (0, 0) calls).0
    × Within 10 (used_all (0, 0) calls).1
run-Within_example = run-Within clip config calls goes_on
