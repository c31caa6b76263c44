-- ===== src/Agents/Safety/Tests.antt =====
-- Checks of a guard, and the theorem at a concrete input.
use ai_agent_code.Common.{
  ◌≡◌, ◌⊎◌, ◌↔◌, refl, false, none, some, List, [], ◌∷◌, ◌++◌, map, arith, String, if◌then◌else◌,
  string_key, nat_key,
}
use ai_agent_code.Agents.Safety.{
  SafetyGuard, ResourceLimits, init, check_steps, no_loop, find_loop, detect_loop,
  check_tool_permission, track_tokens, check_resources,
}
use ai_agent_code.Agents.Safety.Patterns.{Repeats, Alternates}
use ai_agent_code.Agents.Safety.Loops.{detect_loop-detects}

abbrev limits : ResourceLimits
limits = record { max_tokens = some 100; max_file_ops = none; max_search_calls = some 1 }

abbrev guard : SafetyGuard
guard = init 15 3 limits ("shell" ∷ [])

abbrev clip : String → String
clip a = a

too_many_steps : (check_steps guard 16).1 ≡ false
unfolding check_steps init
too_many_steps = refl

blocked : (check_tool_permission guard "shell").1 ≡ false
unfolding check_tool_permission init
blocked = refl

searched_enough :
    (check_tool_permission (detect_loop clip guard ("web_search" ∷ [])).0 "web_search").1 ≡ false
unfolding check_tool_permission detect_loop init
searched_enough = refl

over : check_resources (track_tokens guard 60 41) ≡ false
unfolding check_resources track_tokens init
over = refl

-- With the default threshold of 3, two actions that take turns are not seen as a loop.
turns_unseen : find_loop clip 3 ("a" ∷ "b" ∷ "a" ∷ "b" ∷ "a" ∷ "b" ∷ "a" ∷ "b" ∷ []) ≡ no_loop
unfolding find_loop
turns_unseen = refl

abbrev history : List String
history = "x" ∷ "a" ∷ "b" ∷ "c" ∷ "a" ∷ "b" ∷ "c" ∷ []

abbrev bare : SafetyGuard
bare = record {
  max_steps = 15;
  loop_threshold = 3;
  resource_limits = limits;
  blocked_tools = [];
  action_history = [];
  total_input_tokens = 0;
  total_output_tokens = 0;
  violations = [];
}

detect_loop-detects_example :
    (((detect_loop clip bare history).1 ≡ false)
      ↔ (Repeats 3 (map clip history) ⊎ Alternates 3 (map clip history)))
    × ((detect_loop clip bare history).0.violations
        ≡ (if (detect_loop clip bare history).1 then [] else [] ++ "loop_detected" ∷ []))
detect_loop-detects_example = detect_loop-detects clip bare history (omega arith)
