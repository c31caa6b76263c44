-- ===== src/Agents/Safety.antt =====
-- src/agents/safety.py: `SafetyGuard`, the limits on an agent's run.
-- The cut of an action's text to 50 characters is the parameter `clip`. A violation is its type. The
-- content filter works by regular expressions, and is left out.
pub mod Limits
mod Patterns
mod Loops
mod Tests
use ai_agent_code.Common.{
  ℕ, zero, suc, ◌+◌, ◌-◌, ◌*◌, ◌≤◌, ◌<◌, min, max, ◌≡◌, ◌≢◌, ◌⊎◌, ◌↔◌, inl, inr, refl, sym, ap, ◌∙◌,
  Bool, true, false, not, ◌&&◌, ◌||◌, Option, none, some, List, [], ◌∷◌, ◌++◌, map, reverse, arith,
  String, if◌then◌else◌, leb, ltb, ◌==◌, ◌≟◌, elem, length, drop, take, keep, count, get_last?,
  slice_last, All, Bool-cases, Option-cases, Key, string_key, nat_key,
}

-- The entries of `resource_limits` that are read; `none` is a missing key.
pub record ResourceLimits : Type 0 where
  pub max_tokens : Option ℕ
  pub max_file_ops : Option ℕ
  pub max_search_calls : Option ℕ

pub record SafetyGuard : Type 0 where
  pub max_steps : ℕ
  pub loop_threshold : ℕ
  pub resource_limits : ResourceLimits
  pub blocked_tools : List String
  pub action_history : List String
  pub total_input_tokens : ℕ
  pub total_output_tokens : ℕ
  pub violations : List String

-- `__init__`
unfoldable pub init : ℕ → ℕ → ResourceLimits → List String → SafetyGuard
init max_steps loop_threshold limits blocked = record {
  max_steps = max_steps;
  loop_threshold = loop_threshold;
  resource_limits = limits;
  blocked_tools = blocked;
  action_history = [];
  total_input_tokens = 0;
  total_output_tokens = 0;
  violations = [];
}

-- `_record_violation`
unfoldable pub record_violation : SafetyGuard → String → SafetyGuard
record_violation g type_name = record g { violations = g.violations ++ type_name ∷ [] }

-- `check_steps`: whether the check passed.
unfoldable pub check_steps : SafetyGuard → ℕ → SafetyGuard × Bool
unfolding record_violation
check_steps g current_step =
    if ltb g.max_steps current_step then (record_violation g "max_steps", false) else (g, true)

-- `len(set(xs)) == 1`
pub one_value : List String → Bool
one_value [] = false
one_value (x ∷ []) = true
one_value (x ∷ y ∷ xs) = x ≟ y && one_value (y ∷ xs)

-- `xs == ys`
pub same_list : List String → List String → Bool
same_list [] [] = true
same_list [] (y ∷ ys) = false
same_list (x ∷ xs) [] = false
same_list (x ∷ xs) (y ∷ ys) = x ≟ y && same_list xs ys

-- What `detect_loop` finds.
pub data Loop : Type 0 where
  no_loop repeated alternating : Loop

module _ (clip : String → String) where
  -- The tests of `detect_loop`.
  pub find_loop : ℕ → List String → Loop
  unfolding one_value same_list
  find_loop threshold history =
      if ltb (length history) threshold
      then no_loop
      else if one_value (map clip (slice_last threshold history))
      then repeated
      else if leb (threshold * 2) (length history)
      then (let pattern = map clip (slice_last (threshold * 2) history) in
          if same_list (take threshold pattern) (drop threshold pattern)
          then alternating
          else no_loop)
      else no_loop

  -- `detect_loop`
  pub detect_loop : SafetyGuard → List String → SafetyGuard × Bool
  unfolding find_loop record_violation
  detect_loop g history =
      let g' = record g { action_history = slice_last 50 history } in
      elim (find_loop g.loop_threshold history) [
        | no_loop ↦ (g', true)
        | repeated ↦ (record_violation g' "loop_detected", false)
        | alternating ↦ (record_violation g' "loop_detected", false)
      ]

unfoldable pub limit : Option ℕ → ℕ → ℕ
limit none n = n
limit (some m) n = m

-- `check_tool_permission`
unfoldable pub check_tool_permission : SafetyGuard → String → SafetyGuard × Bool
unfolding record_violation limit
check_tool_permission g tool =
    let file_ops = count (λ a. elem a ("web_fetch" ∷ "file_operations" ∷ [])) g.action_history in
    let searches = count (λ a. a ≟ "web_search") g.action_history in
    if elem tool g.blocked_tools
    then (record_violation g "blocked_tool", false)
    else if elem tool ("web_fetch" ∷ "file_operations" ∷ [])
        && leb (limit g.resource_limits.max_file_ops 50) file_ops
    then (g, false)
    else if tool ≟ "web_search" && leb (limit g.resource_limits.max_search_calls 20) searches
    then (g, false)
    else (g, true)

-- `max_tokens and total > max_tokens`: a limit of 0 is no limit.
unfoldable pub over_budget : SafetyGuard → Bool
over_budget g = elim g.resource_limits.max_tokens [
  | none ↦ false
  | some m ↦ ltb 0 m && ltb m (g.total_input_tokens + g.total_output_tokens)
]

-- `track_tokens`
unfoldable pub track_tokens : SafetyGuard → ℕ → ℕ → SafetyGuard
unfolding record_violation over_budget
track_tokens g input output =
    let g' = record g {
      total_input_tokens = g.total_input_tokens + input;
      total_output_tokens = g.total_output_tokens + output;
    } in
    if over_budget g' then record_violation g' "token_limit" else g'

-- `check_resources`: `_start_time` is 0 in every state, so the time budget is never looked at.
pub check_resources : SafetyGuard → Bool
unfolding over_budget
check_resources g = not (over_budget g)

-- `reset`
unfoldable pub reset : SafetyGuard → SafetyGuard
reset g = record g {
  action_history = [];
  total_input_tokens = 0;
  total_output_tokens = 0;
  violations = [];
}
