-- ===== src/Agents/Safety/Limits.antt =====
-- src/agents/safety.py: the limits of a guard, which no check changes, and what a check lets pass.
use ai_agent_code.Common.{
  ℕ, ◌≤◌, ◌≡◌, refl, true, false, List, arith, String, elem, string_key, nat_key,
}
use ai_agent_code.Agents.Safety.{
  SafetyGuard, ResourceLimits, init, record_violation, check_steps, detect_loop,
  check_tool_permission, track_tokens, reset,
}

-- Two guards with the same limits.
pub record SameLimits (g g' : SafetyGuard) : Type 0 where
  pub steps : g'.max_steps ≡ g.max_steps
  pub blocked : g'.blocked_tools ≡ g.blocked_tools

pub check_steps-SameLimits : (g : SafetyGuard) (n : ℕ) → SameLimits g (check_steps g n).0
unfolding check_steps record_violation
check_steps-SameLimits g n = record { steps = ground arith; blocked = ground arith }

pub check_steps-passed : (g : SafetyGuard) (n : ℕ) → (check_steps g n).1 ≡ true → n ≤ g.max_steps
unfolding check_steps
check_steps-passed g n e = ground arith

pub detect_loop-SameLimits :
    (clip : String → String) (g : SafetyGuard) (actions : List String)
    → SameLimits g (detect_loop clip g actions).0
unfolding detect_loop record_violation
detect_loop-SameLimits clip g actions = record { steps = ground arith; blocked = ground arith }

pub check_tool_permission-SameLimits :
    (g : SafetyGuard) (tool : String) → SameLimits g (check_tool_permission g tool).0
unfolding check_tool_permission record_violation
check_tool_permission-SameLimits g tool = record { steps = ground arith; blocked = ground arith }

pub check_tool_permission-passed :
    (g : SafetyGuard) (tool : String)
    → (check_tool_permission g tool).1 ≡ true
    → elem tool g.blocked_tools ≡ false
unfolding check_tool_permission
check_tool_permission-passed g tool e = ground arith

pub track_tokens-SameLimits :
    (g : SafetyGuard) (input output : ℕ) → SameLimits g (track_tokens g input output)
unfolding track_tokens record_violation
track_tokens-SameLimits g input output = record { steps = ground arith; blocked = ground arith }

pub reset-SameLimits : (g : SafetyGuard) → SameLimits g (reset g)
unfolding reset
reset-SameLimits g = record { steps = refl; blocked = refl }

pub init-limits :
    (n t : ℕ) (limits : ResourceLimits) (blocked : List String)
    → ((init n t limits blocked).max_steps ≡ n)
      × ((init n t limits blocked).blocked_tools ≡ blocked)
unfolding init
init-limits n t limits blocked = (refl, refl)
