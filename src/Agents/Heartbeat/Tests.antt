-- ===== src/Agents/Heartbeat/Tests.antt =====
-- Checks of two agents, and the theorems at concrete inputs.
use ai_agent_code.Common.Dict
use ai_agent_code.Common.{
  ℕ, ◌≡◌, refl, Option, none, some, List, [], ◌∷◌, String, string_key, nat_key,
}
use ai_agent_code.Agents.Heartbeat.{
  check_agent, HeartbeatMonitor, death, recovery, init, register_agent, get_alive_agents,
  monitor_round,
}
use ai_agent_code.Agents.Heartbeat.Liveness.{checks}

abbrev monitor : HeartbeatMonitor
monitor = register_agent (init 2) "planner"

abbrev run : List (String × Option ℕ)
run =
    ("coder", some 5)
    ∷ ("planner", some 6)
    ∷ ("coder", none)
    ∷ ("planner", some 8)
    ∷ ("coder", none)
    ∷ []

dies :
    (checks (register_agent monitor "coder") run).1
    ≡ recovery "coder" ∷ recovery "planner" ∷ death "coder" ∷ []
unfolding checks register_agent init check_agent
dies = refl

alive_after : get_alive_agents (checks (register_agent monitor "coder") run).0 ≡ "planner" ∷ []
unfolding checks register_agent init check_agent get_alive_agents
alive_after = refl

-- An agent that never answers is never reported.
silent_round : (monitor_round (λ _. none) monitor ("planner" ∷ "planner" ∷ "planner" ∷ [])).1 ≡ []
unfolding monitor_round register_agent init
silent_round = refl

abbrev answers : List (Option ℕ)
answers = some 5 ∷ none ∷ none ∷ some 9 ∷ []
