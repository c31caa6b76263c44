-- ===== src/Agents/Deadlock/Detection.antt =====
-- src/agents/communication/deadlock.py: a deadlock that is reported is one of pending requests.
use ai_agent_code.Common.Dict.{Dict}
use ai_agent_code.Common.{
  ℕ, suc, ◌≡◌, refl, Bool, some, List, [], ◌∷◌, ◌++◌, String, length, All, string_key, nat_key,
}
use ai_agent_code.Agents.Deadlock.{Graph, DependencyEdge, init, clean_expired, report, detect}
use ai_agent_code.Agents.Deadlock.Cycles.{IsWalk, IsCycle}
use ai_agent_code.Agents.Deadlock.Expiry.{AreLive, clean_expired-AreLive}
use ai_agent_code.Agents.Deadlock.Enough.{find_cycles-AreCycles}
use ai_agent_code.Agents.Deadlock.Pending.{IsPending, AreEdges, IsJustified}
use ai_agent_code.Agents.Deadlock.Runs.{
  Call, cleans, run, step, AreFresh, step-IsValid, run_calls-IsValid, init-IsValid, IsFresh,
}
use ai_agent_code.Agents.Deadlock.Valid.{IsValid}

-- Each agent but the last has a request pending at the next one.
unfoldable pub IsChain : Dict String DependencyEdge → List String → Type 0
IsChain deps [] = Unit
IsChain deps (a ∷ []) = Unit
IsChain deps (a ∷ b ∷ rest) = IsPending deps a b × IsChain deps (b ∷ rest)

-- A chain that ends where it starts.
unfoldable pub IsDeadlock : Dict String DependencyEdge → List String → Type 0
IsDeadlock deps c =
    (a : String) × (between : List String) × (c ≡ a ∷ between ++ a ∷ []) × IsChain deps c

walk-IsChain :
    (deps : Dict String DependencyEdge) (g : Graph) (c : List String)
    → AreEdges deps g
    → IsWalk g c
    → IsChain deps c
unfolding IsChain IsWalk AreEdges
walk-IsChain deps g [] j w = tt
walk-IsChain deps g (a ∷ []) j w = tt
walk-IsChain deps g (a ∷ b ∷ rest) j w = (j a b w.0, walk-IsChain deps g (b ∷ rest) j w.1)

cycles-IsDeadlock :
    (deps : Dict String DependencyEdge) (g : Graph) (cs : List (List String))
    → AreEdges deps g
    → All (IsCycle g) cs
    → All (IsDeadlock deps) cs
unfolding IsCycle IsDeadlock
cycles-IsDeadlock deps g [] j a = tt
cycles-IsDeadlock deps g (c ∷ cs) j ((a, between, e, w), rest) =
    ((a, between, e, walk-IsChain deps g c j w), cycles-IsDeadlock deps g cs j rest)

-- Whenever no request is tracked under the identifier of one that is pending, a round of the detector
-- after any calls ends, with a depth of one more than the agents that wait, and each deadlock that it
-- reports is a circle of agents in which each has a request pending at the next one, among the
-- dependencies that the cleaning leaves; none of those has expired.
pub detect-IsDeadlock :
    (auto_resolve : Bool) (cs : List Call) (now : ℕ)
    → AreFresh (init auto_resolve) cs
    → (cycles : List (List String)) × (detect
          (suc (length (clean_expired (run (init auto_resolve) cs) now).agent_waiting_on))
          (run (init auto_resolve) cs)
          now
        ≡ some (report (clean_expired (run (init auto_resolve) cs) now) cycles, cycles))
      × All (IsDeadlock (clean_expired (run (init auto_resolve) cs) now).dependencies) cycles
      × AreLive now (clean_expired (run (init auto_resolve) cs) now).dependencies
unfolding detect IsValid IsJustified step
detect-IsDeadlock auto_resolve cs now f =
    let d = run (init auto_resolve) cs in
    let cleaned = clean_expired d now in
    let g = cleaned.agent_waiting_on in
    let v = run_calls-IsValid (init auto_resolve) cs f (init-IsValid auto_resolve) in
    let j = step-IsValid d (cleans now) (unfold IsFresh in tt) v in
    let (cycles, e, a) = find_cycles-AreCycles g in
    (
      cycles,
      rw (detect, e) refl,
      cycles-IsDeadlock cleaned.dependencies g cycles j.1 a,
      clean_expired-AreLive d now,
    )
