-- ===== src/Agents/Deadlock/Tests.antt =====
-- Agents that wait on each other, and the theorems at concrete inputs.
use ai_agent_code.Common.{
  length, suc, ◌≡◌, refl, true, none, some, List, [], ◌∷◌, String, All, string_key, nat_key,
}
use ai_agent_code.Agents.Deadlock.{
  report, Graph, AgentMessage, DeadlockDetector, init, neighbors, track_request, resolve_dependency,
  find_cycles, detect, clean_expired,
}
use ai_agent_code.Agents.Deadlock.Cycles.{IsCycle}
use ai_agent_code.Agents.Deadlock.Complete.{find_cycles_complete}
use ai_agent_code.Agents.Deadlock.Enough.{find_cycles-AreCycles}
use ai_agent_code.Agents.Deadlock.Runs.{Call, tracks, resolves, run, step, AreFresh, IsFresh}
use ai_agent_code.Agents.Deadlock.Detection.{IsDeadlock, detect-IsDeadlock}
use ai_agent_code.Agents.Deadlock.Expiry.{AreLive}

abbrev asks : String → String → String → AgentMessage
asks id sender receiver = record {
  msg_id = id;
  correlation_id = none;
  msg_type = "request";
  sender = sender;
  receiver = receiver;
  ttl = 30;
}

abbrev answers : String → AgentMessage
answers id = record {
  msg_id = "answer";
  correlation_id = some id;
  msg_type = "response";
  sender = "b";
  receiver = "a";
  ttl = 30;
}

abbrev ring : Graph
ring = ("a", "b" ∷ []) ∷ ("b", "c" ∷ []) ∷ ("c", "b" ∷ []) ∷ []

ring_cycles : find_cycles 4 ring ≡ some (("b" ∷ "c" ∷ "b" ∷ []) ∷ [])
unfolding find_cycles
ring_cycles = refl

abbrev waiting : DeadlockDetector
waiting = track_request (track_request (init true) (asks "1" "a" "b") 0) (asks "2" "b" "a") 1

-- The older request of the cycle is cancelled.
resolved :
    detect 3 waiting 5
    ≡ some (
      record {
        auto_resolve = true;
        dependencies =
            (
              "2",
              record {
                from_agent = "b";
                to_agent = "a";
                started_at = 1;
                request_id = "2";
                timeout = 30;
              },
            )
            ∷ [];
        agent_waiting_on = ("b", "a" ∷ []) ∷ [];
        deadlock_count = 1;
        resolved_count = 1;
      },
      ("a" ∷ "b" ∷ "a" ∷ []) ∷ [],
    )
unfolding detect track_request init
resolved = refl

-- Of two requests of the same agents one is answered: the other still waits, without an edge.
lost_edge :
    neighbors
      (resolve_dependency
        (track_request (track_request (init true) (asks "1" "a" "b") 0) (asks "2" "a" "b") 1)
        (answers "1")).agent_waiting_on
      "a"
    ≡ []
unfolding resolve_dependency track_request init neighbors
lost_edge = refl

find_cycles-AreCycles_example :
    (cs : List (List String)) × (find_cycles 4 ring ≡ some cs) × All (IsCycle ring) cs
find_cycles-AreCycles_example = find_cycles-AreCycles ring

abbrev waits : List Call
waits =
    tracks (asks "0" "a" "b") 0
    ∷ resolves (answers "0")
    ∷ tracks (asks "1" "a" "b") 0
    ∷ tracks (asks "2" "b" "a") 1
    ∷ []

waits-AreFresh : AreFresh (init true) waits
unfolding AreFresh IsFresh step track_request resolve_dependency init clean_expired
waits-AreFresh = (refl, (tt, (refl, (refl, tt))))

detect-IsDeadlock_example :
    (cycles : List (List String)) × (detect
        (suc (length (clean_expired (run (init true) waits) 5).agent_waiting_on))
        (run (init true) waits)
        5
      ≡ some (report (clean_expired (run (init true) waits) 5) cycles, cycles))
    × All (IsDeadlock (clean_expired (run (init true) waits) 5).dependencies) cycles
    × AreLive 5 (clean_expired (run (init true) waits) 5).dependencies
detect-IsDeadlock_example = detect-IsDeadlock true waits 5 waits-AreFresh

-- Without the last edge of the ring nobody waits in a circle.
abbrev chain : Graph
chain = ("a", "b" ∷ []) ∷ ("b", "c" ∷ []) ∷ []

chain_cycles : find_cycles 3 chain ≡ some []
unfolding find_cycles
chain_cycles = refl

find_cycles_complete_example : ¬ IsCycle chain ("b" ∷ "c" ∷ "b" ∷ [])
find_cycles_complete_example = find_cycles_complete chain ("b" ∷ "c" ∷ "b" ∷ []) chain_cycles
