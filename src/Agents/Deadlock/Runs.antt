-- ===== src/Agents/Deadlock/Runs.antt =====
-- src/agents/communication/deadlock.py: after any calls, who waits on whom is known from pending requests.
use ai_agent_code.Common.Dict
use ai_agent_code.Common.Dict.{Dict}
use ai_agent_code.Common.Unique.{AreUnique, insert-AreUnique, erase-AreUnique}
use ai_agent_code.Common.{
  ℕ, ◌≡◌, inl, inr, Bool, none, List, [], ◌∷◌, String, ◌≟◌, Bool-cases, Option-cases, string_key,
  nat_key,
}
use ai_agent_code.Agents.Deadlock.{
  AgentMessage, DeadlockDetector, init, neighbors, track_request, drop_dependency,
  resolve_dependency, drop_all, expired_ids, clean_expired, report,
}
use ai_agent_code.Agents.Deadlock.Pending.{
  AreEdges, IsJustified, track_request-IsJustified, drop_dependency-IsJustified,
}
use ai_agent_code.Agents.Deadlock.Valid.{IsValid, report-IsValid}

drop_dependency-IsValid :
    (d : DeadlockDetector) (id : String) → IsValid d → IsValid (drop_dependency d id)
unfolding IsValid drop_dependency
drop_dependency-IsValid d id (u, j) = (
  elim (Option-cases (Dict.lookup id d.dependencies)) [
    | inl e ↦ rw (drop_dependency, e) u
    | inr (dep, e) ↦ rw (drop_dependency, e) (erase-AreUnique id d.dependencies u)
  ],
  drop_dependency-IsJustified d id j,
)

drop_all-IsValid : (d : DeadlockDetector) (ids : List String) → IsValid d → IsValid (drop_all d ids)
unfolding drop_all
drop_all-IsValid d [] v = v
drop_all-IsValid d (id ∷ ids) v =
    drop_all-IsValid (drop_dependency d id) ids (drop_dependency-IsValid d id v)

resolve_dependency-IsValid :
    (d : DeadlockDetector) (m : AgentMessage) → IsValid d → IsValid (resolve_dependency d m)
unfolding resolve_dependency
resolve_dependency-IsValid d m v = elim (Option-cases m.correlation_id) [
  | inl e ↦ rw (resolve_dependency, e) v
  | inr (id, e) ↦ elim (Bool-cases (id ≟ "")) [
    | inl b ↦ rw (resolve_dependency, e, b) v
    | inr b ↦ rw (resolve_dependency, e, b) (drop_dependency-IsValid d id v)
  ]
]

track_request-IsValid :
    (d : DeadlockDetector) (m : AgentMessage) (now : ℕ)
    → Dict.lookup m.msg_id d.dependencies ≡ none
    → IsValid d
    → IsValid (track_request d m now)
unfolding IsValid track_request
track_request-IsValid d m now n (u, j) = (
  elim (Bool-cases (m.msg_type ≟ "request")) [
    | inl r ↦ rw (track_request, r) (insert-AreUnique m.msg_id _ d.dependencies u)
    | inr r ↦ rw (track_request, r) u
  ],
  track_request-IsJustified d m now n j,
)

-- A call of the detector, or what its loop does in a round: the dependencies of an age are cleaned
-- up, and some cycles are reported.
pub data Call : Type 0 where
  tracks : AgentMessage → ℕ → Call
  resolves : AgentMessage → Call
  cleans : ℕ → Call
  reports : List (List String) → Call

unfoldable pub step : DeadlockDetector → Call → DeadlockDetector
unfolding track_request resolve_dependency clean_expired report
step d (tracks m now) = track_request d m now
step d (resolves m) = resolve_dependency d m
step d (cleans now) = clean_expired d now
step d (reports cycles) = report d cycles

unfoldable pub run : DeadlockDetector → List Call → DeadlockDetector
unfolding step
run d [] = d
run d (c ∷ cs) = run (step d c) cs

-- No request is tracked under the identifier of one that is pending.
unfoldable pub IsFresh : DeadlockDetector → Call → Type 0
IsFresh d (tracks m now) = Dict.lookup m.msg_id d.dependencies ≡ none
IsFresh d (resolves m) = Unit
IsFresh d (cleans now) = Unit
IsFresh d (reports cycles) = Unit

unfoldable pub AreFresh : DeadlockDetector → List Call → Type 0
AreFresh d [] = Unit
AreFresh d (c ∷ cs) = IsFresh d c × AreFresh (step d c) cs

pub init-IsValid : (auto_resolve : Bool) → IsValid (init auto_resolve)
unfolding IsValid init IsJustified AreEdges AreUnique neighbors
init-IsValid auto_resolve = (tt, λ a b e. absurd (cc))

pub step-IsValid : (d : DeadlockDetector) (c : Call) → IsFresh d c → IsValid d → IsValid (step d c)
unfolding step IsFresh clean_expired
step-IsValid d (tracks m now) f v = track_request-IsValid d m now f v
step-IsValid d (resolves m) f v = resolve_dependency-IsValid d m v
step-IsValid d (cleans now) f v = drop_all-IsValid d (expired_ids now d.dependencies) v
step-IsValid d (reports cycles) f v = report-IsValid d cycles v

pub run_calls-IsValid :
    (d : DeadlockDetector) (cs : List Call) → AreFresh d cs → IsValid d → IsValid (run d cs)
unfolding run AreFresh
run_calls-IsValid d [] f v = v
run_calls-IsValid d (c ∷ cs) f v = run_calls-IsValid (step d c) cs f.1 (step-IsValid d c f.0 v)

-- Whenever no request is tracked under the identifier of one that is pending, after any calls each
-- edge of the graph that is searched for cycles is that of a pending request: answered, expired and
-- cancelled requests leave no edge behind.
pub run-IsJustified :
    (auto_resolve : Bool) (cs : List Call)
    → AreFresh (init auto_resolve) cs
    → IsJustified (run (init auto_resolve) cs)
unfolding IsValid
run-IsJustified auto_resolve cs f =
    (run_calls-IsValid (init auto_resolve) cs f (init-IsValid auto_resolve)).1
