-- ===== src/Agents/Deadlock.antt =====
-- src/agents/communication/deadlock.py: `DeadlockDetector`, who waits on whom and the cycles of it.
-- A set is a list in which a name stands once, and is read in the order in which the names came. The
-- clock is an argument in whole units; the callback is the list of cycles that a round returns. In the
-- search the `path` is an argument, since a call takes its name off again, and `stack` is the set of
-- its names.
mod Graph
mod Cycles
mod Returns
mod Enough
mod Order
mod Complete
mod Edges
mod Pending
mod Valid
mod Runs
mod Expiry
mod Detection
mod Tests
use ai_agent_code.Common.Dict
use ai_agent_code.Common.Dict.{Dict}
use ai_agent_code.Common.{
  ℕ, ℤ, pos, negsuc, diff, zero, suc, ◌+◌, ◌-◌, ◌*◌, ◌/◌, ◌≤◌, ◌<◌, min, max, ◌≡◌, ◌≢◌, ◌⊎◌, ◌↔◌,
  inl, inr, refl, sym, ap, ◌∙◌, Bool, true, false, not, ◌&&◌, ◌||◌, Option, none, some, List, [],
  ◌∷◌, ◌++◌, map, reverse, arith, String, if◌then◌else◌, leb, ltb, ◌==◌, ◌≟◌, elem, length, drop,
  take, keep, count, get_last?, slice_last, All, Bool-cases, Option-cases, Key, string_key, nat_key,
}

pub record DependencyEdge : Type 0 where
  pub from_agent : String
  pub to_agent : String
  pub started_at : ℕ
  pub request_id : String
  pub timeout : ℕ

-- What the detector reads of an `AgentMessage`.
pub record AgentMessage : Type 0 where
  pub msg_id : String
  pub correlation_id : Option String
  pub msg_type : String
  pub sender : String
  pub receiver : String
  pub ttl : ℕ

abbrev pub Graph : Type 0
Graph = Dict String (List String)

pub record DeadlockDetector : Type 0 where
  pub auto_resolve : Bool
  pub dependencies : Dict String DependencyEdge
  pub agent_waiting_on : Graph
  pub deadlock_count : ℕ
  pub resolved_count : ℕ

-- `__init__`
pub init : Bool → DeadlockDetector
init auto_resolve = record {
  auto_resolve = auto_resolve;
  dependencies = [];
  agent_waiting_on = [];
  deadlock_count = 0;
  resolved_count = 0;
}

-- `_agent_waiting_on.get(agent, set())`
pub neighbors : Graph → String → List String
neighbors g agent = elim (Dict.lookup agent g) [ none ↦ [] | some s ↦ s ]

-- `_agent_waiting_on[agent].add(other)`
pub add_edge : Graph → String → String → Graph
unfolding neighbors
add_edge g agent other =
    let s = neighbors g agent in Dict.insert agent (if elem other s then s else s ++ other ∷ []) g

-- `_agent_waiting_on[agent].discard(other)`, and the agent goes with its last edge.
pub discard_edge : Graph → String → String → Graph
unfolding neighbors
discard_edge g agent other =
    let s = keep (λ x. not (x ≟ other)) (neighbors g agent) in
    if length s == 0 then Dict.erase agent g else Dict.insert agent s g

-- `track_request`
pub track_request : DeadlockDetector → AgentMessage → ℕ → DeadlockDetector
unfolding add_edge
track_request d m now = if not (m.msg_type ≟ "request") then d else record d {
  dependencies =
      Dict.insert m.msg_id
        (record {
          from_agent = m.sender;
          to_agent = m.receiver;
          started_at = now;
          request_id = m.msg_id;
          timeout = m.ttl;
        })
        d.dependencies;
  agent_waiting_on = add_edge d.agent_waiting_on m.sender m.receiver;
}

-- A dependency is popped, if it is there, and its edge discarded.
pub drop_dependency : DeadlockDetector → String → DeadlockDetector
unfolding discard_edge
drop_dependency d id = elim (Dict.lookup id d.dependencies) [
  | none ↦ d
  | some dep ↦ record d {
    dependencies = Dict.erase id d.dependencies;
    agent_waiting_on = discard_edge d.agent_waiting_on dep.from_agent dep.to_agent;
  }
]

-- `resolve_dependency`
pub resolve_dependency : DeadlockDetector → AgentMessage → DeadlockDetector
unfolding drop_dependency
resolve_dependency d m = elim m.correlation_id [
  | none ↦ d
  | some id ↦ if id ≟ "" then d else drop_dependency d id
]

-- `now - started_at > timeout`
pub is_expired : ℕ → DependencyEdge → Bool
is_expired now dep = ltb (dep.started_at + dep.timeout) now

expired_ids : ℕ → Dict String DependencyEdge → List String
unfolding is_expired
expired_ids now [] = []
expired_ids now ((id, dep) ∷ deps) =
    if is_expired now dep then id ∷ expired_ids now deps else expired_ids now deps

pub drop_all : DeadlockDetector → List String → DeadlockDetector
unfolding drop_dependency
drop_all d [] = d
drop_all d (id ∷ ids) = drop_all (drop_dependency d id) ids

-- `_clean_expired`
pub clean_expired : DeadlockDetector → ℕ → DeadlockDetector
unfolding drop_all expired_ids
clean_expired d now = drop_all d (expired_ids now d.dependencies)

-- `path[path.index(agent):]`
pub from_first : String → List String → List String
from_first agent [] = []
from_first agent (x ∷ xs) = if x ≟ agent then x ∷ xs else from_first agent xs

-- What the search has seen.
pub record Search : Type 0 where
  pub visited : List String
  pub cycles : List (List String)

-- `dfs` of each of some agents in turn, on a path; the depth runs on fuel.
pub dfs : ℕ → Graph → List String → List String → Search → Option Search
unfolding neighbors from_first
dfs fuel g path [] s = some s
dfs zero g path (agent ∷ agents) s = none
dfs (suc fuel) g path (agent ∷ agents) s =
    let found = record s { cycles = s.cycles ++ (from_first agent path ++ agent ∷ []) ∷ [] } in
    let deeper =
      dfs fuel g (path ++ agent ∷ []) (neighbors g agent)
        (record s { visited = s.visited ++ agent ∷ [] }) in
    let here : Option Search =
      if elem agent path then some found else if elem agent s.visited then some s else deeper in
    elim here [ none ↦ none | some s' ↦ dfs (suc fuel) g path agents s' ]

pub keys : Graph → List String
keys [] = []
keys ((k, s) ∷ g) = k ∷ keys g

-- `_find_cycles`
pub find_cycles : ℕ → Graph → Option (List (List String))
unfolding dfs keys
find_cycles fuel g = elim (dfs fuel g [] (keys g) (record { visited = []; cycles = [] })) [
  | none ↦ none
  | some s ↦ some s.cycles
]

-- The dependency of a cycle with the least start, the first of several.
pub oldest : List String → Dict String DependencyEdge → Option (String × DependencyEdge)
oldest cycle [] = none
oldest cycle ((id, dep) ∷ deps) =
    let rest = oldest cycle deps in
    if elem dep.from_agent cycle && elem dep.to_agent cycle
    then elim rest [
      | none ↦ some (id, dep)
      | some (j, other) ↦
          if ltb other.started_at dep.started_at then some (j, other) else some (id, dep)
    ]
    else rest

-- `_resolve_cycle`
pub resolve_cycle : DeadlockDetector → List String → DeadlockDetector
unfolding oldest discard_edge
resolve_cycle d cycle = elim (oldest cycle d.dependencies) [
  | none ↦ d
  | some (id, dep) ↦ record d {
    dependencies = Dict.erase id d.dependencies;
    agent_waiting_on =
        (if Dict.contains dep.from_agent d.agent_waiting_on
          then discard_edge d.agent_waiting_on dep.from_agent dep.to_agent
          else d.agent_waiting_on);
    resolved_count = d.resolved_count + 1;
  }
]

-- The loop of `_detect_loop` over the cycles.
pub report : DeadlockDetector → List (List String) → DeadlockDetector
unfolding resolve_cycle
report d [] = d
report d (cycle ∷ cycles) =
    let d' = record d { deadlock_count = d.deadlock_count + 1 } in
    report (if d.auto_resolve then resolve_cycle d' cycle else d') cycles

-- A round of `_detect_loop`: the detector and the cycles that it reports.
pub detect : ℕ → DeadlockDetector → ℕ → Option (DeadlockDetector × List (List String))
unfolding clean_expired find_cycles report
detect fuel d now =
    let cleaned = clean_expired d now in
    elim (find_cycles fuel cleaned.agent_waiting_on) [
      | none ↦ none
      | some cycles ↦ some (report cleaned cycles, cycles)
    ]
