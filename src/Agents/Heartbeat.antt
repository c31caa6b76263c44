-- ===== src/Agents/Heartbeat.antt =====
-- src/agents/communication/heartbeat.py: `HeartbeatMonitor`, and the health of each agent.
-- The answer of an agent, or its lack, is an argument of the check; a callback is an event in the
-- list that the check returns. The average response time is a float that nothing reads.
mod Liveness
mod Events
mod Tests
use ai_agent_code.Common.Dict
use ai_agent_code.Common.Dict.{Dict}
use ai_agent_code.Common.{
  ℕ, zero, suc, ◌+◌, ◌-◌, ◌*◌, ◌≤◌, ◌<◌, min, max, ◌≡◌, ◌≢◌, ◌⊎◌, ◌↔◌, inl, inr, refl, sym, ap, ◌∙◌,
  Bool, true, false, not, ◌&&◌, ◌||◌, Option, none, some, List, [], ◌∷◌, ◌++◌, map, reverse, arith,
  String, if◌then◌else◌, leb, ltb, ◌==◌, ◌≟◌, elem, length, drop, take, keep, count, get_last?,
  slice_last, All, Bool-cases, Option-cases, Key, string_key, nat_key,
}

pub data Status : Type 0 where
  unknown recovered healthy missed dead : Status

pub record AgentHealth : Type 0 where
  pub agent_name : String
  pub last_heartbeat : ℕ
  pub is_alive : Bool
  pub missed_heartbeats : ℕ
  pub total_messages : ℕ
  pub status : Status

pub record HeartbeatMonitor : Type 0 where
  pub max_missed : ℕ
  pub agents : Dict String AgentHealth

pub data Event : Type 0 where
  death recovery : String → Event

abbrev pub fresh_health : String → AgentHealth
fresh_health name = record {
  agent_name = name;
  last_heartbeat = 0;
  is_alive = false;
  missed_heartbeats = 0;
  total_messages = 0;
  status = unknown;
}

-- `__init__`
pub init : ℕ → HeartbeatMonitor
init max_missed = record { max_missed = max_missed; agents = [] }

-- `register_agent`
pub register_agent : HeartbeatMonitor → String → HeartbeatMonitor
register_agent m name =
    if Dict.contains name m.agents
    then m
    else record m { agents = Dict.insert name (fresh_health name) m.agents }

-- `unregister_agent`
pub unregister_agent : HeartbeatMonitor → String → HeartbeatMonitor
unregister_agent m name = record m { agents = Dict.erase name m.agents }

-- The agent answered, at a time.
pub answered : AgentHealth → ℕ → AgentHealth × List Event
answered h now = (
  record h {
    last_heartbeat = now;
    total_messages = h.total_messages + 1;
    is_alive = true;
    missed_heartbeats = 0;
    status = healthy;
  },
  if h.is_alive then [] else recovery h.agent_name ∷ [],
)

-- The agent did not answer.
pub silent : ℕ → AgentHealth → AgentHealth × List Event
silent max_missed h =
    let h' = record h { missed_heartbeats = h.missed_heartbeats + 1; status = missed } in
    if leb max_missed h'.missed_heartbeats && h.is_alive
    then (record h' { is_alive = false; status = dead }, death h.agent_name ∷ [])
    else (h', [])

-- `_check_agent`: an answer is the time of it.
pub check_agent : HeartbeatMonitor → String → Option ℕ → HeartbeatMonitor × List Event
unfolding answered silent
check_agent m name answer = elim (Dict.lookup name m.agents) [
  | none ↦ (m, [])
  | some h ↦
      let r : AgentHealth × List Event = elim answer [
        | none ↦ silent m.max_missed h
        | some now ↦ answered h now
      ] in
      (record m { agents = Dict.insert name r.0 m.agents }, r.1)
]

-- A round of `_monitor_loop` over the names that it starts with, with the answer of each.
pub monitor_round :
    (String → Option ℕ) → HeartbeatMonitor → List String → HeartbeatMonitor × List Event
unfolding check_agent
monitor_round answers m [] = (m, [])
monitor_round answers m (name ∷ names) =
    let (m', events) = check_agent m name (answers name) in
    let (m'', later) = monitor_round answers m' names in (m'', events ++ later)

names_where : Bool → Dict String AgentHealth → List String
names_where alive [] = []
names_where alive ((name, h) ∷ d) =
    if (if h.is_alive then alive else not alive)
    then name ∷ names_where alive d
    else names_where alive d

-- `get_alive_agents`
pub get_alive_agents : HeartbeatMonitor → List String
unfolding names_where
get_alive_agents m = names_where true m.agents

-- `get_dead_agents`
pub get_dead_agents : HeartbeatMonitor → List String
unfolding names_where
get_dead_agents m = names_where false m.agents
