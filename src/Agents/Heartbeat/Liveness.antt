-- ===== src/Agents/Heartbeat/Liveness.antt =====
-- src/agents/communication/heartbeat.py: which agents count as alive.
use ai_agent_code.Common.Dict
use ai_agent_code.Common.Dict.{Dict}
use ai_agent_code.Common.{
  ℕ, suc, ◌≡◌, inl, inr, refl, sym, ap, ◌∙◌, Bool, true, false, Option, none, some, List, [], ◌∷◌,
  ◌++◌, arith, String, if◌then◌else◌, ◌≟◌, Bool-cases, Option-cases, string_key, nat_key,
}
use ai_agent_code.Agents.Heartbeat.{
  AgentHealth, HeartbeatMonitor, Event, answered, silent, check_agent,
}

-- The check of one agent, given its answer.
unfoldable pub check : ℕ → AgentHealth → Option ℕ → AgentHealth × List Event
unfolding answered silent
check max_missed h none = silent max_missed h
check max_missed h (some now) = answered h now

-- The checks of one agent, the oldest first.
unfoldable pub watch : ℕ → AgentHealth → List (Option ℕ) → AgentHealth × List Event
unfolding check
watch max_missed h [] = (h, [])
watch max_missed h (a ∷ later) =
    let (h', events) = check max_missed h a in
    let (h'', more) = watch max_missed h' later in (h'', events ++ more)

-- The checks of a monitor, of any agents in any order.
unfoldable pub checks : HeartbeatMonitor → List (String × Option ℕ) → HeartbeatMonitor × List Event
checks m [] = (m, [])
checks m ((name, a) ∷ cs) =
    let (m', events) = check_agent m name a in
    let (m'', more) = checks m' cs in (m'', events ++ more)

unfoldable pub answers_of : String → List (String × Option ℕ) → List (Option ℕ)
answers_of name [] = []
answers_of name ((k, a) ∷ cs) = if name ≟ k then a ∷ answers_of name cs else answers_of name cs

-- Whether there was an answer, and how many checks went without one since the last.
pub has_answered : Bool → List (Option ℕ) → Bool
has_answered b [] = b
has_answered b (none ∷ later) = has_answered b later
has_answered b (some now ∷ later) = has_answered true later

pub misses : ℕ → List (Option ℕ) → ℕ
misses n [] = n
misses n (none ∷ later) = misses (suc n) later
misses n (some now ∷ later) = misses 0 later

check_agent_other :
    (m : HeartbeatMonitor) (name k : String) (a : Option ℕ)
    → (name ≟ k) ≡ false
    → Dict.lookup name (check_agent m k a).0.agents ≡ Dict.lookup name m.agents
unfolding check_agent
check_agent_other m name k a e = elim (Option-cases (Dict.lookup k m.agents)) [
  | inl l ↦ rw (check_agent, l) refl
  | inr (h, l) ↦ rw (check_agent, l) (rw (Dict.lookup-insert name k _ m.agents, e) refl)
]

check_agent_self :
    (m : HeartbeatMonitor) (k : String) (h : AgentHealth) (a : Option ℕ)
    → Dict.lookup k m.agents ≡ some h
    → Dict.lookup k (check_agent m k a).0.agents ≡ some (check m.max_missed h a).0
unfolding check_agent check
check_agent_self m k h none l = rw (check_agent, l) (Dict.lookup-insert_self k _ m.agents)
check_agent_self m k h (some now) l = rw (check_agent, l) (Dict.lookup-insert_self k _ m.agents)

check_agent-max_missed :
    (m : HeartbeatMonitor) (k : String) (a : Option ℕ)
    → (check_agent m k a).0.max_missed ≡ m.max_missed
unfolding check_agent
check_agent-max_missed m k a = elim (Option-cases (Dict.lookup k m.agents)) [
  | inl l ↦ rw (check_agent, l) refl
  | inr (h, l) ↦ rw (check_agent, l) refl
]

-- Whenever an agent is registered, its health after any checks of any agents is what the checks of
-- that agent alone make of it, one after the other.
pub checks-watch :
    (m : HeartbeatMonitor) (name : String) (h : AgentHealth) (cs : List (String × Option ℕ))
    → Dict.lookup name m.agents ≡ some h
    → Dict.lookup name (checks m cs).0.agents ≡ some (watch m.max_missed h (answers_of name cs)).0
unfolding checks watch answers_of
checks-watch m name h [] l = l
checks-watch m name h ((k, a) ∷ cs) l = elim (Bool-cases (name ≟ k)) [
  | inl b ↦
      let q : name ≡ k = ground (arith, string_key.same_iff name k) in
      let l' =
        ap (λ x. Dict.lookup name (check_agent m x a).0.agents) (sym q)
        ∙ check_agent_self m name h a l in
      rw b (
        checks-watch (check_agent m k a).0 name (check m.max_missed h a).0 cs l'
        ∙ ap (λ n. some (watch n (check m.max_missed h a).0 (answers_of name cs)).0)
            (check_agent-max_missed m k a))
  | inr b ↦ rw b (
      checks-watch (check_agent m k a).0 name h cs (check_agent_other m name k a b ∙ l)
      ∙ ap (λ n. some (watch n h (answers_of name cs)).0) (check_agent-max_missed m k a))
]
