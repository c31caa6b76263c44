-- ===== src/Agents/Heartbeat/Events.antt =====
-- src/agents/communication/heartbeat.py: the deaths and recoveries that are reported.
use ai_agent_code.Common.{
  ℕ, suc, ◌+◌, ◌≡◌, refl, Option, none, some, List, [], ◌∷◌, ◌++◌, arith, if◌then◌else◌, string_key,
  nat_key,
}
use ai_agent_code.Agents.Heartbeat.{AgentHealth, Event, death, recovery, answered, silent}
use ai_agent_code.Agents.Heartbeat.Liveness.{check, watch}

-- An agent's events: one recovery more than deaths while it is alive.
pub recoveries : List Event → ℕ
recoveries [] = 0
recoveries (recovery name ∷ es) = suc (recoveries es)
recoveries (death name ∷ es) = recoveries es

pub deaths : List Event → ℕ
deaths [] = 0
deaths (recovery name ∷ es) = deaths es
deaths (death name ∷ es) = suc (deaths es)

recoveries-append : (xs ys : List Event) → recoveries (xs ++ ys) ≡ recoveries xs + recoveries ys
unfolding recoveries
recoveries-append [] ys = omega arith
recoveries-append (recovery name ∷ xs) ys = omega (arith, recoveries-append xs ys)
recoveries-append (death name ∷ xs) ys = recoveries-append xs ys

deaths-append : (xs ys : List Event) → deaths (xs ++ ys) ≡ deaths xs + deaths ys
unfolding deaths
deaths-append [] ys = omega arith
deaths-append (recovery name ∷ xs) ys = deaths-append xs ys
deaths-append (death name ∷ xs) ys = omega (arith, deaths-append xs ys)

-- Whether an agent is alive, as a number.
unfoldable pub life : AgentHealth → ℕ
life h = if h.is_alive then 1 else 0

check-life :
    (n : ℕ) (h : AgentHealth) (a : Option ℕ)
    → recoveries (check n h a).1 + life h ≡ deaths (check n h a).1 + life (check n h a).0
unfolding check recoveries deaths life answered silent
check-life n h none = ground arith
check-life n h (some now) = ground arith

-- Deaths and recoveries of an agent are reported in turn: after any checks there was one recovery for
-- each death, and one more when the agent came to life in between, one less when it died.
pub watch-life :
    (n : ℕ) (h : AgentHealth) (later : List (Option ℕ))
    → recoveries (watch n h later).1 + life h
      ≡ deaths (watch n h later).1 + life (watch n h later).0
unfolding watch
watch-life n h [] = unfold recoveries in unfold deaths in refl
watch-life n h (a ∷ later) =
    let c = check n h a in
    let w = watch n c.0 later in
    omega (
      arith,
      check-life n h a,
      watch-life n c.0 later,
      recoveries-append c.1 w.1,
      deaths-append c.1 w.1,
    )
