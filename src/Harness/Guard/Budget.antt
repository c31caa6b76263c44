-- ===== src/Harness/Guard/Budget.antt =====
-- src/harness/guard.py: an agent that is not stopped stays within its budgets.
use ai_agent_code.Common.{
  ℕ, ◌+◌, ◌≤◌, ◌≡◌, ◌⊎◌, inl, inr, refl, sym, ap, ◌∙◌, Bool, true, false, ◌&&◌, List, [], ◌∷◌,
  arith, String, ltb, elem, All, Bool-cases, string_key, nat_key,
}
use ai_agent_code.Agents.Safety as Safety
use ai_agent_code.Agents.Safety.{SafetyGuard}
use ai_agent_code.Agents.Safety.Limits as Limits
use ai_agent_code.Agents.Safety.Limits.{SameLimits}
use ai_agent_code.Harness.Guard.{
  HarnessConfig, Harness, init, check_step, check_loop, check_tool, track_tokens, track_cost, reset,
  Call, steps, loops, tools, uses, costs, resets, step, run,
}

-- What an agent has used since the last reset: its tokens and its costs.
pub used : ℕ × ℕ → Call → ℕ × ℕ
used (t, c) (steps n) = (t, c)
used (t, c) (loops actions) = (t, c)
used (t, c) (tools tool) = (t, c)
used (t, c) (uses input output) = (t + (input + output), c)
used (t, c) (costs cost) = (t, c + cost)
used (t, c) resets = (0, 0)

pub used_all : ℕ × ℕ → List Call → ℕ × ℕ
used_all u [] = u
used_all u (c ∷ cs) = used_all (used u c) cs

-- An amount is within a limit, of which 0 is none.
pub Within : ℕ → ℕ → Type 0
Within limit amount = (limit ≡ 0) ⊎ (amount ≤ limit)

-- What the harness has counted, and that it is within its limits.
record Counts (config : HarnessConfig) (u : ℕ × ℕ) (h : Harness) : Type 0 where
  same : h.config ≡ config
  tokens : h.cumulative_tokens ≡ u.0
  cost : h.cumulative_cost ≡ u.1
  tokens_within : Within config.max_tokens u.0
  cost_within : Within config.max_cost_usd u.1
  steps_limit : h.safety.max_steps ≡ config.max_steps
  blocked : h.safety.blocked_tools ≡ config.blocked_tools

-- What a configuration lets a call do.
pub Allowed : HarnessConfig → Call → Type 0
Allowed config (steps n) = n ≤ config.max_steps
Allowed config (loops actions) = Unit
Allowed config (tools tool) =
    (elem tool config.require_approval_for ≡ false) × (elem tool config.blocked_tools ≡ false)
Allowed config (uses input output) = Unit
Allowed config (costs cost) = Unit
Allowed config resets = Unit

Within-test : (limit n : ℕ) → (ltb 0 limit && ltb limit n) ≡ false → Within limit n
unfolding Within
Within-test limit n e = elim (Bool-cases (ltb 0 limit)) [
  | inl b ↦ inr (ground arith)
  | inr b ↦ inl (ground arith)
]

check_tool-same :
    (h : Harness) (tool : String)
    → let h' = (check_tool h tool).0 in
      (h'.config ≡ h.config)
      × (h'.cumulative_tokens ≡ h.cumulative_tokens)
      × (h'.cumulative_cost ≡ h.cumulative_cost)
unfolding check_tool
check_tool-same h tool = ground arith

check_tool-SameLimits :
    (h : Harness) (tool : String) → SameLimits h.safety (check_tool h tool).0.safety
unfolding check_tool
check_tool-SameLimits h tool =
    let l = Limits.check_tool_permission-SameLimits h.safety tool in
    elim (Bool-cases (elem tool h.config.require_approval_for)) [
      | inl e ↦ rw e (record { steps = refl; blocked = refl })
      | inr e ↦ rw e l
    ]

check_tool-passed :
    (h : Harness) (tool : String)
    → (check_tool h tool).1 ≡ true
    → (elem tool h.config.require_approval_for ≡ false)
      × ((Safety.check_tool_permission h.safety tool).1 ≡ true)
unfolding check_tool
check_tool-passed h tool e = ground arith

module _ (clip : String → String) where
  step-Counts :
      (config : HarnessConfig) (u : ℕ × ℕ) (h : Harness) (c : Call)
      → Counts config u h
      → (step clip h c).1 ≡ false
      → Counts config (used u c) (step clip h c).0
  unfolding step used check_step check_loop track_tokens track_cost reset
  step-Counts config u h (steps n) k e = record {
    same = k.same;
    tokens = k.tokens;
    cost = k.cost;
    tokens_within = k.tokens_within;
    cost_within = k.cost_within;
    steps_limit = (Limits.check_steps-SameLimits h.safety n).steps ∙ k.steps_limit;
    blocked = (Limits.check_steps-SameLimits h.safety n).blocked ∙ k.blocked;
  }
  step-Counts config u h (loops actions) k e = record {
    same = k.same;
    tokens = k.tokens;
    cost = k.cost;
    tokens_within = k.tokens_within;
    cost_within = k.cost_within;
    steps_limit = (Limits.detect_loop-SameLimits clip h.safety actions).steps ∙ k.steps_limit;
    blocked = (Limits.detect_loop-SameLimits clip h.safety actions).blocked ∙ k.blocked;
  }
  step-Counts config u h (tools tool) k e =
      let s = check_tool-same h tool in
      record {
        same = s.0 ∙ k.same;
        tokens = s.1 ∙ k.tokens;
        cost = s.2 ∙ k.cost;
        tokens_within = k.tokens_within;
        cost_within = k.cost_within;
        steps_limit = (check_tool-SameLimits h tool).steps ∙ k.steps_limit;
        blocked = (check_tool-SameLimits h tool).blocked ∙ k.blocked;
      }
  step-Counts config u h (uses input output) k e =
      let t : h.cumulative_tokens + (input + output) ≡ u.0 + (input + output) =
        omega (arith, k.tokens) in
      record {
        same = k.same;
        tokens = t;
        cost = k.cost;
        tokens_within = rw (sym t, sym k.same) (Within-test h.config.max_tokens _ e);
        cost_within = k.cost_within;
        steps_limit = (Limits.track_tokens-SameLimits h.safety input output).steps ∙ k.steps_limit;
        blocked = (Limits.track_tokens-SameLimits h.safety input output).blocked ∙ k.blocked;
      }
  step-Counts config u h (costs cost) k e =
      let t : h.cumulative_cost + cost ≡ u.1 + cost = omega (arith, k.cost) in
      record {
        same = k.same;
        tokens = k.tokens;
        cost = t;
        tokens_within = k.tokens_within;
        cost_within = rw (sym t, sym k.same) (Within-test h.config.max_cost_usd _ e);
        steps_limit = k.steps_limit;
        blocked = k.blocked;
      }
  step-Counts config u h resets k e = record {
    same = k.same;
    tokens = refl;
    cost = refl;
    tokens_within = unfold Within in inr (omega arith);
    cost_within = unfold Within in inr (omega arith);
    steps_limit = (Limits.reset-SameLimits h.safety).steps ∙ k.steps_limit;
    blocked = (Limits.reset-SameLimits h.safety).blocked ∙ k.blocked;
  }

  step-Allowed :
      (config : HarnessConfig) (u : ℕ × ℕ) (h : Harness) (c : Call)
      → Counts config u h
      → (step clip h c).1 ≡ false
      → Allowed config c
  unfolding step Allowed check_step
  step-Allowed config u h (steps n) k e =
      let p : (Safety.check_steps h.safety n).1 ≡ true = ground arith in
      let le = Limits.check_steps-passed h.safety n p in omega (arith, k.steps_limit)
  step-Allowed config u h (loops actions) k e = tt
  step-Allowed config u h (tools tool) k e =
      let p = check_tool-passed h tool (ground arith) in
      (
        rw (sym k.same) p.0,
        rw (sym k.blocked) (Limits.check_tool_permission-passed h.safety tool p.1),
      )
  step-Allowed config u h (uses input output) k e = tt
  step-Allowed config u h (costs cost) k e = tt
  step-Allowed config u h resets k e = tt

  run-stopped :
      (h : Harness) (c : Call) (cs : List Call)
      → (step clip h c).1 ≡ true
      → (run clip h (c ∷ cs)).1 ≡ true
  unfolding run
  run-stopped h c cs b = ground arith

  run-on :
      (h : Harness) (c : Call) (cs : List Call)
      → (step clip h c).1 ≡ false
      → run clip h (c ∷ cs) ≡ run clip (step clip h c).0 cs
  unfolding run
  run-on h c cs b = ground arith

  init-Counts : (config : HarnessConfig) → Counts config (0, 0) (init config)
  unfolding init Within
  init-Counts config = record {
    same = refl;
    tokens = refl;
    cost = refl;
    tokens_within = inr (omega arith);
    cost_within = inr (omega arith);
    steps_limit =
        (Limits.init-limits config.max_steps config.loop_threshold _ config.blocked_tools).0;
    blocked = (Limits.init-limits config.max_steps config.loop_threshold _ config.blocked_tools).1;
  }

  run_keeps :
      (config : HarnessConfig) (u : ℕ × ℕ) (h : Harness) (cs : List Call)
      → Counts config u h
      → (run clip h cs).1 ≡ false
      → Counts config (used_all u cs) (run clip h cs).0 × All (Allowed config) cs
  unfolding run used_all
  run_keeps config u h [] k e = (k, tt)
  run_keeps config u h (c ∷ cs) k e = elim (Bool-cases (step clip h c).1) [
    | inl b ↦ absurd (let q : true ≡ false = rw⁻¹ (run-stopped h c cs b) e in cc)
    | inr b ↦
        let next = step-Counts config u h c k b in
        let rest =
          run_keeps config (used u c) (step clip h c).0 cs next
            (sym (ap (λ (r : Harness × Bool). r.1) (run-on h c cs b)) ∙ e) in
        rw (run-on h c cs b) (rest.0, (step-Allowed config u h c k b, rest.1))
  ]

  -- An agent whose calls are never stopped has made no step beyond `max_steps` and used no tool that
  -- is blocked or needs an approval, and its tokens and costs since the last reset are those counted
  -- and are within `max_tokens` and `max_cost_usd`, of which 0 sets no limit.
  pub run-Within :
      (config : HarnessConfig) (cs : List Call)
      → let (h, stopped) = run clip (init config) cs in
        let u = used_all (0, 0) cs in
        stopped ≡ false
        → All (Allowed config) cs
          × (h.cumulative_tokens ≡ u.0)
          × (h.cumulative_cost ≡ u.1)
          × Within config.max_tokens u.0
          × Within config.max_cost_usd u.1
  run-Within config cs e =
      let k = run_keeps config (0, 0) (init config) cs (init-Counts config) e in
      (k.1, k.0.tokens, k.0.cost, k.0.tokens_within, k.0.cost_within)
